-- ===== src/Archive/Index.antt =====
-- The index from identifiers to entries, its construction, validation and search, of
-- crates/rasen-archive/src/archive/reader.rs.
use rasen_archive.Prelude.{ℕ, zero, suc, ◌+◌, List, [], ◌∷◌, Bool, true, false, not, ◌&&◌}
use rasen_archive.Prelude.{
  Option, some, none, if◌then◌else◌, leb, ltb, ◌==◌, bytes_eq, length, get_elem?,
}
use rasen_archive.Error.{
  Fallible, ok, panic, ◌>>=◌, ◌>>◌, guard, or_panic, too_large, hash_collision, duplicate_path,
}
use rasen_archive.Platform.{Platform, reserve}
use rasen_archive.Archive.Model.{Entry}
use rasen_archive.Archive.Limits.{hard_max_identifier_bucket_entries}

-- `entries.iter().enumerate().map(..)`, from the number `i` on.
unfoldable pub enumerate_hashes : ℕ → List Entry → List (ℕ × ℕ)
enumerate_hashes i [] = []
enumerate_hashes i (e ∷ es) = (e.path_hash, i) ∷ enumerate_hashes (i + 1) es

unfoldable pub insert_by_key : ℕ × ℕ → List (ℕ × ℕ) → List (ℕ × ℕ)
insert_by_key x [] = x ∷ []
insert_by_key x (y ∷ ys) =
    let rest = insert_by_key x ys in if leb x.0 y.0 then x ∷ y ∷ ys else y ∷ rest

-- `sort_unstable_by_key(|&(id, _)| id)`: one of the orders that it may choose for equal keys.
unfoldable pub sort_by_key : List (ℕ × ℕ) → List (ℕ × ℕ)
sort_by_key [] = []
sort_by_key (x ∷ xs) = insert_by_key x (sort_by_key xs)

-- The entries of the leading run with this identifier, and what follows the run.
unfoldable pub bucket : ℕ → List (ℕ × ℕ) → List (ℕ × ℕ)
bucket id [] = []
bucket id (x ∷ xs) = let rest = bucket id xs in if x.0 == id then x ∷ rest else []

unfoldable pub after_bucket : ℕ → List (ℕ × ℕ) → List (ℕ × ℕ)
after_bucket id [] = []
after_bucket id (x ∷ xs) = let rest = after_bucket id xs in if x.0 == id then rest else x ∷ xs

unfoldable pub contains_path : List ℕ → List (List ℕ) → Bool
contains_path path [] = false
contains_path path (p ∷ ps) =
    let rest = contains_path path ps in if bytes_eq path p then true else rest

-- The loop that inserts the paths of a bucket into a set.
unfoldable pub distinct_paths : List Entry → List (List ℕ) → List (ℕ × ℕ) → Fallible (Unit {0})
distinct_paths entries paths [] = ok tt
distinct_paths entries paths ((id, i) ∷ rest) = do
  entry ← or_panic (get_elem? entries i)
  guard (not (contains_path entry.path paths)) (duplicate_path entry.path)
  distinct_paths entries (entry.path ∷ paths) rest

-- One round of the outer loop.
unfoldable pub check_bucket : Platform → List Entry → Bool → ℕ → List (ℕ × ℕ) → Fallible (Unit {0})
check_bucket env entries paths_stripped id members = do
  guard (leb (length members) hard_max_identifier_bucket_entries)
      (too_large "identifier collision bucket")
  guard (not (paths_stripped && not (length members == 1))) (hash_collision id)
  reserve env (length members) "identifier collision bucket allocation"
  distinct_paths entries [] members

-- The outer loop on what is left of the index; each round takes at least one member off.
unfoldable pub check_buckets : Platform → ℕ → List Entry → Bool → List (ℕ × ℕ) → Fallible (Unit {0})
check_buckets env fuel entries paths_stripped [] = ok tt
check_buckets env zero entries paths_stripped (x ∷ xs) = panic
check_buckets env (suc fuel) entries paths_stripped (x ∷ xs) = do
  check_bucket env entries paths_stripped x.0 (x ∷ bucket x.0 xs)
  check_buckets env fuel entries paths_stripped (after_bucket x.0 xs)

unfoldable pub validate_index : Platform → List Entry → List (ℕ × ℕ) → Bool → Fallible (Unit {0})
validate_index env entries index paths_stripped =
    check_buckets env (length index) entries paths_stripped index

-- `partition_point` on an index that is sorted by identifier: how many come before.
unfoldable pub partition_point : (ℕ → Bool) → List (ℕ × ℕ) → ℕ
partition_point p [] = 0
partition_point p (x ∷ xs) = let rest = partition_point p xs in if p x.0 then suc rest else 0

-- `hash_range`
unfoldable pub hash_range : List (ℕ × ℕ) → ℕ → Option (ℕ × ℕ)
hash_range index asset_id =
    let start = partition_point (λ id. ltb id asset_id) index in
    let end = partition_point (λ id. leb id asset_id) index in
    if start == end then none else some (start, end)
