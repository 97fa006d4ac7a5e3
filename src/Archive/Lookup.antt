-- ===== src/Archive/Lookup.antt =====
-- Finding an entry, of crates/rasen-archive/src/archive/reader.rs.
use rasen_archive.Prelude.{
  ℕ, zero, suc, ◌+◌, ◌-◌, ◌/◌, ◌%◌, List, [], ◌∷◌, ◌++◌, Bool, true, false, not,
}
use rasen_archive.Prelude.{Option, some, none, if◌then◌else◌, ltb, ◌==◌, bytes_eq, get_elem?, slice}
use rasen_archive.Error.{
  Fallible, ok, err, panic, ◌>>=◌, ok_or, or_panic, not_found, hash_collision,
}
use rasen_archive.Platform.{Platform}
use rasen_archive.VirtualPath.{normalize_lookup_path}
use rasen_archive.Archive.Model.{Archive, Entry}
use rasen_archive.Archive.Index.{hash_range}

-- `format!("{:016x}")`, digit after digit.
abbrev hex_digit : ℕ → ℕ
hex_digit d = if ltb d 10 then 48 + d else 87 + d

unfoldable pub to_hex : ℕ → ℕ → List ℕ
to_hex zero x = []
to_hex (suc n) x = to_hex n (x / 16) ++ (hex_digit (x % 16) ∷ [])

-- "hash:" and the identifier.
unfoldable pub hash_label : ℕ → List ℕ
hash_label id = 104 ∷ 97 ∷ 115 ∷ 104 ∷ 58 ∷ to_hex 16 id

-- `index[i].1`
abbrev pub index_entry : List (ℕ × ℕ) → ℕ → Fallible ℕ
index_entry index i = do member ← or_panic (get_elem? index i); ok member.1

-- `find_map` over the range: the first entry with this path.
unfoldable pub find_path : List Entry → List ℕ → List (ℕ × ℕ) → Fallible (Option ℕ)
find_path entries normalized [] = ok none
find_path entries normalized ((id, i) ∷ rest) = do
  entry ← or_panic (get_elem? entries i)
  if bytes_eq entry.path normalized then ok (some i) else find_path entries normalized rest

module _ (env : Platform) (a : Archive) where
  unfoldable pub find_entry_index_normalized : List ℕ → Fallible ℕ
  find_entry_index_normalized normalized = do
    (start, end) ← ok_or (hash_range a.index (env.xxh3_64 normalized)) (not_found normalized)
    if a.paths_stripped then index_entry a.index start else do
      range ← or_panic (slice a.index start end)
      found ← find_path a.entries normalized range
      ok_or found (not_found normalized)

  unfoldable pub find_entry_index_by_id : ℕ → Fallible ℕ
  find_entry_index_by_id asset_id = do
    (start, end) ← ok_or (hash_range a.index asset_id) (not_found (hash_label asset_id))
    if not (end - start == 1) then err (hash_collision asset_id) else index_entry a.index start

  abbrev pub entry_at : ℕ → Fallible Entry
  entry_at idx = or_panic (get_elem? a.entries idx)

  unfoldable pub entry : List ℕ → Fallible Entry
  entry path = do
    normalized ← normalize_lookup_path env path
    idx ← find_entry_index_normalized normalized
    entry_at idx

  unfoldable pub entry_by_id : ℕ → Fallible Entry
  entry_by_id asset_id = do idx ← find_entry_index_by_id asset_id; entry_at idx

  -- `match` on the result of the search
  abbrev pub is_found : Fallible ℕ → Fallible Bool
  is_found (ok idx) = ok true
  is_found (err (not_found path)) = ok false
  is_found (err e) = err e
  is_found panic = panic

  unfoldable pub try_contains : List ℕ → Fallible Bool
  try_contains path = do
    normalized ← normalize_lookup_path env path
    is_found (find_entry_index_normalized normalized)

  abbrev pub unwrap_or_false : Fallible Bool → Fallible Bool
  unwrap_or_false (ok b) = ok b
  unwrap_or_false (err e) = ok false
  unwrap_or_false panic = panic

  unfoldable pub contains : List ℕ → Fallible Bool
  contains path = unwrap_or_false (try_contains path)

  abbrev pub is_some {ℓ} : {A : Type ℓ} → Option A → Bool
  is_some none = false
  is_some (some x) = true

  unfoldable pub contains_id : ℕ → Bool
  contains_id asset_id = is_some (hash_range a.index asset_id)

  unfoldable pub contains_hash : ℕ → Bool
  contains_hash path_hash = contains_id path_hash
