-- ===== src/VirtualPath.antt =====
-- crates/rasen-archive/src/path.rs: asset identifiers and path normalization. A path is its UTF-8
-- bytes; the separators and the dot are ASCII, so that splitting by bytes and by characters agree.
pub mod Split
pub mod Canonical
use rasen_archive.Prelude.{
  ℕ, zero, suc, ◌+◌, List, [], ◌∷◌, ◌++◌, Bool, true, false, not, ◌&&◌, ◌||◌,
}
use rasen_archive.Prelude.{ltb, leb, ◌==◌, if◌then◌else◌, bytes_eq, length}
use rasen_archive.Error.{Fallible, ok, err, ◌>>=◌, ◌>>◌, guard, invalid_path}
use rasen_archive.Platform.{Platform, reserve}

abbrev pub max_path_segments : ℕ
max_path_segments = 1024

abbrev pub max_path_len : ℕ
max_path_len = 65535

-- `/` and `\`.
abbrev pub is_separator : ℕ → Bool
is_separator c = c == 47 || c == 92

unfoldable pub contains_nul : List ℕ → Bool
contains_nul [] = false
contains_nul (c ∷ cs) = c == 0 || contains_nul cs

abbrev pub is_empty : List ℕ → Bool
is_empty [] = true
is_empty (c ∷ cs) = false

abbrev pub starts_with_separator : List ℕ → Bool
starts_with_separator [] = false
starts_with_separator (c ∷ cs) = is_separator c

abbrev pub cons_head : ℕ → List (List ℕ) → List (List ℕ)
cons_head c [] = (c ∷ []) ∷ []
cons_head c (p ∷ ps) = (c ∷ p) ∷ ps

-- `path.split(['/', '\\'])`: at least one part.
unfoldable pub split : List ℕ → List (List ℕ)
split [] = [] ∷ []
split (c ∷ cs) = let rest = split cs in if is_separator c then [] ∷ rest else cons_head c rest

abbrev pub dot : List ℕ
dot = 46 ∷ []

abbrev pub dot_dot : List ℕ
dot_dot = 46 ∷ 46 ∷ []

-- A slash between what is there and the part, unless nothing is there yet.
abbrev pub push_part : List ℕ → List ℕ → List ℕ
push_part normalized part = if is_empty normalized then part else normalized ++ (47 ∷ part)

-- The arms of `match part`.
pub data Part : Type 0 where
  ignored : Part
  parent : Part
  name : Part

unfoldable pub classify : List ℕ → Part
classify part =
    if is_empty part || bytes_eq part dot
    then ignored
    else if bytes_eq part dot_dot
    then parent
    else name

-- The loop over the parts.
unfoldable pub normalize_parts : ℕ → List ℕ → List (List ℕ) → Fallible (List ℕ)
normalize_parts index normalized [] = ok normalized
normalize_parts index normalized (part ∷ parts) = do
  guard (ltb index max_path_segments) invalid_path
  elim (classify part) [
    | ignored ↦ normalize_parts (index + 1) normalized parts
    | parent ↦ err invalid_path
    | name ↦ normalize_parts (index + 1) (push_part normalized part) parts
  ]

module _ (env : Platform) where
  unfoldable pub normalize_path : List ℕ → Fallible (List ℕ)
  normalize_path path = do
    guard (leb (length path) max_path_len && not (contains_nul path)) invalid_path
    guard (not (starts_with_separator path)) invalid_path
    reserve env (length path) "normalized path allocation"
    normalized ← normalize_parts 0 [] (split path)
    guard (not (is_empty normalized) && leb (length normalized) max_path_len) invalid_path
    ok normalized

  unfoldable pub normalize_lookup_path : List ℕ → Fallible (List ℕ)
  normalize_lookup_path path = normalize_path path

  unfoldable pub hash_path : List ℕ → Fallible ℕ
  hash_path path = do normalized ← normalize_path path; ok (env.xxh3_64 normalized)
