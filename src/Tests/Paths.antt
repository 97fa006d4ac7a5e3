-- ===== src/Tests/Paths.antt =====
-- Paths at concrete inputs.
use rasen_archive.Prelude.{bytes_eq, [], ◌∷◌, ◌≡◌, refl}
use rasen_archive.Error.{ok, err, invalid_path}
use rasen_archive.VirtualPath.{normalize_path, normalize_parts, split, classify, contains_nul}
use rasen_archive.VirtualPath.Canonical.{
  IsCanonical, normalize_path-IsCanonical, normalize_path_canonical, normalize_path_idem,
}
use rasen_archive.Tests.Setup.{platform}

-- "./a\b//c" becomes "a/b/c".
normalized_sample :
    normalize_path platform (46 ∷ 47 ∷ 97 ∷ 92 ∷ 98 ∷ 47 ∷ 47 ∷ 99 ∷ [])
    ≡ ok (97 ∷ 47 ∷ 98 ∷ 47 ∷ 99 ∷ [])
unfolding normalize_path normalize_parts split classify contains_nul bytes_eq
normalized_sample = refl

-- "a/.." is refused, and so is "/a".
parent_refused : normalize_path platform (97 ∷ 47 ∷ 46 ∷ 46 ∷ []) ≡ err invalid_path
unfolding normalize_path normalize_parts split classify contains_nul bytes_eq
parent_refused = refl

absolute_refused : normalize_path platform (47 ∷ 97 ∷ []) ≡ err invalid_path
unfolding normalize_path contains_nul
absolute_refused = refl

abc-IsCanonical : IsCanonical (97 ∷ 47 ∷ 98 ∷ 47 ∷ 99 ∷ [])
abc-IsCanonical =
    normalize_path-IsCanonical platform (46 ∷ 47 ∷ 97 ∷ 92 ∷ 98 ∷ 47 ∷ 47 ∷ 99 ∷ [])
      (97 ∷ 47 ∷ 98 ∷ 47 ∷ 99 ∷ []) normalized_sample

normalize_path-IsCanonical_example : IsCanonical (97 ∷ 47 ∷ 98 ∷ 47 ∷ 99 ∷ [])
normalize_path-IsCanonical_example =
    normalize_path-IsCanonical platform (46 ∷ 47 ∷ 97 ∷ 92 ∷ 98 ∷ 47 ∷ 47 ∷ 99 ∷ [])
      (97 ∷ 47 ∷ 98 ∷ 47 ∷ 99 ∷ []) normalized_sample

normalize_path_canonical_example :
    normalize_path platform (97 ∷ 47 ∷ 98 ∷ 47 ∷ 99 ∷ []) ≡ ok (97 ∷ 47 ∷ 98 ∷ 47 ∷ 99 ∷ [])
normalize_path_canonical_example =
    normalize_path_canonical platform (97 ∷ 47 ∷ 98 ∷ 47 ∷ 99 ∷ []) abc-IsCanonical refl

normalize_path_idem_example :
    normalize_path platform (97 ∷ 47 ∷ 98 ∷ 47 ∷ 99 ∷ []) ≡ ok (97 ∷ 47 ∷ 98 ∷ 47 ∷ 99 ∷ [])
normalize_path_idem_example =
    normalize_path_idem platform (46 ∷ 47 ∷ 97 ∷ 92 ∷ 98 ∷ 47 ∷ 47 ∷ 99 ∷ [])
      (97 ∷ 47 ∷ 98 ∷ 47 ∷ 99 ∷ []) normalized_sample refl
