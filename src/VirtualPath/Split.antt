-- ===== src/VirtualPath/Split.antt =====
-- Splitting at the separators, and joining with slashes.
use rasen_archive.Prelude.{
  ℕ, ◌≡◌, refl, sym, ap, ◌∙◌, List, [], ◌∷◌, ◌++◌, append_assoc, append-nil,
}
use rasen_archive.Prelude.{Bool, false, ◌||◌, All, arith, Bool-cases, inl, inr}
use rasen_archive.Prelude.{◌==◌}
use rasen_archive.VirtualPath.{is_separator, is_empty, split, push_part, contains_nul}

abbrev pub has_separator : List ℕ → Bool
has_separator [] = false
has_separator (c ∷ cs) = is_separator c || has_separator cs

-- The parts behind `acc`, with slashes between.
abbrev pub join_from : List ℕ → List (List ℕ) → List ℕ
join_from acc [] = acc
join_from acc (q ∷ qs) = join_from (push_part acc q) qs

pub split_cons : (xs : List ℕ) → (p : List ℕ) × (ps : List (List ℕ)) × (split xs ≡ p ∷ ps)
unfolding split
split_cons [] = ([], [], refl)
split_cons (c ∷ xs) =
    let (p, ps, e) = split_cons xs in
    elim (Bool-cases (is_separator c)) [
      | inl sep ↦ ([], p ∷ ps, rw (sep, e))
      | inr plain ↦ (c ∷ p, ps, rw (plain, e))
    ]

pub split-append_slash : (xs ys : List ℕ) → split (xs ++ (47 ∷ ys)) ≡ split xs ++ split ys
unfolding split
split-append_slash [] ys = refl
split-append_slash (c ∷ xs) ys =
    let (p, ps, e) = split_cons xs in
    elim (Bool-cases (is_separator c)) [
      | inl sep ↦ rw (sep, split-append_slash xs ys)
      | inr plain ↦ rw (plain, split-append_slash xs ys, e)
    ]

-- A part with no separator is not split.
pub split_plain : (q : List ℕ) → has_separator q ≡ false → split q ≡ q ∷ []
unfolding split
split_plain [] h = refl
split_plain (c ∷ q) h = ground (arith, split_plain q)

-- No part has a separator.
pub split-plain : (xs : List ℕ) → All (λ p. has_separator p ≡ false) (split xs)
unfolding split
split-plain [] = (refl, tt)
split-plain (c ∷ xs) =
    let (p, ps, e) = split_cons xs in
    let parts : All (λ p. has_separator p ≡ false) (p ∷ ps) = rw e at (split-plain xs) in
    elim (Bool-cases (is_separator c)) [
      | inl sep ↦ rw (sep, e) (refl, parts)
      | inr plain ↦ rw (plain, e) (rw plain parts.0, parts.1)
    ]

pub split-push_part :
    (acc q : List ℕ)
    → is_empty acc ≡ false
    → has_separator q ≡ false
    → split (push_part acc q) ≡ split acc ++ (q ∷ [])
split-push_part acc q h plain = rw (h, split-append_slash acc q, split_plain q plain)

push_part-is_empty : (acc q : List ℕ) → is_empty q ≡ false → is_empty (push_part acc q) ≡ false
push_part-is_empty [] q h = h
push_part-is_empty (c ∷ acc) q h = refl

-- Splitting undoes joining.
pub split-join_from :
    (acc : List ℕ) (qs : List (List ℕ))
    → is_empty acc ≡ false
    → All (λ q. has_separator q ≡ false) qs
    → split (join_from acc qs) ≡ split acc ++ qs
split-join_from acc [] h plain = sym (append-nil (split acc))
split-join_from (c ∷ acc) (q ∷ qs) h plain =
    split-join_from (push_part (c ∷ acc) q) qs refl plain.1
    ∙ ap (λ t. t ++ qs) (split-push_part (c ∷ acc) q refl plain.0)
    ∙ append_assoc (split (c ∷ acc)) (q ∷ []) qs
split-join_from [] (q ∷ qs) h plain = cc

pub contains_nul-append :
    (xs ys : List ℕ) → contains_nul (xs ++ ys) ≡ (contains_nul xs || contains_nul ys)
unfolding contains_nul
contains_nul-append [] ys = refl
contains_nul-append (c ∷ xs) ys = ground (arith, contains_nul-append xs ys)

-- The parts of a path without a zero byte have none.
pub split-contains_nul :
    (xs : List ℕ) → contains_nul xs ≡ false → All (λ p. contains_nul p ≡ false) (split xs)
unfolding split contains_nul
split-contains_nul [] h = (refl, tt)
split-contains_nul (c ∷ xs) h =
    let (p, ps, e) = split_cons xs in
    let rest : contains_nul xs ≡ false = ground arith in
    let here : (c == 0) ≡ false = ground arith in
    let parts : All (λ p. contains_nul p ≡ false) (p ∷ ps) = rw e at (split-contains_nul xs rest) in
    elim (Bool-cases (is_separator c)) [
      | inl sep ↦ rw (sep, e) (refl, parts)
      | inr plain ↦ rw (plain, e) (rw here parts.0, parts.1)
    ]
