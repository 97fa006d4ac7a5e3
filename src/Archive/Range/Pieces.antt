-- ===== src/Archive/Range/Pieces.antt =====
-- A part of a list that is cut into blocks, piece by piece.
use rasen_archive.Prelude.{ℕ, zero, suc, ◌+◌, ◌-◌, ◌<◌, ◌≤◌, max, min, ◌≡◌, refl, ap, sym, ◌∙◌}
use rasen_archive.Prelude.{List, [], ◌∷◌, ◌++◌, length, length-drop, take, drop, arith}

module _ {A : Type 0} where
  pub take_nothing : (n : ℕ) → take {A = A} n [] ≡ []
  take_nothing zero = refl
  take_nothing (suc n) = refl

  pub drop_nothing : (n : ℕ) → drop {A = A} n [] ≡ []
  drop_nothing zero = refl
  drop_nothing (suc n) = refl

  pub take_enough : (xs : List A) (n m : ℕ) → length xs ≤ n → length xs ≤ m → take n xs ≡ take m xs
  take_enough [] n m p q = take_nothing n ∙ sym (take_nothing m)
  take_enough (x ∷ xs) zero m p q = absurd (omega arith)
  take_enough (x ∷ xs) (suc n) zero p q = absurd (omega arith)
  take_enough (x ∷ xs) (suc n) (suc m) p q =
      ap (λ t. x ∷ t) (take_enough xs n m (omega arith) (omega arith))

  pub drop-append :
      (xs ys : List A) (j : ℕ) → drop j (xs ++ ys) ≡ drop j xs ++ drop (j - length xs) ys
  drop-append [] ys j = let e : j - 0 ≡ j = omega arith in rw (drop_nothing j, e) refl
  drop-append (x ∷ xs) ys zero = let e : 0 - suc (length xs) ≡ 0 = omega arith in rw e refl
  drop-append (x ∷ xs) ys (suc j) =
      let e : suc j - suc (length xs) ≡ j - length xs = omega arith in rw e (drop-append xs ys j)

  pub take-append :
      (xs ys : List A) (n : ℕ) → take n (xs ++ ys) ≡ take n xs ++ take (n - length xs) ys
  take-append [] ys n = let e : n - 0 ≡ n = omega arith in rw (take_nothing n, e) refl
  take-append (x ∷ xs) ys zero = let e : 0 - suc (length xs) ≡ 0 = omega arith in rw e refl
  take-append (x ∷ xs) ys (suc n) =
      let e : suc n - suc (length xs) ≡ n - length xs = omega arith in
      rw e (ap (λ t. x ∷ t) (take-append xs ys n))

  -- Taking no more than there is.
  pub take_clipped : (xs : List A) (n m : ℕ) → m ≡ min n (length xs) → take n xs ≡ take m xs
  take_clipped [] n m e = take_nothing n ∙ sym (take_nothing m)
  take_clipped (x ∷ xs) zero zero e = refl
  take_clipped (x ∷ xs) zero (suc m) e = absurd (omega (arith, e))
  take_clipped (x ∷ xs) (suc n) zero e = absurd (omega (arith, e))
  take_clipped (x ∷ xs) (suc n) (suc m) e = ap (λ t. x ∷ t) (take_clipped xs n m (omega (arith, e)))

  -- The piece of the first block, which starts at `p`, and the pieces of the rest.
  pub piece_of_first :
      (d r : List A) (offset end p : ℕ)
      → offset < end
      → p < end
      → offset ≤ p + length d
      → take (end - max offset p) (drop (offset - p) (d ++ r))
        ≡ take (min end (p + length d) - p - (max offset p - p)) (drop (max offset p - p) d)
          ++ take (end - max offset (p + length d)) (drop (offset - (p + length d)) r)
  piece_of_first d r offset end p h1 h2 h3 =
      let s : max offset p - p ≡ offset - p = omega arith in
      let front : take (end - max offset p) (drop (offset - p) d)
          ≡ take (min end (p + length d) - p - (max offset p - p)) (drop (offset - p) d) =
        take_clipped (drop (offset - p) d) _ _ (omega (arith, length-drop (offset - p) d)) in
      let rest_start : offset - p - length d ≡ offset - (p + length d) = omega arith in
      let rest_size : end - max offset p - length (drop (offset - p) d)
          ≡ end - max offset (p + length d) =
        omega (arith, length-drop (offset - p) d) in
      rw
        (
          drop-append d r (offset - p),
          take-append (drop (offset - p) d) (drop (offset - p - length d) r) (end - max offset p),
          rest_size,
          rest_start,
          front,
          s,
        )
        refl

  pub drop_past :
      (xs ys : List A) (j : ℕ) → length xs ≤ j → drop j (xs ++ ys) ≡ drop (j - length xs) ys
  drop_past [] ys j h = let e : j - 0 ≡ j = omega arith in rw e refl
  drop_past (x ∷ xs) ys zero h = absurd (omega arith)
  drop_past (x ∷ xs) ys (suc j) h =
      let e : suc j - suc (length xs) ≡ j - length xs = omega arith in
      rw e (drop_past xs ys j (omega arith))
