-- ===== src/Prelude/Lists.antt =====
-- Lists measured and indexed by native numbers, under the library's names, and slices of them.
use Prim.Native.Nat.{ℕ, zero, suc, ◌+◌, ◌-◌, ◌≤◌, min}
use mathlib.Core.Path.{◌≡◌, refl, ap}
use mathlib.Core.List.{List, [], ◌∷◌, ◌++◌}
use mathlib.Core.Option.{Option, none, some}
use native.Mathlib.Omega.{arith}
use rasen_archive.Prelude.Tests.{leb, if◌then◌else◌}

module _ {ℓ} {A : Type ℓ} where
  abbrev pub length : List A → ℕ
  length [] = 0
  length (x ∷ xs) = suc (length xs)

  abbrev pub get_elem? : List A → ℕ → Option A
  get_elem? [] i = none
  get_elem? (x ∷ xs) zero = some x
  get_elem? (x ∷ xs) (suc i) = get_elem? xs i

  abbrev pub take : ℕ → List A → List A
  take zero xs = []
  take (suc n) [] = []
  take (suc n) (x ∷ xs) = x ∷ take n xs

  abbrev pub drop : ℕ → List A → List A
  drop zero xs = xs
  drop (suc n) [] = []
  drop (suc n) (x ∷ xs) = drop n xs

  abbrev pub replicate : ℕ → A → List A
  replicate zero a = []
  replicate (suc n) a = a ∷ replicate n a

  -- A write out of bounds changes nothing.
  abbrev pub set : List A → ℕ → A → List A
  set [] i v = []
  set (x ∷ xs) zero v = v ∷ xs
  set (x ∷ xs) (suc i) v = x ∷ set xs i v

  abbrev pub All {κ} : (A → Type κ) → List A → Type κ
  All P [] = Unit {κ}
  All P (x ∷ xs) = P x × All P xs

module _ {ℓ} {A : Type ℓ} where
  pub length-append : (xs ys : List A) → length (xs ++ ys) ≡ length xs + length ys
  length-append [] ys = omega arith
  length-append (x ∷ xs) ys = omega (arith, length-append xs ys)

  pub length-replicate : (n : ℕ) (a : A) → length (replicate n a) ≡ n
  length-replicate zero a = refl
  length-replicate (suc n) a = ap suc (length-replicate n a)

  pub length-take : (n : ℕ) (xs : List A) → length (take n xs) ≡ min n (length xs)
  length-take zero xs = omega arith
  length-take (suc n) [] = omega arith
  length-take (suc n) (x ∷ xs) = omega (arith, length-take n xs)

  pub length-drop : (n : ℕ) (xs : List A) → length (drop n xs) ≡ length xs - n
  length-drop zero xs = omega arith
  length-drop (suc n) [] = omega arith
  length-drop (suc n) (x ∷ xs) = omega (arith, length-drop n xs)

  pub take-append-drop : (n : ℕ) (xs : List A) → take n xs ++ drop n xs ≡ xs
  take-append-drop zero xs = refl
  take-append-drop (suc n) [] = refl
  take-append-drop (suc n) (x ∷ xs) = ap (λ t. x ∷ t) (take-append-drop n xs)

  pub take_all : (xs ys : List A) → take (length xs) (xs ++ ys) ≡ xs
  take_all [] ys = refl
  take_all (x ∷ xs) ys = ap (λ t. x ∷ t) (take_all xs ys)

  pub drop_all : (xs ys : List A) → drop (length xs) (xs ++ ys) ≡ ys
  drop_all [] ys = refl
  drop_all (x ∷ xs) ys = drop_all xs ys

  pub take_whole : (xs : List A) → take (length xs) xs ≡ xs
  take_whole [] = refl
  take_whole (x ∷ xs) = ap (λ t. x ∷ t) (take_whole xs)

  pub drop_beyond : (xs : List A) (n : ℕ) → length xs ≤ n → drop n xs ≡ []
  drop_beyond [] zero h = refl
  drop_beyond [] (suc n) h = refl
  drop_beyond (x ∷ xs) zero h = absurd (omega arith)
  drop_beyond (x ∷ xs) (suc n) h = drop_beyond xs n (omega arith)

module _ {ℓ} {A : Type ℓ} where
  pub take-append :
      (n : ℕ) (xs ys : List A) → length xs ≤ n → take n (xs ++ ys) ≡ xs ++ take (n - length xs) ys
  take-append n [] ys h = let e : n - 0 ≡ n = omega arith in rw e refl
  take-append zero (x ∷ xs) ys h = absurd (omega arith)
  take-append (suc n) (x ∷ xs) ys h =
      let e : suc n - length (x ∷ xs) ≡ n - length xs = omega arith in
      rw e (ap (λ t. x ∷ t) (take-append n xs ys (omega arith)))

  pub drop-append :
      (n : ℕ) (xs ys : List A) → length xs ≤ n → drop n (xs ++ ys) ≡ drop (n - length xs) ys
  drop-append n [] ys h = let e : n - 0 ≡ n = omega arith in rw e refl
  drop-append zero (x ∷ xs) ys h = absurd (omega arith)
  drop-append (suc n) (x ∷ xs) ys h =
      let e : suc n - length (x ∷ xs) ≡ n - length xs = omega arith in
      rw e (drop-append n xs ys (omega arith))

  pub take_nil : (n : ℕ) → take {A = A} n [] ≡ []
  take_nil zero = refl
  take_nil (suc n) = refl

  pub drop_nil : (n : ℕ) → drop {A = A} n [] ≡ []
  drop_nil zero = refl
  drop_nil (suc n) = refl

-- `data.get(start..end)`: nothing if the range is reversed or ends past the slice.
module _ {A : Type 0} where
  unfoldable pub slice : List A → ℕ → ℕ → Option (List A)
  slice xs start end =
      if leb start end
      then (if leb end (length xs) then some (take (end - start) (drop start xs)) else none)
      else none

  pub slice_middle :
      (front xs back : List A) (start end : ℕ)
      → start ≡ length front
      → end ≡ length front + length xs
      → slice (front ++ (xs ++ back)) start end ≡ some xs
  unfolding slice
  slice_middle front xs back start end hs he = ground (
    arith,
    length-append front (xs ++ back),
    length-append xs back,
    drop_all front (xs ++ back),
    take_all xs back,
    width,
  )
    where
      width : length front + length xs - length front ≡ length xs
      width = omega arith

  pub length-slice :
      (xs : List A) (start end : ℕ) (ys : List A)
      → slice xs start end ≡ some ys
      → (start ≤ end) × (end ≤ length xs) × (length ys + start ≡ end)
  unfolding slice
  length-slice xs start end ys h =
      ground (arith, length-take (end - start) (drop start xs), length-drop start xs)

module _ {ℓ} {A : Type ℓ} where
  pub drop-drop : (n m : ℕ) (xs : List A) → drop n (drop m xs) ≡ drop (m + n) xs
  drop-drop n zero xs = let e : 0 + n ≡ n = omega arith in rw e refl
  drop-drop n (suc m) [] = let e : suc m + n ≡ suc (m + n) = omega arith in rw e (drop_nil n)
  drop-drop n (suc m) (x ∷ xs) =
      let e : suc m + n ≡ suc (m + n) = omega arith in rw e (drop-drop n m xs)
