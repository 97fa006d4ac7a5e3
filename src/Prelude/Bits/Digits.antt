-- ===== src/Prelude/Bits/Digits.antt =====
-- The recursion that the native bitwise operations stand for, one binary digit at a time, for any
-- operation on two digits.
use Prim.Native.Nat.{ℕ, zero, suc, ◌+◌, ◌-◌, ◌*◌, ◌/◌, ◌%◌, ◌≤◌, digits}
use mathlib.Core.Path.{◌≡◌, refl, sym, ◌∙◌}
use native.Mathlib.Omega.{arith}

module _ (tail : ℕ → ℕ) (op : ℕ → ℕ → ℕ) where
  digits_of_nothing : (room y : ℕ) → digits tail op room 0 y ≡ tail y
  digits_of_nothing zero y = refl
  digits_of_nothing (suc room) y = refl

  -- Room to spare changes nothing.
  digits_spare :
      (room spare x y : ℕ) → x ≤ room → digits tail op (spare + room) x y ≡ digits tail op room x y
  digits_spare room spare zero y h =
      digits_of_nothing (spare + room) y ∙ sym (digits_of_nothing room y)
  digits_spare zero spare (suc x) y h = absurd (omega arith)
  digits_spare (suc room) spare (suc x) y h =
      let more : spare + suc room ≡ suc (spare + room) = omega arith in
      rw more (omega (arith, digits_spare room spare (suc x / 2) (y / 2) (omega arith)))

  -- The lowest digit, and the rest.
  pub digits_lowest :
      (x y : ℕ)
      → digits tail op (suc x) (suc x) y
        ≡ op (suc x % 2) (y % 2) + 2 * digits tail op (suc x / 2) (suc x / 2) (y / 2)
  digits_lowest x y =
      let half = suc x / 2 in
      let room : x - half + half ≡ x = omega arith in
      let spare = digits_spare half (x - half) half (y / 2) (omega arith) in
      omega (arith, rw room at spare)
