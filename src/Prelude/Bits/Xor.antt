-- ===== src/Prelude/Bits/Xor.antt =====
-- `^` at every width.
use Prim.Native.Nat.{ℕ, zero, suc, ◌+◌, ◌*◌, ◌/◌, ◌%◌, ◌≤◌, ◌<◌, bit_xor, bit_xor-bitwise, differ}
use rasen_archive.Prelude.Bits.Digits.{digits_lowest}
use mathlib.Core.Path.{◌≡◌, refl}
use native.Mathlib.Omega.{arith}

differ_digits : (x y : ℕ) → x < 2 → y < 2 → differ x y ≡ (x + y) % 2
differ_digits zero zero p q = refl
differ_digits zero (suc zero) p q = refl
differ_digits (suc zero) zero p q = refl
differ_digits (suc zero) (suc zero) p q = refl
differ_digits zero (suc (suc y)) p q = absurd (omega arith)
differ_digits (suc zero) (suc (suc y)) p q = absurd (omega arith)
differ_digits (suc (suc x)) y p q = absurd (omega arith)

bit_xor-none : (b : ℕ) → bit_xor 0 b ≡ b
bit_xor-none b = bit_xor-bitwise 0 b

bit_xor-halves : (a b : ℕ) → bit_xor a b ≡ (a % 2 + b % 2) % 2 + 2 * bit_xor (a / 2) (b / 2)
bit_xor-halves zero b = omega (arith, bit_xor-none b, bit_xor-none (b / 2))
bit_xor-halves (suc a) b = omega (
  arith,
  bit_xor-bitwise (suc a) b,
  bit_xor-bitwise (suc a / 2) (b / 2),
  digits_lowest (λ y. y) differ a b,
  differ_digits (suc a % 2) (b % 2) (omega arith) (omega arith),
)

bit_xor-zero : (n a : ℕ) → a ≤ n → bit_xor a 0 ≡ a
bit_xor-zero n zero h = bit_xor-none 0
bit_xor-zero zero (suc a) h = absurd (omega arith)
bit_xor-zero (suc n) (suc a) h =
    omega (arith, bit_xor-halves (suc a) 0, bit_xor-zero n (suc a / 2) (omega arith))

bit_xor_fuel : (n a k : ℕ) → k ≤ n → bit_xor (bit_xor a k) k ≡ a
bit_xor_fuel n a zero h = let e = bit_xor-zero a a (omega arith) in rw (e, e)
bit_xor_fuel zero a (suc k) h = absurd (omega arith)
bit_xor_fuel (suc n) a (suc k) h =
    let step = bit_xor-halves a (suc k) in
    let half : bit_xor a (suc k) / 2 ≡ bit_xor (a / 2) (suc k / 2) = omega (arith, step) in
    let again = bit_xor-halves (bit_xor a (suc k)) (suc k) in
    omega (arith, step, rw half at again, bit_xor_fuel n (a / 2) (suc k / 2) (omega arith))

pub bit_xor_twice : (a k : ℕ) → bit_xor (bit_xor a k) k ≡ a
bit_xor_twice a k = bit_xor_fuel k a k (omega arith)
