-- ===== src/Prelude/Bits.antt =====
-- `&` with a run of ones, as arithmetic. The native operations have no laws at variables but the
-- digit recursion that they stand for.
pub mod Digits
pub mod Xor
use Prim.Native.Nat.{
  ℕ, zero, suc, ◌+◌, ◌-◌, ◌*◌, ◌/◌, ◌%◌, ◌^◌, ◌<◌, ◌≤◌, min, pred, bit_and, bit_and-bitwise,
}
use rasen_archive.Prelude.Bits.Digits.{digits_lowest}
use mathlib.Core.Path.{◌≡◌, refl, ap}
use mathlib.Core.Logic.{◌↔◌}
use native.Mathlib.Nat.{pow-suc}
use native.Mathlib.Decide.{dec_lt}
use native.Mathlib.Omega.{arith}

pub bit_and-none : (b : ℕ) → bit_and 0 b ≡ 0
bit_and-none b = bit_and-bitwise 0 b

-- The lowest digit, and the rest.
pub bit_and-halves : (a b : ℕ) → bit_and a b ≡ min (a % 2) (b % 2) + 2 * bit_and (a / 2) (b / 2)
bit_and-halves zero b = omega (arith, bit_and-none b, bit_and-none (b / 2))
bit_and-halves (suc a) b = omega (
  arith,
  bit_and-bitwise (suc a) b,
  bit_and-bitwise (suc a / 2) (b / 2),
  digits_lowest (λ y. zero) min a b,
)

-- The low `w` bits.
pub bit_and_ones : (w a m : ℕ) → m + 1 ≡ 2 ^ w → a < 2 ^ w → bit_and a m ≡ a
bit_and_ones zero a m h p = let e : a ≡ 0 = omega arith in rw e (bit_and-none m)
bit_and_ones (suc w) a m h p = omega (
  arith,
  pow-suc 2 w,
  bit_and-halves a m,
  bit_and_ones w (a / 2) (m / 2) (omega (arith, pow-suc 2 w)) (omega (arith, pow-suc 2 w)),
)

-- `a & !(p - 1)` for `p = 2 ^ k`, on a word with `w` more bits: the low `k` bits are cleared.
pub bit_and_clear :
    (k w a m : ℕ)
    → m + 2 ^ k ≡ 2 ^ w * 2 ^ k
    → a < 2 ^ w * 2 ^ k
    → (q : ℕ) × (r : ℕ) × (a ≡ q * 2 ^ k + r) × (r < 2 ^ k) × (bit_and a m ≡ q * 2 ^ k)
bit_and_clear zero w a m h p =
    (a, 0, omega arith, omega arith, omega (arith, bit_and_ones w a m (omega arith) (omega arith)))
bit_and_clear (suc k) w a m h p =
    let even : m + 2 * 2 ^ k ≡ 2 * (2 ^ w * 2 ^ k) =
      omega (arith, h, pow-suc 2 k, ap (λ (t : ℕ). 2 ^ w * t) (pow-suc 2 k)) in
    let small : a < 2 * (2 ^ w * 2 ^ k) =
      omega (arith, p, ap (λ (t : ℕ). 2 ^ w * t) (pow-suc 2 k)) in
    let (q, r, split, fits, low) =
      bit_and_clear k w (a / 2) (m / 2) (omega (arith, even)) (omega (arith, small)) in
    let twice : q * 2 ^ suc k ≡ 2 * (q * 2 ^ k) =
      omega (arith, ap (λ (t : ℕ). q * t) (pow-suc 2 k)) in
    (
      q,
      2 * r + a % 2,
      omega (arith, twice, split),
      omega (arith, pow-suc 2 k, fits),
      omega (arith, twice, low, even, bit_and-halves a m),
    )

pub pow-add : (w k n : ℕ) → w + k ≡ n → 2 ^ w * 2 ^ k ≡ 2 ^ n
pow-add w zero n e = let same : w ≡ n = omega arith in rw same (omega arith)
pow-add w (suc k) zero e = absurd (omega arith)
pow-add w (suc k) (suc n) e = omega (
  arith,
  pow-add w k n (omega arith),
  pow-suc 2 k,
  pow-suc 2 n,
  ap (λ (t : ℕ). 2 ^ w * t) (pow-suc 2 k),
)

pub one-le-two-pow : (k : ℕ) → 1 ≤ 2 ^ k
one-le-two-pow zero = omega arith
one-le-two-pow (suc k) = omega (arith, pow-suc 2 k, one-le-two-pow k)

pub bit_and_self : (n a : ℕ) → a ≤ n → bit_and a a ≡ a
bit_and_self n zero h = bit_and-none 0
bit_and_self zero (suc a) h = absurd (omega arith)
bit_and_self (suc n) (suc a) h =
    omega (arith, bit_and-halves (suc a) (suc a), bit_and_self n (suc a / 2) (omega arith))

even_of_disjoint : (a : ℕ) → 1 < a → bit_and a (pred a) ≡ 0 → a % 2 ≡ 0
even_of_disjoint a more e = elim (dec_lt 0 (a % 2)) [
  | no even ↦ omega arith
  | yes odd ↦
      let same : pred a / 2 ≡ a / 2 = omega arith in
      let none_left : bit_and (a / 2) (pred a / 2) ≡ 0 =
        omega (arith, e, bit_and-halves a (pred a)) in
      let half : bit_and (a / 2) (a / 2) ≡ 0 = rw same at none_left in
      absurd (omega (arith, half, more, bit_and_self (a / 2) (a / 2) (omega arith)))
]

-- A number with no bit in common with its predecessor is a power of two.
pub power_of_disjoint : (n a : ℕ) → a < n → 0 < a → bit_and a (pred a) ≡ 0 → (k : ℕ) × (a ≡ 2 ^ k)
power_of_disjoint zero a h p e = absurd (omega arith)
power_of_disjoint (suc n) a h p e = elim (dec_lt 1 a) [
  | no one ↦ (0, omega arith)
  | yes more ↦
      let even : a % 2 ≡ 0 = even_of_disjoint a more e in
      let same : pred a / 2 ≡ pred (a / 2) = omega arith in
      let none_left : bit_and (a / 2) (pred a / 2) ≡ 0 =
        omega (arith, e, bit_and-halves a (pred a)) in
      let (k, half) =
        power_of_disjoint n (a / 2) (omega arith) (omega arith) (rw same at none_left) in
      (suc k, omega (arith, pow-suc 2 k, half, even))
]

disjoint_of_power : (k : ℕ) → bit_and (2 ^ k) (pred (2 ^ k)) ≡ 0
disjoint_of_power zero = refl
disjoint_of_power (suc k) =
    let same : 2 ^ suc k / 2 ≡ 2 ^ k = omega (arith, pow-suc 2 k) in
    let less : pred (2 ^ suc k) / 2 ≡ pred (2 ^ k) = omega (arith, pow-suc 2 k, one-le-two-pow k) in
    let step : bit_and (2 ^ suc k) (pred (2 ^ suc k))
        ≡ min (2 ^ suc k % 2) (pred (2 ^ suc k) % 2) + 2 * bit_and (2 ^ k) (pred (2 ^ k)) =
      rw (same, less) at (bit_and-halves (2 ^ suc k) (pred (2 ^ suc k))) in
    omega (arith, step, pow-suc 2 k, disjoint_of_power k)

pub exponent_le : (k n : ℕ) → 2 ^ k ≤ 2 ^ n → k ≤ n
exponent_le zero n h = omega arith
exponent_le (suc k) zero h = absurd (omega (arith, pow-suc 2 k, one-le-two-pow k))
exponent_le (suc k) (suc n) h =
    omega (arith, exponent_le k n (omega (arith, pow-suc 2 k, pow-suc 2 n)))

pub pow_le : (k n : ℕ) → k ≤ n → 2 ^ k ≤ 2 ^ n
pow_le zero n h = one-le-two-pow n
pow_le (suc k) zero h = absurd (omega arith)
pow_le (suc k) (suc n) h = omega (arith, pow-suc 2 k, pow-suc 2 n, pow_le k n (omega arith))

pub bit_and-pred_iff : (a : ℕ) → 0 < a → (bit_and a (a - 1) ≡ 0) ↔ ((k : ℕ) × (a ≡ 2 ^ k))
bit_and-pred_iff a p = (
  λ e. power_of_disjoint (suc a) a (omega arith) p (rw less at e),
  λ (k, e). rw (less, e) (disjoint_of_power k),
)
  where
    less : a - 1 ≡ pred a
    less = omega arith
