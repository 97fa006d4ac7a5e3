-- ===== src/Prelude/Words.antt =====
-- Machine words as native numbers: checked arithmetic, and little-endian bytes.
use Prim.Native.Nat.{ℕ, zero, suc, ◌+◌, ◌-◌, ◌*◌, ◌/◌, ◌%◌, ◌^◌, ◌<◌}
use mathlib.Core.Path.{◌≡◌, refl, ap}
use mathlib.Core.List.{List, [], ◌∷◌, ◌++◌}
use mathlib.Core.Option.{Option, none, some}
use native.Mathlib.Nat.{pow-suc}
use native.Mathlib.Omega.{arith}
use rasen_archive.Prelude.Tests.{ltb, leb, if◌then◌else◌}
use rasen_archive.Prelude.Lists.{length, All, length-append}

-- `u64::MAX + 1`, which is `usize::MAX + 1` too, and the moduli of `u32` and `u16`.
abbrev pub u64_mod : ℕ
u64_mod = 2 ^ 64

abbrev pub u32_mod : ℕ
u32_mod = 2 ^ 32

abbrev pub u16_mod : ℕ
u16_mod = 2 ^ 16

-- `checked_add`, `checked_mul` and `checked_sub` of a 64-bit word.
abbrev pub checked_add : ℕ → ℕ → Option ℕ
checked_add a b = if ltb (a + b) u64_mod then some (a + b) else none

abbrev pub checked_mul : ℕ → ℕ → Option ℕ
checked_mul a b = if ltb (a * b) u64_mod then some (a * b) else none

abbrev pub checked_sub : ℕ → ℕ → Option ℕ
checked_sub a b = if leb b a then some (a - b) else none

abbrev pub IsByte : ℕ → Type 0
IsByte b = b < 256

-- `to_le_bytes` of a word of `n` bytes, and `from_le_bytes`.
unfoldable pub to_le_bytes : ℕ → ℕ → List ℕ
to_le_bytes zero x = []
to_le_bytes (suc n) x = (x % 256) ∷ to_le_bytes n (x / 256)

unfoldable pub from_le_bytes : List ℕ → ℕ
from_le_bytes [] = 0
from_le_bytes (b ∷ bs) = b + 256 * from_le_bytes bs

pub length-to_le_bytes : (n x : ℕ) → length (to_le_bytes n x) ≡ n
unfolding to_le_bytes
length-to_le_bytes zero x = refl
length-to_le_bytes (suc n) x = ap suc (length-to_le_bytes n (x / 256))

pub to_le_bytes-IsByte : (n x : ℕ) → All IsByte (to_le_bytes n x)
unfolding to_le_bytes
to_le_bytes-IsByte zero x = tt
to_le_bytes-IsByte (suc n) x = (omega arith, to_le_bytes-IsByte n (x / 256))

pub from_le_bytes-to_le_bytes : (n x : ℕ) → x < 256 ^ n → from_le_bytes (to_le_bytes n x) ≡ x
unfolding from_le_bytes to_le_bytes
from_le_bytes-to_le_bytes zero x h = omega arith
from_le_bytes-to_le_bytes (suc n) x h =
    omega (arith, from_le_bytes-to_le_bytes n (x / 256) (omega (arith, pow-suc 256 n)))

pub from_le_bytes-lt : (bs : List ℕ) → All IsByte bs → from_le_bytes bs < 256 ^ length bs
unfolding from_le_bytes
from_le_bytes-lt [] h = omega arith
from_le_bytes-lt (b ∷ bs) h = omega (arith, pow-suc 256 (length bs), from_le_bytes-lt bs h.1)

pub to_le_bytes-from_le_bytes :
    (bs : List ℕ) → All IsByte bs → to_le_bytes (length bs) (from_le_bytes bs) ≡ bs
unfolding from_le_bytes to_le_bytes
to_le_bytes-from_le_bytes [] h = refl
to_le_bytes-from_le_bytes (b ∷ bs) h = ground (arith, low, high, to_le_bytes-from_le_bytes bs h.1)
  where
    low : (b + 256 * from_le_bytes bs) % 256 ≡ b
    low = omega arith

    high : (b + 256 * from_le_bytes bs) / 256 ≡ from_le_bytes bs
    high = omega arith

pub length-append_bytes : (xs ys : List ℕ) → length (xs ++ ys) ≡ length xs + length ys
length-append_bytes = length-append

-- For `omega`: the lengths of encodings.
pub ruleset lengths = (arith, length-append_bytes, length-to_le_bytes)
