-- ===== src/Format/Io/Align.antt =====
-- `align_up` of crates/rasen-archive/src/format/io.rs.
use rasen_archive.Prelude.{ℕ, ◌+◌, ◌-◌, ◌*◌, ◌^◌, ◌≤◌, ◌<◌, ◌≡◌, arith, bit_and, u64_mod}
use rasen_archive.Prelude.Bits.{bit_and_clear, pow-add, one-le-two-pow}
use rasen_archive.Error.{ok, err, too_large}
use rasen_archive.Format.Io.{align_up}

-- `align_up` in terms of arithmetic.
align_up_masked :
    (value alignment : ℕ)
    → 1 ≤ alignment
    → value + (alignment - 1) < u64_mod
    → align_up value alignment
      ≡ ok (bit_and (value + (alignment - 1)) (u64_mod - 1 - (alignment - 1)))
unfolding align_up
align_up_masked value alignment pos fits = ground arith

-- For an alignment `2 ^ k` and a value with room above it, `align_up` succeeds, and its result is the
-- least multiple of the alignment that is not below the value.
pub align_up-least :
    (k value : ℕ)
    → k ≤ 64
    → value + 2 ^ k ≤ u64_mod
    → (q : ℕ) × (align_up value (2 ^ k) ≡ ok (q * 2 ^ k))
      × (value ≤ q * 2 ^ k)
      × (q * 2 ^ k < value + 2 ^ k)
align_up-least k value small fits =
    let whole : 2 ^ (64 - k) * 2 ^ k ≡ u64_mod = pow-add (64 - k) k 64 (omega arith) in
    let pos : 1 ≤ 2 ^ k = one-le-two-pow k in
    let (q, r, split, low, cleared) =
      bit_and_clear k (64 - k) (value + (2 ^ k - 1)) (u64_mod - 1 - (2 ^ k - 1))
        (omega (arith, whole, pos, fits)) (omega (arith, whole, pos, fits)) in
    (
      q,
      rw (align_up_masked value (2 ^ k) pos (omega (arith, pos)), cleared),
      omega (arith, split, low, pos),
      omega (arith, split, low, pos),
    )

-- With no room above the value the result is an error.
pub align_up_overflow :
    (value alignment : ℕ)
    → 1 ≤ alignment
    → u64_mod < value + alignment
    → align_up value alignment ≡ err (too_large "aligned offset")
unfolding align_up
align_up_overflow value alignment pos over = ground arith
