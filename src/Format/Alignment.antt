-- ===== src/Format/Alignment.antt =====
-- `validate_alignment` of crates/rasen-archive/src/format/mod.rs.
use rasen_archive.Prelude.{ℕ, ◌-◌, ◌^◌, ◌≤◌, ◌<◌, ◌≡◌, ◌↔◌, arith, bit_and}
use rasen_archive.Prelude.Bits.{bit_and-pred_iff, exponent_le, pow_le, one-le-two-pow}
use rasen_archive.Error.{ok}
use rasen_archive.Format.{validate_alignment, is_power_of_two, max_alignment}

module _ (a : ℕ) where
  admitted_parts :
      validate_alignment a ≡ ok tt → (0 < a) × (a ≤ max_alignment) × (bit_and a (a - 1) ≡ 0)
  unfolding validate_alignment is_power_of_two
  admitted_parts h = ground arith

  parts_admitted : 0 < a → a ≤ max_alignment → bit_and a (a - 1) ≡ 0 → validate_alignment a ≡ ok tt
  unfolding validate_alignment is_power_of_two
  parts_admitted p q e = ground arith

  -- An alignment is admitted exactly when it is one of 1, 2, 4, ... up to 1 MiB.
  pub validate_alignment_iff : (validate_alignment a ≡ ok tt) ↔ ((k : ℕ) × (k ≤ 20) × (a ≡ 2 ^ k))
  validate_alignment_iff = (sound, complete)
    where
      sound : validate_alignment a ≡ ok tt → (k : ℕ) × (k ≤ 20) × (a ≡ 2 ^ k)
      sound h =
          let (pos, low, e) = admitted_parts h in
          let (k, power) = (bit_and-pred_iff a pos).0 e in
          (k, exponent_le k 20 (omega (arith, power, low)), power)

      complete : (k : ℕ) × (k ≤ 20) × (a ≡ 2 ^ k) → validate_alignment a ≡ ok tt
      complete (k, small, e) =
          let pos : 0 < a = omega (arith, e, one-le-two-pow k) in
          parts_admitted pos (omega (arith, e, pow_le k 20 small))
            ((bit_and-pred_iff a pos).1 (k, e))
