-- ===== src/Ffi/Options.antt =====
-- The options and limits of crates/rasen-archive-ffi/src/types.rs, there and back.
use rasen_archive.Prelude.{ℕ, zero, suc, ◌<◌, ◌≤◌, ◌≡◌, ◌⊎◌, inl, inr, refl, some, arith}
use rasen_archive.Error.{ok, err}
use rasen_archive.Archive.Model.{Protection, xor, aead}
use rasen_archive.Archive.Limits.{ArchiveLimits}
use rasen_archive.Pack.Options.{PackMode, debug, production, PackOptions}
use rasen_archive.Ffi.Status
use rasen_archive.Ffi.Status.{FfiFailure}
use rasen_archive.Ffi.Types.{
  RasenPackOptions, mode_number, protection_number, pack_mode, pack_protection, pack_options,
  from_pack_options, limits, from_limits, to_limits,
}

pack_mode-mode_number : (m : PackMode) → pack_mode (mode_number m) ≡ ok m
unfolding pack_mode
pack_mode-mode_number debug = refl
pack_mode-mode_number production = refl

pack_protection-protection_number : (p : Protection) → pack_protection (protection_number p) ≡ ok p
unfolding pack_protection
pack_protection-protection_number xor = refl
pack_protection-protection_number aead = refl

-- The packer's options survive the way to C and back, and so do the limits of the reader.
pub pack_options-from_pack_options :
    (options : PackOptions) (value : ArchiveLimits)
    → (pack_options (some (from_pack_options options)) ≡ ok options)
      × (limits (some (from_limits value)) ≡ value)
unfolding pack_options from_pack_options limits from_limits to_limits
pack_options-from_pack_options options value = (
  rw (pack_mode-mode_number options.mode, pack_protection-protection_number options.protection)
      refl,
  refl,
)

pack_mode-cases :
    (n : ℕ)
    → ((n < 2) × ((m : PackMode) × (pack_mode n ≡ ok m) × (mode_number m ≡ n)))
      ⊎ ((2 ≤ n)
          × ((f : FfiFailure) × (pack_mode n ≡ err f) × (f.status ≡ Status.status_invalid_value)))
unfolding pack_mode
pack_mode-cases zero = inl (omega arith, (debug, refl, refl))
pack_mode-cases (suc zero) = inl (omega arith, (production, refl, refl))
pack_mode-cases (suc (suc n)) = inr (
  omega arith,
  (Status.failure Status.status_invalid_value (Status.invalid_pack_mode (suc (suc n))), refl, refl),
)

pack_protection-cases :
    (n : ℕ)
    → ((n < 2) × ((p : Protection) × (pack_protection n ≡ ok p) × (protection_number p ≡ n)))
      ⊎ ((2 ≤ n)
          × ((f : FfiFailure) × (pack_protection n ≡ err f)
              × (f.status ≡ Status.status_invalid_value)))
unfolding pack_protection
pack_protection-cases zero = inl (omega arith, (xor, refl, refl))
pack_protection-cases (suc zero) = inl (omega arith, (aead, refl, refl))
pack_protection-cases (suc (suc n)) = inr (
  omega arith,
  (
    Status.failure Status.status_invalid_value (Status.invalid_protection (suc (suc n))),
    refl,
    refl,
  ),
)

-- What `pack_options` does with the caller's options. Either the mode and the protection are both 0 or
-- 1; then they are accepted, as those options of the packer that C writes in this way. Or one of them
-- is another number; then the call fails with the status for an invalid value.
pub pack_options-cases :
    (o : RasenPackOptions)
    → ((o.mode < 2)
        × (o.protection < 2)
        × ((options : PackOptions) × (pack_options (some o) ≡ ok options)
            × (from_pack_options options ≡ o)))
      ⊎ (((2 ≤ o.mode) ⊎ (2 ≤ o.protection))
          × ((f : FfiFailure) × (pack_options (some o) ≡ err f)
              × (f.status ≡ Status.status_invalid_value)))
unfolding pack_options from_pack_options
pack_options-cases o = elim (pack_mode-cases o.mode) [
  | inr (large, (f, e0, status)) ↦ inr (inl large, (f, rw e0 refl, status))
  | inl (small_mode, (mode, e0, same_mode)) ↦ elim (pack_protection-cases o.protection) [
    | inr (large, (f, e1, status)) ↦ inr (inr large, (f, rw (e0, e1) refl, status))
    | inl (small, (protection, e1, same)) ↦ inl (
      small_mode,
      small,
      (
        record {
          chunk_size = o.chunk_size;
          alignment = o.alignment;
          mode = mode;
          protection = protection;
        },
        rw (e0, e1) refl,
        λ i. record {
          chunk_size = o.chunk_size;
          alignment = o.alignment;
          mode = same_mode i;
          protection = same i;
        },
      ),
    )
  ]
]
