-- ===== src/Pack/Packer/Fresh.antt =====
-- `Packer::new` of crates/rasen-archive/src/pack/writer.rs on a destination in memory.
use rasen_archive.Prelude.{
  ℕ, ◌^◌, ◌<◌, ◌≤◌, ◌≡◌, refl, ap, ◌∙◌, List, [], ◌∷◌, true, false, not, ◌==◌, length, replicate,
  arith,
}
use mathlib.Core.Path.{subst}
use rasen_archive.Error.{
  ok, >>=-eq-ok, ok-injective, guard, guard-eq-ok, empty_xor_key, non_empty_destination,
}
use rasen_archive.Platform.{Platform, reserve}
use rasen_archive.Sink.Memory.{
  Memory, memory_sink, at_end, seek_end_memory, seek_start_memory, write_to_empty,
}
use rasen_archive.Pack.Store.{aead_key_of}
use rasen_archive.Pack.Store.Growth.{laid_out}
use rasen_archive.Format
use rasen_archive.Format.{validate_chunk_size, validate_alignment}
use rasen_archive.Format.Alignment.{validate_alignment_iff}
use rasen_archive.Pack.Options.{PackOptions, validate}
use rasen_archive.Pack.Input.{slice_reader}
use rasen_archive.Pack.Model.{Packer}
use rasen_archive.Pack.Packer.{new}
use rasen_archive.Pack.Packer.Assets.{HasPacked}

empty_of : (c : List ℕ) → (length c == 0) ≡ true → c ≡ []
empty_of [] h = refl
empty_of (b ∷ bs) h = absurd (ground arith)

chunk_size_bounds : (n : ℕ) → validate_chunk_size n ≡ ok tt → (0 < n) × (n ≤ Format.max_chunk_size)
unfolding validate_chunk_size
chunk_size_bounds n e = ground arith

-- The options are admissible.
pub record IsAdmissible (o : PackOptions) : Type 0 where
  pub some_room : 0 < o.chunk_size
  pub small : o.chunk_size ≤ Format.max_chunk_size
  pub power : (k : ℕ) × (k ≤ 20) × (o.alignment ≡ 2 ^ k)

validate-IsAdmissible :
    (unchecked options : PackOptions)
    → validate unchecked ≡ ok options
    → (unchecked ≡ options) × IsAdmissible unchecked
unfolding validate
validate-IsAdmissible unchecked options h =
    let (u, e0, h0) = >>=-eq-ok (validate_chunk_size unchecked.chunk_size) _ h in
    let (v, e1, h1) = >>=-eq-ok (validate_alignment unchecked.alignment) _ h0 in
    let (pos, fits) = chunk_size_bounds unchecked.chunk_size e0 in
    (
      ok-injective h1,
      record {
        some_room = pos;
        small = fits;
        power = (validate_alignment_iff unchecked.alignment).0 e1;
      },
    )

module _ (env : Platform) where
  -- A packer that has taken nothing yet.
  pub record IsFresh (key : List ℕ) (options : PackOptions) (p : Packer Memory) : Type 0 where
    pub packed : HasPacked env p [] []
    pub admissible : IsAdmissible options
    pub key_some : 0 < length key
    pub same_key : p.key ≡ key
    pub aead_key : p.aead_key ≡ aead_key_of env options.protection key
    pub same_options : p.options ≡ options
    pub failed : p.failed ≡ false

  abbrev first : List ℕ → PackOptions → Packer Memory
  first key options = record {
    writer = at_end (laid_out []);
    key = key;
    aead_key = aead_key_of env options.protection key;
    options = options;
    entries = [];
    chunks = [];
    seen_hashes = [];
    offset = Format.header_size;
    failed = false;
    draws = 0;
  }

  new_parts :
      (w : Memory) (key : List ℕ) (unchecked : PackOptions) (p : Packer Memory)
      → new env w key unchecked ≡ ok p
      → (w.contents ≡ []) × (0 < length key) × IsAdmissible unchecked × (first key unchecked ≡ p)
  unfolding new
  new_parts w key unchecked p h =
      let (u, e0, h0) = >>=-eq-ok (guard (not (length key == 0)) empty_xor_key) _ h in
      let (options, e1, h1) = >>=-eq-ok (validate unchecked) _ h0 in
      let (same, fine) = validate-IsAdmissible unchecked options e1 in
      let h2 = rw (seek_end_memory w) at h1 in
      let (v, e2, h3) = >>=-eq-ok (guard (length w.contents == 0) non_empty_destination) _ h2 in
      let empty =
        empty_of w.contents (guard-eq-ok (length w.contents == 0) non_empty_destination e2) in
      let h4 =
        rw
          (
            seek_start_memory (record w { position = length w.contents }) 0,
            write_to_empty w (replicate Format.header_size 0) empty,
          )
          at h3 in
      let (a, e5, h5) =
        >>=-eq-ok (reserve env (env.maximum_output_size options.chunk_size) "compression buffer") _
          h4 in
      let (b, e6, h6) = >>=-eq-ok (reserve env options.chunk_size "raw chunk buffer") _ h5 in
      (
        empty,
        key_some (guard-eq-ok (not (length key == 0)) empty_xor_key e0),
        fine,
        ap (λ o. first key o) same ∙ ok-injective h6,
      )
    where
      key_some : not (length key == 0) ≡ true → 0 < length key
      key_some e = ground arith

  -- If `new` succeeds on a destination in memory, then the destination was empty, and the packer holds
  -- no assets, with admissible options and the key.
  pub new-IsFresh :
      (w : Memory) (key : List ℕ) (options : PackOptions) (p : Packer Memory)
      → new env w key options ≡ ok p
      → (w.contents ≡ []) × IsFresh key options p
  new-IsFresh w key options p h =
      let (empty, key_some, fine, same) = new_parts w key options p h in
      (
        empty,
        subst (λ q. IsFresh key options q) same
            (record {
              packed = record {
                storing = record {
                  writer = refl;
                  offset = refl;
                  chunks = refl;
                  stored = tt;
                  ordered = omega arith;
                };
                entries = refl;
                described = tt;
                unique = record { seen = tt; distinct = tt };
              };
              admissible = fine;
              key_some = key_some;
              same_key = refl;
              aead_key = refl;
              same_options = refl;
              failed = refl;
            }),
      )
