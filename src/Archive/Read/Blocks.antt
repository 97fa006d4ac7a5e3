-- ===== src/Archive/Read/Blocks.antt =====
-- The loop of `read_entry_into` of crates/rasen-archive/src/archive/reader.rs, and the blocks of an
-- entry.
use rasen_archive.Prelude.{ℕ, zero, suc, ◌+◌, ◌<◌, ◌≡◌, refl, ap, ◌∙◌, List, [], ◌∷◌, ◌++◌}
use rasen_archive.Prelude.{append-nil, append_assoc, length, checked_add, u32_mod, arith, leb}
use mathlib.Core.Path.{subst}
use rasen_archive.Error.{ok, >>=-eq-ok, guard, ok_or, corrupt}
use rasen_archive.Platform.{Platform, IsRoomy}
use rasen_archive.Format.Io.{u64_to_usize}
use rasen_archive.Archive.Source.{IsSource}
use rasen_archive.Archive.Model.{Archive}
use rasen_archive.Archive.Chunks.{ChecksumLabel, chunk, global_index, read_chunk_by_index_into}
use rasen_archive.Archive.Chunks.Decode.{Decodes, read_chunk_by_index_into-Decodes}
use rasen_archive.Archive.Read.{read_entry_chunks}

abbrev pub join : List (List ℕ) → List ℕ
join [] = []
join (d ∷ ds) = d ++ join ds

module _ (env : Platform) (a : Archive) where
  -- The chunks of an entry from the one numbered `local` on decode to these blocks.
  abbrev pub Blocks : ℕ → ℕ → List (List ℕ) → Type 0
  Blocks first local [] = Unit
  Blocks first local (d ∷ ds) =
      (first + local < u32_mod) × Decodes env a (first + local) d × Blocks first (local + 1) ds

  pub global_index-eq-ok :
      (first local : ℕ) {g : ℕ}
      → global_index env a first local ≡ ok g
      → (first + local < u32_mod) × (g ≡ first + local)
  unfolding global_index
  global_index-eq-ok first local h = ground arith

  module _ (roomy : IsRoomy env) (exact : IsSource a.source) (label : ChecksumLabel) where
    -- One round of the loop.
    read_entry_step :
        (first dst_len left local : ℕ) (out stored final stored' : List ℕ)
        → read_entry_chunks env a label first dst_len (suc left) local out stored
          ≡ ok (final, stored')
        → (d : List ℕ) × (between : List ℕ) × (first + local < u32_mod)
          × Decodes env a (first + local) d
          × (read_entry_chunks env a label first dst_len left (local + 1) (out ++ d) between
              ≡ ok (final, stored'))
    unfolding read_entry_chunks
    read_entry_step first dst_len left local out stored final stored' h =
        let (g, indexed, h1) = >>=-eq-ok (global_index env a first local) _ h in
        let (fits, same) = global_index-eq-ok first local indexed in
        let (c, found, h2) = >>=-eq-ok (chunk env a g) _ h1 in
        let (len, wide, h3) = >>=-eq-ok (u64_to_usize c.original_size "original chunk size") _ h2 in
        let (end, added, h4) =
          >>=-eq-ok
            (ok_or (checked_add (length out) len) (corrupt "entry decompressed size overflow")) _
            h3 in
        let (u, inside, h5) =
          >>=-eq-ok (guard (leb end dst_len) (corrupt "entry decompressed size mismatch")) _ h4 in
        let ((d, between), loaded, h6) =
          >>=-eq-ok (read_chunk_by_index_into env a label local g len stored) _ h5 in
        let decodes =
          read_chunk_by_index_into-Decodes env a roomy exact label local g len stored d between
            loaded in
        (d, between, fits, subst (λ k. Decodes env a k d) same decodes, h6)

    pub read_entry_chunks-Blocks :
        (left first dst_len local : ℕ) (out stored final stored' : List ℕ)
        → read_entry_chunks env a label first dst_len left local out stored ≡ ok (final, stored')
        → (ds : List (List ℕ)) × (length ds ≡ left)
          × Blocks first local ds
          × (final ≡ out ++ join ds)
          × (length final ≡ dst_len)
    read_entry_chunks-Blocks zero first dst_len local out stored final stored' h = (
      [],
      refl,
      tt,
      unfold read_entry_chunks in ground (arith, append-nil out),
      unfold read_entry_chunks in ground arith,
    )
    read_entry_chunks-Blocks (suc left) first dst_len local out stored final stored' h =
        let (d, between, fits, decodes, rest) =
          read_entry_step first dst_len left local out stored final stored' h in
        let (ds, number, blocks, joined, sized) =
          read_entry_chunks-Blocks left first dst_len (local + 1) (out ++ d) between final stored'
            rest in
        (
          d ∷ ds,
          ap suc number,
          (fits, decodes, blocks),
          joined ∙ append_assoc out d (join ds),
          sized,
        )
