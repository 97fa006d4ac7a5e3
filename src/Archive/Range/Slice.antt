-- ===== src/Archive/Range/Slice.antt =====
-- `read_range_index_into` of crates/rasen-archive/src/archive/reader.rs as a whole.
use rasen_archive.Prelude.{ℕ, zero, suc, ◌+◌, ◌-◌, ◌*◌, ◌/◌, ◌<◌, ◌≤◌, max, ◌≡◌, refl, ap, sym, ◌∙◌}
use rasen_archive.Prelude.{
  List, [], ◌∷◌, length, length-append, take, drop, arith, u32_mod, u64_mod,
}
use rasen_archive.Prelude.{some, get_elem?}
use native.Mathlib.Nat.{div-mul-le_self, lt-div-mul-add, div-lt_iff_lt-mul, le-div_iff_mul-le}
use rasen_archive.Error.{ok}
use rasen_archive.Platform.{Platform, IsRoomy}
use rasen_archive.Format.Io.{usize_to_u64}
use rasen_archive.Archive.Model.{Archive, Entry, ArchiveScratch}
use rasen_archive.Archive.Chunks.{ChecksumLabel}
use rasen_archive.Archive.Read.Blocks.{join, Blocks}
use rasen_archive.Archive.Read.Whole.{IsContent}
use rasen_archive.Archive.Range.{read_range_chunks, read_range_index_into}
use rasen_archive.Archive.Range.Skip.{skip}
use rasen_archive.Archive.Range.Round.{IsCut, Covers}
use rasen_archive.Archive.Range.Loop.{loop}

module _ (chunk_size : ℕ) where
  pub length-join :
      (p : ℕ) (ds : List (List ℕ))
      → IsCut chunk_size p ds
      → length (join ds) ≤ length ds * chunk_size
  length-join p [] v = omega arith
  length-join p (d ∷ ds) v =
      omega (arith, length-append d (join ds), length-join (p + chunk_size) ds v.3, v.0)

  -- The blocks from `p` on reach an end that lies in the block numbered `n` from there.
  reach-Covers :
      (end n p : ℕ)
      → p + n * chunk_size < end
      → end ≤ p + suc n * chunk_size
      → Covers chunk_size end p (suc n)
  reach-Covers end zero p h1 h2 = (omega arith, omega arith)
  reach-Covers end (suc n) p h1 h2 =
      (omega arith, reach-Covers end n (p + chunk_size) (omega arith) (omega arith))

module _ (env : Platform) (a : Archive) where
  start :
      (idx offset n : ℕ) (label : ChecksumLabel) (e : Entry) (scratch : ArchiveScratch)
      → get_elem? a.entries idx ≡ some e
      → 0 < n
      → 0 < a.chunk_size
      → offset + n < u64_mod
      → offset / a.chunk_size < u32_mod
      → (offset + n - 1) / a.chunk_size < u32_mod
      → read_range_index_into env a idx label offset n scratch
        ≡ read_range_chunks env a label e offset
            (offset + n)
            n
            ((offset + n - 1) / a.chunk_size + 1 - offset / a.chunk_size)
            (offset / a.chunk_size)
            []
            scratch
  unfolding read_range_index_into usize_to_u64
  start idx offset n label e scratch at h1 h2 h3 h4 h5 = ground (arith, at)

  module _ (roomy : IsRoomy env) (label : ChecksumLabel) (e : Entry) (ds : List (List ℕ)) where
    -- The loop as it is started.
    started_loop :
        (offset n fl ll : ℕ) (scratch : ArchiveScratch)
        → Blocks env a e.first_chunk 0 ds
        → IsCut a.chunk_size 0 ds
        → length ds ≡ e.chunk_count
        → 0 < n
        → offset + n ≤ length (join ds)
        → length (join ds) < u64_mod
        → fl * a.chunk_size ≤ offset
        → offset < fl * a.chunk_size + a.chunk_size
        → fl ≤ ll
        → ll * a.chunk_size ≤ offset + n - 1
        → offset + n - 1 < ll * a.chunk_size + a.chunk_size
        → (scratch' : ArchiveScratch) × (read_range_chunks env a label e offset
              (offset + n)
              n
              (ll + 1 - fl)
              fl
              []
              scratch
            ≡ ok (take n (drop offset (join ds)), scratch'))
    started_loop offset n fl ll scratch blocks cut number some_bytes inside wide f1 f2 order l1 l2 =
        let end : ℕ = offset + n in
        let p : ℕ = 0 + fl * a.chunk_size in
        let (later, r) =
          skip env a e.first_chunk offset fl 0 0 ds blocks cut (omega arith) (omega arith) in
        let split : ll ≡ fl + (ll - fl) = omega arith in
        let product : ll * a.chunk_size ≡ (fl + (ll - fl)) * a.chunk_size =
          ap (λ t. t * a.chunk_size) split in
        let (scratch', done) =
          loop env a roomy label e offset end n (omega arith) (omega arith) (omega arith)
            (suc (ll - fl)) (0 + fl) p later [] scratch
            (record {
              blocks = r.blocks;
              cut = r.cut;
              covers =
                  reach-Covers a.chunk_size end (ll - fl) p (omega (arith, product))
                    (omega (arith, product));
              position = omega arith;
              counted = omega (arith, r.counted, number);
              enough = omega (arith, r.measured);
              started = omega arith;
              written = omega arith;
            }) in
        let from_fl : 0 + fl ≡ fl = omega arith in
        let rounds : ll + 1 - fl ≡ suc (ll - fl) = omega arith in
        let size : end - max offset p ≡ n = omega arith in
        let whole : offset - 0 ≡ offset = omega arith in
        (
          scratch',
          rw rounds (rw from_fl at done)
              ∙ ap (λ t. ok (t, scratch'))
                  (ap (λ k. take k (drop (offset - p) (join later))) size
                    ∙ ap (λ t. take n t) (sym r.same_part)
                    ∙ ap (λ t. take n (drop t (join ds))) whole),
        )

  module _ (roomy : IsRoomy env) (idx : ℕ) (label : ChecksumLabel) (e : Entry) where
    -- Where memory suffices: for an entry of the archive whose content is cut into chunks of the chunk
    -- size, of which only the last may be shorter, `read_range_index_into` succeeds on every range
    -- within the content, whatever the scratch buffers hold, and reads the bytes of the content there.
    pub read_range_index_into-slice :
        (full : List ℕ) (content : IsContent env a e full) (offset n : ℕ) (scratch : ArchiveScratch)
        → get_elem? a.entries idx ≡ some e
        → e.chunk_count < u32_mod
        → e.original_size < u64_mod
        → 0 < a.chunk_size
        → IsCut a.chunk_size 0 content.blocks
        → offset + n ≤ e.original_size
        → (scratch' : ArchiveScratch) × (read_range_index_into env a idx label offset n scratch
            ≡ ok (take n (drop offset full), scratch'))
    read_range_index_into-slice full content offset zero scratch at count wide pos cut inside =
        (scratch, unfold read_range_index_into in refl)
    read_range_index_into-slice full content offset (suc m) scratch at count wide pos cut inside =
        let n : ℕ = suc m in
        let fl : ℕ = offset / a.chunk_size in
        let ll : ℕ = (offset + n - 1) / a.chunk_size in
        let size : length (join content.blocks) ≡ e.original_size =
          ap length (sym content.joined) ∙ content.sized in
        let low = div-mul-le_self offset a.chunk_size in
        let high : ll < length content.blocks =
          (div-lt_iff_lt-mul pos).1
            (omega (arith, length-join a.chunk_size 0 content.blocks cut, size)) in
        let order : fl ≤ ll = (le-div_iff_mul-le pos).1 (omega (arith, low)) in
        let small : ll < u32_mod = omega (arith, high, content.number) in
        let (scratch', done) =
          started_loop roomy label e content.blocks offset n fl ll scratch content.decoded cut
            content.number (omega arith) (omega (arith, size)) (omega (arith, size)) low
            (lt-div-mul-add pos) order (div-mul-le_self (offset + n - 1) a.chunk_size)
            (lt-div-mul-add pos) in
        (
          scratch',
          start idx offset n label e scratch at (omega arith) pos (omega arith)
                (omega (arith, order)) small
              ∙ done
              ∙ ap (λ t. ok (take n (drop offset t), scratch')) (sym content.joined),
        )
