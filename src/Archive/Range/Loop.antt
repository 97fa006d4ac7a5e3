-- ===== src/Archive/Range/Loop.antt =====
-- The loop of `read_range_index_into` of crates/rasen-archive/src/archive/reader.rs.
use rasen_archive.Prelude.{
  ℕ, zero, suc, ◌+◌, ◌-◌, ◌*◌, ◌<◌, ◌≤◌, max, min, ◌≡◌, refl, ap, sym, ◌∙◌, ◌⊎◌, inl, inr,
}
use rasen_archive.Prelude.{List, [], ◌∷◌, ◌++◌, append-nil, append_assoc, length, length-append}
use rasen_archive.Prelude.{take, drop, arith, u64_mod, ==_self}
use rasen_archive.Error.{ok}
use rasen_archive.Platform.{Platform, IsRoomy}
use rasen_archive.Archive.Model.{Archive, Entry, ArchiveScratch}
use rasen_archive.Archive.Chunks.{ChecksumLabel}
use rasen_archive.Archive.Read.Blocks.{join, Blocks}
use rasen_archive.Archive.Range.{read_range_chunks}
use rasen_archive.Archive.Range.Pieces.{piece_of_first, take_nothing, drop_nothing}
use rasen_archive.Archive.Range.Round.{IsCut, Covers, chunk_part_slice, round, written_next}

module _ (env : Platform) (a : Archive) (roomy : IsRoomy env) where
  module _ (label : ChecksumLabel) (e : Entry) (offset end dst_len : ℕ) where
    -- What the loop has to find before it: `ds` are the blocks left, from position `p` on.
    pub record IsReady (left local p : ℕ) (ds : List (List ℕ)) (out : List ℕ) : Type 0 where
      pub blocks : Blocks env a e.first_chunk local ds
      pub cut : IsCut a.chunk_size p ds
      pub covers : Covers a.chunk_size end p left
      pub position : p ≡ local * a.chunk_size
      pub counted : local + length ds ≡ e.chunk_count
      pub enough : end ≤ p + length (join ds)
      pub started : offset < p + a.chunk_size
      pub written : length out ≡ min p end - offset

    abbrev pub part_from : ℕ → List ℕ → List ℕ
    part_from p bytes = take (end - max offset p) (drop (offset - p) bytes)

    abbrev block_part : ℕ → List ℕ → List ℕ
    block_part p d =
        take (min end (p + length d) - p - (max offset p - p)) (drop (max offset p - p) d)

    rest_from :
        (p : ℕ) (d : List ℕ) (ds : List (List ℕ))
        → (length d ≡ a.chunk_size) ⊎ (ds ≡ [])
        → part_from (p + length d) (join ds) ≡ part_from (p + a.chunk_size) (join ds)
    rest_from p d ds (inl full) = rw full refl
    rest_from p d ds (inr last) =
        rw
          (
            last,
            drop_nothing {A = ℕ} (offset - (p + length d)),
            drop_nothing {A = ℕ} (offset - (p + a.chunk_size)),
            take_nothing {A = ℕ} (end - max offset (p + length d)),
            take_nothing {A = ℕ} (end - max offset (p + a.chunk_size)),
          )
          refl

    module _ (some_bytes : offset < end) (end_fits : end < u64_mod)
        (sized : dst_len ≡ end - offset) where
      -- The block reaches beyond the offset, and the blocks after it to the end.
      reaches :
          (left local p : ℕ) (d : List ℕ) (ds : List (List ℕ)) (out : List ℕ)
          → IsReady (suc left) local p (d ∷ ds) out
          → (offset < p + length d)
            × (end ≤ p + a.chunk_size + length (join ds))
            × (min end (p + length d) ≡ min (p + a.chunk_size) end)
      reaches left local p d ds out r = by_kind r.cut.2
        where
          by_kind :
              (length d ≡ a.chunk_size) ⊎ (ds ≡ [])
              → (offset < p + length d)
                × (end ≤ p + a.chunk_size + length (join ds))
                × (min end (p + length d) ≡ min (p + a.chunk_size) end)
          by_kind (inl full) =
              let whole = length-append d (join ds) in
              (omega (arith, full), omega (arith, whole, full), omega (arith, full))
          by_kind (inr last) =
              let whole = length-append d (join ds) in
              let none_left : length (join ds) ≡ 0 = ap (λ t. length (join t)) last in
              (
                omega (arith, whole, none_left),
                omega (arith, whole, none_left),
                omega (arith, whole, none_left),
              )

      -- From a state that is ready, the loop adds the part from `p` on that is asked for.
      pub loop :
          (left local p : ℕ) (ds : List (List ℕ)) (out : List ℕ) (scratch : ArchiveScratch)
          → IsReady left local p ds out
          → (scratch' : ArchiveScratch) × (read_range_chunks env a label e offset end dst_len left
                local out scratch
              ≡ ok (out ++ part_from p (join ds), scratch'))
      loop zero local p ds out scratch r =
          let none_left : end - max offset p ≡ 0 = omega (arith, r.covers) in
          let full : length out ≡ dst_len = omega (arith, r.covers) in
          (
            scratch,
            unfold read_range_chunks in rw (full, ==_self dst_len, none_left, append-nil out) refl,
          )
      loop (suc left) local p [] out scratch r = absurd (omega (arith, r.covers))
      loop (suc left) local p (d ∷ ds) out scratch r =
          let (reach, later, same_end) = reaches left local p d ds out r in
          let here : p < end = r.covers.0 in
          let piece =
            chunk_part_slice env a offset end dst_len (length out) local p d r.position r.cut.1
              some_bytes here end_fits reach (omega (arith, r.written)) (omega arith) in
          let (scratch1, step) =
            round env a roomy label e offset end dst_len left local p d out (block_part p d) scratch
              r.blocks.1 r.blocks.0 (omega (arith, r.counted)) piece in
          let (scratch2, rest) =
            loop left (local + 1) (p + a.chunk_size) ds (out ++ block_part p d) scratch1 (record {
              blocks = r.blocks.2;
              cut = r.cut.3;
              covers = r.covers.1;
              position = omega (arith, r.position);
              counted = omega (arith, r.counted);
              enough = later;
              started = omega (arith, r.started);
              written =
                  written_next env a roomy label e offset end dst_len p d out (block_part p d) refl
                    r.written some_bytes here reach
                  ∙ ap (λ t. t - offset) same_end;
            }) in
          let pieces =
            piece_of_first d (join ds) offset end p some_bytes here (omega (arith, reach)) in
          let tail = rest_from p d ds r.cut.2 in
          (
            scratch2,
            step
                ∙ rest
                ∙ ap (λ t. ok (t, scratch2))
                    (append_assoc out (block_part p d) (part_from (p + a.chunk_size) (join ds))
                      ∙ ap (λ t. out ++ (block_part p d ++ t)) (sym tail)
                      ∙ ap (λ t. out ++ t) (sym pieces)),
          )
