-- ===== src/Archive/Range/Round.antt =====
-- One round of the loop of `read_range_index_into` of crates/rasen-archive/src/archive/reader.rs.
use rasen_archive.Prelude.{ℕ, zero, suc, ◌+◌, ◌-◌, ◌*◌, ◌<◌, ◌≤◌, max, min, ◌≡◌, ap, ◌⊎◌}
use rasen_archive.Prelude.{List, [], ◌∷◌, ◌++◌, length, length-append, length-take, length-drop}
use rasen_archive.Prelude.{
  take, drop, replicate, length-replicate, arith, u32_mod, u64_mod, lt→ltb, slice,
}
use rasen_archive.Error.{ok}
use rasen_archive.Platform.{Platform, IsRoomy}
use rasen_archive.Format.Io.{u64_to_usize}
use rasen_archive.Archive.Model.{Archive, Entry, ArchiveScratch}
use rasen_archive.Archive.Chunks.{ChecksumLabel, resize_buffer, chunk, global_index}
use rasen_archive.Archive.Chunks.Decode.{Decodes}
use rasen_archive.Archive.Range.{chunk_bounds, chunk_part, read_range_chunks}

-- Blocks from position `p` on, all full but the last.
abbrev pub IsCut : ℕ → ℕ → List (List ℕ) → Type 0
IsCut chunk_size p [] = Unit
IsCut chunk_size p (d ∷ ds) =
    (length d ≤ chunk_size)
    × (p + length d < u64_mod)
    × ((length d ≡ chunk_size) ⊎ (ds ≡ []))
    × IsCut chunk_size (p + chunk_size) ds

-- This many blocks from `p` on reach the end, and no fewer.
abbrev pub Covers : ℕ → ℕ → ℕ → ℕ → Type 0
Covers chunk_size end p zero = end ≤ p
Covers chunk_size end p (suc left) = (p < end) × Covers chunk_size end (p + chunk_size) left

pub chunk_part_slice :
    (env : Platform) (a : Archive) (offset end dst_len written local p : ℕ) (d : List ℕ)
    → p ≡ local * a.chunk_size
    → p + length d < u64_mod
    → offset < end
    → p < end
    → end < u64_mod
    → offset < p + length d
    → written + (min end (p + length d) - max offset p) ≤ dst_len
    → dst_len < u64_mod
    → chunk_part env a offset end dst_len written local (length d) d
      ≡ ok (take (min end (p + length d) - p - (max offset p - p)) (drop (max offset p - p) d))
unfolding chunk_part chunk_bounds u64_to_usize slice
chunk_part_slice env a offset end dst_len written local p d e h1 h2 h3 h4 h5 h6 h7 =
    ground (arith, e)

module _ (env : Platform) (a : Archive) (roomy : IsRoomy env) where
  resized :
      (buffer : List ℕ) (len : ℕ)
      → (b : List ℕ) × (resize_buffer env buffer len "decoded chunk allocation" ≡ ok b)
        × (length b ≡ len)
  unfolding resize_buffer
  resized buffer len =
      let more = len - length buffer in
      (
        take len (buffer ++ replicate more 0),
        rw (roomy more),
        omega (
          arith,
          length-take len (buffer ++ replicate more 0),
          length-append buffer (replicate more 0),
          length-replicate {A = ℕ} more 0,
        ),
      )

  module _ (label : ChecksumLabel) (e : Entry) (offset end dst_len : ℕ) where
    -- One round, on a block that decodes.
    pub round :
        (left local p : ℕ) (d out part : List ℕ) (scratch : ArchiveScratch)
        → Decodes env a (e.first_chunk + local) d
        → e.first_chunk + local < u32_mod
        → local < e.chunk_count
        → chunk_part env a offset end dst_len (length out) local (length d) d ≡ ok part
        → (scratch' : ArchiveScratch) × (read_range_chunks env a label e offset end dst_len
              (suc left)
              local
              out
              scratch
            ≡ read_range_chunks env a label e offset end dst_len left
                (local + 1)
                (out ++ part)
                scratch')
    unfolding read_range_chunks global_index chunk u64_to_usize
    round left local p d out part scratch decodes fits inside piece =
        let (b, resize, same) = resized scratch.decoded decodes.chunk_of.original_size in
        let (stored', loaded) = decodes.always label local scratch.stored in
        (
          record { stored = stored'; decoded = d },
          rw (
            lt→ltb _ _ inside,
            lt→ltb _ _ fits,
            decodes.at_index,
            lt→ltb _ _ decodes.fits,
            resize,
            same,
            loaded,
            ← decodes.sized,
            piece,
          ),
        )

    -- The position in the output once the blocks before `p` are read, and then the part of block `d`.
    pub written_next :
        (p : ℕ) (d out part : List ℕ)
        → part ≡ take (min end (p + length d) - p - (max offset p - p)) (drop (max offset p - p) d)
        → length out ≡ min p end - offset
        → offset < end
        → p < end
        → offset < p + length d
        → length (out ++ part) ≡ min end (p + length d) - offset
    written_next p d out part same h1 h2 h3 h4 = omega (
      arith,
      length-append out part,
      ap length same,
      length-take (min end (p + length d) - p - (max offset p - p)) (drop (max offset p - p) d),
      length-drop (max offset p - p) d,
    )
