-- ===== src/Format/Layout/Placement.antt =====
-- What the loop over chunks of `validate_layout` checks: where chunks lie, and their sizes.
use rasen_archive.Prelude.{
  ℕ, zero, suc, ◌+◌, ◌-◌, ◌%◌, ◌<◌, ◌≤◌, ◌≡◌, refl, List, [], ◌∷◌, Bool, true, false,
}
use rasen_archive.Prelude.{some, get_elem?, arith, u64_mod}
use mathlib.Core.Path.{subst}
use rasen_archive.Error.{ok, >>=-eq-ok}
use rasen_archive.Format
use rasen_archive.Format.Model.{Chunk}
use rasen_archive.Format.Layout.{Bounds, payload_size, check_chunk, check_chunks}

-- The bounds are words.
pub record IsBounds (b : Bounds) : Type 0 where
  pub toc_offset_fits : b.toc_offset < u64_mod
  pub total_fits : b.max_total_decompressed_bytes < u64_mod

-- Bytes that encryption adds to a chunk.
abbrev pub overhead : Bool → ℕ
overhead true = 40
overhead false = 0

-- Whether compression pays: a compressed payload is smaller than the chunk, a raw one is the chunk.
abbrev pub PayloadSize : Bool → ℕ → ℕ → Type 0
PayloadSize true payload original = payload < original
PayloadSize false payload original = payload ≡ original

-- A chunk of an admissible size that lies, aligned, between `previous_end` and the TOC.
pub record IsPlaced (b : Bounds) (previous_end : ℕ) (c : Chunk) : Type 0 where
  pub original_pos : 0 < c.original_size
  pub original_small : c.original_size ≤ b.chunk_size
  pub payload_pos : overhead b.aead < c.stored_size
  pub payload_sized : PayloadSize c.compressed (c.stored_size - overhead b.aead) c.original_size
  pub after_header : Format.header_size ≤ c.offset
  pub aligned : c.offset % b.alignment ≡ 0
  pub after_previous : previous_end ≤ c.offset
  pub before_toc : c.offset + c.stored_size ≤ b.toc_offset

-- The chunks lie one behind the other, and their original sizes stay within the limit.
abbrev pub ArePlaced : Bounds → ℕ → ℕ → List Chunk → Type 0
ArePlaced b previous_end total [] = Unit
ArePlaced b previous_end total (c ∷ cs) =
    IsPlaced b previous_end c
    × (total + c.original_size ≤ b.max_total_decompressed_bytes)
    × ArePlaced b (c.offset + c.stored_size) (total + c.original_size) cs

module _ (b : Bounds) (previous_end total : ℕ) (c : Chunk) where
  check_chunk_sound :
      {end total' : ℕ}
      → check_chunk b previous_end total c ≡ ok (end, total')
      → IsPlaced b previous_end c
        × (total + c.original_size ≤ b.max_total_decompressed_bytes)
        × (end ≡ c.offset + c.stored_size)
        × (total' ≡ total + c.original_size)
  unfolding check_chunk payload_size
  check_chunk_sound h = ground arith

  check_chunk_complete :
      IsBounds b
      → IsPlaced b previous_end c
      → total + c.original_size ≤ b.max_total_decompressed_bytes
      → check_chunk b previous_end total c ≡ ok (c.offset + c.stored_size, total + c.original_size)
  unfolding check_chunk payload_size
  check_chunk_complete v p fits = ground arith

pub check_chunks_sound :
    (b : Bounds) (previous_end total : ℕ) (cs : List Chunk)
    → check_chunks b previous_end total cs ≡ ok tt
    → ArePlaced b previous_end total cs
unfolding check_chunks
check_chunks_sound b previous_end total [] h = tt
check_chunks_sound b previous_end total (c ∷ cs) h =
    let ((end, total'), first, rest) = >>=-eq-ok (check_chunk b previous_end total c) _ h in
    let (placed, fits, at_end, at_total) = check_chunk_sound b previous_end total c first in
    (
      placed,
      fits,
      check_chunks_sound b (c.offset + c.stored_size) (total + c.original_size) cs
          (rw (at_end, at_total) at rest),
    )

pub check_chunks_complete :
    (b : Bounds) (previous_end total : ℕ) (cs : List Chunk)
    → IsBounds b
    → ArePlaced b previous_end total cs
    → check_chunks b previous_end total cs ≡ ok tt
unfolding check_chunks
check_chunks_complete b previous_end total [] v h = refl
check_chunks_complete b previous_end total (c ∷ cs) v h =
    rw (check_chunk_complete b previous_end total c v h.0 h.1)
      (check_chunks_complete b (c.offset + c.stored_size) (total + c.original_size) cs v h.2)

-- Every chunk of a placed list is placed, behind the start of the list.
pub ArePlaced-get_elem? :
    (b : Bounds) (previous_end total : ℕ) (cs : List Chunk) (i : ℕ) {c : Chunk}
    → ArePlaced b previous_end total cs
    → get_elem? cs i ≡ some c
    → IsPlaced b previous_end c
ArePlaced-get_elem? b previous_end total [] i h e = cc
ArePlaced-get_elem? b previous_end total (x ∷ cs) zero {c} h e =
    let same : x ≡ c = cc in subst (IsPlaced b previous_end) same h.0
ArePlaced-get_elem? b previous_end total (x ∷ cs) (suc i) h e =
    let later =
      ArePlaced-get_elem? b (x.offset + x.stored_size) (total + x.original_size) cs i h.2 e in
    record {
      original_pos = later.original_pos;
      original_small = later.original_small;
      payload_pos = later.payload_pos;
      payload_sized = later.payload_sized;
      after_header = later.after_header;
      aligned = later.aligned;
      after_previous = omega (arith, h.0.after_previous, later.after_previous);
      before_toc = later.before_toc;
    }

-- Two chunks of a placed list do not overlap.
pub ArePlaced-disjoint :
    (b : Bounds) (previous_end total : ℕ) (cs : List Chunk) (i j : ℕ) {c d : Chunk}
    → ArePlaced b previous_end total cs
    → i < j
    → get_elem? cs i ≡ some c
    → get_elem? cs j ≡ some d
    → c.offset + c.stored_size ≤ d.offset
ArePlaced-disjoint b previous_end total [] i j h less e f = cc
ArePlaced-disjoint b previous_end total (x ∷ cs) i zero h less e f = absurd (omega arith)
ArePlaced-disjoint b previous_end total (x ∷ cs) zero (suc j) {c} {d} h less e f =
    let later =
      ArePlaced-get_elem? b (x.offset + x.stored_size) (total + x.original_size) cs j h.2 f in
    let same : x ≡ c = cc in
    subst (λ (y : Chunk). y.offset + y.stored_size ≤ d.offset) same later.after_previous
ArePlaced-disjoint b previous_end total (x ∷ cs) (suc i) (suc j) h less e f =
    ArePlaced-disjoint b (x.offset + x.stored_size) (total + x.original_size) cs i j h.2
      (omega arith) e f
