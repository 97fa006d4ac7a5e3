-- ===== src/Format/Layout.antt =====
-- `validate_layout` of crates/rasen-archive/src/format/toc.rs.
pub mod Placement
pub mod Owners
pub mod Sound
use rasen_archive.Prelude.{ℕ, ◌+◌, ◌%◌, List, [], ◌∷◌, Bool, true, false, not, ◌&&◌, ◌||◌}
use rasen_archive.Prelude.{if◌then◌else◌, leb, ltb, ◌==◌, length, get_elem?, replicate, slice}
use rasen_archive.Prelude.{checked_add, checked_sub, set}
use rasen_archive.Error.{
  Fallible, ok, err, ◌>>=◌, ◌>>◌, guard, ok_or, or_panic, add_word, corrupt, too_large,
  archive_too_large,
}
use rasen_archive.Platform.{Platform, reserve}
use rasen_archive.Crypto.Aead.{aead_overhead}
use rasen_archive.Format
use rasen_archive.Format.Model.{TocEntry, Chunk}

-- The arguments of `validate_layout` besides the tables.
pub record Bounds : Type 0 where
  pub toc_offset : ℕ
  pub chunk_size : ℕ
  pub alignment : ℕ
  pub aead : Bool
  pub max_total_decompressed_bytes : ℕ

-- `u64::is_multiple_of`: only 0 is a multiple of 0.
abbrev pub is_multiple_of : ℕ → ℕ → Bool
is_multiple_of n d = n % d == 0

unfoldable pub payload_size : Bool → Chunk → Fallible ℕ
payload_size true chunk =
    ok_or (checked_sub chunk.stored_size aead_overhead) (corrupt "encrypted chunk is truncated")
payload_size false chunk = ok chunk.stored_size

-- One round of the loop over chunks: `previous_end` and `total_decompressed` after it.
unfoldable pub check_chunk : Bounds → ℕ → ℕ → Chunk → Fallible (ℕ × ℕ)
check_chunk b previous_end total_decompressed chunk = do
  payload ← payload_size b.aead chunk
  guard (not (chunk.original_size == 0) && leb chunk.original_size b.chunk_size)
      (corrupt "invalid chunk original size")
  guard (not (payload == 0) && leb payload chunk.original_size)
      (corrupt "invalid stored chunk size")
  guard (not chunk.compressed || ltb payload chunk.original_size)
      (corrupt "non-beneficial compressed chunk")
  guard (chunk.compressed || payload == chunk.original_size) (corrupt "raw chunk size mismatch")
  guard (leb Format.header_size chunk.offset && is_multiple_of chunk.offset b.alignment)
      (corrupt "invalid chunk alignment")
  guard (leb previous_end chunk.offset) (corrupt "overlapping or out-of-order chunks")
  end ← ok_or (checked_add chunk.offset chunk.stored_size) (corrupt "chunk range overflow")
  guard (leb end b.toc_offset) (corrupt "chunk outside payload region")
  total ←
      ok_or (checked_add total_decompressed chunk.original_size)
        (too_large "total decompressed size")
  guard (leb total b.max_total_decompressed_bytes) archive_too_large
  ok (end, total)

unfoldable pub check_chunks : Bounds → ℕ → ℕ → List Chunk → Fallible (Unit {0})
check_chunks b previous_end total_decompressed [] = ok tt
check_chunks b previous_end total_decompressed (chunk ∷ chunks) = do
  (end, total) ← check_chunk b previous_end total_decompressed chunk
  check_chunks b end total chunks

-- `match (original_size, chunk_count, stored_size)`
unfoldable pub check_shape : TocEntry → Fallible (Unit {0})
check_shape entry =
    if entry.original_size == 0
    then (if entry.chunk_count == 0 && entry.stored_size == 0
        then ok tt
        else err (corrupt "empty entry has chunks"))
    else (if entry.chunk_count == 0 then err (corrupt "non-empty entry has no chunks") else ok tt)

-- What the loop over the chunks of an entry carries.
pub record Ownership : Type 0 where
  pub used_chunks : List Bool
  pub raw_total : ℕ
  pub stored_total : ℕ

-- The loop over `owned.iter().enumerate()`: the chunks from the one numbered `local` on, of `count`.
unfoldable pub own_chunks : ℕ → ℕ → ℕ → ℕ → List Chunk → Ownership → Fallible Ownership
own_chunks chunk_size first count local [] s = ok s
own_chunks chunk_size first count local (chunk ∷ chunks) s = do
  global ← add_word first local
  used ← or_panic (get_elem? s.used_chunks global)
  guard (not used) (corrupt "chunk is referenced by multiple entries")
  raw_total ←
      ok_or (checked_add s.raw_total chunk.original_size) (corrupt "entry raw size overflow")
  stored_total ←
      ok_or (checked_add s.stored_total chunk.stored_size) (corrupt "entry stored size overflow")
  guard (local + 1 == count || chunk.original_size == chunk_size)
      (corrupt "non-final chunk has unexpected size")
  own_chunks chunk_size first count (local + 1) chunks (record {
    used_chunks = set s.used_chunks global true;
    raw_total = raw_total;
    stored_total = stored_total;
  })

-- One round of the loop over entries.
unfoldable pub check_entry : Bounds → List Chunk → List Bool → TocEntry → Fallible (List Bool)
check_entry b chunks used_chunks entry = do
  end ←
      ok_or (checked_add entry.first_chunk entry.chunk_count) (corrupt "entry chunk range overflow")
  owned ← ok_or (slice chunks entry.first_chunk end) (corrupt "entry chunk range outside TOC")
  check_shape entry
  s ←
      own_chunks b.chunk_size entry.first_chunk (length owned) 0 owned
        (record { used_chunks = used_chunks; raw_total = 0; stored_total = 0 })
  guard (s.raw_total == entry.original_size) (corrupt "entry original size mismatch")
  guard (s.stored_total == entry.stored_size) (corrupt "entry stored size mismatch")
  ok s.used_chunks

unfoldable pub check_entries :
    Bounds → List Chunk → List Bool → List TocEntry → Fallible (List Bool)
check_entries b chunks used_chunks [] = ok used_chunks
check_entries b chunks used_chunks (entry ∷ entries) = do
  used_chunks ← check_entry b chunks used_chunks entry
  check_entries b chunks used_chunks entries

unfoldable pub all_used : List Bool → Bool
all_used [] = true
all_used (used ∷ rest) = used && all_used rest

module _ (env : Platform) where
  unfoldable pub validate_layout : List TocEntry → List Chunk → Bounds → Fallible (Unit {0})
  validate_layout entries chunks b = do
    check_chunks b Format.header_size 0 chunks
    reserve env (length chunks) "chunk ownership allocation"
    used_chunks ← check_entries b chunks (replicate (length chunks) false) entries
    guard (all_used used_chunks) (corrupt "orphan chunk in TOC")
