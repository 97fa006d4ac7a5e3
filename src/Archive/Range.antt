-- ===== src/Archive/Range.antt =====
-- Reading a part of an entry, of crates/rasen-archive/src/archive/reader.rs.
pub mod Pieces
pub mod Round
pub mod Loop
pub mod Skip
pub mod Slice
pub mod Bytes
use rasen_archive.Prelude.{
  ℕ, zero, suc, ◌+◌, ◌-◌, List, [], ◌++◌, Bool, true, false, not, ◌||◌, ◌&&◌,
}
use rasen_archive.Prelude.{
  if◌then◌else◌, leb, ltb, ◌==◌, length, checked_add, checked_sub, checked_mul,
}
use rasen_archive.Prelude.{Option, some, none, slice, max, min, u32_mod, drop}
use rasen_archive.Error.{
  Fallible, ok, err, ◌>>=◌, ◌>>◌, guard, ok_or, require, sub_word, div_word, corrupt, too_large,
  invalid_range, too_many_chunks,
}
use rasen_archive.Platform.{Platform}
use rasen_archive.VirtualPath.{normalize_lookup_path}
use rasen_archive.Format.Io.{u64_to_usize, usize_to_u64}
use rasen_archive.Archive.Model.{Archive, Entry, ArchiveScratch, no_scratch}
use rasen_archive.Archive.Lookup.{find_entry_index_normalized, entry_at}
use rasen_archive.Archive.Chunks.{
  ChecksumLabel, path_label, allocate, resize_buffer, ensure_chunk_operation_limit, chunk,
  global_index, read_chunk_by_index_into,
}

-- `u32::try_from(v).ok()`
abbrev pub to_u32 : ℕ → Option ℕ
to_u32 v = if ltb v u32_mod then some v else none

module _ (env : Platform) (a : Archive) where
  -- The check of the number of chunks that a range touches.
  unfoldable pub check_range_chunks : ℕ → ℕ → Fallible (Unit {0})
  check_range_chunks offset actual_len = do
    len ← usize_to_u64 actual_len "range length"
    end ← ok_or (checked_add offset len) invalid_range
    first ← div_word offset a.chunk_size
    last_byte ← sub_word end 1
    last ← div_word last_byte a.chunk_size
    span ← ok_or (checked_sub last first) too_many_chunks
    number ← ok_or (checked_add span 1) too_many_chunks
    count ← ok_or (to_u32 number) too_many_chunks
    ensure_chunk_operation_limit env a count

  -- What follows the `match`, for an offset below the size and a length above 0.
  unfoldable pub clip_range : ℕ → ℕ → ℕ → Bool → Fallible ℕ
  clip_range size offset len exact = do
    wide ← usize_to_u64 len "range length"
    requested_end ← ok_or (checked_add offset wide) invalid_range
    guard (not exact || leb requested_end size) invalid_range
    width ← sub_word (min requested_end size) offset
    actual_len ← u64_to_usize width "range result size"
    if actual_len == 0
        then ok actual_len
        else do check_range_chunks offset actual_len; ok actual_len

  -- `match (offset.cmp(&size), len, exact)`
  unfoldable pub range_len : ℕ → ℕ → ℕ → Bool → Fallible ℕ
  range_len idx offset len exact = do
    entry ← entry_at env a idx
    let size = entry.original_size
    if ltb size offset || (offset == size && (not (len == 0) && exact))
        then err invalid_range
        else if len == 0 || offset == size
        then ok 0
        else clip_range size offset len exact

  -- The bounds within one chunk of the bytes that the range has of it.
  unfoldable pub chunk_bounds : ℕ → ℕ → ℕ → ℕ → Fallible (ℕ × ℕ)
  chunk_bounds offset end local_chunk original_size = do
    chunk_start ←
        ok_or (checked_mul local_chunk a.chunk_size) (corrupt "range chunk offset overflow")
    chunk_end ← ok_or (checked_add chunk_start original_size) (corrupt "range chunk end overflow")
    from ← sub_word (max offset chunk_start) chunk_start
    take_start ← u64_to_usize from "range slice start"
    to ← sub_word (min end chunk_end) chunk_start
    take_end ← u64_to_usize to "range slice end"
    ok (take_start, take_end)

  -- What one chunk adds to the `written` bytes of a buffer of `dst_len` bytes.
  unfoldable pub chunk_part : ℕ → ℕ → ℕ → ℕ → ℕ → ℕ → List ℕ → Fallible (List ℕ)
  chunk_part offset end dst_len written local_chunk original_size decoded = do
    (take_start, take_end) ← chunk_bounds offset end local_chunk original_size
    amount ← ok_or (checked_sub take_end take_start) (corrupt "range slice order")
    written_end ← ok_or (checked_add written amount) (corrupt "range output size overflow")
    guard (leb written_end dst_len) (corrupt "range output size mismatch")
    ok_or (slice decoded take_start take_end) (corrupt "range chunk slice mismatch")

  -- The loop over the chunks that the range touches: `out` is `dst[..written]`, and the first number is
  -- that of the chunks left.
  unfoldable pub read_range_chunks :
      ChecksumLabel
      → Entry
      → ℕ
      → ℕ
      → ℕ
      → ℕ
      → ℕ
      → List ℕ
      → ArchiveScratch
      → Fallible (List ℕ × ArchiveScratch)
  read_range_chunks label entry offset end dst_len zero local_chunk out scratch = do
    guard (length out == dst_len) (corrupt "range decompressed size mismatch")
    ok (out, scratch)
  read_range_chunks label entry offset end dst_len (suc left) local_chunk out scratch = do
    guard (ltb local_chunk entry.chunk_count) (corrupt "entry chunk range mismatch")
    global_chunk ← global_index env a entry.first_chunk local_chunk
    c ← chunk env a global_chunk
    chunk_len ← u64_to_usize c.original_size "original chunk size"
    decoded ← resize_buffer env scratch.decoded chunk_len "decoded chunk allocation"
    (decoded, stored) ←
        read_chunk_by_index_into env a label local_chunk global_chunk (length decoded)
          scratch.stored
    part ← chunk_part offset end dst_len (length out) local_chunk c.original_size decoded
    read_range_chunks label entry offset end dst_len left (local_chunk + 1) (out ++ part)
        (record { stored = stored; decoded = decoded })

  unfoldable pub read_range_index_into :
      ℕ → ChecksumLabel → ℕ → ℕ → ArchiveScratch → Fallible (List ℕ × ArchiveScratch)
  read_range_index_into idx label offset dst_len scratch =
      if dst_len == 0 then ok ([], scratch) else do
        entry ← entry_at env a idx
        len ← usize_to_u64 dst_len "range length"
        end ← ok_or (checked_add offset len) invalid_range
        first ← div_word offset a.chunk_size
        first_local ← ok_or (to_u32 first) (too_large "range chunk index")
        last_byte ← sub_word end 1
        last ← div_word last_byte a.chunk_size
        last_local ← ok_or (to_u32 last) (too_large "range chunk index")
        read_range_chunks label entry offset end dst_len (last_local + 1 - first_local) first_local
            [] scratch

  -- A buffer of the length that is read: a new one, or `&mut dst[..actual_len]`.
  abbrev pub prepare_dst : Bool → ℕ → ℕ → Fallible (Unit {0})
  prepare_dst true actual_len dst_len = allocate env actual_len "range allocation" >>= λ out. ok tt
  prepare_dst false actual_len dst_len = require (leb actual_len dst_len)

  -- The common tail of the four functions on ranges: the length that is read, and the bytes.
  unfoldable pub read_range_found :
      List ℕ → ℕ → ℕ → Bool → Bool → ArchiveScratch → Fallible (ℕ × List ℕ × ArchiveScratch)
  read_range_found path offset len exact allocates scratch = do
    normalized ← normalize_lookup_path env path
    idx ← find_entry_index_normalized env a normalized
    actual_len ← range_len idx offset len exact
    prepare_dst allocates actual_len len
    (out, scratch) ← read_range_index_into idx (path_label normalized) offset actual_len scratch
    ok (actual_len, out, scratch)

  unfoldable pub read_range : List ℕ → ℕ → ℕ → Fallible (List ℕ)
  read_range path offset len = do
    (n, out, scratch) ← read_range_found path offset len false true no_scratch
    ok out

  unfoldable pub read_range_exact : List ℕ → ℕ → ℕ → Fallible (List ℕ)
  read_range_exact path offset len = do
    (n, out, scratch) ← read_range_found path offset len true true no_scratch
    ok out

  -- The length that is read, and the buffer afterwards.
  unfoldable pub read_range_with_scratch :
      List ℕ → ℕ → List ℕ → ArchiveScratch → Fallible (ℕ × List ℕ × ArchiveScratch)
  read_range_with_scratch path offset dst scratch = do
    (n, out, scratch) ← read_range_found path offset (length dst) false false scratch
    ok (n, out ++ drop n dst, scratch)

  unfoldable pub read_range_into : List ℕ → ℕ → List ℕ → Fallible (ℕ × List ℕ)
  read_range_into path offset dst = do
    (n, dst, scratch) ← read_range_with_scratch path offset dst no_scratch
    ok (n, dst)
