-- ===== src/Archive/Read.antt =====
-- Reading whole entries and single chunks, and verification, of
-- crates/rasen-archive/src/archive/reader.rs.
pub mod Blocks
pub mod Whole
use rasen_archive.Prelude.{ℕ, zero, suc, ◌+◌, List, [], ◌∷◌, ◌++◌, Bool, true, false, not}
use rasen_archive.Prelude.{if◌then◌else◌, leb, ltb, ◌==◌, length, checked_add, get_elem?, u32_mod}
use rasen_archive.Error.{
  Fallible, ok, err, ◌>>=◌, ◌>>◌, guard, ok_or, or_panic, corrupt, buffer_size_mismatch,
  chunk_out_of_range, too_many_chunks,
}
use rasen_archive.Platform.{Platform}
use rasen_archive.VirtualPath.{normalize_lookup_path}
use rasen_archive.Format.Io.{u64_to_usize}
use rasen_archive.Archive.Model.{Archive, Entry, ArchiveScratch, no_scratch}
use rasen_archive.Archive.Lookup.{find_entry_index_normalized, find_entry_index_by_id, entry_at}
use rasen_archive.Archive.Chunks.{
  ChecksumLabel, path_label, hash_of, allocate, resize_buffer, ensure_chunk_operation_limit, chunk,
  global_index, read_chunk_by_index_into,
}

module _ (env : Platform) (a : Archive) where
  -- The loop over the chunks of an entry: `out` is `dst[..written]`. The first number is that of the
  -- chunks left.
  unfoldable pub read_entry_chunks :
      ChecksumLabel → ℕ → ℕ → ℕ → ℕ → List ℕ → List ℕ → Fallible (List ℕ × List ℕ)
  read_entry_chunks label first_chunk dst_len zero local_chunk out stored = do
    guard (length out == dst_len) (corrupt "entry decompressed size mismatch")
    ok (out, stored)
  read_entry_chunks label first_chunk dst_len (suc left) local_chunk out stored = do
    global_chunk ← global_index env a first_chunk local_chunk
    c ← chunk env a global_chunk
    len ← u64_to_usize c.original_size "original chunk size"
    end ← ok_or (checked_add (length out) len) (corrupt "entry decompressed size overflow")
    guard (leb end dst_len) (corrupt "entry decompressed size mismatch")
    (bytes, stored) ← read_chunk_by_index_into env a label local_chunk global_chunk len stored
    read_entry_chunks label first_chunk dst_len left (local_chunk + 1) (out ++ bytes) stored

  unfoldable pub read_entry_into :
      ℕ → ChecksumLabel → ℕ → ArchiveScratch → Fallible (List ℕ × ArchiveScratch)
  read_entry_into idx label dst_len scratch = do
    entry ← ok_or (get_elem? a.entries idx) (corrupt "entry index outside TOC")
    ensure_chunk_operation_limit env a entry.chunk_count
    expected ← u64_to_usize entry.original_size "original entry size"
    guard (dst_len == expected) (buffer_size_mismatch expected dst_len)
    (out, stored) ←
        read_entry_chunks label entry.first_chunk dst_len entry.chunk_count 0 [] scratch.stored
    ok (out, record scratch { stored = stored })

  -- The common tail of `read` and `read_by_id`.
  unfoldable pub read_found : ℕ → ChecksumLabel → Fallible (List ℕ)
  read_found idx label = do
    entry ← entry_at env a idx
    ensure_chunk_operation_limit env a entry.chunk_count
    size ← u64_to_usize entry.original_size "original entry size"
    out ← allocate env size "entry allocation"
    (dst, scratch) ← read_entry_into idx label (length out) no_scratch
    ok dst

  unfoldable pub read : List ℕ → Fallible (List ℕ)
  read path = do
    normalized ← normalize_lookup_path env path
    idx ← find_entry_index_normalized env a normalized
    read_found idx (path_label normalized)

  unfoldable pub read_by_id : ℕ → Fallible (List ℕ)
  read_by_id asset_id = do
    idx ← find_entry_index_by_id env a asset_id
    entry ← entry_at env a idx
    read_found idx (if a.paths_stripped then hash_of asset_id else path_label entry.path)

  unfoldable pub read_by_hash : ℕ → Fallible (List ℕ)
  read_by_hash path_hash = read_by_id path_hash

  unfoldable pub read_into_with_scratch :
      List ℕ → ℕ → ArchiveScratch → Fallible (List ℕ × ArchiveScratch)
  read_into_with_scratch path dst_len scratch = do
    normalized ← normalize_lookup_path env path
    idx ← find_entry_index_normalized env a normalized
    read_entry_into idx (path_label normalized) dst_len scratch

  unfoldable pub read_into : List ℕ → ℕ → Fallible (List ℕ)
  read_into path dst_len = do
    (dst, scratch) ← read_into_with_scratch path dst_len no_scratch
    ok dst

  unfoldable pub read_chunk_into_with_scratch :
      List ℕ → ℕ → ℕ → ArchiveScratch → Fallible (List ℕ × ArchiveScratch)
  read_chunk_into_with_scratch path chunk_index dst_len scratch = do
    normalized ← normalize_lookup_path env path
    idx ← find_entry_index_normalized env a normalized
    entry ← entry_at env a idx
    guard (ltb chunk_index entry.chunk_count) (chunk_out_of_range chunk_index entry.chunk_count)
    global_chunk ← global_index env a entry.first_chunk chunk_index
    (dst, stored) ←
        read_chunk_by_index_into env a (path_label normalized) chunk_index global_chunk dst_len
          scratch.stored
    ok (dst, record scratch { stored = stored })

  unfoldable pub read_chunk_into : List ℕ → ℕ → ℕ → Fallible (List ℕ)
  read_chunk_into path chunk_index dst_len = do
    (dst, scratch) ← read_chunk_into_with_scratch path chunk_index dst_len no_scratch
    ok dst

  unfoldable pub read_chunk : List ℕ → ℕ → Fallible (List ℕ)
  read_chunk path chunk_index = do
    normalized ← normalize_lookup_path env path
    idx ← find_entry_index_normalized env a normalized
    entry ← entry_at env a idx
    guard (ltb chunk_index entry.chunk_count) (chunk_out_of_range chunk_index entry.chunk_count)
    global_chunk ← global_index env a entry.first_chunk chunk_index
    ensure_chunk_operation_limit env a 1
    c ← chunk env a global_chunk
    size ← u64_to_usize c.original_size "original chunk size"
    out ← allocate env size "chunk allocation"
    (dst, stored) ←
        read_chunk_by_index_into env a (path_label normalized) chunk_index global_chunk (length out)
          []
    ok dst

  -- The inner loop of `verify`, with the number of chunks left.
  unfoldable pub verify_chunks :
      ChecksumLabel → ℕ → ℕ → ℕ → ArchiveScratch → Fallible ArchiveScratch
  verify_chunks label first_chunk zero local_chunk scratch = ok scratch
  verify_chunks label first_chunk (suc left) local_chunk scratch = do
    global_chunk ← global_index env a first_chunk local_chunk
    c ← chunk env a global_chunk
    len ← u64_to_usize c.original_size "original chunk size"
    decoded ← resize_buffer env scratch.decoded len "decoded chunk allocation"
    (decoded, stored) ←
        read_chunk_by_index_into env a label local_chunk global_chunk (length decoded)
          scratch.stored
    verify_chunks label first_chunk left (local_chunk + 1)
        (record { stored = stored; decoded = decoded })

  unfoldable pub verify_entries : List Entry → ArchiveScratch → Fallible (Unit {0})
  verify_entries [] scratch = ok tt
  verify_entries (entry ∷ entries) scratch = do
    scratch ←
        verify_chunks (if a.paths_stripped then hash_of entry.path_hash else path_label entry.path)
          entry.first_chunk entry.chunk_count 0 scratch
    verify_entries entries scratch

  unfoldable pub verify : Fallible (Unit {0})
  verify = do
    guard (ltb (length a.chunks) u32_mod) too_many_chunks
    ensure_chunk_operation_limit env a (length a.chunks)
    verify_entries a.entries no_scratch
