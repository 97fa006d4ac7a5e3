-- ===== src/Archive/Chunks.antt =====
-- Reading one chunk, of crates/rasen-archive/src/archive/reader.rs. What a read leaves in `dst` is its
-- result; `stored` is the caller's scratch buffer, before and after.
pub mod Decode
use rasen_archive.Prelude.{ℕ, ◌+◌, ◌-◌, List, [], ◌∷◌, ◌++◌, Bool, true, false, not, String}
use rasen_archive.Prelude.{
  Option, some, none, if◌then◌else◌, leb, ltb, ◌==◌, get_elem?, length, take,
}
use rasen_archive.Prelude.{replicate, u32_mod}
use rasen_archive.Error.{
  Fallible, ok, err, ◌>>=◌, ◌>>◌, guard, ok_or, from_io, corrupt, too_many_chunks,
  buffer_size_mismatch, checksum_mismatch,
}
use rasen_archive.Platform.{Platform, reserve}
use rasen_archive.Crypto.Aead.{chunk_aad, decrypt}
use rasen_archive.Compression.{decompress_into_exact}
use rasen_archive.Format.Model.{Chunk}
use rasen_archive.Format.Io.{u64_to_usize}
use rasen_archive.Archive.Model.{Archive}
use rasen_archive.Archive.Lookup.{hash_label}

pub data ChecksumLabel : Type 0 where
  path_label : List ℕ → ChecksumLabel
  hash_of : ℕ → ChecksumLabel

unfoldable pub to_error_string : ChecksumLabel → List ℕ
to_error_string (path_label path) = path
to_error_string (hash_of id) = hash_label id

-- `u32::checked_add`
abbrev pub checked_add_u32 : ℕ → ℕ → Option ℕ
checked_add_u32 a b = if ltb (a + b) u32_mod then some (a + b) else none

module _ (env : Platform) where
  -- `Vec::resize` with zeroes.
  unfoldable pub resize_buffer : List ℕ → ℕ → String → Fallible (List ℕ)
  resize_buffer buffer len what = do
    reserve env (len - length buffer) what
    ok (take len (buffer ++ replicate (len - length buffer) 0))

  unfoldable pub allocate : ℕ → String → Fallible (List ℕ)
  allocate len what = do reserve env len what; ok (replicate len 0)

module _ (env : Platform) (a : Archive) where
  unfoldable pub ensure_chunk_operation_limit : ℕ → Fallible (Unit {0})
  ensure_chunk_operation_limit count = guard (leb count a.max_chunks_per_operation) too_many_chunks

  unfoldable pub chunk : ℕ → Fallible Chunk
  chunk global_chunk = ok_or (get_elem? a.chunks global_chunk) (corrupt "chunk index outside TOC")

  -- `global_chunk` of a chunk of an entry
  unfoldable pub global_index : ℕ → ℕ → Fallible ℕ
  global_index first_chunk local_chunk =
      ok_or (checked_add_u32 first_chunk local_chunk) (corrupt "chunk index overflow")

  -- `match aead_key`
  unfoldable pub decrypt_chunk : Option (List ℕ) → ℕ → List ℕ → Fallible (List ℕ)
  decrypt_chunk (some key) global_chunk stored = decrypt env stored key (chunk_aad global_chunk)
  decrypt_chunk none global_chunk stored = ok stored

  -- `match compressed`
  unfoldable pub decompress_chunk : Bool → List ℕ → ℕ → Fallible (List ℕ)
  decompress_chunk true plain dst_len =
      decompress_into_exact env plain dst_len "decompressed chunk size mismatch"
  decompress_chunk false plain dst_len = do
    guard (length plain == dst_len) (corrupt "decrypted chunk size mismatch")
    ok plain

  -- The arm of the match for a chunk that is encrypted or compressed.
  unfoldable pub load_stored : Option (List ℕ) → ℕ → Chunk → ℕ → List ℕ → Fallible (List ℕ × List ℕ)
  load_stored aead_key global_chunk chunk dst_len stored = do
    stored_len ← u64_to_usize chunk.stored_size "stored chunk size"
    buffer ← resize_buffer env stored stored_len "stored chunk allocation"
    read ← from_io (a.source.read_exact_at chunk.offset stored_len)
    plain ← decrypt_chunk aead_key global_chunk read
    dst ← decompress_chunk chunk.compressed plain dst_len
    ok (dst, read)

  -- `match (self.aead_key.as_ref(), chunk.compressed)`
  unfoldable pub load_chunk :
      Option (List ℕ) → Bool → ℕ → Chunk → ℕ → List ℕ → Fallible (List ℕ × List ℕ)
  load_chunk none false global_chunk chunk dst_len stored = do
    dst ← from_io (a.source.read_exact_at chunk.offset dst_len)
    ok (dst, stored)
  load_chunk none true global_chunk chunk dst_len stored =
      load_stored none global_chunk chunk dst_len stored
  load_chunk (some key) compressed global_chunk chunk dst_len stored =
      load_stored (some key) global_chunk chunk dst_len stored

  unfoldable pub read_chunk_by_index_into :
      ChecksumLabel → ℕ → ℕ → ℕ → List ℕ → Fallible (List ℕ × List ℕ)
  read_chunk_by_index_into label local_chunk global_chunk dst_len stored = do
    ensure_chunk_operation_limit 1
    c ← chunk global_chunk
    original_len ← u64_to_usize c.original_size "original chunk size"
    guard (dst_len == original_len) (buffer_size_mismatch original_len dst_len)
    (dst, stored') ← load_chunk a.aead_key c.compressed global_chunk c dst_len stored
    guard (env.xxh3_64 dst == c.checksum) (checksum_mismatch (to_error_string label) local_chunk)
    ok (dst, stored')
