-- ===== src/Archive/Open.antt =====
-- `Archive::open_with_limits` of crates/rasen-archive/src/archive/reader.rs and the checks of the
-- header against the limits.
pub mod Limited
pub mod Opened
pub mod Stages
pub mod Accepted
use rasen_archive.Prelude.{ℕ, ◌+◌, List, Bool, true, false, not, ◌&&◌, ◌||◌, map}
use rasen_archive.Prelude.{Option, some, none, if◌then◌else◌, leb, ◌==◌, bit_and, length}
use rasen_archive.Prelude.{checked_add, checked_mul}
use rasen_archive.Error.{
  Fallible, ok, ◌>>=◌, ◌>>◌, guard, ok_or, from_io, empty_xor_key, corrupt, too_large,
  too_many_entries, too_many_chunks, metadata_limit_exceeded,
}
use rasen_archive.Platform.{Platform, reserve}
use rasen_archive.Crypto.Aead.{toc_aad, derive_key, decrypt}
use rasen_archive.Crypto.Xor.{xor_in_place}
use rasen_archive.Compression.{decompress_block_exact}
use rasen_archive.Format
use rasen_archive.Format.Model.{TocEntry, Chunk}
use rasen_archive.Format.Io.{u64_to_usize}
use rasen_archive.Format.Header.{Header, read_header, validate_header}
use rasen_archive.Format.Toc.{decode_toc}
use rasen_archive.Format.Layout.{validate_layout, is_multiple_of}
use rasen_archive.Archive.Source.{Source}
use rasen_archive.Archive.Limits.{ArchiveLimits, clamped, runtime_default}
use rasen_archive.Archive.Model.{Archive, Protection, xor, aead, from_toc}
use rasen_archive.Archive.Index.{enumerate_hashes, sort_by_key, validate_index}

-- `size_of` on a 64-bit target: `TocEntry` and `Entry` of 56 bytes and an index member of 16, a
-- `Chunk` of 40 bytes and a `bool`.
abbrev pub entry_memory : ℕ
entry_memory = 56 + 56 + 16

abbrev pub chunk_memory : ℕ
chunk_memory = 40 + 1

unfoldable pub estimated_metadata_bytes : Header → Fallible ℕ
estimated_metadata_bytes header = do
  once ← ok_or (checked_add header.toc_size header.toc_raw_size) metadata_limit_exceeded
  twice ← ok_or (checked_add once header.toc_raw_size) metadata_limit_exceeded
  entries ← ok_or (checked_mul header.entry_count entry_memory) metadata_limit_exceeded
  with_entries ← ok_or (checked_add twice entries) metadata_limit_exceeded
  chunks ← ok_or (checked_mul header.chunk_count chunk_memory) metadata_limit_exceeded
  ok_or (checked_add with_entries chunks) metadata_limit_exceeded

abbrev pub has_flag : Header → ℕ → Bool
has_flag header flag = not (bit_and header.flags flag == 0)

-- The smallest raw TOC with these numbers of records; a debug entry has a path byte at least.
unfoldable pub minimum_toc : Header → Fallible ℕ
minimum_toc header = do
  entries ←
      ok_or (checked_mul header.entry_count Format.toc_entry_fixed_size)
        (too_large "TOC record counts")
  chunks ←
      ok_or (checked_mul header.chunk_count Format.toc_chunk_fixed_size)
        (too_large "TOC record counts")
  records ← ok_or (checked_add entries chunks) (too_large "TOC record counts")
  minimum ← ok_or (checked_add records 4) (too_large "TOC record counts")
  if has_flag header Format.header_flag_paths_stripped
      then ok minimum
      else ok_or (checked_add minimum header.entry_count) (too_large "TOC record counts")

unfoldable pub validate_limits : Header → ArchiveLimits → Fallible (Unit {0})
validate_limits header limits = do
  guard (leb header.toc_size limits.max_toc_stored_bytes) (too_large "stored TOC limit")
  guard (leb header.toc_raw_size limits.max_toc_raw_bytes) (too_large "raw TOC limit")
  guard (leb header.entry_count limits.max_entries) too_many_entries
  guard (leb header.chunk_count limits.max_chunks) too_many_chunks
  guard
      (has_flag header Format.header_flag_paths_stripped
        || leb header.entry_count limits.max_total_path_bytes)
      metadata_limit_exceeded
  minimum ← minimum_toc header
  guard (leb minimum header.toc_raw_size) (corrupt "TOC counts exceed raw TOC size")
  estimate ← estimated_metadata_bytes header
  guard (leb estimate limits.max_metadata_bytes) metadata_limit_exceeded

abbrev pub protection_of : Header → Protection
protection_of header = if has_flag header Format.header_flag_aead then aead else xor

abbrev pub is_aead : Protection → Bool
is_aead xor = false
is_aead aead = true

-- Where the stored TOC must lie.
unfoldable pub check_toc_range : Header → ℕ → Fallible (Unit {0})
check_toc_range header file_len = do
  toc_end ← ok_or (checked_add header.toc_offset header.toc_size) (corrupt "TOC range overflow")
  guard (leb Format.header_size header.toc_offset && leb toc_end file_len)
      (corrupt "TOC outside archive")
  guard (is_multiple_of header.toc_offset header.alignment) (corrupt "TOC is not aligned")

module _ (env : Platform) where
  -- `match &aead_key`
  abbrev pub unprotect_toc : Option (List ℕ) → List ℕ → List ℕ → Fallible (List ℕ)
  unprotect_toc (some aead_key) key toc_stored = decrypt env toc_stored aead_key toc_aad
  unprotect_toc none key toc_stored = xor_in_place toc_stored key

  abbrev pub key_for : Protection → List ℕ → Option (List ℕ)
  key_for aead key = some (derive_key env key)
  key_for xor key = none

  -- The stored TOC, read, decrypted, decompressed and checked.
  unfoldable pub load_toc : Source → List ℕ → Header → Fallible (List ℕ)
  load_toc source key header = do
    toc_len ← u64_to_usize header.toc_size "TOC size"
    reserve env toc_len "stored TOC allocation"
    stored ← from_io (source.read_exact_at header.toc_offset toc_len)
    toc_stored ← unprotect_toc (key_for (protection_of header) key) key stored
    toc_raw_len ← u64_to_usize header.toc_raw_size "raw TOC size"
    toc_plain ← decompress_block_exact env toc_stored toc_raw_len "decompressed TOC size mismatch"
    guard (env.xxh3_64 toc_plain == header.toc_hash) (corrupt "TOC checksum mismatch")
    ok toc_plain

  -- The tables of the TOC, decoded and checked against each other.
  unfoldable pub load_tables :
      Header → ArchiveLimits → List ℕ → Fallible (List TocEntry × List Chunk)
  load_tables header limits toc_plain = do
    (toc_entries, chunks) ← decode_toc env toc_plain header.entry_count header.chunk_count (record {
      paths_stripped = has_flag header Format.header_flag_paths_stripped;
      max_path_bytes = limits.max_path_bytes;
      max_total_path_bytes = limits.max_total_path_bytes;
      max_single_asset_bytes = limits.max_single_asset_bytes;
    })
    validate_layout env toc_entries chunks (record {
      toc_offset = header.toc_offset;
      chunk_size = header.chunk_size;
      alignment = header.alignment;
      aead = is_aead (protection_of header);
      max_total_decompressed_bytes = limits.max_total_decompressed_bytes;
    })
    ok (toc_entries, chunks)

  -- The header, read and checked.
  unfoldable pub load_header : Source → ArchiveLimits → Fallible Header
  load_header source limits = do
    header_bytes ← from_io (source.read_exact_at 0 Format.header_size)
    (header, unread) ← read_header header_bytes
    validate_header header
    validate_limits header limits
    ok header

  unfoldable pub build :
      Source → List ℕ → ArchiveLimits → Header → List TocEntry → List Chunk → Fallible Archive
  build source key limits header toc_entries chunks = do
    reserve env (length toc_entries) "entry allocation"
    let entries = map from_toc toc_entries
    reserve env (length entries) "index allocation"
    let index = sort_by_key (enumerate_hashes 0 entries)
    validate_index env entries index (has_flag header Format.header_flag_paths_stripped)
    ok (record {
      source = source;
      entries = entries;
      chunks = chunks;
      index = index;
      chunk_size = header.chunk_size;
      alignment = header.alignment;
      paths_stripped = has_flag header Format.header_flag_paths_stripped;
      protection = protection_of header;
      aead_key = key_for (protection_of header) key;
      max_chunks_per_operation = limits.max_chunks_per_operation;
    })

  unfoldable pub open_with_limits : Source → List ℕ → ArchiveLimits → Fallible Archive
  open_with_limits source key caller_limits = do
    guard (not (length key == 0)) empty_xor_key
    let limits = clamped caller_limits
    header ← load_header source limits
    file_len ← from_io source.len
    check_toc_range header file_len
    toc_plain ← load_toc source key header
    (toc_entries, chunks) ← load_tables header limits toc_plain
    build source key limits header toc_entries chunks

  unfoldable pub open_default : Source → List ℕ → Fallible Archive
  open_default source key = open_with_limits source key runtime_default
