-- ===== src/Archive/Open/Opened.antt =====
-- What an archive that `open_with_limits` of crates/rasen-archive/src/archive/reader.rs has opened is:
-- the contents of its source, within the limits.
use rasen_archive.Prelude.{ℕ, ◌+◌, ◌%◌, ◌≤◌, ◌<◌, ◌^◌, ◌≡◌, List, Bool, map, length}
use rasen_archive.Error.{ok}
use rasen_archive.Platform.{Platform}
use rasen_archive.Format
use rasen_archive.Format.Model.{TocEntry}
use rasen_archive.Format.Header.{Header, read_header}
use rasen_archive.Format.Layout.{Bounds}
use rasen_archive.Format.Layout.Sound.{IsLayout}
use rasen_archive.Format.Toc.{Limits, decode_toc}
use rasen_archive.Format.Toc.Accepted.{AreTables}
use rasen_archive.Archive.Source.{Source}
use rasen_archive.Archive.Limits.{ArchiveLimits}
use rasen_archive.Archive.Model.{Archive, from_toc}
use rasen_archive.Archive.Index.{enumerate_hashes, sort_by_key, validate_index}
use rasen_archive.Archive.Open.{has_flag, is_aead, protection_of, key_for, unprotect_toc}
use rasen_archive.Archive.Open.Limited.{IsWithin}

-- The sizes that the format admits.
pub record AreSizes (a : Archive) : Type 0 where
  pub chunk_size_pos : 0 < a.chunk_size
  pub chunk_size_small : a.chunk_size ≤ Format.max_chunk_size
  pub alignment_power : (k : ℕ) × (k ≤ 20) × (a.alignment ≡ 2 ^ k)

abbrev pub bounds_of : Header → ArchiveLimits → Archive → Bounds
bounds_of header limits a = record {
  toc_offset = header.toc_offset;
  chunk_size = a.chunk_size;
  alignment = a.alignment;
  aead = is_aead a.protection;
  max_total_decompressed_bytes = limits.max_total_decompressed_bytes;
}

-- The limits of the decoder of the TOC.
abbrev pub toc_limits : Bool → ArchiveLimits → Limits
toc_limits paths_stripped limits = record {
  paths_stripped = paths_stripped;
  max_path_bytes = limits.max_path_bytes;
  max_total_path_bytes = limits.max_total_path_bytes;
  max_single_asset_bytes = limits.max_single_asset_bytes;
}

module _ (env : Platform) where
  -- The source holds this header at its start, and where the header says, aligned and within the
  -- source, the TOC: decrypted or deobfuscated under the key, decompressed, and with the checksum of
  -- the header, it is `plain`.
  pub record IsStoredIn (source : Source) (key : List ℕ) (header : Header) (plain : List ℕ)
      : Type 0 where
    pub header_bytes : List ℕ
    pub unread : List ℕ
    pub header_there : source.read_exact_at 0 Format.header_size ≡ ok header_bytes
    pub header_read : read_header header_bytes ≡ ok (header, unread)
    pub file_len : ℕ
    pub length_known : source.len ≡ ok file_len
    pub toc_behind : Format.header_size ≤ header.toc_offset
    pub toc_inside : header.toc_offset + header.toc_size ≤ file_len
    pub toc_aligned : header.toc_offset % header.alignment ≡ 0
    pub stored : List ℕ
    pub compressed : List ℕ
    pub toc_there : source.read_exact_at header.toc_offset header.toc_size ≡ ok stored
    pub unprotected :
        unprotect_toc env (key_for env (protection_of header) key) key stored ≡ ok compressed
    pub decompressed : env.decompress_into compressed header.toc_raw_size ≡ ok plain
    pub plain_size : length plain ≡ header.toc_raw_size
    pub plain_hash : env.xxh3_64 plain ≡ header.toc_hash

  -- An archive that belongs to the header and the TOC of the source, within the limits.
  pub record IsOpened (source : Source) (key : List ℕ) (limits : ArchiveLimits) (a : Archive)
      : Type 0 where
    pub header : Header
    pub plain : List ℕ
    pub toc : List TocEntry
    pub key_given : 0 < length key
    pub in_source : IsStoredIn source key header plain
    pub within : IsWithin limits header
    pub decoded :
        decode_toc env plain header.entry_count header.chunk_count
          (toc_limits a.paths_stripped limits)
        ≡ ok (toc, a.chunks)
    pub tables :
        AreTables env
          (toc_limits a.paths_stripped limits)
          header.entry_count
          header.chunk_count
          toc
          a.chunks
    pub entries_of_toc : a.entries ≡ map from_toc toc
    pub index_of_entries : a.index ≡ sort_by_key (enumerate_hashes 0 a.entries)
    pub index_valid : validate_index env a.entries a.index a.paths_stripped ≡ ok tt
    pub sizes : AreSizes a
    pub layout : IsLayout (bounds_of header limits a) toc a.chunks
    pub same_source : a.source ≡ source
    pub chunk_size_of : a.chunk_size ≡ header.chunk_size
    pub alignment_of : a.alignment ≡ header.alignment
    pub stripped_of : a.paths_stripped ≡ has_flag header Format.header_flag_paths_stripped
    pub protection_is : a.protection ≡ protection_of header
    pub aead_key_is : a.aead_key ≡ key_for env a.protection key
    pub per_operation : a.max_chunks_per_operation ≡ limits.max_chunks_per_operation
