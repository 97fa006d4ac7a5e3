-- ===== src/Tests/Opened.antt =====
-- A whole archive in memory, opened and read.
use rasen_archive.Prelude.{
  ℕ, ◌≡◌, refl, List, [], ◌∷◌, Bool, false, Option, none, slice, bytes_eq, map,
}
use rasen_archive.Error.{ok}
use rasen_archive.VirtualPath.{
  normalize_lookup_path, normalize_path, normalize_parts, split, classify, contains_nul,
}
use rasen_archive.Archive.Source.{bytes_source, read_slice_exact}
use rasen_archive.Archive.Limits.{runtime_default, tooling_default, clamped}
use rasen_archive.Archive.Model.{Archive, xor}
use rasen_archive.Archive.Open.{open_with_limits}
use rasen_archive.Archive.Open.Limited.{AreStricter}
use rasen_archive.Archive.Open.Opened.{IsOpened}
use rasen_archive.Archive.Open.Accepted.{open_with_limits-IsOpened}
use rasen_archive.Tests.Setup.{digest, platform}

-- The entry "ab" with the content 1 2 3 in chunks of 2 bytes, obfuscated with the key 1.
abbrev file_sample : List ℕ
file_sample =
    82 ∷ 80 ∷ 65 ∷ 75 ∷ 1 ∷ 0 ∷ 15 ∷ 0 ∷ 60 ∷ 0 ∷ 0 ∷ 0 ∷ 16 ∷ 0 ∷ 0 ∷ 0 ∷ 2 ∷ 0 ∷ 0 ∷ 0 ∷ 1 ∷ 0 ∷ 0
    ∷ 0 ∷ 2 ∷ 0 ∷ 0 ∷ 0 ∷ 96 ∷ 0 ∷ 0 ∷ 0 ∷ 0 ∷ 0 ∷ 0 ∷ 0 ∷ 114 ∷ 0 ∷ 0 ∷ 0 ∷ 0 ∷ 0 ∷ 0 ∷ 0 ∷ 114 ∷ 0
    ∷ 0 ∷ 0 ∷ 0 ∷ 0 ∷ 0 ∷ 0 ∷ 202 ∷ 177 ∷ 13 ∷ 245 ∷ 77 ∷ 199 ∷ 189 ∷ 65 ∷ 0 ∷ 0 ∷ 0 ∷ 0 ∷ 1 ∷ 2 ∷ 0
    ∷ 0 ∷ 0 ∷ 0 ∷ 0 ∷ 0 ∷ 0 ∷ 0 ∷ 0 ∷ 0 ∷ 0 ∷ 0 ∷ 0 ∷ 0 ∷ 3 ∷ 0 ∷ 0 ∷ 0 ∷ 0 ∷ 0 ∷ 0 ∷ 0 ∷ 0 ∷ 0 ∷ 0
    ∷ 0 ∷ 0 ∷ 0 ∷ 0 ∷ 0 ∷ 85 ∷ 78 ∷ 66 ∷ 51 ∷ 62 ∷ 13 ∷ 1 ∷ 1 ∷ 1 ∷ 1 ∷ 1 ∷ 1 ∷ 2 ∷ 1 ∷ 1 ∷ 1 ∷ 1
    ∷ 1 ∷ 1 ∷ 1 ∷ 2 ∷ 1 ∷ 1 ∷ 1 ∷ 1 ∷ 1 ∷ 1 ∷ 1 ∷ 1 ∷ 1 ∷ 1 ∷ 1 ∷ 3 ∷ 1 ∷ 1 ∷ 1 ∷ 3 ∷ 1 ∷ 1 ∷ 1 ∷ 96
    ∷ 99 ∷ 65 ∷ 1 ∷ 1 ∷ 1 ∷ 1 ∷ 1 ∷ 1 ∷ 1 ∷ 3 ∷ 1 ∷ 1 ∷ 1 ∷ 1 ∷ 1 ∷ 1 ∷ 1 ∷ 3 ∷ 1 ∷ 1 ∷ 1 ∷ 1 ∷ 1
    ∷ 1 ∷ 1 ∷ 62 ∷ 1 ∷ 1 ∷ 1 ∷ 1 ∷ 1 ∷ 1 ∷ 1 ∷ 1 ∷ 1 ∷ 1 ∷ 1 ∷ 81 ∷ 1 ∷ 1 ∷ 1 ∷ 1 ∷ 1 ∷ 1 ∷ 1 ∷ 0
    ∷ 1 ∷ 1 ∷ 1 ∷ 1 ∷ 1 ∷ 1 ∷ 1 ∷ 0 ∷ 1 ∷ 1 ∷ 1 ∷ 1 ∷ 1 ∷ 1 ∷ 1 ∷ 2 ∷ 1 ∷ 1 ∷ 1 ∷ 1 ∷ 1 ∷ 1 ∷ 1 ∷ 1
    ∷ 1 ∷ 1 ∷ 1 ∷ []

abbrev opened_sample : Archive
opened_sample = record {
  source = bytes_source file_sample;
  entries =
      record {
        path = 97 ∷ 98 ∷ [];
        path_hash = 3135;
        original_size = 3;
        stored_size = 3;
        first_chunk = 0;
        chunk_count = 2;
      }
      ∷ [];
  chunks =
      record { offset = 64; stored_size = 2; original_size = 2; checksum = 63; compressed = false }
      ∷ record { offset = 80; stored_size = 1; original_size = 1; checksum = 3; compressed = false }
      ∷ [];
  index = (3135, 0) ∷ [];
  chunk_size = 2;
  alignment = 16;
  paths_stripped = false;
  protection = xor;
  aead_key = none;
  max_chunks_per_operation = 65_536;
}

open_sample :
    open_with_limits platform (bytes_source file_sample) (1 ∷ []) runtime_default ≡ ok opened_sample
unfolding open_with_limits rasen_archive.VirtualPath.contains_nul rasen_archive.VirtualPath.split
    rasen_archive.VirtualPath.classify rasen_archive.VirtualPath.normalize_parts
    rasen_archive.VirtualPath.normalize_path rasen_archive.Crypto.Xor.xor_from
    rasen_archive.Crypto.Xor.xor_in_place rasen_archive.Compression.decompress_into_exact
    rasen_archive.Compression.decompress_block_exact rasen_archive.Format.validate_chunk_size
    rasen_archive.Format.is_power_of_two rasen_archive.Format.validate_alignment
    rasen_archive.Format.Header.read_header rasen_archive.Format.Header.validate_header
    rasen_archive.Format.Io.read_exact rasen_archive.Format.Io.read_word
    rasen_archive.Format.Io.read_u16 rasen_archive.Format.Io.read_u32
    rasen_archive.Format.Io.read_u64 rasen_archive.Format.Io.usize_to_u64
    rasen_archive.Format.Io.u64_to_usize rasen_archive.Format.Io.Cursor.new
    rasen_archive.Format.Io.Cursor.take rasen_archive.Format.Io.Cursor.take_word
    rasen_archive.Format.Io.Cursor.u16 rasen_archive.Format.Io.Cursor.u32
    rasen_archive.Format.Io.Cursor.u64 rasen_archive.Format.Layout.payload_size
    rasen_archive.Format.Layout.check_chunk rasen_archive.Format.Layout.check_chunks
    rasen_archive.Format.Layout.check_shape rasen_archive.Format.Layout.own_chunks
    rasen_archive.Format.Layout.check_entry rasen_archive.Format.Layout.check_entries
    rasen_archive.Format.Layout.all_used rasen_archive.Format.Layout.validate_layout
    rasen_archive.Format.Toc.decode_chunk rasen_archive.Format.Toc.decode_chunks
    rasen_archive.Format.Toc.decode_path rasen_archive.Format.Toc.decode_entry
    rasen_archive.Format.Toc.decode_entries rasen_archive.Format.Toc.minimum_bytes
    rasen_archive.Format.Toc.decode_toc rasen_archive.Archive.Limits.runtime_default
    rasen_archive.Archive.Limits.clamped rasen_archive.Archive.Model.from_toc
    rasen_archive.Archive.Index.enumerate_hashes rasen_archive.Archive.Index.insert_by_key
    rasen_archive.Archive.Index.sort_by_key rasen_archive.Archive.Index.bucket
    rasen_archive.Archive.Index.after_bucket rasen_archive.Archive.Index.contains_path
    rasen_archive.Archive.Index.distinct_paths rasen_archive.Archive.Index.check_bucket
    rasen_archive.Archive.Index.check_buckets rasen_archive.Archive.Index.validate_index
    rasen_archive.Archive.Open.estimated_metadata_bytes rasen_archive.Archive.Open.minimum_toc
    rasen_archive.Archive.Open.validate_limits rasen_archive.Archive.Open.check_toc_range
    rasen_archive.Archive.Open.load_toc rasen_archive.Archive.Open.load_tables
    rasen_archive.Archive.Open.load_header rasen_archive.Archive.Open.build slice bytes_eq
    read_slice_exact digest rasen_archive.Prelude.from_le_bytes
    rasen_archive.Format.Io.Cursor.is_empty
open_sample = refl

open_with_limits-IsOpened_example :
    IsOpened platform (bytes_source file_sample) (1 ∷ []) (clamped runtime_default) opened_sample
    × AreStricter (clamped runtime_default) runtime_default
    × AreStricter (clamped runtime_default) tooling_default
open_with_limits-IsOpened_example =
    open_with_limits-IsOpened platform (bytes_source file_sample) (1 ∷ []) runtime_default
      opened_sample open_sample
