-- ===== src/Archive/Limits.antt =====
-- `ArchiveLimits` of crates/rasen-archive/src/archive/reader.rs.
use rasen_archive.Prelude.{ℕ, ◌*◌, min}
use rasen_archive.Format

pub record ArchiveLimits : Type 0 where
  pub max_toc_stored_bytes : ℕ
  pub max_toc_raw_bytes : ℕ
  pub max_entries : ℕ
  pub max_chunks : ℕ
  pub max_chunks_per_operation : ℕ
  pub max_path_bytes : ℕ
  pub max_total_path_bytes : ℕ
  pub max_total_decompressed_bytes : ℕ
  pub max_single_asset_bytes : ℕ
  pub max_metadata_bytes : ℕ

abbrev pub hard_max_toc_stored_bytes : ℕ
hard_max_toc_stored_bytes = Format.max_toc_stored_size

abbrev pub hard_max_toc_raw_bytes : ℕ
hard_max_toc_raw_bytes = Format.max_toc_raw_size

abbrev pub hard_max_entries : ℕ
hard_max_entries = 1_000_000

abbrev pub hard_max_chunks : ℕ
hard_max_chunks = 8_000_000

abbrev pub hard_max_chunks_per_operation : ℕ
hard_max_chunks_per_operation = hard_max_chunks

abbrev pub hard_max_path_bytes : ℕ
hard_max_path_bytes = Format.max_path_len

abbrev pub hard_max_total_path_bytes : ℕ
hard_max_total_path_bytes = 64 * 1024 * 1024

abbrev pub hard_max_total_decompressed_bytes : ℕ
hard_max_total_decompressed_bytes = 8 * 1024 * 1024 * 1024

abbrev pub hard_max_single_asset_bytes : ℕ
hard_max_single_asset_bytes = hard_max_total_decompressed_bytes

abbrev pub hard_max_metadata_bytes : ℕ
hard_max_metadata_bytes = 2 * 1024 * 1024 * 1024

abbrev pub hard_max_identifier_bucket_entries : ℕ
hard_max_identifier_bucket_entries = 64

unfoldable pub runtime_default : ArchiveLimits
runtime_default = record {
  max_toc_stored_bytes = 64 * 1024 * 1024;
  max_toc_raw_bytes = 128 * 1024 * 1024;
  max_entries = 100_000;
  max_chunks = 500_000;
  max_chunks_per_operation = 65_536;
  max_path_bytes = hard_max_path_bytes;
  max_total_path_bytes = 64 * 1024 * 1024;
  max_total_decompressed_bytes = 4 * 1024 * 1024 * 1024;
  max_single_asset_bytes = 512 * 1024 * 1024;
  max_metadata_bytes = 512 * 1024 * 1024;
}

unfoldable pub tooling_default : ArchiveLimits
tooling_default = record {
  max_toc_stored_bytes = hard_max_toc_stored_bytes;
  max_toc_raw_bytes = hard_max_toc_raw_bytes;
  max_entries = hard_max_entries;
  max_chunks = hard_max_chunks;
  max_chunks_per_operation = hard_max_chunks_per_operation;
  max_path_bytes = hard_max_path_bytes;
  max_total_path_bytes = hard_max_total_path_bytes;
  max_total_decompressed_bytes = hard_max_total_decompressed_bytes;
  max_single_asset_bytes = hard_max_single_asset_bytes;
  max_metadata_bytes = hard_max_metadata_bytes;
}

unfoldable pub clamped : ArchiveLimits → ArchiveLimits
clamped l = record {
  max_toc_stored_bytes = min l.max_toc_stored_bytes hard_max_toc_stored_bytes;
  max_toc_raw_bytes = min l.max_toc_raw_bytes hard_max_toc_raw_bytes;
  max_entries = min l.max_entries hard_max_entries;
  max_chunks = min l.max_chunks hard_max_chunks;
  max_chunks_per_operation = min l.max_chunks_per_operation hard_max_chunks_per_operation;
  max_path_bytes = min l.max_path_bytes hard_max_path_bytes;
  max_total_path_bytes = min l.max_total_path_bytes hard_max_total_path_bytes;
  max_total_decompressed_bytes =
      min l.max_total_decompressed_bytes hard_max_total_decompressed_bytes;
  max_single_asset_bytes = min l.max_single_asset_bytes hard_max_single_asset_bytes;
  max_metadata_bytes = min l.max_metadata_bytes hard_max_metadata_bytes;
}
