-- ===== src/Ffi/Types.antt =====
-- crates/rasen-archive-ffi/src/types.rs
use rasen_archive.Prelude.{ℕ, zero, suc, List, Option, none, some, length}
use rasen_archive.Error.{ok, err, ◌>>=◌}
use rasen_archive.Archive.Model.{Protection, xor, aead, Entry, entry_path}
use rasen_archive.Archive.Limits.{ArchiveLimits, runtime_default}
use rasen_archive.Pack.Options.{PackMode, debug, production, PackOptions, default_options}
use rasen_archive.Pack.Packer.{PackSummary}
use rasen_archive.Ffi.Status.{
  FfiResult, failure, status_invalid_value, invalid_pack_mode, invalid_protection,
}

abbrev pub abi_version : ℕ
abi_version = 1

pub record RasenArchiveLimits : Type 0 where
  pub max_toc_stored_bytes : ℕ
  pub max_toc_raw_bytes : ℕ
  pub max_entries : ℕ
  pub max_chunks : ℕ
  pub max_chunks_per_operation : ℕ
  pub max_path_bytes : ℕ
  pub max_total_path_bytes : ℕ
  pub max_total_decompressed_bytes : ℕ
  pub max_single_asset_bytes : ℕ
  pub max_metadata_bytes : ℕ

-- `impl From<ArchiveLimits> for RasenArchiveLimits`
unfoldable pub from_limits : ArchiveLimits → RasenArchiveLimits
from_limits value = record {
  max_toc_stored_bytes = value.max_toc_stored_bytes;
  max_toc_raw_bytes = value.max_toc_raw_bytes;
  max_entries = value.max_entries;
  max_chunks = value.max_chunks;
  max_chunks_per_operation = value.max_chunks_per_operation;
  max_path_bytes = value.max_path_bytes;
  max_total_path_bytes = value.max_total_path_bytes;
  max_total_decompressed_bytes = value.max_total_decompressed_bytes;
  max_single_asset_bytes = value.max_single_asset_bytes;
  max_metadata_bytes = value.max_metadata_bytes;
}

-- `impl From<RasenArchiveLimits> for ArchiveLimits`
unfoldable pub to_limits : RasenArchiveLimits → ArchiveLimits
to_limits value = record {
  max_toc_stored_bytes = value.max_toc_stored_bytes;
  max_toc_raw_bytes = value.max_toc_raw_bytes;
  max_entries = value.max_entries;
  max_chunks = value.max_chunks;
  max_chunks_per_operation = value.max_chunks_per_operation;
  max_path_bytes = value.max_path_bytes;
  max_total_path_bytes = value.max_total_path_bytes;
  max_total_decompressed_bytes = value.max_total_decompressed_bytes;
  max_single_asset_bytes = value.max_single_asset_bytes;
  max_metadata_bytes = value.max_metadata_bytes;
}

pub record RasenArchiveInfo : Type 0 where
  pub entry_count : ℕ
  pub chunk_size : ℕ
  pub alignment : ℕ
  pub paths_stripped : ℕ
  pub protection : ℕ

pub record RasenEntry : Type 0 where
  pub path : Option (List ℕ)
  pub path_len : ℕ
  pub path_hash : ℕ
  pub original_size : ℕ
  pub stored_size : ℕ
  pub first_chunk : ℕ
  pub chunk_count : ℕ

pub record RasenPackOptions : Type 0 where
  pub chunk_size : ℕ
  pub alignment : ℕ
  pub mode : ℕ
  pub protection : ℕ

-- `PACK_MODE_DEBUG` and `PACK_MODE_PRODUCTION`; `PROTECTION_XOR` and `PROTECTION_AEAD`
abbrev pub mode_number : PackMode → ℕ
mode_number debug = 0
mode_number production = 1

abbrev pub protection_number : Protection → ℕ
protection_number xor = 0
protection_number aead = 1

-- `impl From<PackOptions> for RasenPackOptions`
unfoldable pub from_pack_options : PackOptions → RasenPackOptions
from_pack_options value = record {
  chunk_size = value.chunk_size;
  alignment = value.alignment;
  mode = mode_number value.mode;
  protection = protection_number value.protection;
}

pub record RasenPackSummary : Type 0 where
  pub archive_len : ℕ
  pub entry_count : ℕ
  pub chunk_count : ℕ

-- `impl From<PackSummary> for RasenPackSummary`
unfoldable pub from_summary : PackSummary → RasenPackSummary
from_summary value = record {
  archive_len = value.archive_len;
  entry_count = value.entry_count;
  chunk_count = value.chunk_count;
}

pub record RasenInputFile : Type 0 where
  pub path : Option (List ℕ)
  pub path_len : ℕ
  pub contents : Option (List ℕ)
  pub contents_len : ℕ

-- The two `match`es of `pack_options`.
unfoldable pub pack_mode : ℕ → FfiResult PackMode
pack_mode zero = ok debug
pack_mode (suc zero) = ok production
pack_mode (suc (suc n)) = err (failure status_invalid_value (invalid_pack_mode (suc (suc n))))

unfoldable pub pack_protection : ℕ → FfiResult Protection
pack_protection zero = ok xor
pack_protection (suc zero) = ok aead
pack_protection (suc (suc n)) =
    err (failure status_invalid_value (invalid_protection (suc (suc n))))

unfoldable pub pack_options : Option RasenPackOptions → FfiResult PackOptions
pack_options none = ok default_options
pack_options (some options) = do
  mode ← pack_mode options.mode
  protection ← pack_protection options.protection
  ok (record {
    chunk_size = options.chunk_size;
    alignment = options.alignment;
    mode = mode;
    protection = protection;
  })

unfoldable pub limits : Option RasenArchiveLimits → ArchiveLimits
limits none = runtime_default
limits (some value) = to_limits value

abbrev path_len_of : Option (List ℕ) → ℕ
path_len_of none = 0
path_len_of (some path) = length path

unfoldable pub ffi_entry : Entry → RasenEntry
ffi_entry entry = record {
  path = entry_path entry;
  path_len = path_len_of (entry_path entry);
  path_hash = entry.path_hash;
  original_size = entry.original_size;
  stored_size = entry.stored_size;
  first_chunk = entry.first_chunk;
  chunk_count = entry.chunk_count;
}
