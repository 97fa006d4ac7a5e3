-- ===== src/Ffi/Status.antt =====
-- crates/rasen-archive-ffi/src/error.rs, and `RasenStatus` of types.rs. A message is given by its parts:
-- the text that is made of them is left out, and with it the thread's buffer for it.
use rasen_archive.Prelude.{ℕ, String, Option, none, some}
use rasen_archive.Error.{
  Error, IoError, Result, Fallible, ok, err, panic, map_err, io, bad_magic, bad_toc_magic,
  unsupported_version, unsupported_flags, unsupported_header_size, empty_xor_key, crypto,
  incomplete_pack, non_empty_destination, invalid_path, invalid_chunk_size, invalid_alignment,
  invalid_range, buffer_size_mismatch, chunk_out_of_range, duplicate_path, asset_too_large,
  archive_too_large, too_many_entries, too_many_chunks, metadata_limit_exceeded, corrupt, too_large,
  lz4, not_found, hash_collision, checksum_mismatch,
}

pub data RasenStatus : Type 0 where
  status_ok : RasenStatus
  status_null_pointer : RasenStatus
  status_invalid_utf8 : RasenStatus
  status_invalid_value : RasenStatus
  status_out_of_range : RasenStatus
  status_callback_failed : RasenStatus
  status_panic : RasenStatus
  status_io : RasenStatus
  status_bad_magic : RasenStatus
  status_bad_toc_magic : RasenStatus
  status_unsupported_version : RasenStatus
  status_unsupported_flags : RasenStatus
  status_unsupported_header_size : RasenStatus
  status_empty_key : RasenStatus
  status_crypto : RasenStatus
  status_incomplete_pack : RasenStatus
  status_non_empty_destination : RasenStatus
  status_invalid_path : RasenStatus
  status_invalid_chunk_size : RasenStatus
  status_invalid_alignment : RasenStatus
  status_invalid_range : RasenStatus
  status_buffer_size_mismatch : RasenStatus
  status_chunk_out_of_range : RasenStatus
  status_duplicate_path : RasenStatus
  status_asset_too_large : RasenStatus
  status_archive_too_large : RasenStatus
  status_too_many_entries : RasenStatus
  status_too_many_chunks : RasenStatus
  status_metadata_limit_exceeded : RasenStatus
  status_corrupt : RasenStatus
  status_too_large : RasenStatus
  status_lz4 : RasenStatus
  status_not_found : RasenStatus
  status_hash_collision : RasenStatus
  status_checksum_mismatch : RasenStatus

-- The number of a status, as C sees it.
unfoldable pub code : RasenStatus → ℕ
code status_ok = 0
code status_null_pointer = 1
code status_invalid_utf8 = 2
code status_invalid_value = 3
code status_out_of_range = 4
code status_callback_failed = 5
code status_panic = 6
code status_io = 100
code status_bad_magic = 101
code status_bad_toc_magic = 102
code status_unsupported_version = 103
code status_unsupported_flags = 104
code status_unsupported_header_size = 105
code status_empty_key = 106
code status_crypto = 107
code status_incomplete_pack = 108
code status_non_empty_destination = 109
code status_invalid_path = 110
code status_invalid_chunk_size = 111
code status_invalid_alignment = 112
code status_invalid_range = 113
code status_buffer_size_mismatch = 114
code status_chunk_out_of_range = 115
code status_duplicate_path = 116
code status_asset_too_large = 117
code status_archive_too_large = 118
code status_too_many_entries = 119
code status_too_many_chunks = 120
code status_metadata_limit_exceeded = 121
code status_corrupt = 122
code status_too_large = 123
code status_lz4 = 124
code status_not_found = 125
code status_hash_collision = 126
code status_checksum_mismatch = 127

pub data Message : Type 0 where
  is_null : String → Message
  not_utf8 : String → Message
  invalid_pack_mode : ℕ → Message
  invalid_protection : ℕ → Message
  entry_index_out_of_range : ℕ → Message
  core_error : Error → Message
  panic_caught : Message

pub record FfiFailure : Type 0 where
  pub status : RasenStatus
  pub message : Message

abbrev pub FfiResult {ℓ} : Type ℓ → Type ℓ
FfiResult A = Result FfiFailure A

abbrev pub failure : RasenStatus → Message → FfiFailure
failure status message = record { status = status; message = message }

unfoldable pub core_status : Error → RasenStatus
core_status (io e) = status_io
core_status bad_magic = status_bad_magic
core_status bad_toc_magic = status_bad_toc_magic
core_status (unsupported_version v) = status_unsupported_version
core_status (unsupported_flags v) = status_unsupported_flags
core_status (unsupported_header_size v) = status_unsupported_header_size
core_status empty_xor_key = status_empty_key
core_status (crypto what) = status_crypto
core_status incomplete_pack = status_incomplete_pack
core_status non_empty_destination = status_non_empty_destination
core_status invalid_path = status_invalid_path
core_status invalid_chunk_size = status_invalid_chunk_size
core_status invalid_alignment = status_invalid_alignment
core_status invalid_range = status_invalid_range
core_status (buffer_size_mismatch expected actual) = status_buffer_size_mismatch
core_status (chunk_out_of_range index count) = status_chunk_out_of_range
core_status (duplicate_path path) = status_duplicate_path
core_status asset_too_large = status_asset_too_large
core_status archive_too_large = status_archive_too_large
core_status too_many_entries = status_too_many_entries
core_status too_many_chunks = status_too_many_chunks
core_status metadata_limit_exceeded = status_metadata_limit_exceeded
core_status (corrupt what) = status_corrupt
core_status (too_large what) = status_too_large
core_status (lz4 what) = status_lz4
core_status (not_found path) = status_not_found
core_status (hash_collision hash) = status_hash_collision
core_status (checksum_mismatch label index) = status_checksum_mismatch

-- `impl From<Error>` and `impl From<io::Error>` for `FfiFailure`, as `?` applies them.
unfoldable pub from_error : Error → FfiFailure
from_error e = failure (core_status e) (core_error e)

unfoldable pub from_io_error : IoError → FfiFailure
from_io_error e = from_error (io e)

abbrev pub core {ℓ} : {A : Type ℓ} → Fallible A → FfiResult A
core = map_err from_error

-- What a call leaves: its status, what it has stored for the caller, and the thread's last error.
pub record Outcome (A : Type 0) : Type 0 where
  pub status : RasenStatus
  pub stored : Option A
  pub last_error : Message

unfoldable pub ffi_call : {A : Type 0} → FfiResult A → Message → Outcome A
ffi_call (ok value) last = record { status = status_ok; stored = some value; last_error = last }
ffi_call (err e) last = record { status = e.status; stored = none; last_error = e.message }
ffi_call panic last = record { status = status_panic; stored = none; last_error = panic_caught }
