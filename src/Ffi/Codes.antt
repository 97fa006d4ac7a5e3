-- ===== src/Ffi/Codes.antt =====
-- The statuses of crates/rasen-archive-ffi/src/types.rs and error.rs.
use rasen_archive.Prelude.{◌≢◌, arith}
use rasen_archive.Error.{
  Error, io, bad_magic, bad_toc_magic, unsupported_version, unsupported_flags,
  unsupported_header_size, empty_xor_key, crypto, incomplete_pack, non_empty_destination,
  invalid_path, invalid_chunk_size, invalid_alignment, invalid_range, buffer_size_mismatch,
  chunk_out_of_range, duplicate_path, asset_too_large, archive_too_large, too_many_entries,
  too_many_chunks, metadata_limit_exceeded, corrupt, too_large, lz4, not_found, hash_collision,
  checksum_mismatch,
}
use rasen_archive.Ffi.Status.{code, core_status}

pub core_status-code : (e : Error) → code (core_status e) ≢ 0
unfolding core_status code
core_status-code (io e) = λ p. absurd (omega arith)
core_status-code bad_magic = λ p. absurd (omega arith)
core_status-code bad_toc_magic = λ p. absurd (omega arith)
core_status-code (unsupported_version v) = λ p. absurd (omega arith)
core_status-code (unsupported_flags v) = λ p. absurd (omega arith)
core_status-code (unsupported_header_size v) = λ p. absurd (omega arith)
core_status-code empty_xor_key = λ p. absurd (omega arith)
core_status-code (crypto what) = λ p. absurd (omega arith)
core_status-code incomplete_pack = λ p. absurd (omega arith)
core_status-code non_empty_destination = λ p. absurd (omega arith)
core_status-code invalid_path = λ p. absurd (omega arith)
core_status-code invalid_chunk_size = λ p. absurd (omega arith)
core_status-code invalid_alignment = λ p. absurd (omega arith)
core_status-code invalid_range = λ p. absurd (omega arith)
core_status-code (buffer_size_mismatch expected actual) = λ p. absurd (omega arith)
core_status-code (chunk_out_of_range index count) = λ p. absurd (omega arith)
core_status-code (duplicate_path path) = λ p. absurd (omega arith)
core_status-code asset_too_large = λ p. absurd (omega arith)
core_status-code archive_too_large = λ p. absurd (omega arith)
core_status-code too_many_entries = λ p. absurd (omega arith)
core_status-code too_many_chunks = λ p. absurd (omega arith)
core_status-code metadata_limit_exceeded = λ p. absurd (omega arith)
core_status-code (corrupt what) = λ p. absurd (omega arith)
core_status-code (too_large what) = λ p. absurd (omega arith)
core_status-code (lz4 what) = λ p. absurd (omega arith)
core_status-code (not_found path) = λ p. absurd (omega arith)
core_status-code (hash_collision hash) = λ p. absurd (omega arith)
core_status-code (checksum_mismatch label index) = λ p. absurd (omega arith)
