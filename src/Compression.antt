-- ===== src/Compression.antt =====
-- crates/rasen-archive/src/compression/lz4.rs
use rasen_archive.Prelude.{ℕ, List, length, not, ◌==◌, String, if◌then◌else◌}
use rasen_archive.Error.{Fallible, ok, err, ◌>>=◌, ◌>>◌, map_err, lz4, corrupt}
use rasen_archive.Platform.{Platform, reserve}

module _ (env : Platform) where
  -- The contents of `output` afterwards, for an `output` of this length.
  unfoldable pub decompress_into_exact : List ℕ → ℕ → String → Fallible (List ℕ)
  decompress_into_exact bytes output_len mismatch = do
    decoded ← map_err lz4 (env.decompress_into bytes output_len)
    if not (length decoded == output_len) then err (corrupt mismatch) else ok decoded

  unfoldable pub decompress_block_exact : List ℕ → ℕ → String → Fallible (List ℕ)
  decompress_block_exact bytes original_len mismatch = do
    reserve env original_len "decompression output allocation"
    decompress_into_exact bytes original_len mismatch
