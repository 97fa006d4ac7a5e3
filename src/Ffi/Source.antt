-- ===== src/Ffi/Source.antt =====
-- `FfiSource` of crates/rasen-archive-ffi/src/io.rs.
use rasen_archive.Prelude.{ℕ, List, Option, length, slice, ◌==◌, checked_add}
use rasen_archive.Error.{IoResult, ok, ◌>>=◌, ◌>>◌, guard, ok_or, io_other, unexpected_eof}
use rasen_archive.Archive.Source.{Source}

-- `read_at` answers with its status and what it leaves in the buffer, for an offset and a length.
pub record CallbackSource : Type 0 where
  pub len : ℕ
  pub read_at : Option (ℕ → ℕ → ℕ × List ℕ)

-- A file is the source that its own `RandomAccessRead` makes of it.
pub data FfiSource : Type 0 where
  memory : List ℕ → FfiSource
  file : Source → FfiSource
  callback : CallbackSource → FfiSource

unfoldable pub ffi_len : FfiSource → IoResult ℕ
ffi_len (memory bytes) = ok (length bytes)
ffi_len (file f) = f.len
ffi_len (callback source) = ok source.len

-- The bytes of the buffer afterwards, which has this length.
unfoldable pub ffi_read_exact_at : FfiSource → ℕ → ℕ → IoResult (List ℕ)
ffi_read_exact_at (memory bytes) offset n = do
  end ← ok_or (checked_add offset n) (unexpected_eof "read range overflow")
  ok_or (slice bytes offset end) (unexpected_eof "failed to fill whole buffer")
ffi_read_exact_at (file f) offset n = f.read_exact_at offset n
ffi_read_exact_at (callback source) offset n = do
  read_at ← ok_or source.read_at (io_other "read_at callback is null")
  let (status, buffer) = read_at offset n
  guard (status == 0) (io_other "read_at callback failed")
  ok buffer

-- `impl RandomAccessRead for FfiSource`
abbrev pub ffi_source : FfiSource → Source
ffi_source s = record { len = ffi_len s; read_exact_at = ffi_read_exact_at s }
