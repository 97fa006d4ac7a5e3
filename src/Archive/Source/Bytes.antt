-- ===== src/Archive/Source/Bytes.antt =====
-- `read_slice_exact` of crates/rasen-archive/src/archive/source.rs, against the laws of a source.
use rasen_archive.Prelude.{ℕ, ◌+◌, ◌≡◌, List, length-slice, slice, arith, some}
use rasen_archive.Error.{ok}
use rasen_archive.Archive.Source.{IsSource, bytes_source, read_slice_exact}

read_slice_parts :
    (source : List ℕ) (offset n : ℕ) (bytes : List ℕ)
    → read_slice_exact source offset n ≡ ok bytes
    → slice source offset (offset + n) ≡ some bytes
unfolding read_slice_exact
read_slice_parts source offset n bytes h = ground arith

pub bytes_source-IsSource : (source : List ℕ) → IsSource (bytes_source source)
bytes_source-IsSource source = record {
  exact = λ offset n bytes h. omega (
    arith,
    length-slice source offset (offset + n) bytes (read_slice_parts source offset n bytes h),
  );
}
