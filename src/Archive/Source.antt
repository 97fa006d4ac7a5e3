-- ===== src/Archive/Source.antt =====
-- crates/rasen-archive/src/archive/source.rs: positioned reads. What a read leaves in the buffer is its
-- result; a buffer is given by its length.
pub mod Bytes
pub mod File
use rasen_archive.Prelude.{
  ℕ, zero, suc, ◌+◌, ◌-◌, List, [], ◌∷◌, ◌++◌, Bool, length, slice, leb, ◌==◌,
}
use rasen_archive.Prelude.{Option, some, none, if◌then◌else◌, u64_mod, checked_add, ◌≡◌}
use rasen_archive.Error.{
  IoResult, ok, err, panic, ◌>>=◌, ok_or, interrupted, unexpected_eof, io_other,
}

-- The trait `RandomAccessRead`.
pub record Source : Type 0 where
  pub len : IoResult ℕ
  pub read_exact_at : ℕ → ℕ → IoResult (List ℕ)

-- What the reader relies on: a read that succeeds fills its buffer.
pub record IsSource (s : Source) : Type 0 where
  pub exact :
      (offset n : ℕ) (bytes : List ℕ) → s.read_exact_at offset n ≡ ok bytes → length bytes ≡ n

unfoldable pub is_empty : Source → IoResult Bool
is_empty s = do n ← s.len; ok (n == 0)

-- `usize` has the width of `u64`, so `usize::try_from(offset)` succeeds.
unfoldable pub read_slice_exact : List ℕ → ℕ → ℕ → IoResult (List ℕ)
read_slice_exact source offset n = do
  end ← ok_or (checked_add offset n) (unexpected_eof "read range overflow")
  ok_or (slice source offset end) (unexpected_eof "failed to fill whole buffer")

-- `impl RandomAccessRead` for `Cursor<T>`, `&[u8]` and `Arc<[u8]>`.
abbrev pub bytes_source : List ℕ → Source
bytes_source bytes = record { len = ok (length bytes); read_exact_at = read_slice_exact bytes }

-- `buf` and `offset` advance past these bytes.
abbrev pub prepend : List ℕ → Option (IoResult (List ℕ)) → Option (IoResult (List ℕ))
prepend bytes none = none
prepend bytes (some (ok rest)) = some (ok (bytes ++ rest))
prepend bytes (some (err e)) = some (err e)
prepend bytes (some panic) = some panic

-- What follows one attempt: `more` is the rest of the loop, from an offset on for a number of bytes.
unfoldable pub after_attempt :
    IoResult (List ℕ) → ℕ → ℕ → (ℕ → ℕ → Option (IoResult (List ℕ))) → Option (IoResult (List ℕ))
after_attempt (ok bytes) offset n more =
    if length bytes == 0
    then some (err (unexpected_eof "failed to fill whole buffer"))
    else if leb u64_mod (offset + length bytes)
    then some (err (io_other "read offset overflow"))
    else if leb (length bytes) n
    then prepend bytes (more (offset + length bytes) (n - length bytes))
    else some panic
after_attempt (err interrupted) offset n more = more offset n
after_attempt (err e) offset n more = some (err e)
after_attempt panic offset n more = some panic

-- `impl RandomAccessRead for File`. The system's positioned read may stop short; its answer is given
-- for each attempt, offset and length. `none` is a loop that has not ended within the fuel.
unfoldable pub file_read_exact_at :
    (ℕ → ℕ → ℕ → IoResult (List ℕ)) → ℕ → ℕ → ℕ → ℕ → Option (IoResult (List ℕ))
file_read_exact_at read_at fuel attempt offset zero = some (ok [])
file_read_exact_at read_at zero attempt offset (suc n) = none
file_read_exact_at read_at (suc fuel) attempt offset (suc n) =
    after_attempt (read_at attempt offset (suc n)) offset (suc n)
      (λ offset' n'. file_read_exact_at read_at fuel (attempt + 1) offset' n')
