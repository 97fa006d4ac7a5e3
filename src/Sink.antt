-- ===== src/Sink.antt =====
-- `std::io::Write + Seek`, as the header's writer uses it: what the destination of an archive provides,
-- and the law that it keeps.
pub mod Memory
use rasen_archive.Prelude.{ℕ, List, ◌++◌, ◌≡◌}
use rasen_archive.Error.{IoResult, ◌>>=◌}

pub record Sink {ℓ} (W : Type ℓ) : Type ℓ where
  pub write_all : W → List ℕ → IoResult W
  -- `seek(SeekFrom::End(0))` and `seek(SeekFrom::Start(position))`, with the new position.
  pub seek_end : W → IoResult (ℕ × W)
  pub seek_start : W → ℕ → IoResult (ℕ × W)

-- Writing in two parts is writing the whole.
pub record IsSink {ℓ} {W : Type ℓ} (s : Sink W) : Type ℓ where
  pub write_all-append :
      (w : W) (xs ys : List ℕ)
      → (s.write_all w xs >>= λ w'. s.write_all w' ys) ≡ s.write_all w (xs ++ ys)
