-- ===== src/Tests/Files.antt =====
-- Reading from a file whose system interrupts the first attempt and then reads one byte at a time.
use rasen_archive.Prelude.{
  ℕ, zero, suc, ◌+◌, ◌≤◌, ◌<◌, ◌≡◌, refl, ◌⊎◌, inl, inr, List, [], ◌∷◌, take, drop, some, arith,
}
use rasen_archive.Error.{IoResult, ok, err, interrupted}
use rasen_archive.Archive.Source.{file_read_exact_at}
use rasen_archive.Archive.Source.File.{IsSteady, file_read_exact_at-slice}

abbrev short_file : List ℕ
short_file = 5 ∷ 6 ∷ 7 ∷ []

abbrev slow_read_at : ℕ → ℕ → ℕ → IoResult (List ℕ)
slow_read_at zero offset n = err interrupted
slow_read_at (suc attempt) offset n = ok (take 1 (drop offset short_file))

slow-IsSteady : IsSteady short_file slow_read_at 1
slow-IsSteady = record { answer = answer }
  where
    answer :
        (attempt offset n : ℕ)
        → 0 < n
        → offset < 3
        → ((attempt < 1) × (slow_read_at attempt offset n ≡ err interrupted))
          ⊎ ((k : ℕ) × (0 < k)
              × (k ≤ n)
              × (offset + k ≤ 3)
              × (slow_read_at attempt offset n ≡ ok (take k (drop offset short_file))))
    answer zero offset n p q = inl (omega arith, refl)
    answer (suc attempt) offset n p q = inr (1, omega arith, omega arith, omega arith, refl)

file_read_exact_at-slice_example : file_read_exact_at slow_read_at 3 0 1 2 ≡ some (ok (6 ∷ 7 ∷ []))
file_read_exact_at-slice_example =
    file_read_exact_at-slice short_file slow_read_at 1 slow-IsSteady (omega arith) 3 0 1 2
      (omega arith) (omega arith)
