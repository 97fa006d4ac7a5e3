-- ===== src/Archive/Source/File.antt =====
-- The loop of the source for files of crates/rasen-archive/src/archive/source.rs.
use rasen_archive.Prelude.{
  ℕ, zero, suc, ◌+◌, ◌-◌, ◌<◌, ◌≤◌, ◌≡◌, refl, ap, ◌∙◌, ◌⊎◌, inl, inr, List, [], ◌∷◌, ◌++◌, false,
}
use rasen_archive.Prelude.{
  Option, some, length, length-take, length-drop, take, drop, leb, ◌==◌, le→leb, arith, u64_mod,
}
use rasen_archive.Error.{IoResult, ok, err, interrupted}
use rasen_archive.Archive.Source.{file_read_exact_at, after_attempt, prepend}

module _ {A : Type 0} where
  take_two : (xs : List A) (k m : ℕ) → k ≤ m → take k xs ++ take (m - k) (drop k xs) ≡ take m xs
  take_two xs zero m h = let e : m - 0 ≡ m = omega arith in rw e refl
  take_two xs (suc k) zero h = absurd (omega arith)
  take_two [] (suc k) (suc m) h = nothing (suc m - suc k)
    where
      nothing : (n : ℕ) → take {A = A} n [] ≡ []
      nothing zero = refl
      nothing (suc n) = refl
  take_two (x ∷ xs) (suc k) (suc m) h =
      let e : suc m - suc k ≡ m - k = omega arith in
      rw e (ap (λ t. x ∷ t) (take_two xs k m (omega arith)))

  drop_two : (xs : List A) (j k : ℕ) → drop k (drop j xs) ≡ drop (j + k) xs
  drop_two xs zero k = let e : 0 + k ≡ k = omega arith in rw e refl
  drop_two [] (suc j) zero = let e : suc j + 0 ≡ suc j = omega arith in rw e refl
  drop_two [] (suc j) (suc k) = let e : suc j + suc k ≡ suc (j + suc k) = omega arith in rw e refl
  drop_two (x ∷ xs) (suc j) k =
      let e : suc j + k ≡ suc (j + k) = omega arith in rw e (drop_two xs j k)

module _ (file : List ℕ) (read_at : ℕ → ℕ → ℕ → IoResult (List ℕ)) where
  -- The system reads at least one byte where there is one, though perhaps fewer than are asked for, and
  -- interrupts no attempt from the one numbered `quiet` on.
  pub record IsSteady (quiet : ℕ) : Type 0 where
    pub answer :
        (attempt offset n : ℕ)
        → 0 < n
        → offset < length file
        → ((attempt < quiet) × (read_at attempt offset n ≡ err interrupted))
          ⊎ ((k : ℕ) × (0 < k)
              × (k ≤ n)
              × (offset + k ≤ length file)
              × (read_at attempt offset n ≡ ok (take k (drop offset file))))

  read_some :
      (offset n : ℕ) (bytes : List ℕ) (more : ℕ → ℕ → Option (IoResult (List ℕ)))
      → 0 < length bytes
      → length bytes ≤ n
      → offset + length bytes < u64_mod
      → after_attempt (ok bytes) offset n more
        ≡ prepend bytes (more (offset + length bytes) (n - length bytes))
  unfolding after_attempt
  read_some offset n bytes more some_bytes fits small =
      let z : (length bytes == 0) ≡ false = ground arith in
      let o : leb u64_mod (offset + length bytes) ≡ false = ground arith in
      rw (z, o, le→leb _ _ fits) refl

  abbrev rest_of_loop : ℕ → ℕ → ℕ → ℕ → Option (IoResult (List ℕ))
  rest_of_loop fuel attempt offset n = file_read_exact_at read_at fuel (attempt + 1) offset n

  one_attempt :
      (fuel attempt offset n : ℕ) (answer : IoResult (List ℕ))
      → read_at attempt offset (suc n) ≡ answer
      → file_read_exact_at read_at (suc fuel) attempt offset (suc n)
        ≡ after_attempt answer offset (suc n) (rest_of_loop fuel attempt)
  unfolding file_read_exact_at
  one_attempt fuel attempt offset n answer e = rw e refl

  again :
      (fuel attempt offset n : ℕ)
      → after_attempt (err interrupted) offset n (rest_of_loop fuel attempt)
        ≡ file_read_exact_at read_at fuel (attempt + 1) offset n
  unfolding after_attempt
  again fuel attempt offset n = refl

  no_bytes :
      (fuel attempt offset : ℕ) → file_read_exact_at read_at fuel attempt offset 0 ≡ some (ok [])
  unfolding file_read_exact_at
  no_bytes fuel attempt offset = refl

  -- With a file shorter than `2 ^ 64` and a steady system, one attempt for each byte and each one that
  -- may be interrupted are enough: the loop ends, and fills the buffer with the bytes of the file from
  -- the offset on, if the file has them.
  pub file_read_exact_at-slice :
      (quiet : ℕ)
      → IsSteady quiet
      → length file < u64_mod
      → (fuel attempt offset n : ℕ) → n + (quiet - attempt) ≤ fuel
      → offset + n ≤ length file
      → file_read_exact_at read_at fuel attempt offset n ≡ some (ok (take n (drop offset file)))
  file_read_exact_at-slice quiet steady wide fuel attempt offset zero enough inside =
      no_bytes fuel attempt offset
  file_read_exact_at-slice quiet steady wide zero attempt offset (suc n) enough inside =
      absurd (omega arith)
  file_read_exact_at-slice quiet steady wide (suc fuel) attempt offset (suc n) enough inside =
      elim (steady.answer attempt offset (suc n) (omega arith) (omega arith)) [
        | inl (early, e) ↦
            one_attempt fuel attempt offset n (err interrupted) e
            ∙ again fuel attempt offset (suc n)
            ∙ file_read_exact_at-slice quiet steady wide fuel (attempt + 1) offset (suc n)
                (omega arith) inside
        | inr (k, pos, fits, there, e) ↦
            let bytes : List ℕ = take k (drop offset file) in
            let size : length bytes ≡ k =
              omega (arith, length-take k (drop offset file), length-drop offset file) in
            let rest =
              file_read_exact_at-slice quiet steady wide fuel (attempt + 1) (offset + k) (suc n - k)
                (omega arith) (omega arith) in
            one_attempt fuel attempt offset n (ok bytes) e
            ∙ read_some offset (suc n) bytes (rest_of_loop fuel attempt) (omega (arith, size))
                (omega (arith, size)) (omega (arith, size))
            ∙ rw (size, rest) (ap (λ t. some (ok t)) (whole k fits))
      ]
    where
      whole :
          (k : ℕ)
          → k ≤ suc n
          → take k (drop offset file) ++ take (suc n - k) (drop (offset + k) file)
            ≡ take (suc n) (drop offset file)
      whole k fits = rw (← drop_two file offset k) (take_two (drop offset file) k (suc n) fits)
