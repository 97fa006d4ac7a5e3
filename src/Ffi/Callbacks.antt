-- ===== src/Ffi/Callbacks.antt =====
-- The callbacks and the sources of crates/rasen-archive-ffi/src/io.rs.
use rasen_archive.Prelude.{
  ℕ, ◌+◌, ◌<◌, ◌≤◌, ◌≡◌, refl, ap, sym, ◌∙◌, List, [], ◌∷◌, Option, none, some, length, length-take,
  leb, leb→le, ◌==◌, u64_mod, checked_add, arith,
}
use rasen_archive.Error.{
  IoResult, ok, err, >>=-eq-ok, ok-injective, guard, guard-eq-ok, ok_or, io_other,
}
use rasen_archive.Archive.Source.{bytes_source, read_slice_exact}
use rasen_archive.Ffi.Io.{
  ReadAnswer, CallbackReader, read_answer, callback_read, CallbackWriter, callback_write,
  callback_write_all,
}
use rasen_archive.Ffi.Source.{memory, ffi_len, ffi_read_exact_at, ffi_source}

-- The source over bytes in memory reads as the source of the archive crate over the same bytes does.
pub ffi_source-bytes_source : (bytes : List ℕ) → ffi_source (memory bytes) ≡ bytes_source bytes
unfolding ffi_len ffi_read_exact_at read_slice_exact
ffi_source-bytes_source bytes = refl

module _ {U : Type 0} where
  read_answer-le :
      (answer : ReadAnswer U) (n : ℕ) (bytes : List ℕ)
      → read_answer answer n ≡ ok bytes
      → length bytes ≤ n
  unfolding read_answer
  read_answer-le answer n bytes h =
      let (u, e0, h0) =
        >>=-eq-ok (guard (answer.status == 0) (io_other "read callback failed")) _ h in
      let (v, e1, h1) =
        >>=-eq-ok
          (guard (leb answer.amount n) (io_other "read callback returned an oversized count")) _
          h0 in
      let small = leb→le answer.amount n (
        guard-eq-ok (leb answer.amount n) (io_other "read callback returned an oversized count")
          e1) in
      omega (arith, ap (λ xs. length xs) (ok-injective h1), length-take answer.amount answer.buffer)

  -- Whatever the callback answers, a read that succeeds yields no more bytes than the buffer has.
  pub callback_read-le :
      (r r' : CallbackReader U) (n : ℕ) (bytes : List ℕ)
      → callback_read r n ≡ (ok bytes, r')
      → length bytes ≤ n
  unfolding callback_read
  callback_read-le r r' n bytes h = by_callback r.read h
    where
      by_callback :
          (read : Option (U → ℕ → ReadAnswer U))
          → ◌≡◌ {A = IoResult (List ℕ) × CallbackReader U}
              (elim read [
                | none ↦ (err (io_other "read callback is null"), r)
                | some read_it ↦
                    let answer = read_it r.user_data n in
                    (read_answer answer n, record r { user_data = answer.user_data })
              ])
              (ok bytes, r')
          → length bytes ≤ n
      by_callback none e = let c = ap (λ d. d.0) e in absurd cc
      by_callback (some read_it) e =
          read_answer-le (read_it r.user_data n) n bytes (ap (λ d. d.0) e)

  callback_write-position :
      (w w' : CallbackWriter U) (xs : List ℕ)
      → callback_write w xs ≡ ok w'
      → (w'.position ≡ w.position + length xs) × (w'.position < u64_mod)
  unfolding callback_write
  callback_write-position w w' xs h =
      let (write, e0, h0) = >>=-eq-ok (ok_or w.write (io_other "write callback is null")) _ h in
      let answer : ℕ × U = write w.user_data xs in
      let (u, e1, h1) = >>=-eq-ok (guard (answer.0 == 0) (io_other "write callback failed")) _ h0 in
      let (position, e2, h2) =
        >>=-eq-ok (ok_or (checked_add w.position (length xs)) (io_other "writer position overflow"))
          _ h1 in
      let moved = ap (λ (x : CallbackWriter U). x.position) (ok-injective h2) in
      let (small, sum) = added w.position (length xs) position e2 in
      (sym moved ∙ sum, omega (arith, moved, sum, small))
    where
      added :
          (a b n : ℕ)
          → ok_or (checked_add a b) (io_other "writer position overflow") ≡ ok n
          → (a + b < u64_mod) × (n ≡ a + b)
      added a b n e = ground arith

  -- From a position that is a 64-bit word, a write that succeeds moves the position by the number of
  -- bytes, and it is a 64-bit word again.
  pub callback_write_all-position :
      (w w' : CallbackWriter U) (xs : List ℕ)
      → w.position < u64_mod
      → callback_write_all w xs ≡ ok w'
      → (w'.position ≡ w.position + length xs) × (w'.position < u64_mod)
  unfolding callback_write_all
  callback_write_all-position w w' [] fits h =
      let same = ap (λ (x : CallbackWriter U). x.position) (ok-injective h) in
      (omega (arith, same), omega (arith, same))
  callback_write_all-position w w' (b ∷ bs) fits h = callback_write-position w w' (b ∷ bs) h
