-- ===== src/Pack/Input.antt =====
-- `read_chunk` of crates/rasen-archive/src/pack/writer.rs, and the inputs that it reads.
pub mod Delivery
use rasen_archive.Prelude.{
  ℕ, zero, suc, ◌-◌, List, [], ◌∷◌, ◌++◌, length, take, drop, ltb, if◌then◌else◌,
}
use rasen_archive.Error.{IoResult, Fallible, ok, err, panic, io, interrupted}

-- `std::io::Read`: what a read into a buffer of this length leaves there, and the reader afterwards,
-- which goes on after an error too.
pub record Reader (R : Type 0) : Type 0 where
  pub read : R → ℕ → IoResult (List ℕ) × R

-- `impl Read for &[u8]`
instance unfoldable pub slice_reader : Reader (List ℕ)
slice_reader = record { read = λ unread n. (ok (take n unread), drop n unread) }

module _ {R : Type 0} where
  -- `match reader.read(..)`: `more` is the rest of the loop.
  unfoldable pub after_read :
      IoResult (List ℕ) × R → List ℕ → (List ℕ → R → Fallible (List ℕ × R)) → Fallible (List ℕ × R)
  after_read (ok bytes, reader) filled more = elim bytes [
    | [] ↦ ok (filled, reader)
    | b ∷ bs ↦ more (filled ++ (b ∷ bs)) reader
  ]
  after_read (err interrupted, reader) filled more = more filled reader
  after_read (err e, reader) filled more = err (io e)
  after_read (panic, reader) filled more = panic

  -- The loop of `read_chunk` on a buffer of `len` bytes, whose first bytes are filled. A loop that has
  -- not ended within the fuel counts as a panic.
  unfoldable pub read_chunk : ⦃s : Reader R⦄ → ℕ → ℕ → List ℕ → R → Fallible (List ℕ × R)
  read_chunk ⦃s⦄ zero len filled reader =
      if ltb (length filled) len then panic else ok (filled, reader)
  read_chunk ⦃s⦄ (suc fuel) len filled reader =
      let rest =
        after_read (s.read reader (len - length filled)) filled
          (λ filled' reader'. read_chunk fuel len filled' reader') in
      if ltb (length filled) len then rest else ok (filled, reader)
