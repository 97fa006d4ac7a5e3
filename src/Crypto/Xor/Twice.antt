-- ===== src/Crypto/Xor/Twice.antt =====
-- `xor_in_place` of crates/rasen-archive/src/crypto/xor.rs, applied twice.
use rasen_archive.Prelude.{
  ℕ, zero, suc, ◌+◌, ◌%◌, ◌<◌, ◌≡◌, refl, List, [], ◌∷◌, length, get_elem?, bit_xor, arith,
}
use rasen_archive.Prelude.{some}
use rasen_archive.Prelude.Bits.Xor.{bit_xor_twice}
use rasen_archive.Error.{ok}
use rasen_archive.Crypto.Xor.{key_byte, xor_from, xor_in_place}

get_elem?_total {ℓ} :
    {A : Type ℓ} (xs : List A) (i : ℕ) → i < length xs → (a : A) × (get_elem? xs i ≡ some a)
get_elem?_total [] i h = absurd (omega arith)
get_elem?_total (x ∷ xs) zero h = (x, refl)
get_elem?_total (x ∷ xs) (suc i) h = get_elem?_total xs i (omega arith)

-- A key with at least one byte has a byte for every position.
key_byte_total : (key : List ℕ) (i : ℕ) → 0 < length key → (k : ℕ) × (key_byte key i ≡ ok k)
key_byte_total key i h =
    let (k, e) = get_elem?_total key (i % length key) (omega arith) in (k, ground arith)

module _ (key : List ℕ) (some_key : 0 < length key) where
  xor_from_twice :
      (bytes : List ℕ) (i : ℕ)
      → (ys : List ℕ) × (xor_from i bytes key ≡ ok ys)
        × (length ys ≡ length bytes)
        × (xor_from i ys key ≡ ok bytes)
  unfolding xor_from
  xor_from_twice [] i = ([], refl, refl, refl)
  xor_from_twice (byte ∷ bytes) i =
      let (k, at) = key_byte_total key i some_key in
      let (ys, first, same, second) = xor_from_twice bytes (i + 1) in
      (
        bit_xor byte k ∷ ys,
        rw (at, first),
        omega (arith, same),
        rw (at, second, bit_xor_twice byte k),
      )

  -- With a key that is not empty, `xor_in_place` succeeds, keeps the length, and undoes itself.
  pub xor_in_place_twice :
      (bytes : List ℕ)
      → (ys : List ℕ) × (xor_in_place bytes key ≡ ok ys)
        × (length ys ≡ length bytes)
        × (xor_in_place ys key ≡ ok bytes)
  unfolding xor_in_place
  xor_in_place_twice bytes = xor_from_twice bytes 0
