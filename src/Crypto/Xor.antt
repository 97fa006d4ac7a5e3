-- ===== src/Crypto/Xor.antt =====
-- crates/rasen-archive/src/crypto/xor.rs
pub mod Twice
use rasen_archive.Prelude.{ℕ, ◌+◌, ◌%◌, List, [], ◌∷◌, get_elem?, length, bit_xor, ◌==◌}
use rasen_archive.Prelude.{if◌then◌else◌, Option}
use rasen_archive.Error.{Fallible, ok, panic, ◌>>=◌, or_panic}

-- `key[i % key.len()]`: a remainder by 0 panics.
abbrev pub key_byte : List ℕ → ℕ → Fallible ℕ
key_byte key i = if length key == 0 then panic else or_panic (get_elem? key (i % length key))

-- The loop from the byte numbered `i` on.
unfoldable pub xor_from : ℕ → List ℕ → List ℕ → Fallible (List ℕ)
xor_from i [] key = ok []
xor_from i (byte ∷ bytes) key = do
  k ← key_byte key i
  rest ← xor_from (i + 1) bytes key
  ok (bit_xor byte k ∷ rest)

unfoldable pub xor_in_place : List ℕ → List ℕ → Fallible (List ℕ)
xor_in_place bytes key = xor_from 0 bytes key
