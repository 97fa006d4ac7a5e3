-- ===== src/Crypto/Aead.antt =====
-- crates/rasen-archive/src/crypto/aead.rs
pub mod RoundTrip
use rasen_archive.Prelude.{ℕ, ◌+◌, List, [], ◌∷◌, ◌++◌, length, take, drop, leb, ◌&&◌, String}
use rasen_archive.Prelude.{to_le_bytes, Option, none, some, if◌then◌else◌}
use rasen_archive.Error.{Fallible, ok, err, ◌>>=◌, ◌>>◌, ok_or, crypto}
use rasen_archive.Platform.{Platform, reserve}

abbrev pub aead_overhead : ℕ
aead_overhead = 24 + 16

-- "RPAK-TOC-v1"
abbrev pub toc_aad : List ℕ
toc_aad = 82 ∷ 80 ∷ 65 ∷ 75 ∷ 45 ∷ 84 ∷ 79 ∷ 67 ∷ 45 ∷ 118 ∷ 49 ∷ []

abbrev pub key_context : String
key_context = "rasen-archive XChaCha20-Poly1305 key v1"

-- "RPAK-CHN" and the index.
unfoldable pub chunk_aad : ℕ → List ℕ
chunk_aad index = 82 ∷ 80 ∷ 65 ∷ 75 ∷ 45 ∷ 67 ∷ 72 ∷ 78 ∷ to_le_bytes 4 index

-- `stored.split_at_checked(24).filter(|(_, ciphertext)| ciphertext.len() >= 16)`
unfoldable pub split_stored : List ℕ → Option (List ℕ × List ℕ)
split_stored stored =
    if leb 24 (length stored) && leb 16 (length (drop 24 stored))
    then some (take 24 stored, drop 24 stored)
    else none

module _ (env : Platform) where
  unfoldable pub derive_key : List ℕ → List ℕ
  derive_key key_material = env.blake3_derive_key key_context key_material

  -- The nonce is the draw with this number.
  unfoldable pub encrypt : ℕ → List ℕ → List ℕ → List ℕ → Fallible (List ℕ)
  encrypt draw plain key aad = do
    nonce_bytes ← ok_or (env.random_nonce draw) (crypto "nonce generation failed")
    ciphertext ← ok_or (env.cipher_encrypt key nonce_bytes aad plain) (crypto "encryption failed")
    reserve env (length nonce_bytes + length ciphertext) "encrypted block allocation"
    ok (nonce_bytes ++ ciphertext)

  unfoldable pub decrypt : List ℕ → List ℕ → List ℕ → Fallible (List ℕ)
  decrypt stored key aad = do
    (nonce, ciphertext) ← ok_or (split_stored stored) (crypto "encrypted block is truncated")
    ok_or (env.cipher_decrypt key nonce aad ciphertext) (crypto "authentication failed")
