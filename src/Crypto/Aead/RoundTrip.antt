-- ===== src/Crypto/Aead/RoundTrip.antt =====
-- `encrypt` and `decrypt` of crates/rasen-archive/src/crypto/aead.rs, together.
use rasen_archive.Prelude.{
  ℕ, ◌+◌, ◌≤◌, ◌≡◌, List, ◌++◌, length, length-append, take_all, drop_all, arith,
}
use rasen_archive.Prelude.{le→leb, some, take, drop}
use rasen_archive.Error.{ok}
use rasen_archive.Platform.{Platform, IsLawful}
use rasen_archive.Crypto.Aead.{encrypt, decrypt, split_stored, aead_overhead}

split_stored-append :
    (nonce cipher : List ℕ)
    → length nonce ≡ 24
    → 16 ≤ length cipher
    → split_stored (nonce ++ cipher) ≡ some (nonce, cipher)
unfolding split_stored
split_stored-append nonce cipher e h =
    let front : take 24 (nonce ++ cipher) ≡ nonce = rw (← e) (take_all nonce cipher) in
    let back : drop 24 (nonce ++ cipher) ≡ cipher = rw (← e) (drop_all nonce cipher) in
    let long : 24 ≤ length (nonce ++ cipher) = omega (arith, length-append nonce cipher) in
    rw (front, back, le→leb _ _ long, le→leb _ _ h)

module _ (env : Platform) (lawful : IsLawful env) where
  encrypt_parts :
      (draw : ℕ) (plain key aad stored : List ℕ)
      → encrypt env draw plain key aad ≡ ok stored
      → (nonce : List ℕ) × (cipher : List ℕ) × (env.random_nonce draw ≡ some nonce)
        × (env.cipher_encrypt key nonce aad plain ≡ some cipher)
        × (stored ≡ nonce ++ cipher)
  unfolding encrypt
  encrypt_parts draw plain key aad stored h = ground arith

  -- With a lawful cipher: what `encrypt` stores is 40 bytes longer than the plain text, and `decrypt` with the same key and
  -- associated data gives the plain text back.
  pub decrypt-encrypt :
      (draw : ℕ) (plain key aad stored : List ℕ)
      → encrypt env draw plain key aad ≡ ok stored
      → (length stored ≡ length plain + aead_overhead) × (decrypt env stored key aad ≡ ok plain)
  unfolding decrypt
  decrypt-encrypt draw plain key aad stored h =
      let (nonce, cipher, drawn, sealed, whole) = encrypt_parts draw plain key aad stored h in
      let n = lawful.nonce_is_24 draw nonce drawn in
      let c = lawful.length-encrypt key nonce aad plain cipher sealed in
      rw whole (
        omega (arith, length-append nonce cipher, n, c),
        rw (
          split_stored-append nonce cipher n (omega (arith, c)),
          lawful.decrypt-encrypt key nonce aad plain cipher sealed,
        ),
      )
