-- ===== src/Tests/Ciphers.antt =====
-- Encryption and XOR at concrete inputs.
use rasen_archive.Prelude.{ℕ, ◌+◌, ◌≡◌, refl, List, [], ◌∷◌, ◌++◌, length, replicate, arith}
use rasen_archive.Error.{ok}
use rasen_archive.Crypto.Aead.{encrypt, decrypt, toc_aad, aead_overhead}
use rasen_archive.Crypto.Aead.RoundTrip.{decrypt-encrypt}
use rasen_archive.Crypto.Xor.{xor_in_place, xor_from}
use rasen_archive.Crypto.Xor.Twice.{xor_in_place_twice}
use rasen_archive.Tests.Setup.{platform, platform-IsLawful}

abbrev sealed : List ℕ
sealed = replicate 24 7 ++ (replicate 16 0 ++ (1 ∷ 2 ∷ 3 ∷ []))

encrypted_sample : encrypt platform 7 (1 ∷ 2 ∷ 3 ∷ []) (9 ∷ []) toc_aad ≡ ok sealed
unfolding encrypt
encrypted_sample = refl

decrypt-encrypt_example :
    (length sealed ≡ 3 + aead_overhead)
    × (decrypt platform sealed (9 ∷ []) toc_aad ≡ ok (1 ∷ 2 ∷ 3 ∷ []))
decrypt-encrypt_example =
    decrypt-encrypt platform platform-IsLawful 7 (1 ∷ 2 ∷ 3 ∷ []) (9 ∷ []) toc_aad sealed
      encrypted_sample

xor_sample : xor_in_place (1 ∷ 2 ∷ 3 ∷ []) (255 ∷ 1 ∷ []) ≡ ok (254 ∷ 3 ∷ 252 ∷ [])
unfolding xor_in_place xor_from
xor_sample = refl

xor_in_place_twice_example :
    (ys : List ℕ) × (xor_in_place (1 ∷ 2 ∷ 3 ∷ []) (255 ∷ 1 ∷ []) ≡ ok ys)
    × (length ys ≡ 3)
    × (xor_in_place ys (255 ∷ 1 ∷ []) ≡ ok (1 ∷ 2 ∷ 3 ∷ []))
xor_in_place_twice_example = xor_in_place_twice (255 ∷ 1 ∷ []) (omega arith) (1 ∷ 2 ∷ 3 ∷ [])
