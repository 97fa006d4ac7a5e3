-- ===== src/Platform.antt =====
-- What the crate takes from other crates and from the system: xxhash-rust, lz4_flex, blake3,
-- chacha20poly1305, getrandom, the allocator and UTF-8 validation. Each is a parameter.
use rasen_archive.Prelude.{ℕ, List, String, Bool, true, Option, some, ◌<◌, ◌+◌, ◌≡◌}
use rasen_archive.Prelude.{length, u64_mod}
use rasen_archive.Error.{Result, ok, Fallible, guard, too_large}

pub record Platform : Type 0 where
  -- `xxh3_64`
  pub xxh3_64 : List ℕ → ℕ
  -- `lz4_flex::block::get_maximum_output_size`
  pub maximum_output_size : ℕ → ℕ
  -- `compress_into(input, output)`: the bytes that it writes to an output of this length.
  pub compress_into : List ℕ → ℕ → Result String (List ℕ)
  -- `decompress_into(input, output)`, likewise.
  pub decompress_into : List ℕ → ℕ → Result String (List ℕ)
  -- `blake3::derive_key(context, key_material)`
  pub blake3_derive_key : String → List ℕ → List ℕ
  -- The answer of the n-th `getrandom::fill` of 24 bytes.
  pub random_nonce : ℕ → Option (List ℕ)
  -- XChaCha20-Poly1305 under a key, a nonce and associated data.
  pub cipher_encrypt : List ℕ → List ℕ → List ℕ → List ℕ → Option (List ℕ)
  pub cipher_decrypt : List ℕ → List ℕ → List ℕ → List ℕ → Option (List ℕ)
  -- Whether bytes are well-formed UTF-8 (`str::from_utf8`).
  pub from_utf8 : List ℕ → Bool
  -- Whether `try_reserve` of this many elements succeeds.
  pub can_reserve : ℕ → Bool

-- `buffer.try_reserve_exact(len).map_err(|_| Error::TooLarge(what))?`
abbrev pub reserve : Platform → ℕ → String → Fallible (Unit {0})
reserve env len what = guard (env.can_reserve len) (too_large what)

-- The allocator grants every request.
abbrev pub IsRoomy : Platform → Type 0
IsRoomy env = (n : ℕ) → env.can_reserve n ≡ true

-- What the crate relies on in the libraries.
pub record IsLawful (env : Platform) : Type 0 where
  pub hash_is_word : (bs : List ℕ) → env.xxh3_64 bs < u64_mod
  -- LZ4 decompression inverts compression, into a buffer of the original length.
  pub decompress-compress :
      (bs out : List ℕ) (n : ℕ)
      → env.compress_into bs n ≡ ok out
      → env.decompress_into out (length bs) ≡ ok bs
  -- A compressed block has at least one byte.
  pub compress_some :
      (bs out : List ℕ) (n : ℕ) → env.compress_into bs n ≡ ok out → 0 < length bs → 0 < length out
  -- The cipher inverts encryption under the same key, nonce and data, and adds a 16-byte tag.
  pub decrypt-encrypt :
      (key nonce aad bs out : List ℕ)
      → env.cipher_encrypt key nonce aad bs ≡ some out
      → env.cipher_decrypt key nonce aad out ≡ some bs
  pub length-encrypt :
      (key nonce aad bs out : List ℕ)
      → env.cipher_encrypt key nonce aad bs ≡ some out
      → length out ≡ length bs + 16
  pub nonce_is_24 : (i : ℕ) (n : List ℕ) → env.random_nonce i ≡ some n → length n ≡ 24
