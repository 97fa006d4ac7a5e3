-- ===== src/Tests/Setup.antt =====
-- Concrete stand-ins for the libraries and the destination, for the runs in the other test modules.
use rasen_archive.Prelude.{ℕ, ◌+◌, ◌*◌, ◌%◌, ◌<◌, ◌≡◌, refl, List, [], ◌∷◌, ◌++◌, true}
use rasen_archive.Prelude.{some, length, drop, replicate, length-replicate}
use rasen_archive.Prelude.{append_assoc, u64_mod, arith}
use rasen_archive.Prelude.{String}
use rasen_archive.Error.{Result, ok, err, io_other}
use rasen_archive.Platform.{Platform, IsRoomy, IsLawful}
use rasen_archive.Sink.{Sink, IsSink}

-- A digest that depends on every byte and on their order.
unfoldable pub digest : List ℕ → ℕ
digest [] = 0
digest (b ∷ bs) = (b + 31 * digest bs) % u64_mod

digest_is_word : (bs : List ℕ) → digest bs < u64_mod
unfolding digest
digest_is_word [] = omega arith
digest_is_word (b ∷ bs) = omega arith

-- Compression that leaves the bytes as they are, and a cipher that puts a tag of 16 zeroes in front.
abbrev pub platform : Platform
platform = record {
  xxh3_64 = digest;
  maximum_output_size = λ n. n;
  compress_into = λ bs n. ok bs;
  decompress_into = λ bs n. ok bs;
  blake3_derive_key = λ context key. key;
  random_nonce = λ i. some (replicate 24 (i % 256));
  cipher_encrypt = λ key nonce aad bs. some (replicate 16 0 ++ bs);
  cipher_decrypt = λ key nonce aad bs. some (drop 16 bs);
  from_utf8 = λ bs. true;
  can_reserve = λ n. true;
}

pub platform-IsRoomy : IsRoomy platform
platform-IsRoomy n = refl

pub platform-IsLawful : IsLawful platform
platform-IsLawful = record {
  hash_is_word = digest_is_word;
  decompress-compress = λ bs out n h. cc;
  compress_some = λ bs out n h p. some_bytes bs out h p;
  decrypt-encrypt = λ key nonce aad bs out h. unsealed bs out h;
  length-encrypt = λ key nonce aad bs out h. sealed_length bs out h;
  nonce_is_24 = λ i n h. drawn i n h;
}
  where
    unsealed :
        (bs out : List ℕ) → some (replicate 16 0 ++ bs) ≡ some out → some (drop 16 out) ≡ some bs
    unsealed bs out h = let same : replicate 16 0 ++ bs ≡ out = cc in rw (← same) refl

    some_bytes :
        (bs out : List ℕ)
        → ◌≡◌ {A = Result String (List ℕ)} (ok bs) (ok out)
        → 0 < length bs
        → 0 < length out
    some_bytes bs out h p = let same : bs ≡ out = cc in rw (← same) p

    sealed_length :
        (bs out : List ℕ) → some (replicate 16 0 ++ bs) ≡ some out → length out ≡ length bs + 16
    sealed_length bs out h = let same : replicate 16 0 ++ bs ≡ out = cc in rw (← same) (omega arith)

    drawn : (i : ℕ) (n : List ℕ) → some (replicate 24 (i % 256)) ≡ some n → length n ≡ 24
    drawn i n h =
        let same : replicate 24 (i % 256) ≡ n = cc in rw (← same) (length-replicate 24 (i % 256))

-- A destination that only appends.
instance pub list_sink : Sink (List ℕ)
list_sink = record {
  write_all = λ w xs. ok (w ++ xs);
  seek_end = λ w. ok (length w, w);
  seek_start = λ w position. err (io_other "not seekable");
}

pub list_sink-IsSink : IsSink list_sink
unfolding list_sink
list_sink-IsSink = record { write_all-append = λ w xs ys. rw (append_assoc w xs ys) refl }
