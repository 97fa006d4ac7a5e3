-- ===== src/Tests/Streams.antt =====
-- Inputs that come in pieces, at concrete inputs.
use rasen_archive.Prelude.{
  ℕ, zero, suc, ◌<◌, ◌≤◌, ◌≡◌, refl, ◌⊎◌, inl, inr, List, [], ◌∷◌, ◌++◌, false, none, length,
  replicate, take, drop, arith,
}
use rasen_archive.Error.{IoResult, ok, err, interrupted}
use rasen_archive.Archive.Model.{xor}
use rasen_archive.Sink.Memory.{Memory, memory_sink, at_end}
use rasen_archive.Pack.Options.{debug}
use rasen_archive.Pack.Input.{Reader, slice_reader}
use rasen_archive.Pack.Input.Delivery.{IsDelivering, Reads, read_chunk-Reads}
use rasen_archive.Pack.Model.{Packer, Progress}
use rasen_archive.Pack.Store.{store_chunks}
use rasen_archive.Pack.Store.Pieces.{cut, store_pieces, store_chunks-store_pieces}
use rasen_archive.Tests.Setup.{platform}

-- A reader that is interrupted some times and then delivers byte by byte.
pub record Trickle : Type 0 where
  pub left : List ℕ
  pub waits : ℕ

trickle : ℕ → List ℕ → IoResult (List ℕ) × Trickle
trickle zero bytes = (ok (take 1 bytes), record { left = drop 1 bytes; waits = 0 })
trickle (suc k) bytes = (err interrupted, record { left = bytes; waits = k })

instance pub trickle_reader : Reader Trickle
trickle_reader = record { read = λ r n. trickle r.waits r.left }

trickle_next :
    (waits : ℕ) (bytes : List ℕ) (n : ℕ)
    → 0 < n
    → ((got : List ℕ) × (r' : Trickle) × (trickle waits bytes ≡ (ok got, r'))
        × (bytes ≡ got ++ r'.left)
        × (length got ≤ n)
        × (length got ≡ 0 → bytes ≡ [])
        × (r'.waits ≤ waits))
      ⊎ ((r' : Trickle) × (trickle waits bytes ≡ (err interrupted, r'))
          × (r'.left ≡ bytes)
          × (r'.waits < waits))
unfolding trickle
trickle_next zero [] n h =
    inl ([], record { left = []; waits = 0 }, refl, refl, omega arith, λ e. refl, omega arith)
trickle_next zero (b ∷ bs) n h = inl (
  b ∷ [],
  record { left = bs; waits = 0 },
  refl,
  refl,
  omega arith,
  λ e. absurd (omega arith),
  omega arith,
)
trickle_next (suc k) bytes n h = inr (record { left = bytes; waits = k }, refl, refl, omega arith)

trickle_reader-IsDelivering : IsDelivering trickle_reader (λ r. r.left) (λ r. r.waits)
unfolding trickle_reader
trickle_reader-IsDelivering = record { read_next = λ r n h. trickle_next r.waits r.left n h }

abbrev pub stream : Trickle
stream = record { left = 7 ∷ 8 ∷ 9 ∷ []; waits = 2 }

read_chunk-Reads_example :
    Reads (λ (r : Trickle). r.left) (λ r. r.waits) trickle_reader-IsDelivering 6 2 [] stream
read_chunk-Reads_example =
    read_chunk-Reads (λ (r : Trickle). r.left) (λ r. r.waits) trickle_reader-IsDelivering 6 2 []
      stream (omega arith)

abbrev packer : Packer Memory
packer = record {
  writer = at_end (replicate 60 0);
  key = 5 ∷ [];
  aead_key = none;
  options = record { chunk_size = 2; alignment = 4; mode = debug; protection = xor };
  entries = [];
  chunks = [];
  seen_hashes = [];
  offset = 60;
  failed = false;
  draws = 0;
}

abbrev start : Progress Memory
start = record { packer = packer; original_total = 0; stored_total = 0 }

store_chunks-store_pieces_example :
    store_chunks platform 6 6 stream start ≡ store_pieces platform (cut 6 2 (7 ∷ 8 ∷ 9 ∷ [])) start
store_chunks-store_pieces_example =
    store_chunks-store_pieces platform (λ (r : Trickle). r.left) (λ r. r.waits)
      trickle_reader-IsDelivering 6 6 stream start (omega arith) (omega arith) (omega arith)
