-- ===== src/Pack/Store.antt =====
-- What the packer of crates/rasen-archive/src/pack/writer.rs writes: padding and chunks.
pub mod Growth
pub mod Loop
pub mod Padding
pub mod Pieces
pub mod ReadBack
pub mod Round
pub mod Stored
use rasen_archive.Prelude.{ℕ, zero, suc, ◌+◌, ◌-◌, List, [], ◌∷◌, ◌++◌}
use rasen_archive.Prelude.{Option, none, some, if◌then◌else◌, ltb, leb, length, replicate}
use rasen_archive.Prelude.{min, checked_add}
use rasen_archive.Error.{
  Fallible, ok, panic, ◌>>=◌, ◌>>◌, require, ok_or, map_err, from_io, sub_word, lz4, too_large,
}
use rasen_archive.Platform.{Platform}
use rasen_archive.Sink.{Sink}
use rasen_archive.Crypto.Aead.{derive_key, encrypt, chunk_aad}
use rasen_archive.Format.Model.{Chunk}
use rasen_archive.Format.Io.{align_up, usize_to_u32, usize_to_u64}
use rasen_archive.Archive.Model.{Protection, xor, aead}
use rasen_archive.Pack.Input.{Reader, read_chunk, slice_reader}
use rasen_archive.Pack.Model.{Packer, Progress}

module _ (env : Platform) where
  abbrev pub aead_key_of : Protection → List ℕ → Option (List ℕ)
  aead_key_of aead key = some (derive_key env key)
  aead_key_of xor key = none

  -- `compress_into(raw, compressed)` into a buffer of this length
  abbrev pub compress : List ℕ → ℕ → Fallible (List ℕ)
  compress raw len = map_err lz4 (env.compress_into raw len)

  -- `match &self.aead_key` around `encrypt`, with the number of draws afterwards.
  unfoldable pub protect : Option (List ℕ) → ℕ → List ℕ → List ℕ → Fallible (List ℕ × ℕ)
  protect none draws plain aad = ok (plain, draws)
  protect (some key) draws plain aad = do
    stored ← encrypt env draws plain key aad
    ok (stored, draws + 1)

module _ {W : Type 0} ⦃s : Sink W⦄ where
  -- The loop of `align`: each round writes at least one byte, so `remaining` is fuel enough.
  unfoldable pub pad : ℕ → W → ℕ → Fallible W
  pad fuel w zero = ok w
  pad zero w (suc remaining) = panic
  pad (suc fuel) w (suc remaining) =
      from_io (s.write_all w (replicate (min (suc remaining) 4096) 0)) >>= λ w'.
      pad fuel w' (suc remaining - min (suc remaining) 4096)

  unfoldable pub align : Packer W → Fallible (Packer W)
  align p = do
    aligned ← align_up p.offset p.options.alignment
    remaining ← sub_word aligned p.offset
    w ← pad remaining p.writer remaining
    ok (record p { writer = w; offset = aligned })

module _ {W : Type 0} ⦃s : Sink W⦄ (env : Platform) where
  -- One round of the loop over the chunks, on the bytes that were read.
  unfoldable pub store_chunk : List ℕ → Progress W → Fallible (Progress W)
  store_chunk raw g = do
    compressed ← compress env raw (env.maximum_output_size g.packer.options.chunk_size)
    p ← align g.packer
    let is_compressed = ltb (length compressed) (length raw)
    let plain_stored = if is_compressed then compressed else raw
    global_chunk ← usize_to_u32 (length p.chunks) "chunk index"
    (stored, draws) ← protect env p.aead_key p.draws plain_stored (chunk_aad global_chunk)
    w ← from_io (s.write_all p.writer stored)
    stored_size ← usize_to_u64 (length stored) "stored chunk size"
    offset ← ok_or (checked_add p.offset stored_size) (too_large "archive offset")
    original_size ← usize_to_u64 (length raw) "original chunk size"
    original_total ←
        ok_or (checked_add g.original_total original_size) (too_large "entry original size")
    stored_total ← ok_or (checked_add g.stored_total stored_size) (too_large "entry stored size")
    let c : Chunk = record {
      offset = p.offset;
      stored_size = stored_size;
      original_size = original_size;
      checksum = env.xxh3_64 raw;
      compressed = is_compressed;
    }
    let chunks = p.chunks ++ (c ∷ [])
    count ← usize_to_u32 (length chunks) "chunk count"
    ok (record {
      packer = record p { writer = w; chunks = chunks; offset = offset; draws = draws };
      original_total = original_total;
      stored_total = stored_total;
    })

  module _ {R : Type 0} ⦃r : Reader R⦄ where
    -- The loop over the chunks of an input. Both loops have this fuel; `&self.raw[..raw_len]` wants
    -- the bytes read to fit the buffer.
    unfoldable pub store_chunks : ℕ → ℕ → R → Progress W → Fallible (Progress W)
    store_chunks fuel zero reader g = panic
    store_chunks fuel (suc rounds) reader g =
        read_chunk fuel g.packer.options.chunk_size [] reader >>= λ (raw, reader'). elim raw [
          | [] ↦ ok g
          | b ∷ bs ↦
              require (leb (length (b ∷ bs)) g.packer.options.chunk_size)
              >> (store_chunk (b ∷ bs) g >>= λ g'. store_chunks fuel rounds reader' g')
        ]
