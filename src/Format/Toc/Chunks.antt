-- ===== src/Format/Toc/Chunks.antt =====
-- The chunk table of the TOC, encoded and decoded (crates/rasen-archive/src/format/toc.rs).
use rasen_archive.Prelude.{
  ℕ, ◌+◌, ◌*◌, ◌<◌, ◌≡◌, refl, List, [], ◌∷◌, ◌++◌, append_assoc, append-nil,
}
use rasen_archive.Prelude.{
  length, length-append, to_le_bytes, length-to_le_bytes, lengths, arith, Bool, true,
}
use rasen_archive.Prelude.{
  length-append_bytes, All, u16_mod, u64_mod, if◌then◌else◌, not, ◌==◌, bit_and,
}
use rasen_archive.Error.{ok}
use rasen_archive.Format
use rasen_archive.Format.Model.{Chunk}
use rasen_archive.Format.Io.Cursor
use rasen_archive.Format.Io.Cursor.{between}
use rasen_archive.Format.Toc.{encode_chunk, encode_chunks, decode_chunk, decode_chunks}

-- The fields fit their widths.
pub record IsChunk (c : Chunk) : Type 0 where
  pub offset_fits : c.offset < u64_mod
  pub stored_size_fits : c.stored_size < u64_mod
  pub original_size_fits : c.original_size < u64_mod
  pub checksum_fits : c.checksum < u64_mod

pub length-encode_chunk : (c : Chunk) → length (encode_chunk c) ≡ 36
unfolding encode_chunk
length-encode_chunk c = simp (length-append, length-to_le_bytes)

abbrev flag_word : Bool → ℕ
flag_word compressed = if compressed then Format.chunk_flag_lz4 else 0

flag_word-lt : (b : Bool) → flag_word b < u16_mod
flag_word-lt b = ground arith

-- The flags are known ones, and say whether the chunk is compressed.
flag_word_known : (b : Bool) → (bit_and (flag_word b) 0xfffe == 0) ≡ true
flag_word_known b = ground arith

flag_word_read : (b : Bool) → not (bit_and (flag_word b) 1 == 0) ≡ b
flag_word_read b = ground arith

module _ (c : Chunk) (front rest : List ℕ) where
  pub decode_chunk-encode_chunk :
      IsChunk c
      → length front + 36 < u64_mod
      → decode_chunk (between front (encode_chunk c ++ rest))
        ≡ ok (c, between (front ++ encode_chunk c) rest)
  unfolding decode_chunk encode_chunk
  decode_chunk-encode_chunk v fits =
      let w1 : List ℕ = to_le_bytes 8 c.offset in
      let w2 : List ℕ = to_le_bytes 8 c.stored_size in
      let w3 : List ℕ = to_le_bytes 8 c.original_size in
      let w4 : List ℕ = to_le_bytes 8 c.checksum in
      let w5 : List ℕ = to_le_bytes 2 (flag_word c.compressed) in
      let f1 : List ℕ = front ++ w1 in
      let f2 : List ℕ = front ++ (w1 ++ w2) in
      let f3 : List ℕ = front ++ (w1 ++ (w2 ++ w3)) in
      let f4 : List ℕ = front ++ (w1 ++ (w2 ++ (w3 ++ w4))) in
      let f5 : List ℕ = front ++ (w1 ++ (w2 ++ (w3 ++ (w4 ++ w5)))) in
      simp (
        append_assoc,
        Cursor.u64-between c.offset front _ v.offset_fits (omega arith),
        Cursor.u64-between c.stored_size f1 _ v.stored_size_fits (omega lengths),
        Cursor.u64-between c.original_size f2 _ v.original_size_fits (omega lengths),
        Cursor.u64-between c.checksum f3 _ v.checksum_fits (omega lengths),
        Cursor.u16-between (flag_word c.compressed) f4 _ (flag_word-lt c.compressed)
            (omega lengths),
        Cursor.u16-between 0 f5 _ (omega arith) (omega lengths),
        flag_word_known c.compressed,
        flag_word_read c.compressed,
      )

pub length-encode_chunks : (cs : List Chunk) → length (encode_chunks cs) ≡ 36 * length cs
unfolding encode_chunks
length-encode_chunks [] = refl
length-encode_chunks (c ∷ cs) = omega (
  arith,
  length-append_bytes (encode_chunk c) (encode_chunks cs),
  length-encode_chunk c,
  length-encode_chunks cs,
)

pub decode_chunks-encode_chunks :
    (cs : List Chunk) (front rest : List ℕ)
    → All IsChunk cs
    → length front + 36 * length cs < u64_mod
    → decode_chunks (length cs) (between front (encode_chunks cs ++ rest))
      ≡ ok (cs, between (front ++ encode_chunks cs) rest)
unfolding decode_chunks encode_chunks
decode_chunks-encode_chunks [] front rest v fits = rw append-nil
decode_chunks-encode_chunks (c ∷ cs) front rest v fits =
    let small : length front + 36 < u64_mod = omega arith in
    let more : length (front ++ encode_chunk c) + 36 * length cs < u64_mod =
      omega (arith, length-append_bytes front (encode_chunk c), length-encode_chunk c) in
    rw (
      append_assoc (encode_chunk c) (encode_chunks cs) rest,
      decode_chunk-encode_chunk c front (encode_chunks cs ++ rest) v.0 small,
      decode_chunks-encode_chunks cs (front ++ encode_chunk c) rest v.1 more,
      append_assoc front (encode_chunk c) (encode_chunks cs),
    )
