-- ===== src/Pack/Store/ReadBack.antt =====
-- A chunk that the packer of crates/rasen-archive/src/pack/writer.rs has stored, read by
-- `read_chunk_by_index_into` of archive/reader.rs.
use rasen_archive.Prelude.{
  ℕ, ◌+◌, ◌<◌, ◌≤◌, ◌≡◌, refl, ap, sym, ◌∙◌, List, ◌++◌, Bool, true, false, Option, none, some,
  get_elem?, length, length-append, append_assoc, slice_middle, u64_mod, arith, lt→ltb, le→leb,
  ==_self, ==_iff,
}
use mathlib.Core.Path.{subst}
use rasen_archive.Archive.Source.Bytes.{bytes_source-IsSource}
use rasen_archive.Error.{ok}
use rasen_archive.Platform.{Platform, IsRoomy}
use rasen_archive.Compression.{decompress_into_exact}
use rasen_archive.Crypto.Aead.{chunk_aad}
use rasen_archive.Format
use rasen_archive.Format.Model.{Chunk}
use rasen_archive.Format.Io.{u64_to_usize}
use rasen_archive.Archive.Source.{Source, IsSource, bytes_source, read_slice_exact}
use rasen_archive.Archive.Model.{Archive}
use rasen_archive.Archive.Chunks.{
  ChecksumLabel, ensure_chunk_operation_limit, chunk, decrypt_chunk, decompress_chunk, load_chunk,
  read_chunk_by_index_into,
}
use rasen_archive.Archive.Chunks.Decode.{load_stored_whole}
use rasen_archive.Pack.Store.Stored.{Packed, Sealed, IsStored}

read_middle :
    (front xs back : List ℕ) (offset n : ℕ)
    → offset ≡ length front
    → n ≡ length xs
    → length front + length xs < u64_mod
    → read_slice_exact (front ++ (xs ++ back)) offset n ≡ ok xs
unfolding read_slice_exact
read_middle front xs back offset n at size fits =
    let there = slice_middle front xs back offset (offset + n) at (omega (arith, at, size)) in
    let small : offset + n < u64_mod = omega (arith, at, size) in
    rw (lt→ltb (offset + n) u64_mod small, there) refl

module _ (env : Platform) (a : Archive) where
  decompress-Packed :
      (compressed : Bool) (raw plain : List ℕ)
      → Packed env compressed raw plain
      → decompress_chunk env a compressed plain (length raw) ≡ ok raw
  unfolding decompress_chunk decompress_into_exact
  decompress-Packed true raw plain (some_bytes, less, back) = rw (back, ==_self (length raw)) refl
  decompress-Packed false raw plain same = rw (same, ==_self (length raw)) refl

  decrypt-Sealed :
      (key : Option (List ℕ)) (index : ℕ) (plain stored : List ℕ)
      → Sealed env key (chunk_aad index) plain stored
      → decrypt_chunk env a key index stored ≡ ok plain
  unfolding decrypt_chunk
  decrypt-Sealed none index plain stored same = ap ok same
  decrypt-Sealed (some key) index plain stored (size, back) = back

  module _ (roomy : IsRoomy env) (exact : IsSource a.source) (index : ℕ) (c : Chunk)
      (raw plain stored scratch : List ℕ) where
    load-Packed :
        (key : Option (List ℕ)) (compressed : Bool)
        → c.compressed ≡ compressed
        → c.stored_size < u64_mod
        → c.stored_size ≡ length stored
        → a.source.read_exact_at c.offset c.stored_size ≡ ok stored
        → Packed env compressed raw plain
        → Sealed env key (chunk_aad index) plain stored
        → (after : List ℕ) × (load_chunk env a key compressed index c (length raw) scratch
            ≡ ok (raw, after))
    unfolding load_chunk
    load-Packed none false is fits size read packed sealed =
        let same : stored ≡ raw = sealed ∙ packed in
        let read_raw : a.source.read_exact_at c.offset (length raw) ≡ ok raw =
          ap (λ n. a.source.read_exact_at c.offset n) (sym (size ∙ ap (λ t. length t) same))
          ∙ read
          ∙ ap ok same in
        (scratch, rw read_raw refl)
    load-Packed none true is fits size read packed sealed = (
      stored,
      load_stored_whole env a roomy exact none index c (length raw) scratch raw stored plain fits
          read (decrypt-Sealed none index plain stored sealed)
          (rw is (decompress-Packed true raw plain packed)),
    )
    load-Packed (some key) compressed is fits size read packed sealed = (
      stored,
      load_stored_whole env a roomy exact (some key) index c (length raw) scratch raw stored plain
          fits read (decrypt-Sealed (some key) index plain stored sealed)
          (rw is (decompress-Packed compressed raw plain packed)),
    )

module _ (env : Platform) (roomy : IsRoomy env) (a : Archive) (head payload rest : List ℕ)
    (size alignment : ℕ) where
  abbrev whole : List ℕ
  whole = head ++ (payload ++ rest)

  placed :
      (front stored back : List ℕ)
      → payload ≡ front ++ (stored ++ back)
      → whole ≡ (head ++ front) ++ (stored ++ (back ++ rest))
  placed front stored back e =
      ap (λ t. head ++ (t ++ rest)) e
      ∙ ap (λ t. head ++ t) (append_assoc front (stored ++ back) rest)
      ∙ ap (λ t. head ++ (front ++ t)) (append_assoc stored back rest)
      ∙ sym (append_assoc head front (stored ++ (back ++ rest)))

  -- Where memory suffices: let a chunk be stored, as the packer stores it, in the payload of an archive
  -- in memory, behind a header of 60 bytes, under the key of the archive, and let it be in the archive's
  -- table of chunks. With sizes that are 64-bit words and a limit of at least one chunk, the reader reads
  -- the bytes that the packer took from its input, whatever the label, the local number and the scratch
  -- buffer.
  pub read_chunk_by_index_into-IsStored :
      (index : ℕ) (c : Chunk) (raw : List ℕ) (label : ChecksumLabel) (local_chunk : ℕ)
      (scratch : List ℕ)
      → a.source ≡ bytes_source whole
      → length head ≡ Format.header_size
      → length whole < u64_mod
      → size < u64_mod
      → 1 ≤ a.max_chunks_per_operation
      → get_elem? a.chunks index ≡ some c
      → IsStored env a.aead_key size alignment payload index c raw
      → (after : List ℕ) × (read_chunk_by_index_into env a label local_chunk index
            (length raw)
            scratch
          ≡ ok (raw, after))
  unfolding read_chunk_by_index_into ensure_chunk_operation_limit chunk u64_to_usize
  read_chunk_by_index_into-IsStored index c raw label local_chunk scratch over front_size fits small
        allowed at v =
      let split = placed v.front v.stored v.back v.place in
      let room : length (head ++ v.front) + length v.stored < u64_mod = omega (
        arith,
        ap (λ t. length t) split,
        length-append (head ++ v.front) (v.stored ++ (v.back ++ rest)),
        length-append v.stored (v.back ++ rest),
      ) in
      let read =
        read_middle (head ++ v.front) v.stored (v.back ++ rest) c.offset c.stored_size
          (omega (arith, v.at_offset, front_size, length-append head v.front)) v.size room in
      let read_it : a.source.read_exact_at c.offset c.stored_size ≡ ok v.stored =
        ap (λ (s : Source). s.read_exact_at c.offset c.stored_size) over
        ∙ ap (λ t. read_slice_exact t c.offset c.stored_size) split
        ∙ read in
      let exact = subst (λ s. IsSource s) (sym over) (bytes_source-IsSource whole) in
      let (after, loaded) =
        load-Packed env a roomy exact index c raw v.plain v.stored scratch a.aead_key c.compressed
          refl (omega (arith, v.size, room)) v.size read_it v.packed v.sealed in
      let raw_small : length raw < u64_mod = omega (arith, v.fits) in
      (
        after,
        rw
            (
              le→leb 1 a.max_chunks_per_operation allowed,
              at,
              lt→ltb c.original_size u64_mod (omega (arith, v.original, raw_small)),
              (==_iff (length raw) c.original_size).1 (sym v.original),
              loaded,
              (==_iff (env.xxh3_64 raw) c.checksum).1 (sym v.checked),
            )
            refl,
      )
