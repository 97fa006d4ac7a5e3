-- ===== src/Archive/Chunks/Decode.antt =====
-- `read_chunk_by_index_into` of crates/rasen-archive/src/archive/reader.rs, and the bytes of a chunk.
use rasen_archive.Prelude.{ℕ, ◌-◌, ◌<◌, ◌≡◌, List, ◌++◌, Bool, true, false, arith}
use rasen_archive.Prelude.{
  Option, some, none, get_elem?, length, take, replicate, u64_mod, lt→ltb, ==_self, String,
}
use rasen_archive.Error.{ok, >>=-eq-ok, from_io, from_io-eq-ok}
use rasen_archive.Platform.{Platform, IsRoomy}
use rasen_archive.Compression.{decompress_into_exact}
use rasen_archive.Format.Model.{Chunk}
use rasen_archive.Format.Io.{u64_to_usize, u64_to_usize-eq-ok}
use rasen_archive.Archive.Source.{IsSource}
use rasen_archive.Archive.Model.{Archive}
use rasen_archive.Archive.Chunks.{
  ChecksumLabel, resize_buffer, ensure_chunk_operation_limit, chunk, decrypt_chunk,
  decompress_chunk, load_stored, load_chunk, read_chunk_by_index_into,
}

module _ (env : Platform) (a : Archive) where
  -- The chunk with this number decodes to these bytes: they have the chunk's length and checksum, and
  -- every read of the chunk, whatever its label and scratch buffer, yields them.
  pub record Decodes (global_chunk : ℕ) (bytes : List ℕ) : Type 0 where
    pub chunk_of : Chunk
    pub at_index : get_elem? a.chunks global_chunk ≡ some chunk_of
    pub sized : length bytes ≡ chunk_of.original_size
    pub fits : chunk_of.original_size < u64_mod
    pub checked : env.xxh3_64 bytes ≡ chunk_of.checksum
    pub always :
        (label : ChecksumLabel) (local_chunk : ℕ) (stored : List ℕ)
        → (stored' : List ℕ) × (read_chunk_by_index_into env a label local_chunk global_chunk
              chunk_of.original_size stored
            ≡ ok (bytes, stored'))

  module _ (roomy : IsRoomy env) (exact : IsSource a.source) where
    resize_buffer_total :
        (buffer : List ℕ) (len : ℕ) (what : String)
        → (b : List ℕ) × (resize_buffer env buffer len what ≡ ok b)
    unfolding resize_buffer
    resize_buffer_total buffer len what =
        (take len (buffer ++ replicate (len - length buffer) 0), rw (roomy (len - length buffer)))

    length-decompress_chunk :
        (compressed : Bool) (plain : List ℕ) (n : ℕ) {bytes : List ℕ}
        → decompress_chunk env a compressed plain n ≡ ok bytes
        → length bytes ≡ n
    unfolding decompress_chunk decompress_into_exact
    length-decompress_chunk true plain n h = ground arith
    length-decompress_chunk false plain n h = ground arith

    load_stored_parts :
        (key : Option (List ℕ)) (g : ℕ) (c : Chunk) (n : ℕ) (stored bytes stored' : List ℕ)
        → load_stored env a key g c n stored ≡ ok (bytes, stored')
        → (plain : List ℕ) × (c.stored_size < u64_mod)
          × (a.source.read_exact_at c.offset c.stored_size ≡ ok stored')
          × (decrypt_chunk env a key g stored' ≡ ok plain)
          × (decompress_chunk env a c.compressed plain n ≡ ok bytes)
    unfolding load_stored
    load_stored_parts key g c n stored bytes stored' h =
        let (len, wide, h1) = >>=-eq-ok (u64_to_usize c.stored_size "stored chunk size") _ h in
        let (fits, same) = u64_to_usize-eq-ok c.stored_size "stored chunk size" wide in
        let (b, resized, h2) =
          >>=-eq-ok (resize_buffer env stored len "stored chunk allocation") _ h1 in
        let (read, loaded, h3) = >>=-eq-ok (from_io (a.source.read_exact_at c.offset len)) _ h2 in
        let (plain, decrypted, h4) = >>=-eq-ok (decrypt_chunk env a key g read) _ h3 in
        let (dst, decoded, h5) = >>=-eq-ok (decompress_chunk env a c.compressed plain n) _ h4 in
        let same_dst : dst ≡ bytes = cc in
        let same_read : read ≡ stored' = cc in
        (
          plain,
          fits,
          rw (same, same_read) at (from_io-eq-ok (a.source.read_exact_at c.offset len) loaded),
          rw same_read at decrypted,
          rw same_dst at decoded,
        )

    pub load_stored_whole :
        (key : Option (List ℕ)) (g : ℕ) (c : Chunk) (n : ℕ) (other bytes read plain : List ℕ)
        → c.stored_size < u64_mod
        → a.source.read_exact_at c.offset c.stored_size ≡ ok read
        → decrypt_chunk env a key g read ≡ ok plain
        → decompress_chunk env a c.compressed plain n ≡ ok bytes
        → load_stored env a key g c n other ≡ ok (bytes, read)
    unfolding load_stored u64_to_usize
    load_stored_whole key g c n other bytes read plain fits p q r =
        let (b, resized) = resize_buffer_total other c.stored_size "stored chunk allocation" in
        rw (lt→ltb _ _ fits, resized, p, q, r)

    module _ (g : ℕ) (c : Chunk) (n : ℕ) (stored bytes stored' : List ℕ) where
      -- A stored chunk decodes alike with any scratch buffer.
      load_stored_again :
          (key : Option (List ℕ))
          → load_stored env a key g c n stored ≡ ok (bytes, stored')
          → (length bytes ≡ n)
            × ((other : List ℕ) → load_stored env a key g c n other ≡ ok (bytes, stored'))
      load_stored_again key h =
          let (plain, fits, p, q, r) = load_stored_parts key g c n stored bytes stored' h in
          (
            length-decompress_chunk c.compressed plain n r,
            λ other. load_stored_whole key g c n other bytes stored' plain fits p q r,
          )

      load_chunk_again :
          (key : Option (List ℕ)) (compressed : Bool)
          → load_chunk env a key compressed g c n stored ≡ ok (bytes, stored')
          → (length bytes ≡ n)
            × ((other : List ℕ)
                → (after : List ℕ) × (load_chunk env a key compressed g c n other
                    ≡ ok (bytes, after)))
      unfolding load_chunk
      load_chunk_again none false h =
          let read : a.source.read_exact_at c.offset n ≡ ok bytes = ground arith in
          (exact.exact c.offset n bytes read, λ other. (other, rw read))
      load_chunk_again none true h =
          let (sized, again) = load_stored_again none h in (sized, λ other. (stored', again other))
      load_chunk_again (some key) compressed h =
          let (sized, again) = load_stored_again (some key) h in
          (sized, λ other. (stored', again other))

    module _ (label : ChecksumLabel) (local_chunk g n : ℕ) (stored bytes stored' : List ℕ) where
      read_parts :
          read_chunk_by_index_into env a label local_chunk g n stored ≡ ok (bytes, stored')
          → (c : Chunk) × (ensure_chunk_operation_limit env a 1 ≡ ok tt)
            × (get_elem? a.chunks g ≡ some c)
            × (c.original_size < u64_mod)
            × (n ≡ c.original_size)
            × (load_chunk env a a.aead_key c.compressed g c n stored ≡ ok (bytes, stored'))
            × (env.xxh3_64 bytes ≡ c.checksum)
      unfolding read_chunk_by_index_into chunk u64_to_usize
      read_parts h = ground arith

      -- Where memory suffices and the source fills the buffers that it is asked to fill: if one read of
      -- a chunk succeeds, then the bytes have the chunk's length and checksum, and every read of the
      -- chunk, whatever its label, local number and scratch buffer, yields them.
      pub read_chunk_by_index_into-Decodes :
          read_chunk_by_index_into env a label local_chunk g n stored ≡ ok (bytes, stored')
          → Decodes g bytes
      unfolding read_chunk_by_index_into chunk u64_to_usize
      read_chunk_by_index_into-Decodes h =
          let (c, allowed, at, fits, same, loaded, checked) = read_parts h in
          let (sized, again) =
            load_chunk_again g c n stored bytes stored' a.aead_key c.compressed loaded in
          record {
            chunk_of = c;
            at_index = at;
            sized = omega (arith, sized, same);
            fits = fits;
            checked = checked;
            always = λ label' local' other.
                let (after, e) = again other in
                (
                  after,
                  rw (
                    allowed,
                    at,
                    lt→ltb _ _ fits,
                    ==_self c.original_size,
                    rw same at e,
                    checked,
                    ==_self c.checksum,
                  ),
                );
          }
