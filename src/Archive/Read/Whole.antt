-- ===== src/Archive/Read/Whole.antt =====
-- `read` of crates/rasen-archive/src/archive/reader.rs, and the content of an entry.
use rasen_archive.Prelude.{some, ap, ◌==◌, ℕ, ◌≡◌, ◌∙◌, List, [], length, get_elem?, arith}
use rasen_archive.Error.{ok, >>=-eq-ok, ok_or, corrupt, guard, buffer_size_mismatch}
use rasen_archive.Platform.{Platform, IsRoomy}
use rasen_archive.VirtualPath.{normalize_lookup_path}
use rasen_archive.Archive.Source.{IsSource}
use rasen_archive.Archive.Model.{Archive, Entry, ArchiveScratch, no_scratch}
use rasen_archive.Format.Io.{u64_to_usize, u64_to_usize-eq-ok}
use rasen_archive.Archive.Lookup.{find_entry_index_normalized, entry_at}
use rasen_archive.Archive.Chunks.{ChecksumLabel, path_label, ensure_chunk_operation_limit, allocate}
use rasen_archive.Archive.Read.{read_entry_chunks, read_entry_into, read_found, read}
use rasen_archive.Archive.Read.Blocks.{join, Blocks, read_entry_chunks-Blocks}

module _ (env : Platform) (a : Archive) where
  -- The bytes are those of an entry: its chunks' blocks one after the other.
  pub record IsContent (e : Entry) (bytes : List ℕ) : Type 0 where
    pub blocks : List (List ℕ)
    pub number : length blocks ≡ e.chunk_count
    pub decoded : Blocks env a e.first_chunk 0 blocks
    pub joined : bytes ≡ join blocks
    pub sized : length bytes ≡ e.original_size

  read_entry_parts :
      (idx dst_len : ℕ) (label : ChecksumLabel) (scratch after : ArchiveScratch) (bytes : List ℕ)
      → read_entry_into env a idx label dst_len scratch ≡ ok (bytes, after)
      → (e : Entry) × (stored : List ℕ) × (get_elem? a.entries idx ≡ some e)
        × (dst_len ≡ e.original_size)
        × (read_entry_chunks env a label e.first_chunk dst_len e.chunk_count 0 [] scratch.stored
            ≡ ok (bytes, stored))
  unfolding read_entry_into
  read_entry_parts idx dst_len label scratch after bytes h =
      let (e, at, h1) =
        >>=-eq-ok (ok_or (get_elem? a.entries idx) (corrupt "entry index outside TOC")) _ h in
      let (u, allowed, h2) = >>=-eq-ok (ensure_chunk_operation_limit env a e.chunk_count) _ h1 in
      let (size, wide, h3) = >>=-eq-ok (u64_to_usize e.original_size "original entry size") _ h2 in
      let (v, equal, h4) =
        >>=-eq-ok (guard (dst_len == size) (buffer_size_mismatch size dst_len)) _ h3 in
      let ((dst, stored), loaded, h5) =
        >>=-eq-ok
          (read_entry_chunks env a label e.first_chunk dst_len e.chunk_count 0 [] scratch.stored) _
          h4 in
      let (fits, same_size) = u64_to_usize-eq-ok e.original_size "original entry size" wide in
      let same : dst ≡ bytes = cc in
      (
        e,
        stored,
        found_at e at,
        ground (arith, equal, same_size),
        loaded ∙ ap (λ d. ok (d, stored)) same,
      )
    where
      found_at :
          (e : Entry)
          → ok_or (get_elem? a.entries idx) (corrupt "entry index outside TOC") ≡ ok e
          → get_elem? a.entries idx ≡ some e
      found_at e p = ground arith

  found_parts :
      (idx : ℕ) (label : ChecksumLabel) (bytes : List ℕ)
      → read_found env a idx label ≡ ok bytes
      → (dst_len : ℕ) × (scratch : ArchiveScratch) × (after : ArchiveScratch) × (read_entry_into env
            a idx label dst_len scratch
          ≡ ok (bytes, after))
  unfolding read_found
  found_parts idx label bytes h =
      let (e, at, h1) = >>=-eq-ok (entry_at env a idx) _ h in
      let (u, allowed, h2) = >>=-eq-ok (ensure_chunk_operation_limit env a e.chunk_count) _ h1 in
      let (size, wide, h3) = >>=-eq-ok (u64_to_usize e.original_size "original entry size") _ h2 in
      let (out, allocated, h4) = >>=-eq-ok (allocate env size "entry allocation") _ h3 in
      let ((dst, after), loaded, h5) =
        >>=-eq-ok (read_entry_into env a idx label (length out) no_scratch) _ h4 in
      let same : dst ≡ bytes = cc in
      (length out, no_scratch, after, loaded ∙ ap (λ d. ok (d, after)) same)

  module _ (roomy : IsRoomy env) (exact : IsSource a.source) where
    read_found-IsContent :
        (idx : ℕ) (label : ChecksumLabel) (bytes : List ℕ)
        → read_found env a idx label ≡ ok bytes
        → (e : Entry) × (get_elem? a.entries idx ≡ some e) × IsContent e bytes
    read_found-IsContent idx label bytes h =
        let (dst_len, scratch, after, whole) = found_parts idx label bytes h in
        let (e, stored, at, wanted, loop) =
          read_entry_parts idx dst_len label scratch after bytes whole in
        let (ds, number, blocks, joined, sized) =
          read_entry_chunks-Blocks env a roomy exact label e.chunk_count e.first_chunk dst_len 0 []
            scratch.stored bytes stored loop in
        (
          e,
          at,
          record {
            blocks = ds;
            number = number;
            decoded = blocks;
            joined = joined;
            sized = sized ∙ wanted;
          },
        )

    -- Where memory suffices and the source fills the buffers that it is asked to fill: if `read`
    -- returns bytes, then they are the content of the entry that the look-up of the normalized path
    -- finds. They have the entry's length, and are made of one block for each of its chunks, in order,
    -- each with the length and the checksum of its chunk and what any read of the chunk yields.
    pub read-IsContent :
        (path bytes : List ℕ)
        → read env a path ≡ ok bytes
        → (normalized : List ℕ) × (idx : ℕ) × (e : Entry) × (normalize_lookup_path env path
            ≡ ok normalized)
          × (find_entry_index_normalized env a normalized ≡ ok idx)
          × (get_elem? a.entries idx ≡ some e)
          × IsContent e bytes
    unfolding read
    read-IsContent path bytes h =
        let (normalized, p, h1) = >>=-eq-ok (normalize_lookup_path env path) _ h in
        let (idx, q, h2) = >>=-eq-ok (find_entry_index_normalized env a normalized) _ h1 in
        let (e, at, content) = read_found-IsContent idx (path_label normalized) bytes h2 in
        (normalized, idx, e, p, q, at, content)
