-- ===== src/Archive/Open/Stages.antt =====
-- What the stages of `open_with_limits` of crates/rasen-archive/src/archive/reader.rs check.
use rasen_archive.Prelude.{
  String, ℕ, ◌+◌, ◌%◌, ◌≤◌, ◌<◌, ◌^◌, ◌≡◌, ap, sym, ◌∙◌, List, arith, ◌==◌, ==_iff, length, not,
  if◌then◌else◌,
}
use rasen_archive.Error.{
  ok, err, >>=-eq-ok, guard, guard-eq-ok, from_io, from_io-eq-ok, ok-injective, map_err,
  map_err-eq-ok, lz4, corrupt,
}
use rasen_archive.Platform.{Platform, reserve}
use rasen_archive.Compression.{decompress_into_exact, decompress_block_exact}
use rasen_archive.Format
use rasen_archive.Format.{validate_alignment, validate_chunk_size}
use rasen_archive.Format.Alignment.{validate_alignment_iff}
use rasen_archive.Format.Io.{u64_to_usize, u64_to_usize-eq-ok}
use rasen_archive.Format.Model.{TocEntry, Chunk}
use rasen_archive.Format.Header.{Header, read_header, validate_header}
use rasen_archive.Format.Toc.{decode_toc}
use rasen_archive.Format.Layout.{validate_layout}
use rasen_archive.Archive.Source.{Source}
use rasen_archive.Archive.Limits.{ArchiveLimits}
use rasen_archive.Archive.Open.{
  has_flag, is_aead, protection_of, key_for, unprotect_toc, validate_limits, check_toc_range,
  load_toc, load_tables, load_header,
}
use rasen_archive.Archive.Open.Opened.{toc_limits}

module _ (env : Platform) where
  valid_sizes :
      (h : Header)
      → validate_header h ≡ ok tt
      → (validate_chunk_size h.chunk_size ≡ ok tt) × (validate_alignment h.alignment ≡ ok tt)
  unfolding validate_header
  valid_sizes h e = ground arith

  chunk_size_admitted :
      (n : ℕ) → validate_chunk_size n ≡ ok tt → (0 < n) × (n ≤ Format.max_chunk_size)
  unfolding validate_chunk_size
  chunk_size_admitted n e = ground arith

  pub header_sizes :
      (h : Header)
      → validate_header h ≡ ok tt
      → (0 < h.chunk_size)
        × (h.chunk_size ≤ Format.max_chunk_size)
        × ((k : ℕ) × (k ≤ 20) × (h.alignment ≡ 2 ^ k))
  header_sizes h valid =
      let (chunk_size, alignment) = valid_sizes h valid in
      let (pos, small) = chunk_size_admitted h.chunk_size chunk_size in
      (pos, small, (validate_alignment_iff h.alignment).0 alignment)

  pub header_parts :
      (source : Source) (limits : ArchiveLimits) (h : Header)
      → load_header env source limits ≡ ok h
      → (bytes : List ℕ) × (unread : List ℕ) × (source.read_exact_at 0 Format.header_size
          ≡ ok bytes)
        × (read_header bytes ≡ ok (h, unread))
        × (validate_header h ≡ ok tt)
        × (validate_limits h limits ≡ ok tt)
  unfolding load_header
  header_parts source limits h e =
      let (bytes, got, e1) = >>=-eq-ok (from_io (source.read_exact_at 0 Format.header_size)) _ e in
      let ((h', unread), parsed, e2) = >>=-eq-ok (read_header bytes) _ e1 in
      let (u, valid, e3) = >>=-eq-ok (validate_header h') _ e2 in
      let (v, within, e4) = >>=-eq-ok (validate_limits h' limits) _ e3 in
      let same : h' ≡ h = ok-injective e4 in
      (
        bytes,
        unread,
        from_io-eq-ok (source.read_exact_at 0 Format.header_size) got,
        parsed ∙ ap (λ t. ok (t, unread)) same,
        ap validate_header (sym same) ∙ valid,
        ap (λ t. validate_limits t limits) (sym same) ∙ within,
      )

  pub range_checked :
      (h : Header) (file_len : ℕ)
      → check_toc_range h file_len ≡ ok tt
      → (Format.header_size ≤ h.toc_offset)
        × (h.toc_offset + h.toc_size ≤ file_len)
        × (h.toc_offset % h.alignment ≡ 0)
  unfolding check_toc_range
  range_checked h file_len e = ground arith

  decompressed_parts :
      (compressed plain : List ℕ) (size : ℕ) (mismatch : String)
      → decompress_block_exact env compressed size mismatch ≡ ok plain
      → (env.decompress_into compressed size ≡ ok plain) × (length plain ≡ size)
  unfolding decompress_block_exact decompress_into_exact
  decompressed_parts compressed plain size mismatch e =
      let (u, roomy, e1) = >>=-eq-ok (reserve env size "decompression output allocation") _ e in
      let (out, done, e2) = >>=-eq-ok (map_err lz4 (env.decompress_into compressed size)) _ e1 in
      let got = map_err-eq-ok lz4 (env.decompress_into compressed size) done in
      let (same, long) = exact_size out e2 in
      (got ∙ ap ok same, ap (λ t. length t) (sym same) ∙ long)
    where
      exact_size :
          (out : List ℕ)
          → (if not (length out == size) then err (corrupt mismatch) else ok out) ≡ ok plain
          → (out ≡ plain) × (length out ≡ size)
      exact_size out h = ground arith

  pub toc_parts :
      (source : Source) (key : List ℕ) (h : Header) (plain : List ℕ)
      → load_toc env source key h ≡ ok plain
      → (stored : List ℕ) × (compressed : List ℕ) × (source.read_exact_at h.toc_offset h.toc_size
          ≡ ok stored)
        × (unprotect_toc env (key_for env (protection_of h) key) key stored ≡ ok compressed)
        × (env.decompress_into compressed h.toc_raw_size ≡ ok plain)
        × (length plain ≡ h.toc_raw_size)
        × (env.xxh3_64 plain ≡ h.toc_hash)
  unfolding load_toc
  toc_parts source key h plain e =
      let (toc_len, e0, h0) = >>=-eq-ok (u64_to_usize h.toc_size "TOC size") _ e in
      let (u1, e1, h1) = >>=-eq-ok (reserve env toc_len "stored TOC allocation") _ h0 in
      let (stored, e2, h2) = >>=-eq-ok (from_io (source.read_exact_at h.toc_offset toc_len)) _ h1 in
      let (compressed, e3, h3) =
        >>=-eq-ok (unprotect_toc env (key_for env (protection_of h) key) key stored) _ h2 in
      let (raw_len, e4, h4) = >>=-eq-ok (u64_to_usize h.toc_raw_size "raw TOC size") _ h3 in
      let (out, e5, h5) =
        >>=-eq-ok (decompress_block_exact env compressed raw_len "decompressed TOC size mismatch") _
          h4 in
      let (u6, e6, h6) =
        >>=-eq-ok (guard (env.xxh3_64 out == h.toc_hash) (corrupt "TOC checksum mismatch")) _ h5 in
      let same : out ≡ plain = ok-injective h6 in
      let toc_len_is : toc_len ≡ h.toc_size = (u64_to_usize-eq-ok h.toc_size "TOC size" e0).1 in
      let raw_len_is : raw_len ≡ h.toc_raw_size =
        (u64_to_usize-eq-ok h.toc_raw_size "raw TOC size" e4).1 in
      let (made, size) =
        decompressed_parts compressed out raw_len "decompressed TOC size mismatch" e5 in
      let hashed =
        guard-eq-ok (env.xxh3_64 out == h.toc_hash) (corrupt "TOC checksum mismatch") e6 in
      (
        stored,
        compressed,
        ap (λ n. source.read_exact_at h.toc_offset n) (sym toc_len_is)
            ∙ from_io-eq-ok (source.read_exact_at h.toc_offset toc_len) e2,
        e3,
        ap (λ n. env.decompress_into compressed n) (sym raw_len_is) ∙ made ∙ ap ok same,
        ap (λ t. length t) (sym same) ∙ size ∙ raw_len_is,
        ap env.xxh3_64 (sym same) ∙ (==_iff (env.xxh3_64 out) h.toc_hash).0 hashed,
      )

  pub tables_parts :
      (h : Header) (limits : ArchiveLimits) (plain : List ℕ) (es : List TocEntry) (cs : List Chunk)
      → load_tables env h limits plain ≡ ok (es, cs)
      → (decode_toc env plain h.entry_count h.chunk_count
            (toc_limits (has_flag h Format.header_flag_paths_stripped) limits)
          ≡ ok (es, cs))
        × (validate_layout env es cs (record {
          toc_offset = h.toc_offset;
          chunk_size = h.chunk_size;
          alignment = h.alignment;
          aead = is_aead (protection_of h);
          max_total_decompressed_bytes = limits.max_total_decompressed_bytes;
        })
            ≡ ok tt)
  unfolding load_tables
  tables_parts h limits plain es cs e = ground arith
