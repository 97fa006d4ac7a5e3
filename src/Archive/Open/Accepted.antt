-- ===== src/Archive/Open/Accepted.antt =====
-- The archive that `open_with_limits` of crates/rasen-archive/src/archive/reader.rs returns.
use rasen_archive.Prelude.{ℕ, ◌<◌, ◌≡◌, refl, List, arith, map, ◌==◌, not, length}
use mathlib.Core.Path.{subst}
use rasen_archive.Error.{ok, >>=-eq-ok, guard, guard-eq-ok, from_io, from_io-eq-ok, empty_xor_key}
use rasen_archive.Platform.{Platform}
use rasen_archive.Format
use rasen_archive.Format.Model.{TocEntry, Chunk}
use rasen_archive.Format.Header.{Header}
use rasen_archive.Format.Toc.Accepted.{decode_toc-AreTables}
use rasen_archive.Format.Layout.Sound.{validate_layout-IsLayout}
use rasen_archive.Archive.Source.{Source}
use rasen_archive.Archive.Limits.{ArchiveLimits, clamped, tooling_default}
use rasen_archive.Archive.Model.{Archive, from_toc}
use rasen_archive.Archive.Index.{enumerate_hashes, sort_by_key, validate_index}
use rasen_archive.Archive.Open.{
  has_flag, protection_of, key_for, check_toc_range, load_toc, load_tables, load_header, build,
  open_with_limits,
}
use rasen_archive.Archive.Open.Limited.{
  AreStricter, clamped-AreStricter, clamped-AreStricter_hard, validate_limits-IsWithin,
}
use rasen_archive.Archive.Open.Opened.{IsStoredIn, IsOpened, bounds_of, toc_limits}
use rasen_archive.Archive.Open.Stages.{
  header_sizes, header_parts, range_checked, toc_parts, tables_parts,
}

module _ (env : Platform) where
  abbrev built : Source → List ℕ → ArchiveLimits → Header → List TocEntry → List Chunk → Archive
  built source key limits h es cs = record {
    source = source;
    entries = map from_toc es;
    chunks = cs;
    index = sort_by_key (enumerate_hashes 0 (map from_toc es));
    chunk_size = h.chunk_size;
    alignment = h.alignment;
    paths_stripped = has_flag h Format.header_flag_paths_stripped;
    protection = protection_of h;
    aead_key = key_for env (protection_of h) key;
    max_chunks_per_operation = limits.max_chunks_per_operation;
  }

  module _ (source : Source) (key : List ℕ) where
    build_parts :
        (limits : ArchiveLimits) (h : Header) (es : List TocEntry) (cs : List Chunk) (a : Archive)
        → build env source key limits h es cs ≡ ok a
        → (validate_index env
              (map from_toc es)
              (sort_by_key (enumerate_hashes 0 (map from_toc es)))
              (has_flag h Format.header_flag_paths_stripped)
            ≡ ok tt)
          × (built source key limits h es cs ≡ a)
    unfolding build
    build_parts limits h es cs a e = ground arith

    opened :
        (l : ArchiveLimits) (a : Archive) (h : Header) (file_len : ℕ) (plain : List ℕ)
        (es : List TocEntry) (cs : List Chunk)
        → 0 < length key
        → load_header env source l ≡ ok h
        → source.len ≡ ok file_len
        → check_toc_range h file_len ≡ ok tt
        → load_toc env source key h ≡ ok plain
        → load_tables env h l plain ≡ ok (es, cs)
        → build env source key l h es cs ≡ ok a
        → IsOpened env source key l a
    opened l a h file_len plain es cs given loaded known inside read tables made =
        let (index_valid, same) = build_parts l h es cs a made in
        let (header_bytes, unread, there, parsed, valid, limited) =
          header_parts env source l h loaded in
        let (pos, small, alignment) = header_sizes env h valid in
        let (behind, within_file, aligned) = range_checked env h file_len inside in
        let (stored, compressed, toc_there, unprotected, decompressed, plain_size, hashed) =
          toc_parts env source key h plain read in
        let (decoded, laid_out) = tables_parts env h l plain es cs tables in
        let in_source : IsStoredIn env source key h plain = record {
          header_bytes = header_bytes;
          unread = unread;
          header_there = there;
          header_read = parsed;
          file_len = file_len;
          length_known = known;
          toc_behind = behind;
          toc_inside = within_file;
          toc_aligned = aligned;
          stored = stored;
          compressed = compressed;
          toc_there = toc_there;
          unprotected = unprotected;
          decompressed = decompressed;
          plain_size = plain_size;
          plain_hash = hashed;
        } in
        subst (λ x. IsOpened env source key l x) same
          (record {
            header = h;
            plain = plain;
            toc = es;
            key_given = given;
            in_source = in_source;
            within = validate_limits-IsWithin h l limited;
            decoded = decoded;
            tables =
                decode_toc-AreTables env
                  (toc_limits (has_flag h Format.header_flag_paths_stripped) l) plain h.entry_count
                  h.chunk_count es cs decoded;
            entries_of_toc = refl;
            index_of_entries = refl;
            index_valid = index_valid;
            sizes = record {
              chunk_size_pos = pos;
              chunk_size_small = small;
              alignment_power = alignment;
            };
            layout =
                validate_layout-IsLayout env es cs (bounds_of h l (built source key l h es cs))
                  laid_out;
            same_source = refl;
            chunk_size_of = refl;
            alignment_of = refl;
            stripped_of = refl;
            protection_is = refl;
            aead_key_is = refl;
            per_operation = refl;
          })

    -- Whatever `open_with_limits` returns is what the source holds, under the key, which is not empty.
    -- The source has a header at its start and, where the header says, aligned and within the source,
    -- a TOC, which has the checksum of the header once it is unprotected and decompressed. The
    -- entries and chunks are those of the TOC, as many as the header says; the index is made from the
    -- entries and valid; chunk size, alignment and protection are those of the header, the sizes
    -- admissible; and the chunks are laid out as the format wants them. The header, the paths and
    -- sizes of the entries, the layout and the number of chunks per operation keep the limits that
    -- apply, which are neither above the caller's limits nor above the hard ones.
    pub open_with_limits-IsOpened :
        (limits : ArchiveLimits) (a : Archive)
        → open_with_limits env source key limits ≡ ok a
        → IsOpened env source key (clamped limits) a
          × AreStricter (clamped limits) limits
          × AreStricter (clamped limits) tooling_default
    unfolding open_with_limits
    open_with_limits-IsOpened limits a e =
        let l : ArchiveLimits = clamped limits in
        let (u, some_key, e0) = >>=-eq-ok (guard (not (length key == 0)) empty_xor_key) _ e in
        let (h, loaded, e1) = >>=-eq-ok (load_header env source l) _ e0 in
        let (file_len, known, e2) = >>=-eq-ok (from_io source.len) _ e1 in
        let (v, inside, e3) = >>=-eq-ok (check_toc_range h file_len) _ e2 in
        let (plain, read, e4) = >>=-eq-ok (load_toc env source key h) _ e3 in
        let ((es, cs), tables, e5) = >>=-eq-ok (load_tables env h l plain) _ e4 in
        let given = guard-eq-ok (not (length key == 0)) empty_xor_key some_key in
        let long : 0 < length key = ground arith in
        (
          opened l a h file_len plain es cs long loaded (from_io-eq-ok source.len known) inside read
              tables e5,
          clamped-AreStricter limits,
          clamped-AreStricter_hard limits,
        )
