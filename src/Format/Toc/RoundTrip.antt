-- ===== src/Format/Toc/RoundTrip.antt =====
-- `encode_toc` and `decode_toc` of crates/rasen-archive/src/format/toc.rs, together.
use rasen_archive.Prelude.{ℕ, ◌+◌, ◌*◌, ◌<◌, ◌≤◌, ◌≡◌, refl, ap, sym, List, [], ◌∷◌, ◌++◌}
use rasen_archive.Prelude.{append-nil, le→leb, lt→ltb, bytes_eq_self}
use rasen_archive.Prelude.{length, length-append_bytes, arith, All, u16_mod, u64_mod}
use rasen_archive.Error.{ok}
use rasen_archive.Platform.{Platform, IsRoomy}
use rasen_archive.Format
use rasen_archive.Format.Model.{TocEntry, Chunk}
use rasen_archive.Format.Io.Cursor
use rasen_archive.Format.Io.Cursor.{between}
use rasen_archive.Format.Toc.{
  Limits, entries_size, encode_entry, encode_entries, encode_chunks, encode_toc, minimum_bytes,
  decode_toc,
}
use rasen_archive.Format.Toc.Chunks.{IsChunk, length-encode_chunks, decode_chunks-encode_chunks}
use rasen_archive.Format.Toc.Entries.{
  IsEntry, entry_bytes, table_bytes, path_bytes, length-table_bytes, decode_entries-table_bytes,
}

abbrev IsShort : TocEntry → Type 0
IsShort e = length e.path < u16_mod

entries_size-path_bytes :
    (es : List TocEntry) (size : ℕ)
    → All IsShort es
    → size + 36 * length es + path_bytes es < u64_mod
    → entries_size size es ≡ ok (size + 36 * length es + path_bytes es)
unfolding entries_size path_bytes
entries_size-path_bytes [] size v fits = ground arith
entries_size-path_bytes (e ∷ es) size v fits =
    ground (arith, entries_size-path_bytes es (size + 36 + length e.path) v.1)

encode_entries-table_bytes :
    (es : List TocEntry) → All IsShort es → encode_entries es ≡ ok (table_bytes es)
unfolding encode_entries encode_entry table_bytes entry_bytes
encode_entries-table_bytes [] v = refl
encode_entries-table_bytes (e ∷ es) v =
    rw (lt→ltb (length e.path) u16_mod v.0, encode_entries-table_bytes es v.1)

-- The size of the encoded tables.
abbrev pub raw_size : List TocEntry → List Chunk → ℕ
raw_size es cs = 4 + 36 * length es + path_bytes es + 36 * length cs

abbrev pub toc_bytes : List TocEntry → List Chunk → List ℕ
toc_bytes es cs = Format.toc_magic ++ (table_bytes es ++ encode_chunks cs)

pub length-toc_bytes :
    (es : List TocEntry) (cs : List Chunk) → length (toc_bytes es cs) ≡ raw_size es cs
length-toc_bytes es cs = omega (
  arith,
  length-append_bytes (table_bytes es) (encode_chunks cs),
  length-table_bytes es,
  length-encode_chunks cs,
)

module _ (env : Platform) (es : List TocEntry) (cs : List Chunk) (roomy : IsRoomy env) where
  pub encode_toc-bytes :
      All IsShort es
      → raw_size es cs ≤ Format.max_toc_raw_size
      → encode_toc env es cs ≡ ok (toc_bytes es cs)
  unfolding encode_toc
  encode_toc-bytes short fits = ground (
    arith,
    roomy (4 + 36 * length es + path_bytes es + length cs * 36),
    entries_size-path_bytes es 4 short,
    encode_entries-table_bytes es short,
  )

  minimum_bytes_lem :
      raw_size es cs ≤ Format.max_toc_raw_size
      → minimum_bytes env (length es) (length cs) ≡ ok (length es * 36 + length cs * 36 + 4)
  unfolding minimum_bytes
  minimum_bytes_lem fits = ground arith

  decode_toc-toc_bytes :
      (l : Limits)
      → All (IsEntry env l) es
      → All IsChunk cs
      → path_bytes es ≤ l.max_total_path_bytes
      → raw_size es cs ≤ Format.max_toc_raw_size
      → decode_toc env (toc_bytes es cs) (length es) (length cs) l ≡ ok (es, cs)
  unfolding decode_toc
  decode_toc-toc_bytes l ve vc allowed fits =
      let chunk_table : List ℕ = encode_chunks cs ++ [] in
      let front : List ℕ = Format.toc_magic ++ table_bytes es in
      let enough : length es * 36 + length cs * 36 + 4 ≤ length (toc_bytes es cs) =
        omega (arith, length-toc_bytes es cs) in
      let room : length front + 36 * length cs < u64_mod = omega (arith, length-table_bytes es) in
      let whole : toc_bytes es cs ≡ Format.toc_magic ++ (table_bytes es ++ chunk_table) =
        ap (λ t. Format.toc_magic ++ (table_bytes es ++ t)) (sym (append-nil (encode_chunks cs))) in
      rw (
        minimum_bytes_lem fits,
        le→leb _ _ enough,
        Cursor.new-between (toc_bytes es cs),
        whole,
        Cursor.take-between [] Format.toc_magic (table_bytes es ++ chunk_table) 4 refl
            (omega arith),
        bytes_eq_self Format.toc_magic,
        roomy (length es),
        decode_entries-table_bytes env l es 0 Format.toc_magic chunk_table ve (omega arith)
            (omega arith) (omega arith),
        roomy (length cs),
        decode_chunks-encode_chunks cs front [] vc room,
        Cursor.is_empty-between (front ++ encode_chunks cs),
      )

  IsEntry-IsShort : (l : Limits) (xs : List TocEntry) → All (IsEntry env l) xs → All IsShort xs
  IsEntry-IsShort l [] v = tt
  IsEntry-IsShort l (x ∷ xs) v = (v.0.path_fits, IsEntry-IsShort l xs v.1)

  -- Where memory suffices: tables that fit the widths of the format, the limits of the reader and the
  -- largest TOC are encoded, in as many bytes as the records and the paths take, and decoding the
  -- bytes with the numbers of entries and chunks gives the same tables back.
  pub decode_toc-encode_toc :
      (l : Limits)
      → All (IsEntry env l) es
      → All IsChunk cs
      → path_bytes es ≤ l.max_total_path_bytes
      → raw_size es cs ≤ Format.max_toc_raw_size
      → (bytes : List ℕ) × (encode_toc env es cs ≡ ok bytes)
        × (length bytes ≡ raw_size es cs)
        × (decode_toc env bytes (length es) (length cs) l ≡ ok (es, cs))
  decode_toc-encode_toc l ve vc allowed fits = (
    toc_bytes es cs,
    encode_toc-bytes (IsEntry-IsShort l es ve) fits,
    length-toc_bytes es cs,
    decode_toc-toc_bytes l ve vc allowed fits,
  )
