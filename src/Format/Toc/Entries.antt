-- ===== src/Format/Toc/Entries.antt =====
-- The entry table of the TOC, encoded and decoded (crates/rasen-archive/src/format/toc.rs).
use rasen_archive.Prelude.{ℕ, zero, suc, ◌+◌, ◌*◌, ◌<◌, ◌≤◌, ◌≡◌, refl, List, [], ◌∷◌, ◌++◌}
use rasen_archive.Prelude.{append_assoc, append-nil, le→leb, lt→ltb, ==_self}
use rasen_archive.Prelude.{
  length, length-append, to_le_bytes, length-to_le_bytes, arith, Bool, true, false,
}
use rasen_archive.Prelude.{length-append_bytes, lengths, All, u16_mod, u32_mod, u64_mod}
use rasen_archive.Error.{ok}
use rasen_archive.Platform.{Platform}
use rasen_archive.VirtualPath.{normalize_path}
use rasen_archive.Format.Model.{TocEntry}
use rasen_archive.Format.Io.Cursor
use rasen_archive.Format.Io.Cursor.{between}
use rasen_archive.Format.Toc.{Limits, decode_path, decode_entry, decode_entries}

-- The bytes of an entry whose path is short enough.
unfoldable pub entry_bytes : TocEntry → List ℕ
entry_bytes e =
    to_le_bytes 8 e.path_hash
    ++ (to_le_bytes 8 e.original_size
        ++ (to_le_bytes 8 e.stored_size
            ++ (to_le_bytes 4 e.first_chunk
                ++ (to_le_bytes 4 e.chunk_count
                    ++ (to_le_bytes 2 (length e.path) ++ (to_le_bytes 2 0 ++ e.path))))))

unfoldable pub table_bytes : List TocEntry → List ℕ
table_bytes [] = []
table_bytes (e ∷ es) = entry_bytes e ++ table_bytes es

-- The bytes of all paths.
unfoldable pub path_bytes : List TocEntry → ℕ
path_bytes [] = 0
path_bytes (e ∷ es) = length e.path + path_bytes es

pub length-entry_bytes : (e : TocEntry) → length (entry_bytes e) ≡ 36 + length e.path
unfolding entry_bytes
length-entry_bytes e = simp (length-append, length-to_le_bytes) (omega arith)

pub length-table_bytes :
    (es : List TocEntry) → length (table_bytes es) ≡ 36 * length es + path_bytes es
unfolding table_bytes path_bytes
length-table_bytes [] = refl
length-table_bytes (e ∷ es) = omega (
  arith,
  length-append_bytes (entry_bytes e) (table_bytes es),
  length-entry_bytes e,
  length-table_bytes es,
)

module _ (env : Platform) where
  -- A debug archive has normalized UTF-8 paths with their hashes, a production archive has none.
  abbrev pub IsPath : Bool → TocEntry → Type 0
  IsPath true e = e.path ≡ []
  IsPath false e =
      (0 < length e.path)
      × (env.from_utf8 e.path ≡ true)
      × (normalize_path env e.path ≡ ok e.path)
      × (env.xxh3_64 e.path ≡ e.path_hash)

  IsPath-decode_path :
      (stripped : Bool) (e : TocEntry)
      → IsPath stripped e
      → decode_path env stripped (length e.path) e.path e.path_hash ≡ ok e.path
  unfolding decode_path
  IsPath-decode_path true e h = rw h
  IsPath-decode_path false e h = named (length e.path) h.0
    where
      named : (n : ℕ) → 0 < n → decode_path env false n e.path e.path_hash ≡ ok e.path
      named zero p = absurd (omega arith)
      named (suc n) p = rw (h.1, h.2, h.3, ==_self e.path_hash)

  -- The fields fit their widths and the limits.
  pub record IsEntry (l : Limits) (e : TocEntry) : Type 0 where
    pub path_hash_fits : e.path_hash < u64_mod
    pub original_size_fits : e.original_size < u64_mod
    pub stored_size_fits : e.stored_size < u64_mod
    pub first_chunk_fits : e.first_chunk < u32_mod
    pub chunk_count_fits : e.chunk_count < u32_mod
    pub path_fits : length e.path < u16_mod
    pub path_allowed : length e.path ≤ l.max_path_bytes
    pub asset_allowed : e.original_size ≤ l.max_single_asset_bytes
    pub path_valid : IsPath l.paths_stripped e

  module _ (l : Limits) (e : TocEntry) (total : ℕ) (front rest : List ℕ) where
    pub decode_entry-entry_bytes :
        IsEntry l e
        → length front + (36 + length e.path) < u64_mod
        → total + length e.path < u64_mod
        → total + length e.path ≤ l.max_total_path_bytes
        → decode_entry env l total (between front (entry_bytes e ++ rest))
          ≡ ok (e, total + length e.path, between (front ++ entry_bytes e) rest)
    unfolding decode_entry entry_bytes
    decode_entry-entry_bytes v fits small allowed =
        let w1 : List ℕ = to_le_bytes 8 e.path_hash in
        let w2 : List ℕ = to_le_bytes 8 e.original_size in
        let w3 : List ℕ = to_le_bytes 8 e.stored_size in
        let w4 : List ℕ = to_le_bytes 4 e.first_chunk in
        let w5 : List ℕ = to_le_bytes 4 e.chunk_count in
        let w6 : List ℕ = to_le_bytes 2 (length e.path) in
        let w7 : List ℕ = to_le_bytes 2 0 in
        let f1 : List ℕ = front ++ w1 in
        let f2 : List ℕ = front ++ (w1 ++ w2) in
        let f3 : List ℕ = front ++ (w1 ++ (w2 ++ w3)) in
        let f4 : List ℕ = front ++ (w1 ++ (w2 ++ (w3 ++ w4))) in
        let f5 : List ℕ = front ++ (w1 ++ (w2 ++ (w3 ++ (w4 ++ w5)))) in
        let f6 : List ℕ = front ++ (w1 ++ (w2 ++ (w3 ++ (w4 ++ (w5 ++ w6))))) in
        let f7 : List ℕ = front ++ (w1 ++ (w2 ++ (w3 ++ (w4 ++ (w5 ++ (w6 ++ w7)))))) in
        simp (
          append_assoc,
          Cursor.u64-between e.path_hash front _ v.path_hash_fits (omega arith),
          Cursor.u64-between e.original_size f1 _ v.original_size_fits (omega lengths),
          Cursor.u64-between e.stored_size f2 _ v.stored_size_fits (omega lengths),
          Cursor.u32-between e.first_chunk f3 _ v.first_chunk_fits (omega lengths),
          Cursor.u32-between e.chunk_count f4 _ v.chunk_count_fits (omega lengths),
          Cursor.u16-between (length e.path) f5 _ v.path_fits (omega lengths),
          Cursor.u16-between 0 f6 _ (omega arith) (omega lengths),
          le→leb _ _ v.asset_allowed,
          le→leb _ _ v.path_allowed,
          lt→ltb _ _ small,
          le→leb _ _ allowed,
          Cursor.take-between f7 e.path rest (length e.path) refl (omega lengths),
          IsPath-decode_path l.paths_stripped e v.path_valid,
        )

  pub decode_entries-table_bytes :
      (l : Limits) (es : List TocEntry) (total : ℕ) (front rest : List ℕ)
      → All (IsEntry l) es
      → length front + (36 * length es + path_bytes es) < u64_mod
      → total + path_bytes es < u64_mod
      → total + path_bytes es ≤ l.max_total_path_bytes
      → decode_entries env l (length es) total (between front (table_bytes es ++ rest))
        ≡ ok (es, between (front ++ table_bytes es) rest)
  unfolding decode_entries table_bytes path_bytes
  decode_entries-table_bytes l [] total front rest v fits small allowed = rw append-nil
  decode_entries-table_bytes l (e ∷ es) total front rest v fits small allowed =
      let more : length (front ++ entry_bytes e) + (36 * length es + path_bytes es) < u64_mod =
        omega (arith, length-append_bytes front (entry_bytes e), length-entry_bytes e) in
      rw (
        append_assoc (entry_bytes e) (table_bytes es) rest,
        decode_entry-entry_bytes l e total front (table_bytes es ++ rest) v.0 (omega arith)
            (omega arith) (omega arith),
        decode_entries-table_bytes l es (total + length e.path) (front ++ entry_bytes e) rest v.1
            more (omega arith) (omega arith),
        append_assoc front (entry_bytes e) (table_bytes es),
      )
