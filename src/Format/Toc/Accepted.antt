-- ===== src/Format/Toc/Accepted.antt =====
-- The tables that `decode_toc` of crates/rasen-archive/src/format/toc.rs accepts.
use rasen_archive.Prelude.{
  ℕ, zero, suc, ◌+◌, ◌≤◌, ◌≡◌, refl, ap, sym, ◌∙◌, leb, bytes_eq, List, [], ◌∷◌, length,
}
use mathlib.Core.Path.{subst}
use rasen_archive.Error.{ok, >>=-eq-ok, ok-injective, guard, corrupt, bad_toc_magic}
use rasen_archive.Platform.{Platform, reserve}
use rasen_archive.Format
use rasen_archive.Format.Model.{TocEntry, Chunk}
use rasen_archive.Format.Io.Cursor
use rasen_archive.Format.Io.Cursor.{Cursor}
use rasen_archive.Format.Toc.Checked.{IsNamed, decode_entry_parts}
use rasen_archive.Format.Toc.{
  Limits, decode_chunk, decode_chunks, decode_entry, decode_entries, decode_toc, minimum_bytes,
}

length-decode_chunks :
    (n : ℕ) (cursor after : Cursor) (cs : List Chunk)
    → decode_chunks n cursor ≡ ok (cs, after)
    → length cs ≡ n
unfolding decode_chunks
length-decode_chunks zero cursor after cs h = ap (λ t. length t.0) (sym (ok-injective h))
length-decode_chunks (suc n) cursor after cs h =
    let ((c, cursor'), e0, h0) = >>=-eq-ok (decode_chunk cursor) _ h in
    let ((more, cursor''), e1, h1) = >>=-eq-ok (decode_chunks n cursor') _ h0 in
    let shorter = length-decode_chunks n cursor' cursor'' more e1 in
    ap (λ t. length t.0) (sym (ok-injective h1)) ∙ ap suc shorter

module _ (env : Platform) where
  -- The entries keep the limits, the paths together with the bytes of the paths before them.
  abbrev pub AreAccepted : Limits → ℕ → List TocEntry → Type 0
  AreAccepted limits total [] = Unit
  AreAccepted limits total (e ∷ es) =
      (path_bytes : List ℕ) × IsNamed env limits.paths_stripped path_bytes e
      × (length path_bytes ≤ limits.max_path_bytes)
      × (total + length path_bytes ≤ limits.max_total_path_bytes)
      × (e.original_size ≤ limits.max_single_asset_bytes)
      × AreAccepted limits (total + length path_bytes) es

  decode_entries-AreAccepted :
      (limits : Limits) (n total : ℕ) (cursor after : Cursor) (es : List TocEntry)
      → decode_entries env limits n total cursor ≡ ok (es, after)
      → (length es ≡ n) × AreAccepted limits total es
  unfolding decode_entries
  decode_entries-AreAccepted limits zero total cursor after es h =
      let made : [] ≡ es = ap (λ t. t.0) (ok-injective h) in
      subst (λ t. (length t ≡ 0) × AreAccepted limits total t) made (refl, tt)
  decode_entries-AreAccepted limits (suc n) total cursor after es h =
      let ((e, total', cursor'), e0, h0) = >>=-eq-ok (decode_entry env limits total cursor) _ h in
      let ((more, cursor''), e1, h1) =
        >>=-eq-ok (decode_entries env limits n total' cursor') _ h0 in
      let (bytes, (named, short, few, single, next)) =
        decode_entry_parts env limits total cursor cursor' e total' e0 in
      let (size, accepted) = decode_entries-AreAccepted limits n total' cursor' cursor'' more e1 in
      let made : e ∷ more ≡ es = ap (λ t. t.0) (ok-injective h1) in
      subst (λ t. (length t ≡ suc n) × AreAccepted limits total t) made
        (
          ap suc size,
          (bytes, named, short, few, single, subst (λ t. AreAccepted limits t more) next accepted),
        )

  -- What `decode_toc` promises of its result: as many entries and chunks as it was asked for, and
  -- entries that it accepts.
  pub record AreTables (limits : Limits) (entry_count chunk_count : ℕ) (es : List TocEntry)
      (cs : List Chunk) : Type 0 where
    pub entry_number : length es ≡ entry_count
    pub chunk_number : length cs ≡ chunk_count
    pub accepted : AreAccepted limits 0 es

  pub decode_toc-AreTables :
      (limits : Limits) (bytes : List ℕ) (entry_count chunk_count : ℕ) (es : List TocEntry)
      (cs : List Chunk)
      → decode_toc env bytes entry_count chunk_count limits ≡ ok (es, cs)
      → AreTables limits entry_count chunk_count es cs
  unfolding decode_toc
  decode_toc-AreTables limits bytes entry_count chunk_count es cs h =
      let ((magic, c0), e0, h0) = >>=-eq-ok (Cursor.take 4 (Cursor.new bytes)) _ h in
      let (u1, e1, h1) = >>=-eq-ok (guard (bytes_eq magic Format.toc_magic) bad_toc_magic) _ h0 in
      let (least, e2, h2) = >>=-eq-ok (minimum_bytes env entry_count chunk_count) _ h1 in
      let (u3, e3, h3) =
        >>=-eq-ok (guard (leb least (length bytes)) (corrupt "TOC counts exceed TOC size")) _ h2 in
      let (u4, e4, h4) = >>=-eq-ok (reserve env entry_count "entry allocation") _ h3 in
      let ((es', c5), e5, h5) = >>=-eq-ok (decode_entries env limits entry_count 0 c0) _ h4 in
      let (u6, e6, h6) = >>=-eq-ok (reserve env chunk_count "chunk allocation") _ h5 in
      let ((cs', c7), e7, h7) = >>=-eq-ok (decode_chunks chunk_count c5) _ h6 in
      let (u8, e8, h8) =
        >>=-eq-ok (guard (Cursor.is_empty c7) (corrupt "trailing bytes in TOC")) _ h7 in
      let made = ok-injective h8 in
      let same_es : es' ≡ es = ap (λ t. t.0) made in
      let same_cs : cs' ≡ cs = ap (λ t. t.1) made in
      let (size, accepted) = decode_entries-AreAccepted limits entry_count 0 c0 c5 es' e5 in
      record {
        entry_number = ap (λ t. length t) (sym same_es) ∙ size;
        chunk_number =
            ap (λ t. length t) (sym same_cs) ∙ length-decode_chunks chunk_count c5 c7 cs' e7;
        accepted = subst (λ t. AreAccepted limits 0 t) same_es accepted;
      }
