-- ===== src/Format/Toc/Checked.antt =====
-- An entry that `decode_entry` of crates/rasen-archive/src/format/toc.rs accepts.
use rasen_archive.Prelude.{
  ℕ, ◌+◌, ◌<◌, ◌≤◌, ◌≡◌, refl, ap, sym, ◌∙◌, ◌==◌, leb, checked_add, slice, length-slice, ==_iff,
  List, Option, none, some, [], ◌∷◌, Bool, true, false, arith, length,
}
use mathlib.Core.Path.{subst}
use rasen_archive.Error.{
  Error, Fallible, ◌>>=◌, ◌>>◌, ok, >>=-eq-ok, ok-injective, guard, guard-eq-ok, ok_or,
  asset_too_large, corrupt, too_large, metadata_limit_exceeded,
}
use rasen_archive.Platform.{Platform}
use rasen_archive.VirtualPath.{normalize_path}
use rasen_archive.Format.Model.{TocEntry}
use rasen_archive.Format.Io.Cursor
use rasen_archive.Format.Io.Cursor.{Cursor}
use rasen_archive.Format.Io.{checked_add-eq-ok}
use rasen_archive.Format.Toc.{Limits, decode_path, decode_entry}

module _ (env : Platform) where
  -- The path of an entry, made from these bytes: none in a production archive, and in a debug archive
  -- the normalized path, with its hash.
  abbrev pub IsNamed : Bool → List ℕ → TocEntry → Type 0
  IsNamed true path_bytes e = (path_bytes ≡ []) × (e.path ≡ [])
  IsNamed false path_bytes e =
      (0 < length path_bytes)
      × (env.from_utf8 path_bytes ≡ true)
      × (normalize_path env path_bytes ≡ ok e.path)
      × (env.xxh3_64 e.path ≡ e.path_hash)

  decode_path-IsNamed :
      (stripped : Bool) (path_bytes : List ℕ) (e : TocEntry) (path : List ℕ)
      → decode_path env stripped (length path_bytes) path_bytes e.path_hash ≡ ok path
      → path ≡ e.path
      → IsNamed stripped path_bytes e
  unfolding decode_path
  decode_path-IsNamed true [] e path h same = ground arith
  decode_path-IsNamed true (b ∷ bs) e path h same = absurd cc
  decode_path-IsNamed false [] e path h same = absurd cc
  decode_path-IsNamed false (b ∷ bs) e path h same =
      let (u, utf, h0) =
        >>=-eq-ok (guard (env.from_utf8 (b ∷ bs)) (corrupt "entry path is not UTF-8")) _ h in
      let (p, normal, h1) = >>=-eq-ok (normalize_path env (b ∷ bs)) _ h0 in
      let (v, hashed, h2) =
        >>=-eq-ok (guard (env.xxh3_64 p == e.path_hash) (corrupt "entry path hash mismatch")) _
          h1 in
      let p_is : p ≡ e.path = ok-injective h2 ∙ same in
      (
        omega arith,
        guard-eq-ok (env.from_utf8 (b ∷ bs)) (corrupt "entry path is not UTF-8") utf,
        normal ∙ ap ok p_is,
        ap env.xxh3_64 (sym p_is)
            ∙ (==_iff (env.xxh3_64 p) e.path_hash).0 (
                guard-eq-ok (env.xxh3_64 p == e.path_hash) (corrupt "entry path hash mismatch")
                  hashed),
      )

  ok_or-eq-ok : {A : Type 0} (o : Option A) (e : Error) {a : A} → ok_or o e ≡ ok a → o ≡ some a
  ok_or-eq-ok none e h = absurd cc
  ok_or-eq-ok (some x) e h = cc

  length-take :
      (n : ℕ) (cursor after : Cursor) (bs : List ℕ)
      → Cursor.take n cursor ≡ ok (bs, after)
      → length bs ≡ n
  unfolding Cursor.take
  length-take n cursor after bs h =
      let (end, e0, h0) =
        >>=-eq-ok (ok_or (checked_add cursor.pos n) (corrupt "TOC cursor overflow")) _ h in
      let (taken, e1, h1) =
        >>=-eq-ok (ok_or (slice cursor.bytes cursor.pos end) (corrupt "truncated TOC")) _ h0 in
      let (in_word, end_is) = checked_add-eq-ok cursor.pos n (corrupt "TOC cursor overflow") e0 in
      let (ordered, inside, size) =
        length-slice cursor.bytes cursor.pos end taken
          (ok_or-eq-ok (slice cursor.bytes cursor.pos end) (corrupt "truncated TOC") e1) in
      let same : taken ≡ bs = ap (λ t. t.0) (ok-injective h1) in
      ap (λ t. length t) (sym same) ∙ omega (arith, size, end_is)

  module _ (limits : Limits) (total : ℕ) where
    -- `decode_entry` behind the numbers of the entry.
    abbrev checked_entry : TocEntry → ℕ → ℕ → Cursor → Fallible (TocEntry × ℕ × Cursor)
    checked_entry e path_len reserved cursor = do
      guard (leb e.original_size limits.max_single_asset_bytes) asset_too_large
      guard (reserved == 0) (corrupt "non-zero entry reserved field")
      guard (leb path_len limits.max_path_bytes) (too_large "path length limit")
      total ← ok_or (checked_add total path_len) (too_large "total path bytes")
      guard (leb total limits.max_total_path_bytes) metadata_limit_exceeded
      (path_bytes, cursor) ← Cursor.take path_len cursor
      path ← decode_path env limits.paths_stripped path_len path_bytes e.path_hash
      ok (record e { path = path }, total, cursor)

    -- The bytes of the path of an accepted entry, and the total of path bytes behind it.
    abbrev pub IsAccepted : List ℕ → TocEntry → ℕ → Type 0
    IsAccepted path_bytes e total' =
        IsNamed limits.paths_stripped path_bytes e
        × (length path_bytes ≤ limits.max_path_bytes)
        × (total + length path_bytes ≤ limits.max_total_path_bytes)
        × (e.original_size ≤ limits.max_single_asset_bytes)
        × (total' ≡ total + length path_bytes)

    checked_entry_parts :
        (e e' : TocEntry) (path_len reserved total' : ℕ) (cursor after : Cursor)
        → checked_entry e path_len reserved cursor ≡ ok (e', total', after)
        → (path_bytes : List ℕ) × IsAccepted path_bytes e' total'
    checked_entry_parts e e' path_len reserved total' cursor after h =
        let (u0, g0, h0) =
          >>=-eq-ok (guard (leb e.original_size limits.max_single_asset_bytes) asset_too_large) _
            h in
        let (u1, g1, h1) =
          >>=-eq-ok (guard (reserved == 0) (corrupt "non-zero entry reserved field")) _ h0 in
        let (u2, g2, h2) =
          >>=-eq-ok (guard (leb path_len limits.max_path_bytes) (too_large "path length limit")) _
            h1 in
        let (sum, g3, h3) =
          >>=-eq-ok (ok_or (checked_add total path_len) (too_large "total path bytes")) _ h2 in
        let (u4, g4, h4) =
          >>=-eq-ok (guard (leb sum limits.max_total_path_bytes) metadata_limit_exceeded) _ h3 in
        let ((bytes, c), g5, h5) = >>=-eq-ok (Cursor.take path_len cursor) _ h4 in
        let (path, g6, h6) =
          >>=-eq-ok (decode_path env limits.paths_stripped path_len bytes e.path_hash) _ h5 in
        let size = length-take path_len cursor c bytes g5 in
        let (in_word, sum_is) =
          checked_add-eq-ok total path_len (too_large "total path bytes") g3 in
        let single : e.original_size ≤ limits.max_single_asset_bytes = ground arith in
        let short : path_len ≤ limits.max_path_bytes = ground arith in
        let few : sum ≤ limits.max_total_path_bytes = ground arith in
        let named =
          decode_path-IsNamed limits.paths_stripped bytes (record e { path = path }) path
            (ap (λ n. decode_path env limits.paths_stripped n bytes e.path_hash) size ∙ g6) refl in
        let accepted : IsAccepted bytes (record e { path = path }) sum = (
          named,
          omega (arith, short, size),
          omega (arith, few, size, sum_is),
          single,
          omega (arith, size, sum_is),
        ) in
        let made = ok-injective h6 in
        (bytes, subst (λ (t : TocEntry × ℕ × Cursor). IsAccepted bytes t.0 t.1) made accepted)

    pub decode_entry_parts :
        (cursor after : Cursor) (e : TocEntry) (total' : ℕ)
        → decode_entry env limits total cursor ≡ ok (e, total', after)
        → (path_bytes : List ℕ) × IsAccepted path_bytes e total'
    unfolding decode_entry
    decode_entry_parts cursor after e total' h =
        let ((hash, c0), e0, h0) = >>=-eq-ok (Cursor.u64 cursor) _ h in
        let ((original, c1), e1, h1) = >>=-eq-ok (Cursor.u64 c0) _ h0 in
        let ((stored, c2), e2, h2) = >>=-eq-ok (Cursor.u64 c1) _ h1 in
        let ((first, c3), e3, h3) = >>=-eq-ok (Cursor.u32 c2) _ h2 in
        let ((count, c4), e4, h4) = >>=-eq-ok (Cursor.u32 c3) _ h3 in
        let ((path_len, c5), e5, h5) = >>=-eq-ok (Cursor.u16 c4) _ h4 in
        let ((reserved, c6), e6, h6) = >>=-eq-ok (Cursor.u16 c5) _ h5 in
        checked_entry_parts
          (record {
            path = [];
            path_hash = hash;
            original_size = original;
            stored_size = stored;
            first_chunk = first;
            chunk_count = count;
          })
          e path_len reserved total' c6 after h6
