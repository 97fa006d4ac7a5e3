-- ===== src/Archive/Range/Bytes.antt =====
-- `range_len` and the functions on ranges of crates/rasen-archive/src/archive/reader.rs.
use rasen_archive.Prelude.{
  ℕ, ◌+◌, ◌-◌, ◌*◌, ◌/◌, ◌<◌, ◌≤◌, min, ◌≡◌, refl, ap, sym, ◌∙◌, ◌⊎◌, inl, inr,
}
use rasen_archive.Prelude.{List, length, length-drop, take, drop, arith, u32_mod, u64_mod, le→leb}
use rasen_archive.Prelude.{if◌then◌else◌, Bool, true, false, leb, some, get_elem?}
use native.Mathlib.Nat.{div-mul-le_self, div-lt_iff_lt-mul, le-div_iff_mul-le}
use native.Mathlib.Decide.{dec_lt, dec_le}
use rasen_archive.Error.{ok, err, invalid_range}
use rasen_archive.Platform.{Platform, IsRoomy}
use rasen_archive.Format.Io.{usize_to_u64, u64_to_usize}
use rasen_archive.VirtualPath.{normalize_lookup_path}
use rasen_archive.Archive.Model.{Archive, Entry, ArchiveScratch, no_scratch}
use rasen_archive.Archive.Lookup.{find_entry_index_normalized}
use rasen_archive.Archive.Chunks.{path_label, allocate, ensure_chunk_operation_limit}
use rasen_archive.Archive.Read.Blocks.{join}
use rasen_archive.Archive.Read.Whole.{IsContent}
use rasen_archive.Archive.Range.{
  check_range_chunks, clip_range, range_len, read_range_found, read_range, read_range_exact,
}
use rasen_archive.Archive.Range.Pieces.{take_clipped}
use rasen_archive.Archive.Range.Round.{IsCut}
use rasen_archive.Archive.Range.Slice.{length-join, read_range_index_into-slice}

module _ (env : Platform) (a : Archive) where
  range_checked :
      (offset n count : ℕ)
      → 0 < n
      → 0 < a.chunk_size
      → offset + n < u64_mod
      → offset + n ≤ count * a.chunk_size
      → count < u32_mod
      → count ≤ a.max_chunks_per_operation
      → check_range_chunks env a offset n ≡ ok tt
  unfolding check_range_chunks usize_to_u64 ensure_chunk_operation_limit
  range_checked offset n count some_bytes pos wide inside small allowed =
      let high : (offset + n - 1) / a.chunk_size < count =
        (div-lt_iff_lt-mul pos).1 (omega arith) in
      let order : offset / a.chunk_size ≤ (offset + n - 1) / a.chunk_size =
        (le-div_iff_mul-le pos).1 (omega (arith, div-mul-le_self offset a.chunk_size)) in
      ground (arith, high, order)

  clipped :
      (size offset len : ℕ) (exact : Bool)
      → offset < size
      → 0 < len
      → size < u64_mod
      → offset + len < u64_mod
      → (exact ≡ false) ⊎ (offset + len ≤ size)
      → check_range_chunks env a offset (min (offset + len) size - offset) ≡ ok tt
      → clip_range env a size offset len exact ≡ ok (min (offset + len) size - offset)
  unfolding clip_range usize_to_u64 u64_to_usize
  clipped size offset len exact start some_bytes wide fits within checked = ground (arith, checked)

  module _ (idx offset len : ℕ) (e : Entry) (at : get_elem? a.entries idx ≡ some e) where
    range_len_nothing :
        (exact : Bool)
        → offset ≤ e.original_size
        → (len ≡ 0) ⊎ (offset ≡ e.original_size)
        → (exact ≡ false) ⊎ (offset + len ≤ e.original_size)
        → range_len env a idx offset len exact ≡ ok 0
    unfolding range_len
    range_len_nothing exact start nothing within = ground (arith, at)

    range_len_something :
        (exact : Bool)
        → offset < e.original_size
        → 0 < len
        → range_len env a idx offset len exact ≡ clip_range env a e.original_size offset len exact
    unfolding range_len
    range_len_something exact start some_bytes = ground (arith, at)

    -- A range that starts inside the entry, and ends inside or is clipped.
    range_len_inside :
        (exact : Bool)
        → e.chunk_count < u32_mod
        → e.original_size < u64_mod
        → 0 < a.chunk_size
        → e.original_size ≤ e.chunk_count * a.chunk_size
        → e.chunk_count ≤ a.max_chunks_per_operation
        → offset ≤ e.original_size
        → offset + len < u64_mod
        → (exact ≡ false) ⊎ (offset + len ≤ e.original_size)
        → range_len env a idx offset len exact ≡ ok (min len (e.original_size - offset))
    range_len_inside exact small wide pos room allowed start fits within =
        let actual : ℕ = min len (e.original_size - offset) in
        elim (dec_lt 0 actual) [
          | no nothing ↦
              let none_left : actual ≡ 0 = omega arith in
              range_len_nothing exact start (ground arith) within ∙ ap ok (sym none_left)
          | yes something ↦
              let width : min (offset + len) e.original_size - offset ≡ actual = omega arith in
              let checked =
                range_checked offset (min (offset + len) e.original_size - offset) e.chunk_count
                  (omega arith) pos (omega arith) (omega arith) small allowed in
              range_len_something exact (omega arith) (omega arith)
              ∙ clipped e.original_size offset len exact (omega arith) (omega arith) wide fits
                  within checked
              ∙ ap ok width
        ]

    -- A range that starts behind the entry, or must not be clipped and ends behind it.
    range_len_outside :
        (exact : Bool)
        → offset + len < u64_mod
        → (e.original_size < offset) ⊎ ((exact ≡ true) × (e.original_size < offset + len))
        → range_len env a idx offset len exact ≡ err invalid_range
    unfolding range_len clip_range usize_to_u64
    range_len_outside exact fits outside = ground (arith, at)

  -- The path leads to an entry with this content, in chunks of the chunk size, of which only the last
  -- may be shorter, and not more of them than one operation may decode.
  pub record IsReadable (path full : List ℕ) : Type 0 where
    pub normalized : List ℕ
    pub idx : ℕ
    pub entry : Entry
    pub normal : normalize_lookup_path env path ≡ ok normalized
    pub found : find_entry_index_normalized env a normalized ≡ ok idx
    pub at_index : get_elem? a.entries idx ≡ some entry
    pub content : IsContent env a entry full
    pub count_fits : entry.chunk_count < u32_mod
    pub size_fits : entry.original_size < u64_mod
    pub chunk_size_pos : 0 < a.chunk_size
    pub cut : IsCut a.chunk_size 0 content.blocks
    pub allowed : entry.chunk_count ≤ a.max_chunks_per_operation

  module _ (roomy : IsRoomy env) (path full : List ℕ) (r : IsReadable path full) (offset len : ℕ)
      (fits : offset + len < u64_mod) where
    room : r.entry.original_size ≤ r.entry.chunk_count * a.chunk_size
    room =
        let size : length (join r.content.blocks) ≡ r.entry.original_size =
          ap length (sym r.content.joined) ∙ r.content.sized in
        let number : length r.content.blocks * a.chunk_size ≡ r.entry.chunk_count * a.chunk_size =
          ap (λ t. t * a.chunk_size) r.content.number in
        omega (arith, size, number, length-join a.chunk_size 0 r.content.blocks r.cut)

    found_slice :
        (exact : Bool)
        → offset ≤ r.entry.original_size
        → (exact ≡ false) ⊎ (offset + len ≤ r.entry.original_size)
        → (n : ℕ) × (scratch : ArchiveScratch) × (read_range_found env a path offset len exact true
              no_scratch
            ≡ ok (n, take len (drop offset full), scratch))
    unfolding read_range_found allocate
    found_slice exact start within =
        let n : ℕ = min len (r.entry.original_size - offset) in
        let measured =
          range_len_inside r.idx offset len r.entry r.at_index exact r.count_fits r.size_fits
            r.chunk_size_pos room r.allowed start fits within in
        let (scratch, loaded) =
          read_range_index_into-slice env a roomy r.idx (path_label r.normalized) r.entry full
            r.content offset n no_scratch r.at_index r.count_fits r.size_fits r.chunk_size_pos r.cut
            (omega arith) in
        let all : take len (drop offset full) ≡ take n (drop offset full) =
          take_clipped (drop offset full) len n
            (omega (arith, length-drop offset full, r.content.sized)) in
        (n, scratch, rw (r.normal, r.found, measured, roomy n, loaded, all) refl)

    found_outside :
        (exact : Bool)
        → (r.entry.original_size < offset)
          ⊎ ((exact ≡ true) × (r.entry.original_size < offset + len))
        → read_range_found env a path offset len exact true no_scratch ≡ err invalid_range
    unfolding read_range_found
    found_outside exact outside =
        rw
          (
            r.normal,
            r.found,
            range_len_outside r.idx offset len r.entry r.at_index exact fits outside,
          )
          refl

    -- Where memory suffices: on a path that leads to an entry with some content, in chunks as the
    -- format has them and not too many, with an offset and a length whose sum is a 64-bit word,
    -- `read_range` returns the bytes of the content from the offset on, as many as are asked for and
    -- there, if the offset is not behind the end, and else the error of an invalid range.
    pub read_range-slice :
        read_range env a path offset len
        ≡ (if leb offset (length full) then ok (take len (drop offset full)) else err invalid_range)
    unfolding read_range
    read_range-slice = elim (dec_le offset (length full)) [
      | yes inside ↦
          let (n, scratch, e) = found_slice false (omega (arith, r.content.sized)) (inl refl) in
          rw (e, le→leb _ _ inside) refl
      | no outside ↦
          let e = found_outside false (inl (omega (arith, r.content.sized))) in ground (arith, e)
    ]

    -- Under the same conditions, `read_range_exact` returns as many bytes of the content as are asked
    -- for, from the offset on, if all of them are there, and else the error of an invalid range.
    pub read_range_exact-slice : read_range_exact env a path offset len ≡ (
        if leb (offset + len) (length full)
        then ok (take len (drop offset full))
        else err invalid_range)
    unfolding read_range_exact
    read_range_exact-slice = elim (dec_le (offset + len) (length full)) [
      | yes inside ↦
          let (n, scratch, e) =
            found_slice true (omega (arith, r.content.sized))
              (inr (omega (arith, r.content.sized))) in
          rw (e, le→leb _ _ inside) refl
      | no outside ↦
          let e = found_outside true (inr (refl, omega (arith, r.content.sized))) in
          ground (arith, e)
    ]
