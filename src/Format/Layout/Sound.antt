-- ===== src/Format/Layout/Sound.antt =====
-- The specification of a layout, for `validate_layout` of crates/rasen-archive/src/format/toc.rs.
use rasen_archive.Prelude.{ℕ, zero, suc, ◌+◌, ◌<◌, ◌≤◌, ◌≡◌, refl, List, [], ◌∷◌, Bool, true, false}
use rasen_archive.Prelude.{some, get_elem?, length, length-replicate, replicate, All, arith}
use rasen_archive.Error.{ok}
use rasen_archive.Platform.{Platform}
use rasen_archive.Format
use rasen_archive.Format.Model.{TocEntry, Chunk}
use rasen_archive.Format.Layout.{Bounds, check_chunks, check_entries, all_used, validate_layout}
use rasen_archive.Format.Layout.Placement.{
  ArePlaced, check_chunks_sound, ArePlaced-get_elem?, ArePlaced-disjoint,
}
use rasen_archive.Format.Layout.Owners.{FitsChunks, marked, owners, check_entries_sound}

marked-replicate : (n i : ℕ) → marked (get_elem? (replicate n false) i) ≡ 0
marked-replicate zero i = refl
marked-replicate (suc n) zero = refl
marked-replicate (suc n) (suc i) = marked-replicate n i

marked_of_all_used :
    (used : List Bool) (i : ℕ)
    → all_used used ≡ true
    → i < length used
    → marked (get_elem? used i) ≡ 1
unfolding all_used
marked_of_all_used [] i h p = absurd (omega arith)
marked_of_all_used (u ∷ used) zero h p = ground arith
marked_of_all_used (u ∷ used) (suc i) h p = ground (arith, marked_of_all_used used i)

-- The tables are laid out as the format wants them.
pub record IsLayout (b : Bounds) (es : List TocEntry) (cs : List Chunk) : Type 0 where
  pub placed : ArePlaced b Format.header_size 0 cs
  pub fits : All (FitsChunks b.chunk_size cs) es
  pub owned_once : (i : ℕ) → i < length cs → owners es i ≡ 1

module _ (env : Platform) (es : List TocEntry) (cs : List Chunk) (b : Bounds) where
  accepted_parts :
      validate_layout env es cs b ≡ ok tt
      → (used : List Bool) × (check_chunks b Format.header_size 0 cs ≡ ok tt)
        × (check_entries b cs (replicate (length cs) false) es ≡ ok used)
        × (all_used used ≡ true)
  unfolding validate_layout
  accepted_parts h = ground arith

  -- If `validate_layout` accepts the tables, then the chunks are placed one behind the other, aligned,
  -- between the header and the TOC, of admissible sizes and within the limit on the total size; every
  -- entry fits its chunks; and every chunk belongs to exactly one entry.
  pub validate_layout-IsLayout : validate_layout env es cs b ≡ ok tt → IsLayout b es cs
  validate_layout-IsLayout h =
      let (used, chunks_checked, entries_checked, all) = accepted_parts h in
      let (fits, marks, lengths) =
        check_entries_sound b cs es (replicate (length cs) false) used entries_checked in
      record {
        placed = check_chunks_sound b Format.header_size 0 cs chunks_checked;
        fits = fits;
        owned_once = λ i p. omega (
          arith,
          marks i,
          marked-replicate (length cs) i,
          marked_of_all_used used i all
              (omega (arith, lengths, length-replicate (length cs) false)),
        );
      }

  -- In an accepted layout two chunks never overlap: the earlier one in the table ends at or before the
  -- start of the later one, which ends at or before the TOC; and no chunk reaches into the header.
  pub validate_layout-disjoint :
      (i j : ℕ) (c d : Chunk)
      → validate_layout env es cs b ≡ ok tt
      → i < j
      → get_elem? cs i ≡ some c
      → get_elem? cs j ≡ some d
      → (Format.header_size ≤ c.offset)
        × (c.offset + c.stored_size ≤ d.offset)
        × (d.offset + d.stored_size ≤ b.toc_offset)
  validate_layout-disjoint i j c d h less at_i at_j =
      let layout = validate_layout-IsLayout h in
      let first = ArePlaced-get_elem? b Format.header_size 0 cs i layout.placed at_i in
      let second = ArePlaced-get_elem? b Format.header_size 0 cs j layout.placed at_j in
      (
        first.after_header,
        ArePlaced-disjoint b Format.header_size 0 cs i j layout.placed less at_i at_j,
        second.before_toc,
      )
