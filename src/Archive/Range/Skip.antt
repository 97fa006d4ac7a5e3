-- ===== src/Archive/Range/Skip.antt =====
-- The chunks of an entry that lie before a range, as `read_range_index_into` of
-- crates/rasen-archive/src/archive/reader.rs passes over them.
use rasen_archive.Prelude.{ℕ, zero, suc, ◌+◌, ◌-◌, ◌*◌, ◌<◌, ◌≤◌, ◌≡◌, refl, ap, ◌∙◌, ◌⊎◌, inl, inr}
use rasen_archive.Prelude.{List, [], ◌∷◌, length, length-append, drop, arith}
use rasen_archive.Platform.{Platform}
use rasen_archive.Archive.Model.{Archive}
use rasen_archive.Archive.Read.Blocks.{join, Blocks}
use rasen_archive.Archive.Range.Pieces.{drop_past}
use rasen_archive.Archive.Range.Round.{IsCut}

module _ (env : Platform) (a : Archive) (first offset : ℕ) where
  -- The blocks after some that lie before the offset.
  pub record AreLater (local p j q : ℕ) (ds later : List (List ℕ)) : Type 0 where
    pub blocks : Blocks env a first j later
    pub cut : IsCut a.chunk_size q later
    pub counted : j + length later ≡ local + length ds
    pub measured : q + length (join later) ≡ p + length (join ds)
    pub same_part : drop (offset - p) (join ds) ≡ drop (offset - q) (join later)

  pub skip :
      (k local p : ℕ) (ds : List (List ℕ))
      → Blocks env a first local ds
      → IsCut a.chunk_size p ds
      → p + k * a.chunk_size ≤ offset
      → offset < p + length (join ds)
      → (later : List (List ℕ)) × AreLater local p (local + k) (p + k * a.chunk_size) ds later
  skip zero local p ds blocks cut before inside =
      let e : local + 0 ≡ local = omega arith in
      let f : p + 0 * a.chunk_size ≡ p = omega arith in
      (
        ds,
        record {
          blocks = rw e blocks;
          cut = rw f cut;
          counted = omega arith;
          measured = omega arith;
          same_part = rw f refl;
        },
      )
  skip (suc k) local p [] blocks cut before inside = absurd (omega arith)
  skip (suc k) local p (d ∷ ds) blocks cut before inside =
      by_kind
        (λ full.
          skip k (local + 1) (p + a.chunk_size) ds blocks.2 cut.3 (omega arith)
            (omega (arith, length-append d (join ds), full)))
        cut.2
    where
      by_kind :
          (length d ≡ a.chunk_size
            → (later : List (List ℕ)) × AreLater
                (local + 1)
                (p + a.chunk_size)
                (local + 1 + k)
                (p + a.chunk_size + k * a.chunk_size)
                ds
                later)
          → (length d ≡ a.chunk_size) ⊎ (ds ≡ [])
          → (later : List (List ℕ)) × AreLater local p
              (local + suc k)
              (p + suc k * a.chunk_size)
              (d ∷ ds)
              later
      by_kind again (inr last) =
          let none_left : length (join ds) ≡ 0 = ap (λ t. length (join t)) last in
          absurd (omega (arith, length-append d (join ds), none_left, cut.0))
      by_kind again (inl full) =
          let whole = length-append d (join ds) in
          let (later, r) = again full in
          let e : local + suc k ≡ local + 1 + k = omega arith in
          let f : p + suc k * a.chunk_size ≡ p + a.chunk_size + k * a.chunk_size = omega arith in
          let g : offset - p - length d ≡ offset - (p + a.chunk_size) = omega (arith, full) in
          (
            later,
            record {
              blocks = rw e r.blocks;
              cut = rw f r.cut;
              counted = omega (arith, r.counted);
              measured = omega (arith, r.measured, whole, full);
              same_part =
                  drop_past d (join ds) (offset - p) (omega (arith, full))
                  ∙ ap (λ t. drop t (join ds)) g
                  ∙ rw f r.same_part;
            },
          )
