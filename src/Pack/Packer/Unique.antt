-- ===== src/Pack/Packer/Unique.antt =====
-- The paths and the hashes of the entries that the packer of
-- crates/rasen-archive/src/pack/writer.rs has taken.
use rasen_archive.Prelude.{
  ℕ, ◌≡◌, ◌≢◌, refl, ap, sym, ◌∙◌, ◌⊎◌, inl, inr, List, [], ◌∷◌, ◌++◌, All, Bool, true, false, ◌&&◌,
  arith, Bool-cases, ◌==◌, ==_self, bytes_eq, bytes_eq_self,
}
use rasen_archive.Error.{ok}
use rasen_archive.Format.Model.{TocEntry}
use rasen_archive.Pack.Options.{strips_paths}
use rasen_archive.Pack.Model.{Packer, contains_hash, is_duplicate, insert_hash}

-- A path with this hash may be added beside an entry: the hashes differ, or paths are kept and the
-- paths differ.
abbrev pub Differs : Bool → ℕ → List ℕ → TocEntry → Type 0
Differs stripped path_hash path e =
    (e.path_hash ≢ path_hash) ⊎ ((stripped ≡ false) × (e.path ≢ path))

abbrev pub AreDistinct : Bool → List TocEntry → Type 0
AreDistinct stripped [] = Unit
AreDistinct stripped (e ∷ es) =
    All (λ d. Differs stripped d.path_hash d.path e) es × AreDistinct stripped es

-- Every hash has been seen, and no two entries clash.
pub record IsUnique {W : Type 0} (p : Packer W) : Type 0 where
  pub seen : All (λ e. contains_hash e.path_hash p.seen_hashes ≡ true) p.entries
  pub distinct : AreDistinct (strips_paths p.options.mode) p.entries

unseen-Differs :
    (stripped : Bool) (hash : ℕ) (path : List ℕ) (seen : List ℕ) (es : List TocEntry)
    → contains_hash hash seen ≡ false
    → All (λ e. contains_hash e.path_hash seen ≡ true) es
    → All (Differs stripped hash path) es
unseen-Differs stripped hash path seen [] h v = tt
unseen-Differs stripped hash path seen (e ∷ es) h (v, vs) =
    (inl (λ same. let c = clash same in absurd cc), unseen-Differs stripped hash path seen es h vs)
  where
    clash : e.path_hash ≡ hash → ◌≡◌ {A = Bool} true false
    clash same = sym v ∙ ap (λ n. contains_hash n seen) same ∙ h

new-Differs :
    (hash : ℕ) (path : List ℕ) (es : List TocEntry)
    → is_duplicate hash path es ≡ false
    → All (Differs false hash path) es
unfolding is_duplicate
new-Differs hash path [] h = tt
new-Differs hash path (e ∷ es) h = elim (Bool-cases (e.path_hash == hash && bytes_eq e.path path)) [
  | inl both ↦ absurd (cc)
  | inr other ↦ (new_beside e other, new-Differs hash path es (rw other at h))
]
  where
    new_beside :
        (e : TocEntry)
        → (e.path_hash == hash && bytes_eq e.path path) ≡ false
        → Differs false hash path e
    new_beside e other = elim (Bool-cases (e.path_hash == hash)) [
      | inr unlike ↦ inl (λ same.
          let c : ◌≡◌ {A = Bool} true false = rw (same, ==_self hash) at unlike in absurd cc)
      | inl alike ↦ inr (
        refl,
        λ same_path.
            let c : ◌≡◌ {A = Bool} true false =
              rw (alike, same_path, bytes_eq_self path) at other in
            absurd cc,
      )
    ]

contains_more :
    (hash : ℕ) (seen : List ℕ) (es : List TocEntry)
    → All (λ e. contains_hash e.path_hash seen ≡ true) es
    → All (λ e. contains_hash e.path_hash (hash ∷ seen) ≡ true) es
unfolding contains_hash
contains_more hash seen [] v = tt
contains_more hash seen (e ∷ es) (v, vs) = (ground arith, contains_more hash seen es vs)

insert_hash_cases :
    {W : Type 0} (p : Packer W) (path : List ℕ) (hash : ℕ) (seen : List ℕ)
    → insert_hash p path hash ≡ ok seen
    → ((contains_hash hash p.seen_hashes ≡ false) × (hash ∷ p.seen_hashes ≡ seen))
      ⊎ ((contains_hash hash p.seen_hashes ≡ true)
          × (is_duplicate hash path p.entries ≡ false)
          × (strips_paths p.options.mode ≡ false)
          × (p.seen_hashes ≡ seen))
unfolding insert_hash
insert_hash_cases p path hash seen h = ground arith

contains_newest : (hash : ℕ) (seen : List ℕ) → contains_hash hash (hash ∷ seen) ≡ true
unfolding contains_hash
contains_newest hash seen = ground arith

module _ {W : Type 0} (p : Packer W) (path : List ℕ) (hash : ℕ) (seen : List ℕ) where
  -- In a packer whose entries' hashes have all been seen: what `insert_hash` accepts clashes with no
  -- entry, and is seen from then on, with all that was.
  pub insert_hash-Differs :
      All (λ e. contains_hash e.path_hash p.seen_hashes ≡ true) p.entries
      → insert_hash p path hash ≡ ok seen
      → All (Differs (strips_paths p.options.mode) hash path) p.entries
        × (contains_hash hash seen ≡ true)
        × All (λ e. contains_hash e.path_hash seen ≡ true) p.entries
  insert_hash-Differs v h = elim (insert_hash_cases p path hash seen h) [
    | inl (unseen, same) ↦ (
      unseen-Differs (strips_paths p.options.mode) hash path p.seen_hashes p.entries unseen v,
      rw (← same) (contains_newest hash p.seen_hashes),
      rw (← same) (contains_more hash p.seen_hashes p.entries v),
    )
    | inr (before, unlike, kept, same) ↦
        (rw kept (new-Differs hash path p.entries unlike), rw (← same) before, rw (← same) v)
  ]

pub All-snoc :
    (P : TocEntry → Type 0) (es : List TocEntry) (e : TocEntry)
    → All P es
    → P e
    → All P (es ++ (e ∷ []))
All-snoc P [] e v w = (w, tt)
All-snoc P (d ∷ ds) e (v, vs) w = (v, All-snoc P ds e vs w)

-- One more entry.
pub AreDistinct-snoc :
    (stripped : Bool) (es : List TocEntry) (e : TocEntry)
    → AreDistinct stripped es
    → All (Differs stripped e.path_hash e.path) es
    → AreDistinct stripped (es ++ (e ∷ []))
AreDistinct-snoc stripped [] e v w = (tt, tt)
AreDistinct-snoc stripped (d ∷ ds) e (v, vs) (w, ws) = (
  All-snoc (λ x. Differs stripped x.path_hash x.path d) ds e v w,
  AreDistinct-snoc stripped ds e vs ws,
)

module _ {W : Type 0} (p q : Packer W) (e : TocEntry) (seen : List ℕ) where
  -- One more entry that `insert_hash` has accepted.
  pub IsUnique-snoc :
      IsUnique p
      → insert_hash p e.path e.path_hash ≡ ok seen
      → q.entries ≡ p.entries ++ (e ∷ [])
      → q.seen_hashes ≡ seen
      → q.options ≡ p.options
      → IsUnique q
  IsUnique-snoc v fresh same_entries same_seen same_options =
      let (unlike, newest, before) = insert_hash-Differs p e.path e.path_hash seen v.seen fresh in
      record {
        seen =
            rw (same_entries, same_seen)
              (All-snoc (λ d. contains_hash d.path_hash seen ≡ true) p.entries e before newest);
        distinct =
            rw (same_entries, same_options)
              (AreDistinct-snoc (strips_paths p.options.mode) p.entries e v.distinct unlike);
      }
