-- ===== src/Format/Layout/Owners.antt =====
-- What the loop over entries of `validate_layout` checks: which chunks an entry has.
use rasen_archive.Prelude.{ℕ, zero, suc, ◌+◌, ◌≤◌, ◌≡◌, ◌⊎◌, ◌↔◌, inl, inr, refl, List, [], ◌∷◌}
use rasen_archive.Prelude.{Bool, true, false, ◌&&◌, leb, ltb, ◌==◌, if◌then◌else◌}
use rasen_archive.Prelude.{
  Option, some, none, get_elem?, set, slice, length, length-slice, All, arith,
}
use mathlib.Core.Path.{subst}
use rasen_archive.Error.{ok, >>=-eq-ok}
use rasen_archive.Format.Model.{TocEntry, Chunk}
use rasen_archive.Format.Layout.{
  Bounds, Ownership, own_chunks, check_shape, check_entry, check_entries,
}

abbrev pub sum_original : List Chunk → ℕ
sum_original [] = 0
sum_original (c ∷ cs) = c.original_size + sum_original cs

abbrev pub sum_stored : List Chunk → ℕ
sum_stored [] = 0
sum_stored (c ∷ cs) = c.stored_size + sum_stored cs

-- All chunks but the last have the chunk size of the archive.
abbrev pub AreFull : ℕ → List Chunk → Type 0
AreFull chunk_size [] = Unit
AreFull chunk_size (c ∷ []) = Unit
AreFull chunk_size (c ∷ d ∷ cs) = (c.original_size ≡ chunk_size) × AreFull chunk_size (d ∷ cs)

-- 1 if the number lies in the range that starts at `lo` and has `n` members, else 0.
abbrev pub within : ℕ → ℕ → ℕ → ℕ
within lo n i = if leb lo i && ltb i (lo + n) then 1 else 0

-- 1 if the flag is there and set.
abbrev pub marked : Option Bool → ℕ
marked none = 0
marked (some b) = if b then 1 else 0

get_elem?-set :
    (xs : List Bool) (g i : ℕ) {old : Bool}
    → get_elem? xs g ≡ some old
    → get_elem? (set xs g true) i ≡ (if i == g then some true else get_elem? xs i)
get_elem?-set [] g i e = cc
get_elem?-set (x ∷ xs) zero zero e = refl
get_elem?-set (x ∷ xs) zero (suc i) e = ground arith
get_elem?-set (x ∷ xs) (suc g) zero e = ground arith
get_elem?-set (x ∷ xs) (suc g) (suc i) e = ground (arith, get_elem?-set xs g i e)

length-set : (xs : List Bool) (g : ℕ) → length (set xs g true) ≡ length xs
length-set [] g = refl
length-set (x ∷ xs) zero = refl
length-set (x ∷ xs) (suc g) = omega (arith, length-set xs g)

-- The state after one chunk.
abbrev owned_one : Ownership → ℕ → Chunk → Ownership
owned_one s global c = record {
  used_chunks = set s.used_chunks global true;
  raw_total = s.raw_total + c.original_size;
  stored_total = s.stored_total + c.stored_size;
}

module _ (chunk_size first count : ℕ) where
  own_chunks_step :
      (local : ℕ) (c : Chunk) (cs : List Chunk) (s s' : Ownership)
      → own_chunks chunk_size first count local (c ∷ cs) s ≡ ok s'
      → (get_elem? s.used_chunks (first + local) ≡ some false)
        × ((local + 1 ≡ count) ⊎ (c.original_size ≡ chunk_size))
        × (own_chunks chunk_size first count (local + 1) cs (owned_one s (first + local) c) ≡ ok s')
  unfolding own_chunks
  own_chunks_step local c cs s s' h = ground arith

  -- The loop marks exactly the chunks of its range, none of which was marked before, adds their sizes
  -- up, and finds all but the last one full.
  pub record Owns (local : ℕ) (cs : List Chunk) (s s' : Ownership) : Type 0 where
    pub marks :
        (i : ℕ)
        → marked (get_elem? s'.used_chunks i)
          ≡ marked (get_elem? s.used_chunks i) + within (first + local) (length cs) i
    pub raw : s'.raw_total ≡ s.raw_total + sum_original cs
    pub stored : s'.stored_total ≡ s.stored_total + sum_stored cs
    pub full : AreFull chunk_size cs
    pub same_length : length s'.used_chunks ≡ length s.used_chunks

  full_from :
      (local : ℕ) (c : Chunk) (cs : List Chunk)
      → local + suc (length cs) ≡ count
      → (local + 1 ≡ count) ⊎ (c.original_size ≡ chunk_size)
      → AreFull chunk_size cs
      → AreFull chunk_size (c ∷ cs)
  full_from local c [] e h f = tt
  full_from local c (d ∷ cs) e (inl last) f = absurd (omega arith)
  full_from local c (d ∷ cs) e (inr full) f = (full, f)

  pub own_chunks-Owns :
      (cs : List Chunk) (local : ℕ) (s s' : Ownership)
      → local + length cs ≡ count
      → own_chunks chunk_size first count local cs s ≡ ok s'
      → Owns local cs s s'
  own_chunks-Owns [] local s s' e h =
      let same : s ≡ s' = unfold own_chunks in cc in
      subst (Owns local [] s) same (record {
        marks = λ i. ground arith;
        raw = omega arith;
        stored = omega arith;
        full = tt;
        same_length = refl;
      })
  own_chunks-Owns (c ∷ cs) local s s' e h =
      let (fresh, last_or_full, rest) = own_chunks_step local c cs s s' h in
      let o =
        own_chunks-Owns cs (local + 1) (owned_one s (first + local) c) s' (omega arith) rest in
      record {
        marks = λ i. ground (arith, o.marks i, get_elem?-set s.used_chunks (first + local) i fresh);
        raw = omega (arith, o.raw);
        stored = omega (arith, o.stored);
        full = full_from local c cs e last_or_full o.full;
        same_length = omega (arith, o.same_length, length-set s.used_chunks (first + local));
      }

-- How an entry sits on the chunk table: its range is in the table, its sizes are the sums of its
-- chunks' sizes, all but its last chunk are full, and it has chunks exactly when it is not empty.
pub record FitsChunks (chunk_size : ℕ) (chunks : List Chunk) (e : TocEntry) : Type 0 where
  pub owned : List Chunk
  pub at_range : slice chunks e.first_chunk (e.first_chunk + e.chunk_count) ≡ some owned
  pub in_range : e.first_chunk + e.chunk_count ≤ length chunks
  pub original : sum_original owned ≡ e.original_size
  pub stored : sum_stored owned ≡ e.stored_size
  pub full : AreFull chunk_size owned
  pub shape : (e.original_size ≡ 0) ↔ (e.chunk_count ≡ 0)

-- How many of the entries have the chunk with this number.
pub owners : List TocEntry → ℕ → ℕ
owners [] i = 0
owners (e ∷ es) i = within e.first_chunk e.chunk_count i + owners es i

abbrev nothing_owned : List Bool → Ownership
nothing_owned used = record { used_chunks = used; raw_total = 0; stored_total = 0 }

module _ (b : Bounds) (chunks : List Chunk) where
  pub record Claims (e : TocEntry) (used used' : List Bool) : Type 0 where
    pub fits : FitsChunks b.chunk_size chunks e
    pub marks :
        (i : ℕ)
        → marked (get_elem? used' i)
          ≡ marked (get_elem? used i) + within e.first_chunk e.chunk_count i
    pub same_length : length used' ≡ length used

  -- What is known after a round of the loop.
  check_entry_parts :
      (e : TocEntry) (used used' : List Bool)
      → check_entry b chunks used e ≡ ok used'
      → (owned : List Chunk) × (s : Ownership) × (slice chunks e.first_chunk
            (e.first_chunk + e.chunk_count)
          ≡ some owned)
        × (check_shape e ≡ ok tt)
        × (own_chunks b.chunk_size e.first_chunk (length owned) 0 owned (nothing_owned used) ≡ ok s)
        × (s.raw_total ≡ e.original_size)
        × (s.stored_total ≡ e.stored_size)
        × (s.used_chunks ≡ used')
  unfolding check_entry
  check_entry_parts e used used' h = ground arith

  check_shape_iff :
      (e : TocEntry) → check_shape e ≡ ok tt → (e.original_size ≡ 0) ↔ (e.chunk_count ≡ 0)
  unfolding check_shape
  check_shape_iff e h = ground arith

  check_entry-Claims :
      (e : TocEntry) (used used' : List Bool)
      → check_entry b chunks used e ≡ ok used'
      → Claims e used used'
  check_entry-Claims e used used' h =
      let (owned, s, range, shape, loop, original, stored, same) =
        check_entry_parts e used used' h in
      let (forward, inside, width) =
        length-slice chunks e.first_chunk (e.first_chunk + e.chunk_count) owned range in
      let o =
        own_chunks-Owns b.chunk_size e.first_chunk (length owned) owned 0 (nothing_owned used) s
          (omega arith) loop in
      record {
        fits = record {
          owned = owned;
          at_range = range;
          in_range = inside;
          original = omega (arith, o.raw, original);
          stored = omega (arith, o.stored, stored);
          full = o.full;
          shape = check_shape_iff e shape;
        };
        marks = λ i. ground (arith, o.marks i);
        same_length = rw (← same) o.same_length;
      }

  pub check_entries_sound :
      (es : List TocEntry) (used used' : List Bool)
      → check_entries b chunks used es ≡ ok used'
      → All (FitsChunks b.chunk_size chunks) es
        × ((i : ℕ) → marked (get_elem? used' i) ≡ marked (get_elem? used i) + owners es i)
        × (length used' ≡ length used)
  unfolding check_entries owners
  check_entries_sound [] used used' h =
      let same : used ≡ used' = cc in rw (← same) (tt, λ i. omega arith, refl)
  check_entries_sound (e ∷ es) used used' h =
      let (middle, first, rest) = >>=-eq-ok (check_entry b chunks used e) _ h in
      let claims = check_entry-Claims e used middle first in
      let (fits, marks, lengths) = check_entries_sound es middle used' rest in
      (
        (claims.fits, fits),
        λ i. omega (arith, claims.marks i, marks i),
        omega (arith, claims.same_length, lengths),
      )
