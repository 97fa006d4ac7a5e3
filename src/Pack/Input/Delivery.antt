-- ===== src/Pack/Input/Delivery.antt =====
-- `read_chunk` of crates/rasen-archive/src/pack/writer.rs on a reader that delivers some content in
-- pieces of its own choice.
use rasen_archive.Prelude.{
  ℕ, zero, suc, ◌+◌, ◌-◌, ◌<◌, ◌≤◌, ◌≡◌, refl, ap, sym, ◌⊎◌, inl, inr, List, [], ◌∷◌, ◌++◌, length,
  take, drop, take-append, drop-append, take_nil, drop_nil, length-append, length-take,
  take-append-drop, append-nil, append_assoc, arith, Bool-cases, ltb, ltb→lt, true, false,
}
use rasen_archive.Error.{ok, err, interrupted}
use rasen_archive.Pack.Input.{Reader, slice_reader, after_read, read_chunk}

module _ {R : Type 0} (s : Reader R) where
  -- `content r` is what the reader has yet to deliver, and `waits r` bounds the interruptions to come.
  -- A read into a buffer that is not empty delivers a part of the content that fits it, nothing only at
  -- the end, or is interrupted.
  pub record IsDelivering (content : R → List ℕ) (waits : R → ℕ) : Type 0 where
    pub read_next :
        (r : R) (n : ℕ)
        → 0 < n
        → ((bytes : List ℕ) × (r' : R) × (s.read r n ≡ (ok bytes, r'))
            × (content r ≡ bytes ++ content r')
            × (length bytes ≤ n)
            × (length bytes ≡ 0 → content r ≡ [])
            × (waits r' ≤ waits r))
          ⊎ ((r' : R) × (s.read r n ≡ (err interrupted, r'))
              × (content r' ≡ content r)
              × (waits r' < waits r))

empty_of : (xs : List ℕ) (n : ℕ) → 0 < n → length (take n xs) ≡ 0 → xs ≡ []
empty_of [] n h e = refl
empty_of (x ∷ xs) n h e = absurd (omega (arith, length-take n (x ∷ xs)))

pub slice_reader-IsDelivering : IsDelivering slice_reader (λ unread. unread) (λ unread. 0)
unfolding slice_reader
slice_reader-IsDelivering = record {
  read_next = λ unread n some_room. inl (
    take n unread,
    drop n unread,
    refl,
    sym (take-append-drop n unread),
    omega (arith, length-take n unread),
    λ none_read. empty_of unread n some_room none_read,
    omega arith,
  );
}

beyond : (a b : ℕ) → ltb a b ≡ false → b ≤ a
beyond a b h = ground arith

module _ {R : Type 0} ⦃s : Reader R⦄ (content : R → List ℕ) (waits : R → ℕ)
    (delivering : IsDelivering s content waits) where
  -- What a read of a whole buffer comes to.
  abbrev pub Reads : ℕ → ℕ → List ℕ → R → Type 0
  Reads fuel len filled r =
      (r' : R) × (read_chunk fuel len filled r
        ≡ ok (filled ++ take (len - length filled) (content r), r'))
      × (content r' ≡ drop (len - length filled) (content r))
      × (waits r' ≤ waits r)

  full-Reads :
      (fuel len : ℕ) (filled : List ℕ) (r : R)
      → ltb (length filled) len ≡ false
      → Reads fuel len filled r
  unfolding read_chunk
  full-Reads zero len filled r full =
      let none_left : len - length filled ≡ 0 = omega (arith, beyond (length filled) len full) in
      (r, rw (full, none_left, append-nil filled) refl, rw none_left refl, omega arith)
  full-Reads (suc fuel) len filled r full =
      let none_left : len - length filled ≡ 0 = omega (arith, beyond (length filled) len full) in
      (r, rw (full, none_left, append-nil filled) refl, rw none_left refl, omega arith)

  ended-Reads :
      (fuel len : ℕ) (filled : List ℕ) (r r' : R)
      → ltb (length filled) len ≡ true
      → s.read r (len - length filled) ≡ (ok [], r')
      → content r ≡ content r'
      → content r ≡ []
      → waits r' ≤ waits r
      → Reads (suc fuel) len filled r
  unfolding read_chunk after_read
  ended-Reads fuel len filled r r' room e same none_left fewer = (
    r',
    rw (room, e, none_left, take_nil (len - length filled), append-nil filled) refl,
    rw (← same, none_left, drop_nil (len - length filled)) refl,
    fewer,
  )

  more-Reads :
      (fuel len : ℕ) (filled : List ℕ) (r r' : R) (b : ℕ) (bs : List ℕ)
      → ltb (length filled) len ≡ true
      → s.read r (len - length filled) ≡ (ok (b ∷ bs), r')
      → content r ≡ (b ∷ bs) ++ content r'
      → length (b ∷ bs) ≤ len - length filled
      → waits r' ≤ waits r
      → Reads fuel len (filled ++ (b ∷ bs)) r'
      → Reads (suc fuel) len filled r
  unfolding read_chunk after_read
  more-Reads fuel len filled r r' b bs room e parts small fewer (r'', done, left, less) =
      let sizes : len - length (filled ++ (b ∷ bs)) ≡ len - length filled - length (b ∷ bs) =
        omega (arith, length-append filled (b ∷ bs)) in
      let joined =
        rw
          (
            sizes,
            append_assoc filled (b ∷ bs)
                (take (len - length filled - length (b ∷ bs)) (content r')),
            ← take-append (len - length filled) (b ∷ bs) (content r') small,
            ← parts,
          )
          at done in
      let dropped =
        rw (sizes, ← drop-append (len - length filled) (b ∷ bs) (content r') small, ← parts) at
          left in
      (r'', rw (room, e) joined, dropped, omega arith)

  -- On a reader that delivers some content, `read_chunk` fills the buffer with the next bytes of the
  -- content, as far as they go, whatever the sizes of the reads and however often they are interrupted.
  -- One round for each byte and each interruption that are left, and one more, are enough.
  pub read_chunk-Reads :
      (fuel len : ℕ) (filled : List ℕ) (r : R)
      → length (content r) + waits r < fuel
      → Reads fuel len filled r
  unfolding read_chunk after_read
  read_chunk-Reads zero len filled r h = absurd (omega arith)
  read_chunk-Reads (suc fuel) len filled r h = elim (Bool-cases (ltb (length filled) len)) [
    | inr full ↦ full-Reads (suc fuel) len filled r full
    | inl room ↦
        elim (delivering.read_next r (len - length filled)
          (omega (arith, ltb→lt (length filled) len room))) [
            | inl ([], r', e, parts, small, ended, fewer) ↦
                ended-Reads fuel len filled r r' room e parts (ended refl) fewer
            | inl (b ∷ bs, r', e, parts, small, ended, fewer) ↦
                more-Reads fuel len filled r r' b bs room e parts small fewer (
                  read_chunk-Reads fuel len (filled ++ (b ∷ bs)) r'
                    (omega (arith, ap (λ t. length t) parts, length-append bs (content r'))))
            | inr (r', e, same, fewer) ↦
                let (r'', done, left, less) =
                  read_chunk-Reads fuel len filled r' (omega (arith, ap (λ t. length t) same)) in
                (r'', rw (room, e) (rw same at done), rw same at left, omega arith)
          ]
  ]
