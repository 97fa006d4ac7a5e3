-- ===== src/Pack/Store/Pieces.antt =====
-- The loop over the chunks of an input, in `add_reader_inner` of
-- crates/rasen-archive/src/pack/writer.rs, and what it comes to: a round on each piece of the content.
use rasen_archive.Prelude.{
  ℕ, zero, suc, ◌+◌, ◌-◌, ◌<◌, ◌≤◌, ◌≡◌, ◌⊎◌, inl, inr, refl, ap, sym, ◌∙◌, List, [], ◌∷◌, length,
  take, drop, take_nil, length-take, length-drop, arith, le→leb,
}
use rasen_archive.Error.{Fallible, ok, err, panic, ◌>>=◌, >>=-eq-ok, >>=-same}
use rasen_archive.Platform.{Platform}
use rasen_archive.Sink.{Sink}
use rasen_archive.Format.Io.{align_up}
use rasen_archive.Error.{sub_word}
use rasen_archive.Pack.Options.{PackOptions}
use rasen_archive.Pack.Input.{Reader}
use rasen_archive.Pack.Input.Delivery.{IsDelivering, read_chunk-Reads}
use rasen_archive.Pack.Model.{Packer, Progress}
use rasen_archive.Pack.Store.{pad, align, store_chunk, store_chunks}
use rasen_archive.Pack.Store.Round.{store_chunk_parts}

-- The content in pieces of this size, the last of which may be shorter.
unfoldable pub cut : ℕ → ℕ → List ℕ → List (List ℕ)
cut zero size content = []
cut (suc n) size [] = []
cut (suc n) size (b ∷ bs) = take size (b ∷ bs) ∷ cut n size (drop size (b ∷ bs))

List-cases : (xs : List ℕ) → (xs ≡ []) ⊎ ((b : ℕ) × (bs : List ℕ) × (xs ≡ b ∷ bs))
List-cases [] = inl refl
List-cases (b ∷ bs) = inr (b, bs, refl)

take_some :
    (n b : ℕ) (bs : List ℕ)
    → 0 < n
    → (t : List ℕ) × (take n (b ∷ bs) ≡ b ∷ t) × (length (b ∷ t) ≤ n)
take_some zero b bs h = absurd (omega arith)
take_some (suc n) b bs h = (take n bs, refl, omega (arith, length-take n bs))

module _ {W : Type 0} ⦃s : Sink W⦄ (env : Platform) where
  -- A round on each piece.
  unfoldable pub store_pieces : List (List ℕ) → Progress W → Fallible (Progress W)
  store_pieces [] g = ok g
  store_pieces (raw ∷ raws) g = store_chunk env raw g >>= store_pieces raws

  align-same_options : (p p' : Packer W) → align p ≡ ok p' → p'.options ≡ p.options
  unfolding align
  align-same_options p p' h =
      let (aligned, e0, h0) = >>=-eq-ok (align_up p.offset p.options.alignment) _ h in
      let (remaining, e1, h1) = >>=-eq-ok (sub_word aligned p.offset) _ h0 in
      let (w, e2, h2) = >>=-eq-ok (pad remaining p.writer remaining) _ h1 in
      ap (λ (r : Fallible (Packer W)). options_of p r) (sym h2)
    where
      options_of : Packer W → Fallible (Packer W) → PackOptions
      options_of d (ok q) = q.options
      options_of d (err e) = d.options
      options_of d panic = d.options

  store_chunk-same_options :
      (raw : List ℕ) (g g' : Progress W)
      → store_chunk env raw g ≡ ok g'
      → g'.packer.options ≡ g.packer.options
  store_chunk-same_options raw g g' h =
      let (compressed, p, stored, draws, w, e0, e1, e2, e3, e4) =
        store_chunk_parts env raw g g' h in
      ap (λ (x : Progress W). x.packer.options) (sym e4) ∙ align-same_options g.packer p e1

  module _ {R : Type 0} ⦃r : Reader R⦄ (content : R → List ℕ) (waits : R → ℕ)
      (delivering : IsDelivering r content waits) where
    -- On a reader that delivers some content, with a chunk size that is not 0, the loop over the chunks
    -- is a round on each piece of the content, of the chunk size, and it ends: one round for each byte
    -- and each interruption that are left, and one more, are enough.
    pub store_chunks-store_pieces :
        (fuel rounds : ℕ) (reader : R) (g : Progress W)
        → 0 < g.packer.options.chunk_size
        → length (content reader) + waits reader < fuel
        → length (content reader) < rounds
        → store_chunks env fuel rounds reader g
          ≡ store_pieces (cut rounds g.packer.options.chunk_size (content reader)) g
    unfolding store_chunks store_pieces cut
    store_chunks-store_pieces fuel zero reader g some_room enough more = absurd (omega arith)
    store_chunks-store_pieces fuel (suc rounds) reader g some_room enough more =
        let size : ℕ = g.packer.options.chunk_size in
        let (reader', done, left, less) =
          read_chunk-Reads content waits delivering fuel size [] reader enough in
        let whole : size - length {A = ℕ} [] ≡ size = omega arith in
        elim (List-cases (content reader)) [
          | inl none_left ↦ rw (rw (whole, none_left, take_nil size) at done, none_left) refl
          | inr (b, bs, some_left) ↦
              let (t, taken, small) = take_some size b bs some_room in
              let dropped : content reader' ≡ drop size (b ∷ bs) = rw (whole, some_left) at left in
              rw
                (
                  rw (whole, some_left, taken) at done,
                  some_left,
                  le→leb (length (b ∷ t)) size small,
                  taken,
                )
                (>>=-same (store_chunk env (b ∷ t) g) _ _ (λ g' e.
                  let kept : g'.packer.options.chunk_size ≡ size =
                    ap (λ (o : PackOptions). o.chunk_size)
                      (store_chunk-same_options (b ∷ t) g g' e) in
                  store_chunks-store_pieces fuel rounds reader' g' (omega (arith, kept))
                    (omega (
                      arith,
                      ap (λ xs. length xs) dropped,
                      ap (λ xs. length xs) some_left,
                      length-drop size (b ∷ bs),
                    ))
                    (omega (
                      arith,
                      ap (λ xs. length xs) dropped,
                      ap (λ xs. length xs) some_left,
                      length-drop size (b ∷ bs),
                    ))
                  ∙ ap (λ xs. store_pieces (cut rounds g'.packer.options.chunk_size xs) g') dropped
                  ∙ ap (λ n. store_pieces (cut rounds n (drop size (b ∷ bs))) g') kept))
        ]
