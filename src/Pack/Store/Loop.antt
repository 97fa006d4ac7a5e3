-- ===== src/Pack/Store/Loop.antt =====
-- The loop over the chunks of an input, in `add_reader_inner` of
-- crates/rasen-archive/src/pack/writer.rs, on a destination in memory.
use rasen_archive.Prelude.{
  ℕ, zero, suc, ◌+◌, ◌^◌, ◌<◌, ◌≤◌, ◌≡◌, refl, ap, sym, ◌∙◌, List, [], ◌∷◌, ◌++◌, All, map, length,
  take, drop, length-take, length-drop, take-append-drop, append-nil, append_assoc, arith,
}
use mathlib.Core.Path.{subst}
use rasen_archive.Error.{ok, >>=-eq-ok, ok-injective}
use rasen_archive.Platform.{Platform, IsLawful}
use rasen_archive.Sink.Memory.{Memory, memory_sink}
use rasen_archive.Archive.Read.Blocks.{join}
use rasen_archive.Pack.Options.{PackOptions}
use rasen_archive.Pack.Model.{Packer, Progress}
use rasen_archive.Pack.Store.{store_chunk}
use rasen_archive.Pack.Store.Stored.{Block}
use rasen_archive.Pack.Store.Pieces.{cut, store_pieces}
use rasen_archive.Pack.Store.Growth.{IsStoring, IsSameRest, HasGrown, store_chunk-HasGrown}

abbrev pub FitsChunk : ℕ → List ℕ → Type 0
FitsChunk size raw = (0 < length raw) × (length raw ≤ size)

pub cut-FitsChunk :
    (n size : ℕ) (content : List ℕ) → 0 < size → All (FitsChunk size) (cut n size content)
unfolding cut
cut-FitsChunk zero size content h = tt
cut-FitsChunk (suc n) size [] h = tt
cut-FitsChunk (suc n) size (b ∷ bs) h = (
  (omega (arith, length-take size (b ∷ bs)), omega (arith, length-take size (b ∷ bs))),
  cut-FitsChunk n size (drop size (b ∷ bs)) h,
)

-- The pieces make up the content.
pub join-cut :
    (n size : ℕ) (content : List ℕ)
    → 0 < size
    → length content ≤ n
    → join (cut n size content) ≡ content
unfolding cut
join-cut zero size [] h e = refl
join-cut zero size (b ∷ bs) h e = absurd (omega arith)
join-cut (suc n) size [] h e = refl
join-cut (suc n) size (b ∷ bs) h e =
    rw (join-cut n size (drop size (b ∷ bs)) h (omega (arith, length-drop size (b ∷ bs))))
      (take-append-drop size (b ∷ bs))

-- Fuel for each byte is enough.
pub cut_enough :
    (n m size : ℕ) (content : List ℕ)
    → 0 < size
    → length content ≤ n
    → length content ≤ m
    → cut n size content ≡ cut m size content
unfolding cut
cut_enough zero zero size content h e f = refl
cut_enough zero (suc m) size [] h e f = refl
cut_enough zero (suc m) size (b ∷ bs) h e f = absurd (omega arith)
cut_enough (suc n) zero size [] h e f = refl
cut_enough (suc n) zero size (b ∷ bs) h e f = absurd (omega arith)
cut_enough (suc n) (suc m) size [] h e f = refl
cut_enough (suc n) (suc m) size (b ∷ bs) h e f =
    let shorter = length-drop size (b ∷ bs) in
    ap (λ t. take size (b ∷ bs) ∷ t)
      (cut_enough n m size (drop size (b ∷ bs)) h (omega (arith, shorter)) (omega (arith, shorter)))

abbrev pub raws_of : List Block → List (List ℕ)
raws_of = map (λ b. b.1)

abbrev pub original_sum : List (List ℕ) → ℕ
original_sum [] = 0
original_sum (raw ∷ raws) = length raw + original_sum raws

abbrev pub stored_sum : List Block → ℕ
stored_sum [] = 0
stored_sum ((c, raw) ∷ bs) = c.stored_size + stored_sum bs

pub IsSameRest-trans :
    {W : Type 0} {a b c : Packer W} → IsSameRest a b → IsSameRest b c → IsSameRest a c
IsSameRest-trans u v = record {
  key = v.key ∙ u.key;
  aead_key = v.aead_key ∙ u.aead_key;
  options = v.options ∙ u.options;
  entries = v.entries ∙ u.entries;
  seen_hashes = v.seen_hashes ∙ u.seen_hashes;
  failed = v.failed ∙ u.failed;
}

module _ (env : Platform) where
  -- The rounds have written one block for each of `raws`.
  pub record HasStored (raws : List (List ℕ)) (g g' : Progress Memory) (payload : List ℕ)
      (blocks : List Block) : Type 0 where
    pub more : List ℕ
    pub added : List Block
    pub holding : raws_of added ≡ raws
    pub storing : IsStoring env g'.packer (payload ++ more) (blocks ++ added)
    pub rest : IsSameRest g.packer g'.packer
    pub original_total : g'.original_total ≡ g.original_total + original_sum raws
    pub stored_total : g'.stored_total ≡ g.stored_total + stored_sum added

  nothing-HasStored :
      (g g' : Progress Memory) (payload : List ℕ) (blocks : List Block)
      → g ≡ g'
      → IsStoring env g.packer payload blocks
      → HasStored [] g g' payload blocks
  nothing-HasStored g g' payload blocks same v =
      subst (λ x. HasStored [] g x payload blocks) same
        (record {
          more = [];
          added = [];
          holding = refl;
          storing = rw (append-nil payload, append-nil blocks) v;
          rest = record {
            key = refl;
            aead_key = refl;
            options = refl;
            entries = refl;
            seen_hashes = refl;
            failed = refl;
          };
          original_total = omega arith;
          stored_total = omega arith;
        })

  more-HasStored :
      (raw : List ℕ) (raws : List (List ℕ)) (g g' g'' : Progress Memory) (payload : List ℕ)
      (blocks : List Block)
      → (u : HasGrown env raw g g' payload blocks)
      → HasStored raws g' g'' (payload ++ u.more) (blocks ++ ((u.chunk, raw) ∷ []))
      → HasStored (raw ∷ raws) g g'' payload blocks
  more-HasStored raw raws g g' g'' payload blocks u v = record {
    more = u.more ++ v.more;
    added = (u.chunk, raw) ∷ v.added;
    holding = ap (λ t. raw ∷ t) v.holding;
    storing =
        rw (append_assoc payload u.more v.more, append_assoc blocks ((u.chunk, raw) ∷ []) v.added)
          at v.storing;
    rest = IsSameRest-trans u.rest v.rest;
    original_total = omega (arith, u.original_total, v.original_total);
    stored_total = omega (arith, u.stored_total, v.stored_total);
  }

  module _ (lawful : IsLawful env) (k : ℕ) (small : k ≤ 20) where
    -- In an archive in memory whose blocks are well placed, rounds that succeed on pieces that fit a
    -- chunk each write one more well-placed block, which holds the piece, add up the sizes, and change
    -- nothing else of the packer but the number of draws.
    pub store_pieces-HasStored :
        (raws : List (List ℕ)) (g g' : Progress Memory) (payload : List ℕ) (blocks : List Block)
        → g.packer.options.alignment ≡ 2 ^ k
        → All (FitsChunk g.packer.options.chunk_size) raws
        → IsStoring env g.packer payload blocks
        → store_pieces env raws g ≡ ok g'
        → HasStored raws g g' payload blocks
    unfolding store_pieces
    store_pieces-HasStored [] g g' payload blocks power fit v h =
        nothing-HasStored g g' payload blocks (ok-injective h) v
    store_pieces-HasStored (raw ∷ raws) g g'' payload blocks power ((some_bytes, fits), others) v
          h =
        let (g', e, h') = >>=-eq-ok (store_chunk env raw g) (store_pieces env raws) h in
        let u =
          store_chunk-HasGrown env raw lawful g g' payload blocks k small power some_bytes fits v
            e in
        let kept = u.rest.options in
        more-HasStored raw raws g g' g'' payload blocks u (
          store_pieces-HasStored raws g' g'' (payload ++ u.more) (blocks ++ ((u.chunk, raw) ∷ []))
            (ap (λ (o : PackOptions). o.alignment) kept ∙ power)
            (subst (λ (o : PackOptions). All (FitsChunk o.chunk_size) raws) (sym kept) others)
            u.storing h')
