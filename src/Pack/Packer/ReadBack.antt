-- ===== src/Pack/Packer/ReadBack.antt =====
-- An archive of the packer of crates/rasen-archive/src/pack/writer.rs, and what archive/reader.rs reads from
-- it.
use rasen_archive.Prelude.{
  ℕ, suc, ◌+◌, ◌<◌, ◌≤◌, ◌≡◌, refl, ap, sym, ◌∙◌, List, [], ◌∷◌, ◌++◌, some, get_elem?, Option,
  length, length-append, append_assoc, replicate, arith, u64_mod, u32_mod,
}
use mathlib.Core.Path.{subst}
use rasen_archive.Error.{ok}
use rasen_archive.Platform.{Platform, IsRoomy}
use rasen_archive.Sink.Memory.{Memory}
use rasen_archive.Format
use rasen_archive.Format.Model.{Chunk}
use rasen_archive.Format.Header.RoundTrip.{header_bytes, length-header_bytes}
use rasen_archive.Archive.Source.{bytes_source}
use rasen_archive.Archive.Model.{Archive, from_toc}
use rasen_archive.Archive.Chunks.Decode.{Decodes}
use rasen_archive.Archive.Chunks.{read_chunk_by_index_into}
use rasen_archive.Archive.Read.Blocks.{join, Blocks}
use rasen_archive.Archive.Read.Whole.{IsContent}
use rasen_archive.Pack.Options.{PackOptions}
use rasen_archive.Pack.Store.{aead_key_of}
use rasen_archive.Pack.Store.Stored.{Block, chunks_of, length-chunks_of, IsStored, AreStored}
use rasen_archive.Pack.Store.Loop.{raws_of, join-cut}
use rasen_archive.Pack.Store.ReadBack.{read_chunk_by_index_into-IsStored}
use rasen_archive.Pack.Packer.{PackSummary}
use rasen_archive.Pack.Packer.Assets.{Asset, blocks_of, IsAsset, AreAssets}
use rasen_archive.Pack.Packer.Archive.{IsArchive}

chunk_at :
    (before after : List Block) (c : Chunk) (raw : List ℕ)
    → get_elem? (chunks_of (before ++ ((c, raw) ∷ after))) (length before) ≡ some c
chunk_at [] after c raw = refl
chunk_at (b ∷ bs) after c raw = chunk_at bs after c raw

length-raws_of : (bs : List Block) → length (raws_of bs) ≡ length bs
length-raws_of [] = refl
length-raws_of (b ∷ bs) = ap suc (length-raws_of bs)

blocks_around :
    (before after : List Asset) (x : Asset)
    → blocks_of (before ++ (x ∷ after)) ≡ blocks_of before ++ (x.blocks ++ blocks_of after)
blocks_around [] after x = refl
blocks_around (b ∷ bs) after x =
    ap (λ t. b.blocks ++ t) (blocks_around bs after x)
    ∙ sym (append_assoc b.blocks (blocks_of bs) (x.blocks ++ blocks_of after))

module _ (env : Platform) where
  IsAsset-at :
      (size first : ℕ) (before after : List Asset) (x : Asset)
      → AreAssets env size first (before ++ (x ∷ after))
      → IsAsset env size (first + length (blocks_of before)) x
  IsAsset-at size first [] after x (v, vs) = let e : first + 0 ≡ first = omega arith in rw e v
  IsAsset-at size first (b ∷ bs) after x (v, vs) =
      let e : first + length (b.blocks ++ blocks_of bs)
          ≡ first + length b.blocks + length (blocks_of bs) =
        omega (arith, length-append b.blocks (blocks_of bs)) in
      rw e (IsAsset-at size (first + length b.blocks) bs after x vs)

  IsStored-at :
      (key : Option (List ℕ)) (size alignment : ℕ) (payload : List ℕ) (index previous_end : ℕ)
      (before after : List Block) (c : Chunk) (raw : List ℕ)
      → AreStored env key size alignment payload index previous_end (before ++ ((c, raw) ∷ after))
      → IsStored env key size alignment payload (index + length before) c raw
  IsStored-at key size alignment payload index previous_end [] after c raw v =
      let e : index + 0 ≡ index = omega arith in rw e v.0
  IsStored-at key size alignment payload index previous_end ((d, r) ∷ bs) after c raw v =
      let e : index + suc (length bs) ≡ index + 1 + length bs = omega arith in
      rw e (
        IsStored-at key size alignment payload (index + 1) (d.offset + d.stored_size) bs after c raw
          v.2)

  -- A reader over the bytes of the archive, with its table of chunks and its key.
  pub record IsReaderOf (key : List ℕ) (options : PackOptions) (assets : List Asset) (w : Memory)
      (a : Archive) : Type 0 where
    pub over : a.source ≡ bytes_source w.contents
    pub chunks : a.chunks ≡ chunks_of (blocks_of assets)
    pub aead_key : a.aead_key ≡ aead_key_of env options.protection key
    pub allowed : 1 ≤ a.max_chunks_per_operation
    pub few_chunks : length a.chunks < u32_mod
    pub small : length w.contents < u64_mod
    pub chunk_small : options.chunk_size < u64_mod

  module _ (roomy : IsRoomy env) (key : List ℕ) (options : PackOptions) (assets : List Asset)
      (summary : PackSummary) (w : Memory) (a : Archive)
      (v : IsArchive env key options assets summary w) (r : IsReaderOf key options assets w a) where
    stored-Decodes :
        (g : ℕ) (c : Chunk) (raw : List ℕ)
        → get_elem? a.chunks g ≡ some c
        → IsStored env a.aead_key options.chunk_size options.alignment v.payload g c raw
        → Decodes env a g raw
    stored-Decodes g c raw at s =
        let tail : List ℕ = replicate v.padding 0 ++ v.toc_stored in
        let whole : w.contents ≡ header_bytes v.header ++ (v.payload ++ tail) =
          v.contents
          ∙ ap (λ t. header_bytes v.header ++ t)
              (append_assoc v.payload (replicate v.padding 0) v.toc_stored) in
        record {
          chunk_of = c;
          at_index = at;
          sized = sym s.original;
          fits = omega (arith, s.original, s.fits, r.chunk_small);
          checked = sym s.checked;
          always = λ label local_chunk stored.
              subst
                (λ n.
                  (stored' : List ℕ) × (read_chunk_by_index_into env a label local_chunk g n stored
                    ≡ ok (raw, stored')))
                (sym s.original)
                (read_chunk_by_index_into-IsStored env roomy a (header_bytes v.header) v.payload
                  tail options.chunk_size options.alignment g c raw label local_chunk stored
                  (r.over ∙ ap (λ t. bytes_source t) whole) (length-header_bytes v.header)
                  (omega (arith, ap (λ t. length t) whole, r.small)) r.chunk_small r.allowed at s);
        }

    IsArchive-Blocks :
        (before done mine after : List Block)
        → blocks_of assets ≡ before ++ (done ++ (mine ++ after))
        → Blocks env a (length before) (length done) (raws_of mine)
    IsArchive-Blocks before done [] after e = tt
    IsArchive-Blocks before done ((c, raw) ∷ more) after e =
        let front : List Block = before ++ done in
        let split : blocks_of assets ≡ front ++ ((c, raw) ∷ (more ++ after)) =
          e ∙ sym (append_assoc before done ((c, raw) ∷ (more ++ after))) in
        let number = length-append before done in
        let stored =
          IsStored-at (aead_key_of env options.protection key) options.chunk_size options.alignment
            v.payload 0 Format.header_size front (more ++ after) c raw
            (subst
              (λ bs.
                AreStored env (aead_key_of env options.protection key) options.chunk_size
                  options.alignment v.payload 0 Format.header_size bs)
              split v.stored) in
        let index : 0 + length front ≡ length before + length done = omega (arith, number) in
        let stored' =
          subst
            (λ n. IsStored env a.aead_key options.chunk_size options.alignment v.payload n c raw)
            index
            (subst
              (λ k.
                IsStored env k options.chunk_size options.alignment v.payload (0 + length front) c
                  raw)
              (sym r.aead_key) stored) in
        let at : get_elem? a.chunks (length before + length done) ≡ some c =
          ap (λ cs. get_elem? cs (length before + length done))
            (r.chunks ∙ ap (λ bs. chunks_of bs) split)
          ∙ ap (λ n. get_elem? (chunks_of (front ++ ((c, raw) ∷ (more ++ after)))) n) (sym number)
          ∙ chunk_at front (more ++ after) c raw in
        let total =
          ap (λ cs. length cs) r.chunks
          ∙ length-chunks_of (blocks_of assets)
          ∙ ap (λ bs. length bs) split
          ∙ length-append front ((c, raw) ∷ (more ++ after)) in
        let grown : length (done ++ ((c, raw) ∷ [])) ≡ length done + 1 =
          omega (arith, length-append done ((c, raw) ∷ [])) in
        let rest =
          IsArchive-Blocks before (done ++ ((c, raw) ∷ [])) more after
            (e ∙ ap (λ t. before ++ t) (sym (append_assoc done ((c, raw) ∷ []) (more ++ after)))) in
        (
          omega (arith, total, r.few_chunks, number),
          stored-Decodes (length before + length done) c raw at stored',
          subst (λ n. Blocks env a (length before) n (raws_of more)) grown rest,
        )

    -- Where memory suffices, with sizes that are words and a chunk size that is not 0: a reader over the
    -- bytes of an archive that the packer promises, with its table of chunks, its key and a limit of at
    -- least one chunk, has the input of each asset as the content of the asset's entry: the chunks of the
    -- entry are read, one after the other, as bytes that make up the input.
    pub packed-IsContent :
        (before after : List Asset) (x : Asset)
        → 0 < options.chunk_size
        → assets ≡ before ++ (x ∷ after)
        → IsContent env a (from_toc x.entry) x.content
    unfolding from_toc
    packed-IsContent before after x some_room e =
        let described =
          IsAsset-at options.chunk_size 0 before after x
            (subst (λ xs. AreAssets env options.chunk_size 0 xs) e v.described) in
        let split = ap (λ xs. blocks_of xs) e ∙ blocks_around before after x in
        let first : length (blocks_of before) ≡ x.entry.first_chunk =
          omega (arith, described.first_chunk) in
        record {
          blocks = raws_of x.blocks;
          number = length-raws_of x.blocks ∙ sym described.chunk_count;
          decoded =
              subst (λ n. Blocks env a n 0 (raws_of x.blocks)) first
                (IsArchive-Blocks (blocks_of before) [] x.blocks (blocks_of after) split);
          joined =
              sym (join-cut (length x.content) options.chunk_size x.content some_room (omega arith))
              ∙ ap (λ ds. join ds) (sym described.pieces);
          sized = sym described.original_size;
        }
