-- ===== src/Pack/Packer/Adding.antt =====
-- `add_reader_inner` of crates/rasen-archive/src/pack/writer.rs on an archive in memory: one more asset.
use rasen_archive.Prelude.{
  ℕ, ◌+◌, ◌-◌, ◌^◌, ◌<◌, ◌≤◌, ◌≡◌, refl, ap, sym, ◌∙◌, List, [], ◌∷◌, ◌++◌, length, length-append,
  append-nil, append_assoc, arith,
}
use mathlib.Core.Path.{subst}
use rasen_archive.Error.{ok}
use rasen_archive.Platform.{Platform, IsLawful}
use rasen_archive.Sink.Memory.{Memory, memory_sink}
use rasen_archive.VirtualPath.{normalize_path}
use rasen_archive.Format.Model.{TocEntry}
use rasen_archive.Archive.Read.Blocks.{join}
use rasen_archive.Pack.Options.{PackOptions}
use rasen_archive.Pack.Input.{Reader}
use rasen_archive.Pack.Input.Delivery.{IsDelivering}
use rasen_archive.Pack.Model.{Packer, Progress, insert_hash}
use rasen_archive.Pack.Store.Stored.{length-chunks_of}
use rasen_archive.Pack.Store.Pieces.{cut, store_chunks-store_pieces}
use rasen_archive.Pack.Store.Loop.{
  original_sum, cut-FitsChunk, cut_enough, join-cut, HasStored, store_pieces-HasStored,
}
use rasen_archive.Pack.Packer.{add_reader_inner}
use rasen_archive.Pack.Packer.Unique.{IsUnique-snoc}
use rasen_archive.Pack.Packer.Assets.{
  Asset, entries_of, blocks_of, IsAsset, AreAssets, HasPacked, entry_for, add_reader_parts,
}

original_sum-join : (raws : List (List ℕ)) → original_sum raws ≡ length (join raws)
original_sum-join [] = refl
original_sum-join (raw ∷ raws) =
    omega (arith, original_sum-join raws, length-append raw (join raws))

entries_of-snoc :
    (assets : List Asset) (a : Asset)
    → entries_of (assets ++ (a ∷ [])) ≡ entries_of assets ++ (a.entry ∷ [])
entries_of-snoc [] a = refl
entries_of-snoc (b ∷ bs) a = ap (λ t. b.entry ∷ t) (entries_of-snoc bs a)

blocks_of-snoc :
    (assets : List Asset) (a : Asset)
    → blocks_of (assets ++ (a ∷ [])) ≡ blocks_of assets ++ a.blocks
blocks_of-snoc [] a = append-nil a.blocks
blocks_of-snoc (b ∷ bs) a =
    ap (λ t. b.blocks ++ t) (blocks_of-snoc bs a)
    ∙ sym (append_assoc b.blocks (blocks_of bs) a.blocks)

module _ (env : Platform) where
  AreAssets-snoc :
      (size first : ℕ) (assets : List Asset) (a : Asset)
      → AreAssets env size first assets
      → IsAsset env size (first + length (blocks_of assets)) a
      → AreAssets env size first (assets ++ (a ∷ []))
  AreAssets-snoc size first [] a v w = let e : first + 0 ≡ first = omega arith in (rw e at w, tt)
  AreAssets-snoc size first (b ∷ bs) a (v, vs) w =
      let e : first + length (b.blocks ++ blocks_of bs)
          ≡ first + length b.blocks + length (blocks_of bs) =
        omega (arith, length-append b.blocks (blocks_of bs)) in
      (v, AreAssets-snoc size (first + length b.blocks) bs a vs (rw e at w))

  -- An input with this path and content has been added.
  pub record HasAdded (path content : List ℕ) (p p' : Packer Memory) (payload : List ℕ)
      (assets : List Asset) : Type 0 where
    pub more : List ℕ
    pub asset : Asset
    pub packed : HasPacked env p' (payload ++ more) (assets ++ (asset ∷ []))
    pub holding : asset.content ≡ content
    pub named : normalize_path env path ≡ ok asset.entry.path
    pub key : p'.key ≡ p.key
    pub aead_key : p'.aead_key ≡ p.aead_key
    pub options : p'.options ≡ p.options
    pub failed : p'.failed ≡ p.failed

  module _ (path normalized seen : List ℕ) (p : Packer Memory) (payload : List ℕ)
      (assets : List Asset) (g : Progress Memory) where
    abbrev start : Progress Memory
    start = record {
      packer = record p { seen_hashes = seen };
      original_total = 0;
      stored_total = 0;
    }

    -- The entry, its blocks and its content, after the rounds.
    added-HasAdded :
        (content : List ℕ) (fuel : ℕ)
        → 0 < p.options.chunk_size
        → length content < fuel
        → HasPacked env p payload assets
        → normalize_path env path ≡ ok normalized
        → insert_hash p normalized (env.xxh3_64 normalized) ≡ ok seen
        → HasStored env (cut fuel p.options.chunk_size content) start g payload (blocks_of assets)
        → HasAdded path content p
            (record g.packer {
              entries =
                  g.packer.entries
                  ++ (entry_for env normalized
                        (length p.chunks)
                        (length g.packer.chunks - length p.chunks)
                        g
                      ∷ []);
            })
            payload
            assets
    added-HasAdded content fuel some_room enough v named fresh u =
        let pieces =
          u.holding
          ∙ cut_enough fuel (length content) p.options.chunk_size content some_room (omega arith)
              (omega arith) in
        let counted = ap (λ t. length t) v.storing.chunks ∙ length-chunks_of (blocks_of assets) in
        let after =
          ap (λ t. length t) u.storing.chunks ∙ length-chunks_of (blocks_of assets ++ u.added) in
        let e : TocEntry =
          entry_for env normalized (length p.chunks) (length g.packer.chunks - length p.chunks) g in
        let a : Asset = record { entry = e; blocks = u.added; content = content } in
        record {
          more = u.more;
          asset = a;
          packed = record {
            storing = rw (blocks_of-snoc assets a) (record {
              writer = u.storing.writer;
              offset = u.storing.offset;
              chunks = u.storing.chunks;
              stored = u.storing.stored;
              ordered = u.storing.ordered;
            });
            entries =
                ap (λ t. t ++ (e ∷ [])) (u.rest.entries ∙ v.entries)
                ∙ sym (entries_of-snoc assets a);
            described =
                subst (λ (o : PackOptions). AreAssets env o.chunk_size 0 (assets ++ (a ∷ [])))
                  (sym u.rest.options)
                  (AreAssets-snoc p.options.chunk_size 0 assets a v.described (record {
                    hashed = refl;
                    original_size = omega (
                      arith,
                      u.original_total,
                      original_sum-join (cut fuel p.options.chunk_size content),
                      ap (λ t. length t)
                          (join-cut fuel p.options.chunk_size content some_room (omega arith)),
                    );
                    stored_size = omega (arith, u.stored_total);
                    first_chunk = omega (arith, counted);
                    chunk_count =
                        omega (arith, counted, after, length-append (blocks_of assets) u.added);
                    pieces = pieces;
                  }));
            unique =
                IsUnique-snoc p _ e seen v.unique fresh (ap (λ t. t ++ (e ∷ [])) u.rest.entries)
                  u.rest.seen_hashes u.rest.options;
          };
          holding = refl;
          named = named;
          key = u.rest.key;
          aead_key = u.rest.aead_key;
          options = u.rest.options;
          failed = u.rest.failed;
        }

  module _ (lawful : IsLawful env) (k : ℕ) (small : k ≤ 20) {R : Type 0} ⦃r : Reader R⦄
      (content : R → List ℕ) (waits : R → ℕ) (delivering : IsDelivering r content waits) where
    -- An archive in memory that holds some assets, with a chunk size that is not 0 and an alignment up to
    -- 1 MiB: if adding a reader succeeds, with fuel for each byte and each interruption, then the archive
    -- holds one more asset. Its content is what the reader delivers, its path is the normalized path,
    -- and the set-up of the packer is what it was.
    pub add_reader_inner-HasAdded :
        (fuel : ℕ) (p p' : Packer Memory) (path : List ℕ) (reader : R) (payload : List ℕ)
        (assets : List Asset)
        → p.options.alignment ≡ 2 ^ k
        → 0 < p.options.chunk_size
        → length (content reader) + waits reader < fuel
        → HasPacked env p payload assets
        → add_reader_inner env fuel p path reader ≡ ok p'
        → HasAdded path (content reader) p p' payload assets
    add_reader_inner-HasAdded fuel p p' path reader payload assets power some_room enough v h =
        let (normalized, seen, g, named, fresh, loop, same) =
          add_reader_parts env fuel p p' path reader h in
        let begin = start path normalized seen p payload assets g in
        let rounds =
          sym (
            store_chunks-store_pieces env content waits delivering fuel fuel reader begin some_room
              enough (omega arith))
          ∙ loop in
        let u =
          store_pieces-HasStored env lawful k small (cut fuel p.options.chunk_size (content reader))
            begin g payload (blocks_of assets) power
            (cut-FitsChunk fuel p.options.chunk_size (content reader) some_room)
            (record {
              writer = v.storing.writer;
              offset = v.storing.offset;
              chunks = v.storing.chunks;
              stored = v.storing.stored;
              ordered = v.storing.ordered;
            })
            rounds in
        subst (λ x. HasAdded path (content reader) p x payload assets) same
          (added-HasAdded path normalized seen p payload assets g (content reader) fuel some_room
            (omega arith) v named fresh u)
