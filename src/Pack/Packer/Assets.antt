-- ===== src/Pack/Packer/Assets.antt =====
-- What `add_reader` of crates/rasen-archive/src/pack/writer.rs makes of an archive in memory.
use rasen_archive.Prelude.{
  ℕ, ◌+◌, ◌-◌, ◌≡◌, ap, sym, ◌∙◌, List, [], ◌∷◌, ◌++◌, map, length, checked_sub,
}
use rasen_archive.Error.{ok, >>=-eq-ok, ok-injective, ok_or, too_large}
use rasen_archive.Platform.{Platform}
use rasen_archive.Sink.{Sink}
use rasen_archive.Sink.Memory.{Memory, memory_sink}
use rasen_archive.VirtualPath.{normalize_path}
use rasen_archive.Format.Model.{TocEntry}
use rasen_archive.Format.Io.{usize_to_u32, usize_to_u32-eq-ok, checked_sub-eq-ok}
use rasen_archive.Pack.Input.{Reader}
use rasen_archive.Pack.Model.{Packer, Progress, insert_hash}
use rasen_archive.Pack.Store.{store_chunks}
use rasen_archive.Pack.Store.Stored.{Block}
use rasen_archive.Pack.Store.Pieces.{cut}
use rasen_archive.Pack.Store.Growth.{IsStoring}
use rasen_archive.Pack.Store.Loop.{raws_of, stored_sum}
use rasen_archive.Pack.Packer.{add_reader_inner}
use rasen_archive.Pack.Packer.Unique.{IsUnique}

-- An entry, its blocks, and the content of the input that they were made of.
pub record Asset : Type 0 where
  pub entry : TocEntry
  pub blocks : List Block
  pub content : List ℕ

abbrev pub entries_of : List Asset → List TocEntry
entries_of = map (λ a. a.entry)

abbrev pub blocks_of : List Asset → List Block
blocks_of [] = []
blocks_of (a ∷ more) = a.blocks ++ blocks_of more

module _ (env : Platform) where
  -- The entry describes its blocks, the first of which has this number, and they are the pieces of the
  -- content, in order.
  pub record IsAsset (chunk_size first : ℕ) (a : Asset) : Type 0 where
    pub hashed : a.entry.path_hash ≡ env.xxh3_64 a.entry.path
    pub original_size : a.entry.original_size ≡ length a.content
    pub stored_size : a.entry.stored_size ≡ stored_sum a.blocks
    pub first_chunk : a.entry.first_chunk ≡ first
    pub chunk_count : a.entry.chunk_count ≡ length a.blocks
    pub pieces : raws_of a.blocks ≡ cut (length a.content) chunk_size a.content

  abbrev pub AreAssets : ℕ → ℕ → List Asset → Type 0
  AreAssets chunk_size first [] = Unit
  AreAssets chunk_size first (a ∷ more) =
      IsAsset chunk_size first a × AreAssets chunk_size (first + length a.blocks) more

  -- The packer has written the assets.
  pub record HasPacked (p : Packer Memory) (payload : List ℕ) (assets : List Asset) : Type 0 where
    pub storing : IsStoring env p payload (blocks_of assets)
    pub entries : p.entries ≡ entries_of assets
    pub described : AreAssets p.options.chunk_size 0 assets
    pub unique : IsUnique p

  abbrev pub entry_for : {W : Type 0} → List ℕ → ℕ → ℕ → Progress W → TocEntry
  entry_for path first number g = record {
    path = path;
    path_hash = env.xxh3_64 path;
    original_size = g.original_total;
    stored_size = g.stored_total;
    first_chunk = first;
    chunk_count = number;
  }

  module _ {W : Type 0} ⦃s : Sink W⦄ {R : Type 0} ⦃r : Reader R⦄ where
    pub add_reader_parts :
        (fuel : ℕ) (p p' : Packer W) (path : List ℕ) (reader : R)
        → add_reader_inner env fuel p path reader ≡ ok p'
        → (normalized : List ℕ) × (seen : List ℕ) × (g : Progress W) × (normalize_path env path
            ≡ ok normalized)
          × (insert_hash p normalized (env.xxh3_64 normalized) ≡ ok seen)
          × (store_chunks env fuel fuel reader (record {
            packer = record p { seen_hashes = seen };
            original_total = 0;
            stored_total = 0;
          })
              ≡ ok g)
          × (record g.packer {
            entries =
                g.packer.entries
                ++ (entry_for normalized
                      (length p.chunks)
                      (length g.packer.chunks - length p.chunks)
                      g
                    ∷ []);
          }
              ≡ p')
    unfolding add_reader_inner
    add_reader_parts fuel p p' path reader h =
        let (normalized, e0, h0) = >>=-eq-ok (normalize_path env path) _ h in
        let (seen, e1, h1) = >>=-eq-ok (insert_hash p normalized (env.xxh3_64 normalized)) _ h0 in
        let (first, e2, h2) = >>=-eq-ok (usize_to_u32 (length p.chunks) "chunk index") _ h1 in
        let same_first = (usize_to_u32-eq-ok (length p.chunks) "chunk index" e2).1 in
        let (g, e3, h3) =
          >>=-eq-ok
            (store_chunks env fuel fuel reader (record {
              packer = record p { seen_hashes = seen };
              original_total = 0;
              stored_total = 0;
            }))
            _ h2 in
        let (number, e4, h4) =
          >>=-eq-ok
            (ok_or (checked_sub (length g.packer.chunks) first) (too_large "entry chunk count")) _
            h3 in
        let same_number =
          checked_sub-eq-ok (length g.packer.chunks) first (too_large "entry chunk count") e4 in
        let (chunk_count, e5, h5) = >>=-eq-ok (usize_to_u32 number "entry chunk count") _ h4 in
        let same_count = (usize_to_u32-eq-ok number "entry chunk count" e5).1 in
        let (count, e6, h6) = >>=-eq-ok (usize_to_u32 _ "entry count") _ h5 in
        let counted = same_count ∙ same_number ∙ ap (λ n. length g.packer.chunks - n) same_first in
        (
          normalized,
          seen,
          g,
          e0,
          e1,
          e3,
          ap
                (λ f. record g.packer {
                  entries =
                      g.packer.entries
                      ++ (entry_for normalized f (length g.packer.chunks - length p.chunks) g ∷ []);
                })
                (sym same_first)
              ∙ ap
                  (λ n. record g.packer {
                    entries = g.packer.entries ++ (entry_for normalized first n g ∷ []);
                  })
                  (sym counted)
              ∙ ok-injective h6,
        )
