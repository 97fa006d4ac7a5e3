-- ===== src/Pack/Packer/Files.antt =====
-- The loop over the files, in `pack_with_options` of crates/rasen-archive/src/pack/writer.rs, and
-- `Packer::new`, on an archive in memory.
use rasen_archive.Prelude.{
  ℕ, suc, ◌^◌, ◌<◌, ◌≤◌, ◌≡◌, refl, ap, ◌∙◌, List, [], ◌∷◌, ◌++◌, map, Bool, true, false, length,
  append-nil, append_assoc, arith, if◌then◌else◌,
}
use mathlib.Core.Path.{subst}
use rasen_archive.Error.{Fallible, ok, err, panic, ◌>>◌, ok-injective, incomplete_pack}
use rasen_archive.Platform.{Platform, IsLawful}
use rasen_archive.Sink.Memory.{Memory, memory_sink}
use rasen_archive.VirtualPath.{normalize_path}
use rasen_archive.Pack.Options.{PackOptions}
use rasen_archive.Pack.Input.{slice_reader}
use rasen_archive.Pack.Input.Delivery.{slice_reader-IsDelivering}
use rasen_archive.Pack.Model.{Packer, after_add}
use rasen_archive.Pack.Packer.{InputFile, add_reader_inner, add_reader, add_files}
use rasen_archive.Pack.Packer.Assets.{Asset, HasPacked}
use rasen_archive.Pack.Packer.Adding.{HasAdded, add_reader_inner-HasAdded}

abbrev pub contents_of : List Asset → List (List ℕ)
contents_of = map (λ a. a.content)

module _ (env : Platform) where
  -- The assets hold the files: the contents, under the normalized paths.
  pub record AreFiles (files : List InputFile) (assets : List Asset) : Type 0 where
    pub contents : contents_of assets ≡ map (λ f. f.contents) files
    pub named : map (λ f. normalize_path env f.path) files ≡ map (λ a. ok a.entry.path) assets

  -- What the files have added.
  pub record HaveAdded (files : List InputFile) (p p' : Packer Memory) (payload : List ℕ)
      (assets : List Asset) : Type 0 where
    pub more : List ℕ
    pub added : List Asset
    pub packed : HasPacked env p' (payload ++ more) (assets ++ added)
    pub holding : AreFiles files added
    pub key : p'.key ≡ p.key
    pub aead_key : p'.aead_key ≡ p.aead_key
    pub options : p'.options ≡ p.options

  inner_succeeded :
      (failed : Bool) (p p'' : Packer Memory) (inner : Fallible (Packer Memory))
      (rest : Packer Memory → Fallible (Packer Memory))
      → (let result : Fallible (Unit {0}) × Packer Memory =
            if failed then (err incomplete_pack, p) else after_add p inner in
          result.0 >> rest result.1)
        ≡ ok p''
      → (p' : Packer Memory) × (inner ≡ ok p') × (rest p' ≡ ok p'')
  inner_succeeded true p p'' inner rest h = absurd cc
  inner_succeeded false p p'' (ok p') rest h = (p', refl, h)
  inner_succeeded false p p'' (err e) rest h = absurd cc
  inner_succeeded false p p'' panic rest h = absurd cc

  add_files_step :
      (p p'' : Packer Memory) (f : InputFile) (fs : List InputFile)
      → add_files env p (f ∷ fs) ≡ ok p''
      → (p' : Packer Memory) × (add_reader_inner env (suc (length f.contents)) p f.path f.contents
          ≡ ok p')
        × (add_files env p' fs ≡ ok p'')
  unfolding add_files add_reader
  add_files_step p p'' f fs h =
      inner_succeeded p.failed p p''
        (add_reader_inner env (suc (length f.contents)) p f.path f.contents)
        (λ q. add_files env q fs) h

  module _ (lawful : IsLawful env) (k : ℕ) (small : k ≤ 20) where
    none-HaveAdded :
        (p p' : Packer Memory) (payload : List ℕ) (assets : List Asset)
        → p ≡ p'
        → HasPacked env p payload assets
        → HaveAdded [] p p' payload assets
    none-HaveAdded p p' payload assets same v =
        subst (λ q. HaveAdded [] p q payload assets) same
          (record {
            more = [];
            added = [];
            packed = rw (append-nil payload, append-nil assets) v;
            holding = record { contents = refl; named = refl };
            key = refl;
            aead_key = refl;
            options = refl;
          })

    more-HaveAdded :
        (f : InputFile) (fs : List InputFile) (p p' p'' : Packer Memory) (payload : List ℕ)
        (assets : List Asset)
        → (u : HasAdded env f.path f.contents p p' payload assets)
        → HaveAdded fs p' p'' (payload ++ u.more) (assets ++ (u.asset ∷ []))
        → HaveAdded (f ∷ fs) p p'' payload assets
    more-HaveAdded f fs p p' p'' payload assets u v = record {
      more = u.more ++ v.more;
      added = u.asset ∷ v.added;
      packed =
          rw (append_assoc payload u.more v.more, append_assoc assets (u.asset ∷ []) v.added) at
            v.packed;
      holding = record {
        contents = rw (u.holding, v.holding.contents) refl;
        named = rw (u.named, v.holding.named) refl;
      };
      key = v.key ∙ u.key;
      aead_key = v.aead_key ∙ u.aead_key;
      options = v.options ∙ u.options;
    }

    -- An archive in memory that holds some assets, with a chunk size that is not 0 and an alignment up to
    -- 1 MiB: if adding files succeeds, then it holds these assets and one more for each file, in order,
    -- with the file's contents and its normalized path, and the set-up of the packer is what it was.
    pub add_files-HaveAdded :
        (files : List InputFile) (p p' : Packer Memory) (payload : List ℕ) (assets : List Asset)
        → p.options.alignment ≡ 2 ^ k
        → 0 < p.options.chunk_size
        → HasPacked env p payload assets
        → add_files env p files ≡ ok p'
        → HaveAdded files p p' payload assets
    unfolding add_files
    add_files-HaveAdded [] p p' payload assets power some_room v h =
        none-HaveAdded p p' payload assets (ok-injective h) v
    add_files-HaveAdded (f ∷ fs) p p'' payload assets power some_room v h =
        let (p', inner, h') = add_files_step p p'' f fs h in
        let u =
          add_reader_inner-HasAdded env lawful k small (λ unread. unread) (λ unread. 0)
            slice_reader-IsDelivering (suc (length f.contents)) p p' f.path f.contents payload
            assets power some_room (omega arith) v inner in
        more-HaveAdded f fs p p' p'' payload assets u (
          add_files-HaveAdded fs p' p'' (payload ++ u.more) (assets ++ (u.asset ∷ []))
            (ap (λ (o : PackOptions). o.alignment) u.options ∙ power)
            (omega (arith, ap (λ (o : PackOptions). o.chunk_size) u.options)) u.packed h')
