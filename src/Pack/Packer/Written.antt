-- ===== src/Pack/Packer/Written.antt =====
-- `pack_with_options` of crates/rasen-archive/src/pack/writer.rs on a destination in memory: the archive
-- that it leaves there.
use rasen_archive.Prelude.{
  ℕ, suc, ◌+◌, ◌*◌, ◌%◌, ◌^◌, ◌<◌, ◌≡◌, refl, ap, sym, ◌∙◌, List, [], ◌∷◌, map, Bool, true, false,
  length, arith, if◌then◌else◌,
}
use mathlib.Core.Path.{subst}
use native.Mathlib.Nat.{mul-mod_left}
use rasen_archive.Error.{ok, >>=-eq-ok, ok-injective}
use rasen_archive.Platform.{Platform, IsLawful}
use rasen_archive.Sink.Memory.{Memory, memory_sink}
use rasen_archive.Format
use rasen_archive.Format.Header.{Header}
use rasen_archive.Format.Toc.{encode_toc}
use rasen_archive.Pack.Options.{PackOptions, strips_paths}
use rasen_archive.Pack.Model.{Packer, strip, clear_path}
use rasen_archive.Pack.Store.{aead_key_of}
use rasen_archive.Pack.Store.Padding.{padded, align-padded}
use rasen_archive.Pack.Store.Stored.{chunks_of, AreStored, length-chunks_of}
use rasen_archive.Pack.Store.Growth.{laid_out, length-laid_out}
use rasen_archive.Pack.Packer.{
  InputFile, PackSummary, new, add_files, store_toc, finish, pack_with_options,
}
use rasen_archive.Pack.Packer.Unique.{AreDistinct}
use rasen_archive.Pack.Packer.Assets.{Asset, entries_of, blocks_of, HasPacked}
use rasen_archive.Pack.Packer.Files.{AreFiles, add_files-HaveAdded}
use rasen_archive.Pack.Packer.Fresh.{IsAdmissible, new-IsFresh}
use rasen_archive.Pack.Packer.Finish.{
  TocSealed, store_toc-TocSealed, HasWritten, finish-HasFinished,
}
use rasen_archive.Pack.Packer.Archive.{archive_header, summary_of, IsArchive}
use rasen_archive.Pack.Packer.Destination.{written_to, length-sealed}

length-stripped :
    (stripped : Bool) (assets : List Asset)
    → length (if stripped then map clear_path (entries_of assets) else entries_of assets)
      ≡ length assets
length-stripped true [] = refl
length-stripped false [] = refl
length-stripped true (a ∷ more) = ap suc (length-stripped true more)
length-stripped false (a ∷ more) = ap suc (length-stripped false more)

module _ (env : Platform) where
  module _ (lawful : IsLawful env) where
    -- An archive in memory that holds some assets, with admissible options and a key that is not empty:
    -- if `finish` succeeds, then the destination holds an archive of the assets.
    pub finish-IsArchive :
        (p : Packer Memory) (payload : List ℕ) (assets : List Asset) (summary : PackSummary)
        (w : Memory)
        → 0 < length p.key
        → IsAdmissible p.options
        → p.aead_key ≡ aead_key_of env p.options.protection p.key
        → HasPacked env p payload assets
        → finish env p ≡ ok (summary, w)
        → IsArchive env p.key p.options assets summary w
    finish-IsArchive p payload assets summary w key_some fine sealing v h =
        let f = finish-HasFinished env p summary w h in
        let c : List ℕ = laid_out payload in
        let (k, small, power) = fine.power in
        let (n, q, multiple, room, same) =
          align-padded p c k v.storing.writer (v.storing.offset ∙ sym (length-laid_out payload))
            small power f.aligning in
        let stripped : Bool = strips_paths p.options.mode in
        let aligned : Packer Memory = padded p c n in
        let u =
          subst
            (λ x. HasWritten env (strip x) f.toc_plain (length f.toc_plain) f.toc_stored summary w)
            (sym same) f.out in
        let protected = ap (λ x. store_toc env (strip x) f.toc_plain) same ∙ f.protected in
        let (compressed, packed, sealed_toc) =
          store_toc-TocSealed env lawful (strip aligned) f.toc_plain f.toc_stored f.draws key_some
            protected in
        let entry_count : length (strip aligned).entries ≡ length assets =
          ap (λ es. length (if stripped then map clear_path es else es)) v.entries
          ∙ length-stripped stripped assets in
        let chunk_count =
          ap (λ cs. length cs) v.storing.chunks ∙ length-chunks_of (blocks_of assets) in
        let toc_offset : length c + n ≡ Format.header_size + length payload + n =
          omega (arith, length-laid_out payload) in
        let header_is = sym u.header_is ∙ (λ i.
          archive_header p.options (entry_count i) (chunk_count i) (toc_offset i)
            (length f.toc_stored) (length f.toc_plain) (env.xxh3_64 f.toc_plain)) in
        let at = ap (λ (x : Header). x.toc_offset) header_is in
        let offset_is : u.header.toc_offset ≡ q * 2 ^ k = omega (arith, at, multiple, toc_offset) in
        let same_w =
          written_to env payload f.toc_stored n u.header (strip aligned) f.toc_plain summary w refl
            refl u refl in
        let contents = ap (λ (m : Memory). m.contents) same_w in
        let archive_len : length c + n + length f.toc_stored ≡ length w.contents = omega (
          arith,
          ap (λ b. length b) contents,
          length-sealed env payload f.toc_stored n u.header,
          toc_offset,
        ) in
        record {
          header = u.header;
          payload = payload;
          padding = n;
          toc_plain = f.toc_plain;
          toc_compressed = compressed;
          toc_stored = f.toc_stored;
          contents = contents;
          header_is = header_is;
          toc_aligned =
              ap (λ m. m % p.options.alignment) offset_is
              ∙ ap (λ m. (q * 2 ^ k) % m) power
              ∙ mul-mod_left q (2 ^ k);
          encoded =
              ap
                (λ es.
                  encode_toc env (if stripped then map clear_path es else es)
                    (chunks_of (blocks_of assets)))
                (sym v.entries)
              ∙ ap
                  (λ cs.
                    encode_toc env (if stripped then map clear_path p.entries else p.entries) cs)
                  (sym v.storing.chunks)
              ∙ ap (λ (x : Packer Memory). encode_toc env (strip x).entries x.chunks) same
              ∙ f.encoded;
          toc_restored =
              lawful.decompress-compress f.toc_plain compressed
                (env.maximum_output_size (length f.toc_plain)) packed;
          toc_sealed =
              subst (λ x. TocSealed env x p.key compressed f.toc_stored) sealing sealed_toc;
          raw_small = f.raw_small;
          stored_small = u.stored_small;
          stored =
              subst
                (λ x.
                  AreStored env x p.options.chunk_size p.options.alignment payload 0
                    Format.header_size (blocks_of assets))
                sealing v.storing.stored;
          ordered = omega (arith, at, v.storing.ordered, v.storing.offset);
          described = v.described;
          distinct = subst (λ es. AreDistinct stripped es) v.entries v.unique.distinct;
          summary_is = sym u.counted ∙ (λ i.
              summary_of (archive_len i) (ap (λ (x : Header). x.entry_count) header_is i)
                (ap (λ (x : Header). x.chunk_count) header_is i));
          position = ap (λ (m : Memory). m.position) same_w ∙ sym (ap (λ b. length b) contents);
        }

    -- A new packer, the files and `finish`, one after the other.
    pub steps-IsArchive :
        (w w' : Memory) (files : List InputFile) (key : List ℕ) (options : PackOptions)
        (p p' : Packer Memory) (summary : PackSummary)
        → new env w key options ≡ ok p
        → add_files env p files ≡ ok p'
        → finish env p' ≡ ok (summary, w')
        → (w.contents ≡ [])
          × ((assets : List Asset) × AreFiles env files assets
              × IsArchive env key options assets summary w')
    steps-IsArchive w w' files key options p p' summary e0 e1 e2 =
        let (empty, v) = new-IsFresh env w key options p e0 in
        let (k, small, power) = v.admissible.power in
        let same = v.same_options in
        let u =
          add_files-HaveAdded env lawful k small files p p' [] []
            (ap (λ (o : PackOptions). o.alignment) same ∙ power)
            (omega (arith, v.admissible.some_room, ap (λ (o : PackOptions). o.chunk_size) same))
            v.packed e1 in
        let options_is : p'.options ≡ options = u.options ∙ same in
        let key_is : p'.key ≡ key = u.key ∙ v.same_key in
        let archive =
          finish-IsArchive p' u.more u.added summary w'
            (omega (arith, v.key_some, ap (λ b. length b) key_is))
            (subst (λ o. IsAdmissible o) (sym options_is) v.admissible)
            (u.aead_key
              ∙ v.aead_key
              ∙ (λ i. aead_key_of env (sym options_is i).protection (sym key_is i)))
            u.packed e2 in
        (
          empty,
          (
            u.added,
            u.holding,
            subst (λ o. IsArchive env key o u.added summary w') options_is
                (subst (λ b. IsArchive env b p'.options u.added summary w') key_is archive),
          ),
        )

    -- If `pack_with_options` succeeds on a destination in memory, then the destination was empty, and it
    -- holds an archive afterwards, under the key and the options, of assets that are the files, in
    -- order: their contents, under their normalized paths.
    pub pack_with_options-IsArchive :
        (w w' : Memory) (files : List InputFile) (key : List ℕ) (options : PackOptions)
        → pack_with_options env w files key options ≡ ok w'
        → (w.contents ≡ [])
          × ((assets : List Asset) × (summary : PackSummary) × AreFiles env files assets
              × IsArchive env key options assets summary w')
    unfolding pack_with_options
    pack_with_options-IsArchive w w' files key options h =
        let (p, e0, h0) = >>=-eq-ok (new env w key options) _ h in
        let (p', e1, h1) = >>=-eq-ok (add_files env p files) _ h0 in
        let ((summary, w1), e2, h2) = >>=-eq-ok (finish env p') _ h1 in
        let (empty, (assets, holding, archive)) =
          steps-IsArchive w w1 files key options p p' summary e0 e1 e2 in
        (
          empty,
          (
            assets,
            summary,
            holding,
            subst (λ m. IsArchive env key options assets summary m) (ok-injective h2) archive,
          ),
        )
