-- ===== src/Pack/Store/Round.antt =====
-- One round of the loop over the chunks of an input, `add_reader_inner` of
-- crates/rasen-archive/src/pack/writer.rs, on a destination in memory.
use rasen_archive.Prelude.{ℕ, ◌+◌, ◌≡◌, ap, sym, ◌∙◌, List, [], ◌∷◌, ◌++◌}
use rasen_archive.Prelude.{length, ltb, if◌then◌else◌}
use rasen_archive.Prelude.{checked_add}
use rasen_archive.Error.{
  ok, >>=-eq-ok, ok-injective, from_io, from_io-eq-ok, map_err-eq-ok, lz4, ok_or, too_large,
}
use rasen_archive.Platform.{Platform}
use rasen_archive.Sink.{Sink}
use rasen_archive.Sink.Memory.{memory_sink}
use rasen_archive.Crypto.Aead.{chunk_aad}
use rasen_archive.Format.Io.{
  usize_to_u32, usize_to_u64, usize_to_u32-eq-ok, usize_to_u64-eq-ok, checked_add-eq-ok,
}
use rasen_archive.Format.Model.{Chunk}
use rasen_archive.Pack.Model.{Packer, Progress}
use rasen_archive.Pack.Store.{compress, protect, align, store_chunk}

module _ (env : Platform) (raw : List ℕ) where
  -- What is stored in place of `raw`, before protection.
  abbrev pub plain_for : List ℕ → List ℕ
  plain_for compressed = if ltb (length compressed) (length raw) then compressed else raw

  abbrev chunk_of_sizes : List ℕ → ℕ → ℕ → ℕ → Chunk
  chunk_of_sizes compressed offset stored_size original_size = record {
    offset = offset;
    stored_size = stored_size;
    original_size = original_size;
    checksum = env.xxh3_64 raw;
    compressed = ltb (length compressed) (length raw);
  }

  abbrev pub chunk_for : List ℕ → ℕ → ℕ → Chunk
  chunk_for compressed offset stored_size =
      chunk_of_sizes compressed offset stored_size (length raw)

  module _ {W : Type 0} where
    -- The progress after the round, from the numbers that are computed on the way.
    abbrev grown_by : Packer W → List ℕ → ℕ → W → ℕ → ℕ → ℕ → ℕ → ℕ → Progress W
    grown_by p compressed draws w stored_size offset original_size original_total stored_total =
        record {
          packer = record p {
            writer = w;
            chunks =
                p.chunks ++ (chunk_of_sizes compressed p.offset stored_size original_size ∷ []);
            offset = offset;
            draws = draws;
          };
          original_total = original_total;
          stored_total = stored_total;
        }

    abbrev pub grown : Progress W → Packer W → List ℕ → List ℕ → ℕ → W → Progress W
    grown g p compressed stored draws w =
        grown_by p compressed draws w (length stored) (p.offset + length stored) (length raw)
          (g.original_total + length raw) (g.stored_total + length stored)

    grown_same :
        (p : Packer W) (compressed : List ℕ) (draws : ℕ) (w : W) {a a' b b' c c' d d' e e' : ℕ}
        → a ≡ a'
        → b ≡ b'
        → c ≡ c'
        → d ≡ d'
        → e ≡ e'
        → grown_by p compressed draws w a b c d e ≡ grown_by p compressed draws w a' b' c' d' e'
    grown_same p compressed draws w sa sb sc sd se =
        λ i. grown_by p compressed draws w (sa i) (sb i) (sc i) (sd i) (se i)

  module _ {W : Type 0} ⦃s : Sink W⦄ (g g' : Progress W) where
    pub store_chunk_parts :
        store_chunk env raw g ≡ ok g'
        → (compressed : List ℕ) × (p : Packer W) × (stored : List ℕ) × (draws : ℕ) × (w : W)
          × (env.compress_into raw (env.maximum_output_size g.packer.options.chunk_size)
              ≡ ok compressed)
          × (align g.packer ≡ ok p)
          × (protect env p.aead_key p.draws (plain_for compressed) (chunk_aad (length p.chunks))
              ≡ ok (stored, draws))
          × (s.write_all p.writer stored ≡ ok w)
          × (grown g p compressed stored draws w ≡ g')
    unfolding store_chunk
    store_chunk_parts h =
        let limit : ℕ = env.maximum_output_size g.packer.options.chunk_size in
        let (compressed, e0, h0) = >>=-eq-ok (compress env raw limit) _ h in
        let (p, e1, h1) = >>=-eq-ok (align g.packer) _ h0 in
        let (index, e2, h2) = >>=-eq-ok (usize_to_u32 (length p.chunks) "chunk index") _ h1 in
        let same_index = (usize_to_u32-eq-ok (length p.chunks) "chunk index" e2).1 in
        let ((stored, draws), e3, h3) =
          >>=-eq-ok (protect env p.aead_key p.draws (plain_for compressed) (chunk_aad index)) _
            h2 in
        let (w, e4, h4) = >>=-eq-ok (from_io (s.write_all p.writer stored)) _ h3 in
        let (stored_size, e5, h5) =
          >>=-eq-ok (usize_to_u64 (length stored) "stored chunk size") _ h4 in
        let same_stored = usize_to_u64-eq-ok (length stored) "stored chunk size" e5 in
        let (offset, e6, h6) =
          >>=-eq-ok (ok_or (checked_add p.offset stored_size) (too_large "archive offset")) _ h5 in
        let same_offset = (checked_add-eq-ok p.offset stored_size _ e6).1 in
        let (original_size, e7, h7) =
          >>=-eq-ok (usize_to_u64 (length raw) "original chunk size") _ h6 in
        let same_original = usize_to_u64-eq-ok (length raw) "original chunk size" e7 in
        let (original_total, e8, h8) =
          >>=-eq-ok
            (ok_or (checked_add g.original_total original_size) (too_large "entry original size")) _
            h7 in
        let same_total = (checked_add-eq-ok g.original_total original_size _ e8).1 in
        let (stored_total, e9, h9) =
          >>=-eq-ok (ok_or (checked_add g.stored_total stored_size) (too_large "entry stored size"))
            _ h8 in
        let same_stored_total = (checked_add-eq-ok g.stored_total stored_size _ e9).1 in
        let (count, e10, h10) = >>=-eq-ok (usize_to_u32 _ "chunk count") _ h9 in
        let counted =
          grown_same p compressed draws w same_stored
            (same_offset ∙ ap (λ n. p.offset + n) same_stored) same_original
            (same_total ∙ ap (λ n. g.original_total + n) same_original)
            (same_stored_total ∙ ap (λ n. g.stored_total + n) same_stored) in
        let settled = sym counted ∙ ok-injective h10 in
        (
          compressed,
          p,
          stored,
          draws,
          w,
          map_err-eq-ok lz4 (env.compress_into raw limit) e0,
          e1,
          rw same_index at e3,
          from_io-eq-ok (s.write_all p.writer stored) e4,
          settled,
        )
