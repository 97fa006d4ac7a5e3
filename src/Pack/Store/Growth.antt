-- ===== src/Pack/Store/Growth.antt =====
-- What one round of the loop over the chunks of an input, `add_reader_inner` of
-- crates/rasen-archive/src/pack/writer.rs, makes of a destination in memory.
use rasen_archive.Prelude.{ℕ, ◌+◌, ◌%◌, ◌^◌, ◌<◌, ◌≤◌, ◌≡◌, refl, ap, sym, ◌∙◌, List, [], ◌∷◌, ◌++◌}
use rasen_archive.Prelude.{
  append_assoc, append-nil, length, length-append, inl, inr, length-replicate, replicate, ltb,
  arith,
}
use rasen_archive.Prelude.{Bool-cases, ltb→lt}
use rasen_archive.Error.{ok, ok-injective}
use rasen_archive.Platform.{Platform, IsLawful}
use rasen_archive.Sink.Memory.{Memory, memory_sink, at_end, write_at_end}
use rasen_archive.Crypto.Aead.{chunk_aad}
use rasen_archive.Format
use rasen_archive.Format.Model.{Chunk}
use rasen_archive.Pack.Model.{Packer, Progress}
use rasen_archive.Pack.Store.{store_chunk}
use rasen_archive.Pack.Store.Round.{plain_for, chunk_for, grown, store_chunk_parts}
use native.Mathlib.Nat.{mul-mod_left}
use mathlib.Core.Path.{subst}
use rasen_archive.Pack.Store.Padding.{padded, align-padded}
use rasen_archive.Pack.Store.Stored.{
  Block, chunks_of, Sealed, Packed, protect-Sealed, IsStored, AreStored, AreStored-snoc, end_of,
  end_of-snoc, chunks_of-snoc, length-chunks_of,
}

-- What is in the destination while inputs are added: the header's place, left empty, and the payload
-- behind it, which holds the blocks.
abbrev pub laid_out : List ℕ → List ℕ
laid_out payload = replicate Format.header_size 0 ++ payload

pub length-laid_out :
    (payload : List ℕ) → length (laid_out payload) ≡ Format.header_size + length payload
length-laid_out payload = omega (
  arith,
  length-append (replicate Format.header_size 0) payload,
  length-replicate {A = ℕ} Format.header_size 0,
)

-- What a round leaves alone.
pub record IsSameRest {W : Type 0} (p p' : Packer W) : Type 0 where
  pub key : p'.key ≡ p.key
  pub aead_key : p'.aead_key ≡ p.aead_key
  pub options : p'.options ≡ p.options
  pub entries : p'.entries ≡ p.entries
  pub seen_hashes : p'.seen_hashes ≡ p.seen_hashes
  pub failed : p'.failed ≡ p.failed

module _ (env : Platform) where
  pub record IsStoring (p : Packer Memory) (payload : List ℕ) (blocks : List Block) : Type 0 where
    pub writer : p.writer ≡ at_end (laid_out payload)
    pub offset : p.offset ≡ Format.header_size + length payload
    pub chunks : p.chunks ≡ chunks_of blocks
    pub stored :
        AreStored env p.aead_key p.options.chunk_size p.options.alignment payload 0
          Format.header_size blocks
    pub ordered : end_of Format.header_size blocks ≤ p.offset

  -- A round on `raw` has written one more block, which holds the bytes.
  module _ (raw : List ℕ) (g g' : Progress Memory) (payload : List ℕ) (blocks : List Block) where
    pub record HasGrown : Type 0 where
      pub more : List ℕ
      pub chunk : Chunk
      pub storing : IsStoring g'.packer (payload ++ more) (blocks ++ ((chunk, raw) ∷ []))
      pub rest : IsSameRest g.packer g'.packer
      pub original_total : g'.original_total ≡ g.original_total + length raw
      pub stored_total : g'.stored_total ≡ g.stored_total + chunk.stored_size

  module _ (raw : List ℕ) (lawful : IsLawful env) where
    plain_for-Packed :
        (compressed : List ℕ) (n : ℕ)
        → 0 < length raw
        → env.compress_into raw n ≡ ok compressed
        → Packed env (ltb (length compressed) (length raw)) raw (plain_for env raw compressed)
    plain_for-Packed compressed n some_bytes h =
        elim (Bool-cases (ltb (length compressed) (length raw))) [
          | inl less ↦ rw less (
            lawful.compress_some raw compressed n h some_bytes,
            ltb→lt (length compressed) (length raw) less,
            lawful.decompress-compress raw compressed n h,
          )
          | inr more ↦ rw more refl
        ]

    module _ (g : Progress Memory) (payload : List ℕ) (blocks : List Block) (n : ℕ)
        (compressed stored : List ℕ) (draws : ℕ) where
      abbrev content : List ℕ
      content = laid_out payload

      abbrev zeroes : List ℕ
      zeroes = replicate n 0

      abbrev more : List ℕ
      more = zeroes ++ stored

      abbrev at_offset : ℕ
      at_offset = length content + n

      abbrev now : Progress Memory
      now =
          grown env raw g (padded g.packer content n) compressed stored draws
            (at_end ((content ++ zeroes) ++ stored))

      grown-IsStored :
          0 < length raw
          → length raw ≤ g.packer.options.chunk_size
          → at_offset % g.packer.options.alignment ≡ 0
          → Packed env (ltb (length compressed) (length raw)) raw (plain_for env raw compressed)
          → Sealed env g.packer.aead_key
              (chunk_aad (length blocks))
              (plain_for env raw compressed)
              stored
          → IsStored env g.packer.aead_key g.packer.options.chunk_size g.packer.options.alignment
              (payload ++ more)
              (0 + length blocks)
              (chunk_for env raw compressed at_offset (length stored))
              raw
      grown-IsStored some_bytes fits aligned packed sealed = record {
        plain = plain_for env raw compressed;
        stored = stored;
        front = payload ++ zeroes;
        back = [];
        some_bytes = some_bytes;
        fits = fits;
        original = refl;
        size = refl;
        checked = refl;
        packed = packed;
        sealed = rw same sealed;
        place =
            ap (λ t. payload ++ (zeroes ++ t)) (sym (append-nil stored))
            ∙ sym (append_assoc payload zeroes (stored ++ []));
        at_offset = omega (
          arith,
          length-laid_out payload,
          length-append payload zeroes,
          length-replicate {A = ℕ} n 0,
        );
        aligned = aligned;
      }
        where
          same : 0 + length blocks ≡ length blocks
          same = omega arith

      grown-IsStoring :
          IsStoring g.packer payload blocks
          → IsStored env g.packer.aead_key g.packer.options.chunk_size g.packer.options.alignment
              (payload ++ more)
              (0 + length blocks)
              (chunk_for env raw compressed at_offset (length stored))
              raw
          → IsStoring now.packer
              (payload ++ more)
              (blocks ++ ((chunk_for env raw compressed at_offset (length stored), raw) ∷ []))
      grown-IsStoring v last = record {
        writer = ap (λ t. at_end t) regrouped;
        offset = omega (
          arith,
          length-laid_out payload,
          length-append payload more,
          length-append zeroes stored,
          length-replicate {A = ℕ} n 0,
        );
        chunks =
            ap (λ t. t ++ (chunk_for env raw compressed at_offset (length stored) ∷ [])) v.chunks
            ∙ sym (
                chunks_of-snoc blocks (chunk_for env raw compressed at_offset (length stored)) raw);
        stored =
            AreStored-snoc env g.packer.aead_key g.packer.options.chunk_size
              g.packer.options.alignment payload more 0 Format.header_size blocks
              (chunk_for env raw compressed at_offset (length stored)) raw v.stored
              (omega (arith, v.ordered, v.offset, length-laid_out payload)) last;
        ordered = omega (
          arith,
          end_of-snoc Format.header_size blocks
              (chunk_for env raw compressed at_offset (length stored)) raw,
        );
      }
        where
          regrouped : (content ++ zeroes) ++ stored ≡ laid_out (payload ++ more)
          regrouped =
              append_assoc content zeroes stored
              ∙ append_assoc (replicate Format.header_size 0) payload more

    module _ (g g' : Progress Memory) (payload : List ℕ) (blocks : List Block) where
      -- In an archive in memory whose blocks are well placed, a round on some bytes that fit a chunk
      -- writes one more well-placed block, which holds the bytes, and changes nothing else of the packer
      -- but the number of draws.
      pub store_chunk-HasGrown :
          (k : ℕ)
          → k ≤ 20
          → g.packer.options.alignment ≡ 2 ^ k
          → 0 < length raw
          → length raw ≤ g.packer.options.chunk_size
          → IsStoring g.packer payload blocks
          → store_chunk env raw g ≡ ok g'
          → HasGrown raw g g' payload blocks
      store_chunk-HasGrown k small power some_bytes fits v h =
          let (compressed, p, stored, draws, w, e0, e1, e2, e3, e4) =
            store_chunk_parts env raw g g' h in
          let c : List ℕ = laid_out payload in
          let (n, q, multiple, room, same) =
            align-padded g.packer c k v.writer (v.offset ∙ sym (length-laid_out payload)) small
              power e1 in
          let written = sym (rw (← same, write_at_end (c ++ replicate n 0) stored) at e3) in
          let sealed =
            protect-Sealed env lawful g.packer.aead_key g.packer.draws draws
              (plain_for env raw compressed) (chunk_aad (length g.packer.chunks)) stored
              (rw (← same) at e2) in
          let total = rw (← same, ok-injective written) at e4 in
          let last =
            grown-IsStored g payload blocks n compressed stored draws some_bytes fits
              (rw (power, multiple) (mul-mod_left q (2 ^ k)))
              (plain_for-Packed compressed (env.maximum_output_size g.packer.options.chunk_size)
                some_bytes e0)
              (rw (v.chunks, length-chunks_of blocks) at sealed) in
          let after = grown-IsStoring g payload blocks n compressed stored draws v last in
          subst (λ x. HasGrown raw g x payload blocks) total
            (record {
              more = replicate n 0 ++ stored;
              chunk = chunk_for env raw compressed (length c + n) (length stored);
              storing = after;
              rest = record {
                key = refl;
                aead_key = refl;
                options = refl;
                entries = refl;
                seen_hashes = refl;
                failed = refl;
              };
              original_total = refl;
              stored_total = refl;
            })
