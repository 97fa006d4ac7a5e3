-- ===== src/Pack/Store/Stored.antt =====
-- What the packer of crates/rasen-archive/src/pack/writer.rs promises of the chunks that it has
-- written. `payload` are the bytes behind the header.
use rasen_archive.Prelude.{ℕ, suc, ◌+◌, ◌%◌, ◌<◌, ◌≤◌, ◌≡◌, refl, ap, ◌∙◌, List, [], ◌∷◌, ◌++◌}
use rasen_archive.Prelude.{Bool, true, false, Option, none, some, append_assoc, length, map, arith}
use rasen_archive.Error.{ok, >>=-eq-ok}
use rasen_archive.Platform.{Platform, IsLawful}
use rasen_archive.Crypto.Aead.{encrypt, decrypt, chunk_aad}
use rasen_archive.Crypto.Aead.RoundTrip.{decrypt-encrypt}
use rasen_archive.Format
use rasen_archive.Format.Model.{Chunk}
use rasen_archive.Pack.Store.{protect}

-- A chunk and the bytes of the input that it holds.
abbrev pub Block : Type 0
Block = Chunk × List ℕ

abbrev pub chunks_of : List Block → List Chunk
chunks_of = map (λ b. b.0)

-- Where the last block ends.
abbrev pub end_of : ℕ → List Block → ℕ
end_of previous_end [] = previous_end
end_of previous_end ((c, raw) ∷ bs) = end_of (c.offset + c.stored_size) bs

pub end_of-snoc :
    (previous_end : ℕ) (bs : List Block) (c : Chunk) (raw : List ℕ)
    → end_of previous_end (bs ++ ((c, raw) ∷ [])) ≡ c.offset + c.stored_size
end_of-snoc previous_end [] c raw = refl
end_of-snoc previous_end ((d, r) ∷ bs) c raw = end_of-snoc (d.offset + d.stored_size) bs c raw

pub chunks_of-snoc :
    (bs : List Block) (c : Chunk) (raw : List ℕ)
    → chunks_of (bs ++ ((c, raw) ∷ [])) ≡ chunks_of bs ++ (c ∷ [])
chunks_of-snoc [] c raw = refl
chunks_of-snoc (b ∷ bs) c raw = ap (λ t. b.0 ∷ t) (chunks_of-snoc bs c raw)

pub length-chunks_of : (bs : List Block) → length (chunks_of bs) ≡ length bs
length-chunks_of [] = refl
length-chunks_of (b ∷ bs) = ap suc (length-chunks_of bs)

module _ (env : Platform) where
  -- `stored` protects `plain` under the key, if there is one.
  abbrev pub Sealed : Option (List ℕ) → List ℕ → List ℕ → List ℕ → Type 0
  Sealed none aad plain stored = stored ≡ plain
  Sealed (some key) aad plain stored =
      (length stored ≡ length plain + 40) × (decrypt env stored key aad ≡ ok plain)

  -- `plain` stands for `raw`, compressed or not.
  abbrev pub Packed : Bool → List ℕ → List ℕ → Type 0
  Packed true raw plain =
      (0 < length plain)
      × (length plain < length raw)
      × (env.decompress_into plain (length raw) ≡ ok raw)
  Packed false raw plain = plain ≡ raw

  pub protect-Sealed :
      IsLawful env
      → (key : Option (List ℕ)) (draws draws' : ℕ) (plain aad stored : List ℕ)
      → protect env key draws plain aad ≡ ok (stored, draws')
      → Sealed key aad plain stored
  unfolding protect
  protect-Sealed lawful none draws draws' plain aad stored h = cc
  protect-Sealed lawful (some key) draws draws' plain aad stored h =
      let (out, sealed, e) = >>=-eq-ok (encrypt env draws plain key aad) _ h in
      let same : out ≡ stored = cc in
      decrypt-encrypt env lawful draws plain key aad stored (sealed ∙ ap ok same)

  module _ (aead_key : Option (List ℕ)) (chunk_size alignment : ℕ) where
    -- The chunk with this number holds `raw`.
    pub record IsStored (payload : List ℕ) (index : ℕ) (c : Chunk) (raw : List ℕ) : Type 0 where
      pub plain : List ℕ
      pub stored : List ℕ
      pub front : List ℕ
      pub back : List ℕ
      pub some_bytes : 0 < length raw
      pub fits : length raw ≤ chunk_size
      pub original : c.original_size ≡ length raw
      pub size : c.stored_size ≡ length stored
      pub checked : c.checksum ≡ env.xxh3_64 raw
      pub packed : Packed c.compressed raw plain
      pub sealed : Sealed aead_key (chunk_aad index) plain stored
      pub place : payload ≡ front ++ (stored ++ back)
      pub at_offset : c.offset ≡ Format.header_size + length front
      pub aligned : c.offset % alignment ≡ 0

    -- The blocks from a number and an offset on, one behind the other.
    abbrev pub AreStored : List ℕ → ℕ → ℕ → List Block → Type 0
    AreStored payload index previous_end [] = Unit
    AreStored payload index previous_end ((c, raw) ∷ bs) =
        IsStored payload index c raw
        × (previous_end ≤ c.offset)
        × AreStored payload (index + 1) (c.offset + c.stored_size) bs

    pub IsStored-append :
        (payload more : List ℕ) (index : ℕ) (c : Chunk) (raw : List ℕ)
        → IsStored payload index c raw
        → IsStored (payload ++ more) index c raw
    IsStored-append payload more index c raw v = record {
      plain = v.plain;
      stored = v.stored;
      front = v.front;
      back = v.back ++ more;
      some_bytes = v.some_bytes;
      fits = v.fits;
      original = v.original;
      size = v.size;
      checked = v.checked;
      packed = v.packed;
      sealed = v.sealed;
      place =
          ap (λ t. t ++ more) v.place
          ∙ append_assoc v.front (v.stored ++ v.back) more
          ∙ ap (λ t. v.front ++ t) (append_assoc v.stored v.back more);
      at_offset = v.at_offset;
      aligned = v.aligned;
    }

    -- One more block, in a payload that has grown.
    pub AreStored-snoc :
        (payload more : List ℕ) (index previous_end : ℕ) (bs : List Block) (c : Chunk)
        (raw : List ℕ)
        → AreStored payload index previous_end bs
        → end_of previous_end bs ≤ c.offset
        → IsStored (payload ++ more) (index + length bs) c raw
        → AreStored (payload ++ more) index previous_end (bs ++ ((c, raw) ∷ []))
    AreStored-snoc payload more index previous_end [] c raw v before last =
        let e : index + 0 ≡ index = omega arith in (rw e at last, before, tt)
    AreStored-snoc payload more index previous_end ((d, r) ∷ bs) c raw v before last =
        let e : index + suc (length bs) ≡ index + 1 + length bs = omega arith in
        (
          IsStored-append payload more index d r v.0,
          v.1,
          AreStored-snoc payload more (index + 1) (d.offset + d.stored_size) bs c raw v.2 before
              (rw e at last),
        )
