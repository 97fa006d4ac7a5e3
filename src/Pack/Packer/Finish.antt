-- ===== src/Pack/Packer/Finish.antt =====
-- `finish` of crates/rasen-archive/src/pack/writer.rs, step by step.
use rasen_archive.Prelude.{
  ℕ, ◌+◌, ◌<◌, ◌≤◌, ◌≡◌, refl, ap, sym, ◌∙◌, List, Bool, true, false, not, leb, leb→le, Option,
  none, some, length, arith, checked_add,
}
use mathlib.Core.Path.{subst}
use rasen_archive.Error.{
  Fallible, ok, ◌>>=◌, >>=-eq-ok, ok-injective, map_err-eq-ok, guard, guard-eq-ok, from_io,
  from_io-eq-ok, ok_or, lz4, too_large, incomplete_pack,
}
use rasen_archive.Platform.{Platform, IsLawful, reserve}
use rasen_archive.Sink.{Sink}
use rasen_archive.Crypto.Aead.{decrypt, toc_aad}
use rasen_archive.Crypto.Xor.{xor_in_place}
use rasen_archive.Crypto.Xor.Twice.{xor_in_place_twice}
use rasen_archive.Format
use rasen_archive.Format.Io.{usize_to_u32, usize_to_u64, usize_to_u64-eq-ok, checked_add-eq-ok}
use rasen_archive.Format.Header.{Header, write_header}
use rasen_archive.Format.Toc.{encode_toc}
use rasen_archive.Pack.Model.{Packer, strip, header_of, header_flags}
use rasen_archive.Pack.Store.{align, compress, protect}
use rasen_archive.Pack.Store.Stored.{protect-Sealed}
use rasen_archive.Pack.Packer.{PackSummary, store_toc, write_out, finish}

module _ (env : Platform) where
  -- `stored` protects the compressed TOC.
  abbrev pub TocSealed : Option (List ℕ) → List ℕ → List ℕ → List ℕ → Type 0
  TocSealed none key compressed stored =
      (length stored ≡ length compressed) × (xor_in_place stored key ≡ ok compressed)
  TocSealed (some aead_key) key compressed stored =
      (length stored ≡ length compressed + 40)
      × (decrypt env stored aead_key toc_aad ≡ ok compressed)

  module _ {W : Type 0} where
    abbrev pub header_for : Packer W → ℕ → ℕ → ℕ → ℕ → Header
    header_for p toc_offset toc_size toc_raw_size toc_hash = record {
      version = Format.version;
      flags = header_flags p.options;
      header_size = Format.header_size;
      alignment = p.options.alignment;
      chunk_size = p.options.chunk_size;
      entry_count = length p.entries;
      chunk_count = length p.chunks;
      toc_offset = toc_offset;
      toc_size = toc_size;
      toc_raw_size = toc_raw_size;
      toc_hash = toc_hash;
    }

    header_of-header_for :
        (p : Packer W) (toc_offset toc_size toc_raw_size toc_hash : ℕ) (h : Header)
        → header_of p toc_offset toc_size toc_raw_size toc_hash ≡ ok h
        → header_for p toc_offset toc_size toc_raw_size toc_hash ≡ h
    unfolding header_of usize_to_u32
    header_of-header_for p toc_offset toc_size toc_raw_size toc_hash h e = ground arith

  module _ {W : Type 0} ⦃s : Sink W⦄ where
    -- The TOC is compressed, and then protected.
    pub store_toc-TocSealed :
        IsLawful env
        → (p : Packer W) (plain stored : List ℕ) (draws : ℕ) → 0 < length p.key
        → store_toc env p plain ≡ ok (stored, draws)
        → (compressed : List ℕ) × (env.compress_into plain (env.maximum_output_size (length plain))
            ≡ ok compressed)
          × TocSealed p.aead_key p.key compressed stored
    unfolding store_toc
    store_toc-TocSealed lawful p plain stored draws key_some h =
        let limit : ℕ = env.maximum_output_size (length plain) in
        let (u, e0, h0) = >>=-eq-ok (reserve env limit "stored TOC allocation") _ h in
        let (compressed, e1, h1) = >>=-eq-ok (compress env plain limit) _ h0 in
        (
          compressed,
          map_err-eq-ok lz4 (env.compress_into plain limit) e1,
          protected p.aead_key compressed h1,
        )
      where
        protected :
            (aead_key : Option (List ℕ)) (compressed : List ℕ)
            → ◌≡◌ {A = Fallible (List ℕ × ℕ)}
                (elim aead_key [
                  | some key ↦ protect env (some key) p.draws compressed toc_aad
                  | none ↦
                      (xor_in_place compressed p.key >>= λ toc_stored. ok (toc_stored, p.draws))
                ])
                (ok (stored, draws))
            → TocSealed aead_key p.key compressed stored
        protected none compressed e =
            let (out, e1, e2) = >>=-eq-ok (xor_in_place compressed p.key) _ e in
            let (ys, once, size, twice) = xor_in_place_twice p.key key_some compressed in
            let outs : ys ≡ out = ok-injective (sym once ∙ e1) in
            let same : ys ≡ stored = outs ∙ cc in (rw same at size, rw same at twice)
        protected (some key) compressed e =
            protect-Sealed env lawful (some key) p.draws draws compressed toc_aad stored e

    -- The steps of `write_out`.
    pub record HasWritten (p : Packer W) (toc_plain : List ℕ) (toc_raw_size : ℕ)
        (toc_stored : List ℕ) (summary : PackSummary) (w : W) : Type 0 where
      pub header : Header
      pub w1 : W
      pub w2 : W
      pub w3 : W
      pub start : ℕ
      pub end : ℕ
      pub stored_small : length toc_stored ≤ Format.max_toc_stored_size
      pub written : s.write_all p.writer toc_stored ≡ ok w1
      pub header_is :
          header_for p p.offset (length toc_stored) toc_raw_size (env.xxh3_64 toc_plain) ≡ header
      pub rewound : s.seek_start w1 0 ≡ ok (start, w2)
      pub header_written : write_header w2 header ≡ ok w3
      pub at_the_end : s.seek_start w3 (p.offset + length toc_stored) ≡ ok (end, w)
      pub counted :
          record {
            archive_len = p.offset + length toc_stored;
            entry_count = header.entry_count;
            chunk_count = header.chunk_count;
          }
          ≡ summary

    write_out-HasWritten :
        (p : Packer W) (toc_plain : List ℕ) (toc_raw_size : ℕ) (toc_stored : List ℕ)
        (summary : PackSummary) (w : W)
        → write_out env p toc_plain toc_raw_size toc_stored ≡ ok (summary, w)
        → HasWritten p toc_plain toc_raw_size toc_stored summary w
    unfolding write_out
    write_out-HasWritten p plain raw_size stored summary w h5 =
        let (size, e6, h6) = >>=-eq-ok (usize_to_u64 (length stored) "stored TOC size") _ h5 in
        let same_size = usize_to_u64-eq-ok (length stored) "stored TOC size" e6 in
        let (u7, e7, h7) =
          >>=-eq-ok (guard (leb size Format.max_toc_stored_size) (too_large "stored TOC")) _ h6 in
        let (w1, e8, h8) = >>=-eq-ok (from_io (s.write_all p.writer stored)) _ h7 in
        let (total, e9, h9) =
          >>=-eq-ok (ok_or (checked_add p.offset size) (too_large "archive length")) _ h8 in
        let same_total =
          (checked_add-eq-ok p.offset size (too_large "archive length") e9).1
          ∙ ap (λ n. p.offset + n) same_size in
        let (header, e10, h10) =
          >>=-eq-ok (header_of p p.offset size raw_size (env.xxh3_64 plain)) _ h9 in
        let ((start, w2), e11, h11) = >>=-eq-ok (from_io (s.seek_start w1 0)) _ h10 in
        let (w3, e12, h12) = >>=-eq-ok (write_header w2 header) _ h11 in
        let ((end, w4), e13, h13) = >>=-eq-ok (from_io (s.seek_start w3 total)) _ h12 in
        let at_end = ok-injective h13 in
        let same_w : w4 ≡ w = ap (λ d. d.1) at_end in
        record {
          header = header;
          w1 = w1;
          w2 = w2;
          w3 = w3;
          start = start;
          end = end;
          stored_small =
              subst (λ n. n ≤ Format.max_toc_stored_size) same_size
                (leb→le size Format.max_toc_stored_size
                  (guard-eq-ok (leb size Format.max_toc_stored_size) (too_large "stored TOC") e7));
          written = from_io-eq-ok (s.write_all p.writer stored) e8;
          header_is =
              header_of-header_for p p.offset (length stored) raw_size (env.xxh3_64 plain) header (
                ap (λ n. header_of p p.offset n raw_size (env.xxh3_64 plain)) (sym same_size)
                ∙ e10);
          rewound = from_io-eq-ok (s.seek_start w1 0) e11;
          header_written = e12;
          at_the_end =
              ap (λ n. s.seek_start w3 n) (sym same_total)
              ∙ from_io-eq-ok (s.seek_start w3 total) e13
              ∙ ap (λ x. ok (end, x)) same_w;
          counted =
              ap
                (λ n. record {
                  archive_len = n;
                  entry_count = header.entry_count;
                  chunk_count = header.chunk_count;
                })
                (sym same_total)
              ∙ ap (λ d. d.0) at_end;
        }

    -- The steps of `finish`.
    pub record HasFinished (p : Packer W) (summary : PackSummary) (w : W) : Type 0 where
      pub aligned : Packer W
      pub toc_plain : List ℕ
      pub toc_stored : List ℕ
      pub draws : ℕ
      pub not_failed : p.failed ≡ false
      pub aligning : align p ≡ ok aligned
      pub encoded : encode_toc env (strip aligned).entries aligned.chunks ≡ ok toc_plain
      pub raw_small : length toc_plain ≤ Format.max_toc_raw_size
      pub protected : store_toc env (strip aligned) toc_plain ≡ ok (toc_stored, draws)
      pub out : HasWritten (strip aligned) toc_plain (length toc_plain) toc_stored summary w

    pub finish-HasFinished :
        (p : Packer W) (summary : PackSummary) (w : W)
        → finish env p ≡ ok (summary, w)
        → HasFinished p summary w
    unfolding finish
    finish-HasFinished p summary w h =
        let (u0, e0, h0) = >>=-eq-ok (guard (not p.failed) incomplete_pack) _ h in
        let (q, e1, h1) = >>=-eq-ok (align p) _ h0 in
        let (plain, e2, h2) = >>=-eq-ok (encode_toc env (strip q).entries q.chunks) _ h1 in
        let (raw_size, e3, h3) = >>=-eq-ok (usize_to_u64 (length plain) "raw TOC size") _ h2 in
        let same_raw = usize_to_u64-eq-ok (length plain) "raw TOC size" e3 in
        let (u4, e4, h4) =
          >>=-eq-ok (guard (leb raw_size Format.max_toc_raw_size) (too_large "raw TOC")) _ h3 in
        let ((stored, draws), e5, h5) = >>=-eq-ok (store_toc env (strip q) plain) _ h4 in
        record {
          aligned = q;
          toc_plain = plain;
          toc_stored = stored;
          draws = draws;
          not_failed = not_true p.failed (guard-eq-ok (not p.failed) incomplete_pack e0);
          aligning = e1;
          encoded = e2;
          raw_small =
              subst (λ n. n ≤ Format.max_toc_raw_size) same_raw
                (leb→le raw_size Format.max_toc_raw_size
                  (guard-eq-ok (leb raw_size Format.max_toc_raw_size) (too_large "raw TOC") e4));
          protected = e5;
          out =
              write_out-HasWritten (strip q) plain (length plain) stored summary w
                (ap (λ n. write_out env (strip q) plain n stored) (sym same_raw) ∙ h5);
        }
      where
        not_true : (b : Bool) → not b ≡ true → b ≡ false
        not_true true e = cc
        not_true false e = refl
