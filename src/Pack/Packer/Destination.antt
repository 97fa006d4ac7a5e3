-- ===== src/Pack/Packer/Destination.antt =====
-- The second half of `finish` of crates/rasen-archive/src/pack/writer.rs on a destination in memory: the
-- header is written over its place.
use rasen_archive.Prelude.{
  ℕ, ◌+◌, ◌≡◌, ap, sym, ◌∙◌, List, ◌++◌, length, length-append, length-replicate, append_assoc,
  replicate, arith,
}
use rasen_archive.Error.{ok, ok-injective, from_io}
use rasen_archive.Platform.{Platform}
use rasen_archive.Sink.Memory.{
  Memory, memory_sink, memory_sink-IsSink, at_end, write_at_end, seek_start_memory,
  write_over_start,
}
use rasen_archive.Format
use rasen_archive.Format.Header.{Header, write_header}
use rasen_archive.Format.Header.RoundTrip.{header_bytes, length-header_bytes, write_header-bytes}
use rasen_archive.Pack.Model.{Packer}
use rasen_archive.Pack.Store.Growth.{laid_out, length-laid_out}
use rasen_archive.Pack.Packer.{PackSummary}
use rasen_archive.Pack.Packer.Finish.{HasWritten}

module _ (env : Platform) where
  -- Where the blocks and the stored TOC stand when the header is written over its place.
  module _ (payload toc_stored : List ℕ) (n : ℕ) (h : Header) where
    abbrev unsealed : List ℕ
    unsealed = (laid_out payload ++ replicate n 0) ++ toc_stored

    abbrev pub sealed : List ℕ
    sealed = header_bytes h ++ ((payload ++ replicate n 0) ++ toc_stored)

    regrouped :
        unsealed ≡ replicate Format.header_size 0 ++ ((payload ++ replicate n 0) ++ toc_stored)
    regrouped =
        ap (λ t. t ++ toc_stored)
          (append_assoc (replicate Format.header_size 0) payload (replicate n 0))
        ∙ append_assoc (replicate Format.header_size 0) (payload ++ replicate n 0) toc_stored

    pub length-sealed : length sealed ≡ Format.header_size + length payload + n + length toc_stored
    length-sealed = omega (
      arith,
      length-append (header_bytes h) ((payload ++ replicate n 0) ++ toc_stored),
      length-append (payload ++ replicate n 0) toc_stored,
      length-append payload (replicate n 0),
      length-replicate {A = ℕ} n 0,
      length-header_bytes h,
    )

    abbrev start : Memory
    start = record { contents = unsealed; position = 0 }

    header_over :
        write_header start h ≡ ok (record { contents = sealed; position = Format.header_size })
    header_over =
        write_header-bytes memory_sink-IsSink start h
        ∙ ap
            (λ c.
              from_io
                (memory_sink.write_all (record { contents = c; position = 0 }) (header_bytes h)))
            regrouped
        ∙ ap (λ r. from_io r)
            (write_over_start (replicate Format.header_size 0) (header_bytes h)
              ((payload ++ replicate n 0) ++ toc_stored) (sym (length-header_bytes h)))
        ∙ ap (λ k. ok (record { contents = sealed; position = k })) (length-header_bytes h)

    -- Where the steps after the padding leave the destination.
    pub written_to :
        (p : Packer Memory) (toc_plain : List ℕ) (summary : PackSummary) (w : Memory)
        → p.writer ≡ at_end (laid_out payload ++ replicate n 0)
        → p.offset ≡ length (laid_out payload) + n
        → (u : HasWritten env p toc_plain (length toc_plain) toc_stored summary w) → u.header ≡ h
        → w ≡ at_end sealed
    written_to p toc_plain summary w same_writer same_offset u same_header =
        let here = ok-injective (
          sym (
            rw (same_writer, write_at_end (laid_out payload ++ replicate n 0) toc_stored) at
              u.written)) in
        let back = ok-injective (sym (seek_start_memory u.w1 0) ∙ u.rewound) in
        let same2 : start ≡ u.w2 =
          ap (λ (m : Memory). record m { position = 0 }) (sym here) ∙ ap (λ d. d.1) back in
        let same3 : record { contents = sealed; position = Format.header_size } ≡ u.w3 =
          ok-injective (
            sym header_over
            ∙ ap (λ m. write_header m h) same2
            ∙ ap (λ x. write_header u.w2 x) (sym same_header)
            ∙ u.header_written) in
        let total : ℕ = p.offset + length toc_stored in
        let last = ok-injective (sym (seek_start_memory u.w3 total) ∙ u.at_the_end) in
        let whole : total ≡ length sealed =
          omega (arith, same_offset, length-sealed, length-laid_out payload) in
        sym (ap (λ d. d.1) last)
        ∙ ap (λ (m : Memory). record m { position = total }) (sym same3)
        ∙ ap (λ k. record { contents = sealed; position = k }) whole
