-- ===== src/Pack/Packer.antt =====
-- The operations of `Packer` of crates/rasen-archive/src/pack/writer.rs. After an error of `add_reader`
-- only the flag `failed` is read again, so the model keeps the other fields as they were.
pub mod Adding
pub mod Archive
pub mod Assets
pub mod Destination
pub mod Failed
pub mod Files
pub mod Finish
pub mod Fresh
pub mod ReadBack
pub mod Unique
pub mod Written
use rasen_archive.Prelude.{ℕ, suc, List, [], ◌∷◌, ◌++◌, false, not}
use rasen_archive.Prelude.{none, some, if◌then◌else◌, leb, ◌==◌, length, replicate}
use rasen_archive.Prelude.{checked_add, checked_sub}
use rasen_archive.Error.{
  Fallible, ok, err, ◌>>=◌, ◌>>◌, guard, ok_or, from_io, too_large, empty_xor_key,
  non_empty_destination, incomplete_pack,
}
use rasen_archive.Platform.{Platform, reserve}
use rasen_archive.Sink.{Sink}
use rasen_archive.VirtualPath.{normalize_path}
use rasen_archive.Crypto.Aead.{toc_aad}
use rasen_archive.Crypto.Xor.{xor_in_place}
use rasen_archive.Format
use rasen_archive.Format.Model.{TocEntry}
use rasen_archive.Format.Io.{usize_to_u32, usize_to_u64}
use rasen_archive.Format.Header.{write_header}
use rasen_archive.Format.Toc.{encode_toc}
use rasen_archive.Pack.Options.{PackOptions, validate, default_options}
use rasen_archive.Pack.Input.{Reader, slice_reader}
use rasen_archive.Pack.Model.{Packer, insert_hash, header_of, strip, after_add}
use rasen_archive.Pack.Store.{aead_key_of, compress, protect, align, store_chunks}

pub record InputFile : Type 0 where
  pub path : List ℕ
  pub contents : List ℕ

pub record PackSummary : Type 0 where
  pub archive_len : ℕ
  pub entry_count : ℕ
  pub chunk_count : ℕ

module _ {W : Type 0} ⦃s : Sink W⦄ (env : Platform) where
  unfoldable pub new : W → List ℕ → PackOptions → Fallible (Packer W)
  new writer key unchecked = do
    guard (not (length key == 0)) empty_xor_key
    options ← validate unchecked
    (end, w) ← from_io (s.seek_end writer)
    guard (end == 0) non_empty_destination
    (start, w) ← from_io (s.seek_start w 0)
    w ← from_io (s.write_all w (replicate Format.header_size 0))
    reserve env (env.maximum_output_size options.chunk_size) "compression buffer"
    reserve env options.chunk_size "raw chunk buffer"
    ok (record {
      writer = w;
      key = key;
      aead_key = aead_key_of env options.protection key;
      options = options;
      entries = [];
      chunks = [];
      seen_hashes = [];
      offset = Format.header_size;
      failed = false;
      draws = 0;
    })

  module _ {R : Type 0} ⦃r : Reader R⦄ where
    unfoldable pub add_reader_inner : ℕ → Packer W → List ℕ → R → Fallible (Packer W)
    add_reader_inner fuel p path reader = do
      normalized_path ← normalize_path env path
      let path_hash = env.xxh3_64 normalized_path
      seen_hashes ← insert_hash p normalized_path path_hash
      first_chunk ← usize_to_u32 (length p.chunks) "chunk index"
      g ← store_chunks env fuel fuel reader (record {
        packer = record p { seen_hashes = seen_hashes };
        original_total = 0;
        stored_total = 0;
      })
      let p = g.packer
      number ← ok_or (checked_sub (length p.chunks) first_chunk) (too_large "entry chunk count")
      chunk_count ← usize_to_u32 number "entry chunk count"
      let e : TocEntry = record {
        path = normalized_path;
        path_hash = path_hash;
        original_size = g.original_total;
        stored_size = g.stored_total;
        first_chunk = first_chunk;
        chunk_count = chunk_count;
      }
      let entries = p.entries ++ (e ∷ [])
      count ← usize_to_u32 (length entries) "entry count"
      ok (record p { entries = entries })

    -- The result, and the packer afterwards.
    unfoldable pub add_reader : ℕ → Packer W → List ℕ → R → Fallible (Unit {0}) × Packer W
    add_reader fuel p path reader =
        if p.failed
        then (err incomplete_pack, p)
        else after_add p (add_reader_inner fuel p path reader)

  -- The TOC as it is stored.
  unfoldable pub store_toc : Packer W → List ℕ → Fallible (List ℕ × ℕ)
  store_toc p toc_plain = do
    reserve env (env.maximum_output_size (length toc_plain)) "stored TOC allocation"
    compressed ← compress env toc_plain (env.maximum_output_size (length toc_plain))
    elim p.aead_key [
      | some key ↦ protect env (some key) p.draws compressed toc_aad
      | none ↦ (xor_in_place compressed p.key >>= λ toc_stored. ok (toc_stored, p.draws))
    ]

  -- The second half of `finish`, from the size of the stored TOC on: the summary, and the destination
  -- afterwards.
  unfoldable pub write_out : Packer W → List ℕ → ℕ → List ℕ → Fallible (PackSummary × W)
  write_out p toc_plain toc_raw_size toc_stored = do
    toc_size ← usize_to_u64 (length toc_stored) "stored TOC size"
    guard (leb toc_size Format.max_toc_stored_size) (too_large "stored TOC")
    w ← from_io (s.write_all p.writer toc_stored)
    archive_len ← ok_or (checked_add p.offset toc_size) (too_large "archive length")
    header ← header_of p p.offset toc_size toc_raw_size (env.xxh3_64 toc_plain)
    (start, w) ← from_io (s.seek_start w 0)
    w ← write_header w header
    (end, w) ← from_io (s.seek_start w archive_len)
    ok (
      record {
        archive_len = archive_len;
        entry_count = header.entry_count;
        chunk_count = header.chunk_count;
      },
      w,
    )

  unfoldable pub finish : Packer W → Fallible (PackSummary × W)
  finish unaligned = do
    guard (not unaligned.failed) incomplete_pack
    aligned ← align unaligned
    let p = strip aligned
    toc_plain ← encode_toc env p.entries p.chunks
    toc_raw_size ← usize_to_u64 (length toc_plain) "raw TOC size"
    guard (leb toc_raw_size Format.max_toc_raw_size) (too_large "raw TOC")
    (toc_stored, draws) ← store_toc p toc_plain
    write_out p toc_plain toc_raw_size toc_stored

  -- The loop over the files. A slice of `n` bytes is read in at most `n + 1` rounds of each loop.
  unfoldable pub add_files : Packer W → List InputFile → Fallible (Packer W)
  add_files p [] = ok p
  add_files p (file ∷ files) =
      let (result, p') = add_reader (suc (length file.contents)) p file.path file.contents in
      result >> add_files p' files

  unfoldable pub pack_with_options : W → List InputFile → List ℕ → PackOptions → Fallible W
  pack_with_options writer files key options = do
    packer ← new writer key options
    packer ← add_files packer files
    (summary, w) ← finish packer
    ok w

  unfoldable pub pack : W → List InputFile → List ℕ → Fallible W
  pack writer files key = pack_with_options writer files key default_options
