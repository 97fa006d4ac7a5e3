-- ===== src/Pack/Packer/Archive.antt =====
-- What `pack_with_options` of crates/rasen-archive/src/pack/writer.rs promises of the destination.
use rasen_archive.Prelude.{ℕ, ◌+◌, ◌%◌, ◌≤◌, ◌≡◌, List, ◌++◌, map, length, replicate, if◌then◌else◌}
use rasen_archive.Error.{ok}
use rasen_archive.Platform.{Platform}
use rasen_archive.Sink.Memory.{Memory, memory_sink}
use rasen_archive.Format
use rasen_archive.Format.Header.{Header}
use rasen_archive.Format.Header.RoundTrip.{header_bytes}
use rasen_archive.Format.Toc.{encode_toc}
use rasen_archive.Pack.Options.{PackOptions, strips_paths}
use rasen_archive.Pack.Model.{clear_path, header_flags}
use rasen_archive.Pack.Store.{aead_key_of}
use rasen_archive.Pack.Store.Stored.{chunks_of, AreStored, end_of}
use rasen_archive.Pack.Packer.{PackSummary}
use rasen_archive.Pack.Packer.Unique.{AreDistinct}
use rasen_archive.Pack.Packer.Assets.{Asset, entries_of, blocks_of, AreAssets}
use rasen_archive.Pack.Packer.Finish.{TocSealed}

abbrev pub archive_header : PackOptions → ℕ → ℕ → ℕ → ℕ → ℕ → ℕ → Header
archive_header options entry_count chunk_count toc_offset toc_size toc_raw_size toc_hash = record {
  version = Format.version;
  flags = header_flags options;
  header_size = Format.header_size;
  alignment = options.alignment;
  chunk_size = options.chunk_size;
  entry_count = entry_count;
  chunk_count = chunk_count;
  toc_offset = toc_offset;
  toc_size = toc_size;
  toc_raw_size = toc_raw_size;
  toc_hash = toc_hash;
}

abbrev pub summary_of : ℕ → ℕ → ℕ → PackSummary
summary_of archive_len entry_count chunk_count = record {
  archive_len = archive_len;
  entry_count = entry_count;
  chunk_count = chunk_count;
}

module _ (env : Platform) where
  -- The destination holds an archive of the assets, under these options and this key: the header, the
  -- blocks, the padding and the TOC.
  pub record IsArchive (key : List ℕ) (options : PackOptions) (assets : List Asset)
      (summary : PackSummary) (w : Memory) : Type 0 where
    pub header : Header
    pub payload : List ℕ
    pub padding : ℕ
    pub toc_plain : List ℕ
    pub toc_compressed : List ℕ
    pub toc_stored : List ℕ
    pub contents :
        w.contents ≡ header_bytes header ++ ((payload ++ replicate padding 0) ++ toc_stored)
    pub header_is :
        header
        ≡ archive_header options
            (length assets)
            (length (blocks_of assets))
            (Format.header_size + length payload + padding)
            (length toc_stored)
            (length toc_plain)
            (env.xxh3_64 toc_plain)
    pub toc_aligned : header.toc_offset % options.alignment ≡ 0
    pub encoded :
        encode_toc env
          (if strips_paths options.mode
            then map clear_path (entries_of assets)
            else entries_of assets)
          (chunks_of (blocks_of assets))
        ≡ ok toc_plain
    pub toc_restored : env.decompress_into toc_compressed (length toc_plain) ≡ ok toc_plain
    pub toc_sealed :
        TocSealed env (aead_key_of env options.protection key) key toc_compressed toc_stored
    pub raw_small : length toc_plain ≤ Format.max_toc_raw_size
    pub stored_small : length toc_stored ≤ Format.max_toc_stored_size
    pub stored :
        AreStored env
          (aead_key_of env options.protection key)
          options.chunk_size
          options.alignment
          payload
          0
          Format.header_size
          (blocks_of assets)
    pub ordered : end_of Format.header_size (blocks_of assets) ≤ header.toc_offset
    pub described : AreAssets env options.chunk_size 0 assets
    pub distinct : AreDistinct (strips_paths options.mode) (entries_of assets)
    pub summary_is :
        summary ≡ summary_of (length w.contents) (length assets) (length (blocks_of assets))
    pub position : w.position ≡ length w.contents
