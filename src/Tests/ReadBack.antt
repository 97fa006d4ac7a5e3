-- ===== src/Tests/ReadBack.antt =====
-- An archive of two files at a concrete input, and a reader over it.
use rasen_archive.Prelude.{
  ℕ, ◌+◌, ◌<◌, ◌≤◌, ◌≡◌, refl, ap, sym, inl, List, [], ◌∷◌, ◌++◌, false, none, length,
  length-append, replicate, arith,
}
use rasen_archive.Format.Model.{Chunk}
use rasen_archive.Format.Header.{Header}
use rasen_archive.Format.Header.RoundTrip.{header_bytes, length-header_bytes}
use rasen_archive.Archive.Model.{Archive, xor, from_toc}
use rasen_archive.Archive.Source.{bytes_source}
use rasen_archive.Archive.Read.Whole.{IsContent}
use rasen_archive.Sink.Memory.{Memory, at_end}
use rasen_archive.Pack.Packer.Assets.{Asset}
use rasen_archive.Pack.Packer.Archive.{archive_header, summary_of, IsArchive}
use rasen_archive.Pack.Packer.ReadBack.{IsReaderOf, packed-IsContent}
use rasen_archive.Tests.Packs.{sample_options}
use rasen_archive.Tests.Setup.{platform, platform-IsRoomy}

abbrev chunk_zero : Chunk
chunk_zero = record {
  offset = 60;
  stored_size = 2;
  original_size = 2;
  checksum = 63;
  compressed = false;
}

abbrev chunk_one : Chunk
chunk_one = record {
  offset = 64;
  stored_size = 1;
  original_size = 1;
  checksum = 3;
  compressed = false;
}

-- The file "a" with the content 1 2 3, in two chunks.
abbrev asset_a : Asset
asset_a = record {
  entry = record {
    path = 97 ∷ [];
    path_hash = 97;
    original_size = 3;
    stored_size = 3;
    first_chunk = 0;
    chunk_count = 2;
  };
  blocks = (chunk_zero, 1 ∷ 2 ∷ []) ∷ (chunk_one, 3 ∷ []) ∷ [];
  content = 1 ∷ 2 ∷ 3 ∷ [];
}

-- The file "b", which is empty.
abbrev asset_b : Asset
asset_b = record {
  entry = record {
    path = 98 ∷ [];
    path_hash = 98;
    original_size = 0;
    stored_size = 0;
    first_chunk = 2;
    chunk_count = 0;
  };
  blocks = [];
  content = [];
}

abbrev toc_plain : List ℕ
toc_plain =
    84 ∷ 79 ∷ 67 ∷ 50 ∷ 97 ∷ 0 ∷ 0 ∷ 0 ∷ 0 ∷ 0 ∷ 0 ∷ 0 ∷ 3 ∷ 0 ∷ 0 ∷ 0 ∷ 0 ∷ 0 ∷ 0 ∷ 0 ∷ 3 ∷ 0 ∷ 0
    ∷ 0 ∷ 0 ∷ 0 ∷ 0 ∷ 0 ∷ 0 ∷ 0 ∷ 0 ∷ 0 ∷ 2 ∷ 0 ∷ 0 ∷ 0 ∷ 1 ∷ 0 ∷ 0 ∷ 0 ∷ 97 ∷ 98 ∷ 0 ∷ 0 ∷ 0 ∷ 0
    ∷ 0 ∷ 0 ∷ 0 ∷ 0 ∷ 0 ∷ 0 ∷ 0 ∷ 0 ∷ 0 ∷ 0 ∷ 0 ∷ 0 ∷ 0 ∷ 0 ∷ 0 ∷ 0 ∷ 0 ∷ 0 ∷ 0 ∷ 2 ∷ 0 ∷ 0 ∷ 0 ∷ 0
    ∷ 0 ∷ 0 ∷ 0 ∷ 1 ∷ 0 ∷ 0 ∷ 0 ∷ 98 ∷ 60 ∷ 0 ∷ 0 ∷ 0 ∷ 0 ∷ 0 ∷ 0 ∷ 0 ∷ 2 ∷ 0 ∷ 0 ∷ 0 ∷ 0 ∷ 0 ∷ 0
    ∷ 0 ∷ 2 ∷ 0 ∷ 0 ∷ 0 ∷ 0 ∷ 0 ∷ 0 ∷ 0 ∷ 63 ∷ 0 ∷ 0 ∷ 0 ∷ 0 ∷ 0 ∷ 0 ∷ 0 ∷ 0 ∷ 0 ∷ 0 ∷ 0 ∷ 64 ∷ 0
    ∷ 0 ∷ 0 ∷ 0 ∷ 0 ∷ 0 ∷ 0 ∷ 1 ∷ 0 ∷ 0 ∷ 0 ∷ 0 ∷ 0 ∷ 0 ∷ 0 ∷ 1 ∷ 0 ∷ 0 ∷ 0 ∷ 0 ∷ 0 ∷ 0 ∷ 0 ∷ 3 ∷ 0
    ∷ 0 ∷ 0 ∷ 0 ∷ 0 ∷ 0 ∷ 0 ∷ 0 ∷ 0 ∷ 0 ∷ 0 ∷ []

abbrev toc_stored : List ℕ
toc_stored =
    81 ∷ 74 ∷ 70 ∷ 55 ∷ 100 ∷ 5 ∷ 5 ∷ 5 ∷ 5 ∷ 5 ∷ 5 ∷ 5 ∷ 6 ∷ 5 ∷ 5 ∷ 5 ∷ 5 ∷ 5 ∷ 5 ∷ 5 ∷ 6 ∷ 5 ∷ 5
    ∷ 5 ∷ 5 ∷ 5 ∷ 5 ∷ 5 ∷ 5 ∷ 5 ∷ 5 ∷ 5 ∷ 7 ∷ 5 ∷ 5 ∷ 5 ∷ 4 ∷ 5 ∷ 5 ∷ 5 ∷ 100 ∷ 103 ∷ 5 ∷ 5 ∷ 5 ∷ 5
    ∷ 5 ∷ 5 ∷ 5 ∷ 5 ∷ 5 ∷ 5 ∷ 5 ∷ 5 ∷ 5 ∷ 5 ∷ 5 ∷ 5 ∷ 5 ∷ 5 ∷ 5 ∷ 5 ∷ 5 ∷ 5 ∷ 5 ∷ 7 ∷ 5 ∷ 5 ∷ 5 ∷ 5
    ∷ 5 ∷ 5 ∷ 5 ∷ 4 ∷ 5 ∷ 5 ∷ 5 ∷ 103 ∷ 57 ∷ 5 ∷ 5 ∷ 5 ∷ 5 ∷ 5 ∷ 5 ∷ 5 ∷ 7 ∷ 5 ∷ 5 ∷ 5 ∷ 5 ∷ 5 ∷ 5
    ∷ 5 ∷ 7 ∷ 5 ∷ 5 ∷ 5 ∷ 5 ∷ 5 ∷ 5 ∷ 5 ∷ 58 ∷ 5 ∷ 5 ∷ 5 ∷ 5 ∷ 5 ∷ 5 ∷ 5 ∷ 5 ∷ 5 ∷ 5 ∷ 5 ∷ 69 ∷ 5
    ∷ 5 ∷ 5 ∷ 5 ∷ 5 ∷ 5 ∷ 5 ∷ 4 ∷ 5 ∷ 5 ∷ 5 ∷ 5 ∷ 5 ∷ 5 ∷ 5 ∷ 4 ∷ 5 ∷ 5 ∷ 5 ∷ 5 ∷ 5 ∷ 5 ∷ 5 ∷ 6 ∷ 5
    ∷ 5 ∷ 5 ∷ 5 ∷ 5 ∷ 5 ∷ 5 ∷ 5 ∷ 5 ∷ 5 ∷ 5 ∷ []

abbrev payload : List ℕ
payload = 1 ∷ 2 ∷ 0 ∷ 0 ∷ 3 ∷ []

abbrev header : Header
header = archive_header sample_options 2 2 68 150 150 (platform.xxh3_64 toc_plain)

abbrev behind_header : List ℕ
behind_header = (payload ++ replicate 3 0) ++ toc_stored

abbrev destination : Memory
destination = at_end (header_bytes header ++ behind_header)

abbrev reader : Archive
reader = record {
  source = bytes_source destination.contents;
  entries = from_toc asset_a.entry ∷ from_toc asset_b.entry ∷ [];
  chunks = chunk_zero ∷ chunk_one ∷ [];
  index = (97, 0) ∷ (98, 1) ∷ [];
  chunk_size = 2;
  alignment = 4;
  paths_stripped = false;
  protection = xor;
  aead_key = none;
  max_chunks_per_operation = 2;
}

destination_length : length destination.contents ≡ 218
destination_length =
    omega (arith, length-append (header_bytes header) behind_header, length-header_bytes header)

destination-IsArchive :
    IsArchive platform
      (5 ∷ [])
      sample_options
      (asset_a ∷ asset_b ∷ [])
      (summary_of 218 2 2)
      destination
unfolding rasen_archive.Tests.Setup.digest rasen_archive.Format.Toc.encode_toc
    rasen_archive.Format.Toc.encode_entry rasen_archive.Format.Toc.encode_chunk
    rasen_archive.Format.Toc.entries_size rasen_archive.Format.Toc.encode_entries
    rasen_archive.Format.Toc.encode_chunks rasen_archive.Prelude.to_le_bytes
    rasen_archive.Format.Io.usize_to_u32 rasen_archive.Format.Io.usize_to_u64
    rasen_archive.Crypto.Xor.xor_from rasen_archive.Crypto.Xor.xor_in_place
    rasen_archive.Pack.Model.clear_path rasen_archive.Pack.Store.Pieces.cut
destination-IsArchive = record {
  header = header;
  payload = payload;
  padding = 3;
  toc_plain = toc_plain;
  toc_compressed = toc_plain;
  toc_stored = toc_stored;
  contents = refl;
  header_is = refl;
  toc_aligned = refl;
  encoded = refl;
  toc_restored = refl;
  toc_sealed = (refl, refl);
  raw_small = omega arith;
  stored_small = omega arith;
  stored = (
    record {
      plain = 1 ∷ 2 ∷ [];
      stored = 1 ∷ 2 ∷ [];
      front = [];
      back = 0 ∷ 0 ∷ 3 ∷ [];
      some_bytes = omega arith;
      fits = omega arith;
      original = refl;
      size = refl;
      checked = refl;
      packed = refl;
      sealed = refl;
      place = refl;
      at_offset = refl;
      aligned = refl;
    },
    omega arith,
    (
      record {
        plain = 3 ∷ [];
        stored = 3 ∷ [];
        front = 1 ∷ 2 ∷ 0 ∷ 0 ∷ [];
        back = [];
        some_bytes = omega arith;
        fits = omega arith;
        original = refl;
        size = refl;
        checked = refl;
        packed = refl;
        sealed = refl;
        place = refl;
        at_offset = refl;
        aligned = refl;
      },
      omega arith,
      tt,
    ),
  );
  ordered = omega arith;
  described = (
    record {
      hashed = refl;
      original_size = refl;
      stored_size = refl;
      first_chunk = refl;
      chunk_count = refl;
      pieces = refl;
    },
    (
      record {
        hashed = refl;
        original_size = refl;
        stored_size = refl;
        first_chunk = refl;
        chunk_count = refl;
        pieces = refl;
      },
      tt,
    ),
  );
  distinct = ((inl (omega arith), tt), (tt, tt));
  summary_is = ap (λ n. summary_of n 2 2) (sym destination_length);
  position = refl;
}

reader-IsReaderOf :
    IsReaderOf platform (5 ∷ []) sample_options (asset_a ∷ asset_b ∷ []) destination reader
reader-IsReaderOf = record {
  over = refl;
  chunks = refl;
  aead_key = refl;
  allowed = omega arith;
  few_chunks = omega arith;
  small = omega (arith, destination_length);
  chunk_small = omega arith;
}

packed-IsContent_example : IsContent platform reader (from_toc asset_a.entry) (1 ∷ 2 ∷ 3 ∷ [])
packed-IsContent_example =
    packed-IsContent platform platform-IsRoomy (5 ∷ []) sample_options (asset_a ∷ asset_b ∷ [])
      (summary_of 218 2 2) destination reader destination-IsArchive reader-IsReaderOf []
      (asset_b ∷ []) asset_a (omega arith) refl
