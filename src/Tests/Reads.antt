-- ===== src/Tests/Reads.antt =====
-- Reading from a small archive in memory.
use rasen_archive.Prelude.{
  ℕ, ◌≡◌, refl, List, [], ◌∷◌, true, false, some, none, get_elem?, slice, bytes_eq,
}
use rasen_archive.Error.{ok}
use rasen_archive.VirtualPath.{
  normalize_lookup_path, normalize_path, normalize_parts, split, classify, contains_nul,
}
use rasen_archive.Format.Io.{u64_to_usize}
use rasen_archive.Archive.Source.{bytes_source, read_slice_exact}
use rasen_archive.Archive.Source.Bytes.{bytes_source-IsSource}
use rasen_archive.Archive.Model.{Archive, Entry, xor}
use rasen_archive.Archive.Index.{hash_range, partition_point}
use rasen_archive.Archive.Lookup.{find_entry_index_normalized, find_path}
use rasen_archive.Archive.Chunks.{
  path_label, resize_buffer, allocate, ensure_chunk_operation_limit, chunk, global_index,
  decrypt_chunk, decompress_chunk, load_stored, load_chunk, read_chunk_by_index_into,
}
use rasen_archive.Archive.Chunks.Decode.{Decodes, read_chunk_by_index_into-Decodes}
use rasen_archive.Archive.Read.{read_entry_chunks, read_entry_into, read_found, read}
use rasen_archive.Archive.Read.Whole.{IsContent, read-IsContent}
use rasen_archive.Compression.{decompress_into_exact}
use rasen_archive.Prelude.{inl, inr, arith}
use rasen_archive.Archive.Model.{ArchiveScratch, no_scratch}
use rasen_archive.Archive.Range.{read_range_index_into, read_range, read_range_exact}
use rasen_archive.Archive.Range.Bytes.{IsReadable, read_range-slice, read_range_exact-slice}
use rasen_archive.Error.{err, invalid_range}
use rasen_archive.Prelude.{if◌then◌else◌, leb, bytes_eq}
use rasen_archive.Archive.Range.Slice.{read_range_index_into-slice}
use rasen_archive.Tests.Setup.{digest, platform, platform-IsRoomy}

-- The entry "ab" with the content 1 2 3 in two chunks, the second of them marked as compressed.
abbrev entry_sample : Entry
entry_sample = record {
  path = 97 ∷ 98 ∷ [];
  path_hash = 3135;
  original_size = 3;
  stored_size = 3;
  first_chunk = 0;
  chunk_count = 2;
}

abbrev pub archive_sample : Archive
archive_sample = record {
  source = bytes_source (0 ∷ 0 ∷ 1 ∷ 2 ∷ 3 ∷ []);
  entries = entry_sample ∷ [];
  chunks =
      record { offset = 2; stored_size = 2; original_size = 2; checksum = 63; compressed = false }
      ∷ record { offset = 4; stored_size = 1; original_size = 1; checksum = 3; compressed = true }
      ∷ [];
  index = (3135, 0) ∷ [];
  chunk_size = 2;
  alignment = 1;
  paths_stripped = false;
  protection = xor;
  aead_key = none;
  max_chunks_per_operation = 10;
}

pub read_sample : read platform archive_sample (97 ∷ 98 ∷ []) ≡ ok (1 ∷ 2 ∷ 3 ∷ [])
unfolding read normalize_lookup_path normalize_path normalize_parts split classify contains_nul
    bytes_eq find_entry_index_normalized find_path hash_range partition_point slice digest
    read_found read_entry_into read_entry_chunks read_chunk_by_index_into load_chunk load_stored
    resize_buffer allocate ensure_chunk_operation_limit chunk global_index decrypt_chunk
    decompress_chunk decompress_into_exact read_slice_exact u64_to_usize
read_sample = refl

chunk_sample :
    read_chunk_by_index_into platform archive_sample (path_label (97 ∷ [])) 1 1 1 []
    ≡ ok (3 ∷ [], 3 ∷ [])
unfolding read_chunk_by_index_into load_chunk load_stored resize_buffer ensure_chunk_operation_limit
    chunk decrypt_chunk decompress_chunk decompress_into_exact read_slice_exact slice digest
    u64_to_usize
chunk_sample = refl

read_chunk_by_index_into-Decodes_example : Decodes platform archive_sample 1 (3 ∷ [])
read_chunk_by_index_into-Decodes_example =
    read_chunk_by_index_into-Decodes platform archive_sample platform-IsRoomy
      (bytes_source-IsSource (0 ∷ 0 ∷ 1 ∷ 2 ∷ 3 ∷ [])) (path_label (97 ∷ [])) 1 1 1 [] (3 ∷ [])
      (3 ∷ []) chunk_sample

read-IsContent_example :
    (normalized : List ℕ) × (idx : ℕ) × (e : Entry) × (normalize_lookup_path platform (97 ∷ 98 ∷ [])
      ≡ ok normalized)
    × (find_entry_index_normalized platform archive_sample normalized ≡ ok idx)
    × (get_elem? archive_sample.entries idx ≡ some e)
    × IsContent platform archive_sample e (1 ∷ 2 ∷ 3 ∷ [])
read-IsContent_example =
    read-IsContent platform archive_sample platform-IsRoomy
      (bytes_source-IsSource (0 ∷ 0 ∷ 1 ∷ 2 ∷ 3 ∷ [])) (97 ∷ 98 ∷ []) (1 ∷ 2 ∷ 3 ∷ []) read_sample

chunk_zero_sample :
    read_chunk_by_index_into platform archive_sample (path_label (97 ∷ [])) 0 0 2 []
    ≡ ok (1 ∷ 2 ∷ [], [])
unfolding read_chunk_by_index_into load_chunk load_stored resize_buffer ensure_chunk_operation_limit
    chunk decrypt_chunk decompress_chunk decompress_into_exact read_slice_exact slice digest
    u64_to_usize
chunk_zero_sample = refl

chunk_zero-Decodes : Decodes platform archive_sample 0 (1 ∷ 2 ∷ [])
chunk_zero-Decodes =
    read_chunk_by_index_into-Decodes platform archive_sample platform-IsRoomy
      (bytes_source-IsSource (0 ∷ 0 ∷ 1 ∷ 2 ∷ 3 ∷ [])) (path_label (97 ∷ [])) 0 0 2 [] (1 ∷ 2 ∷ [])
      [] chunk_zero_sample

chunk_one-Decodes : Decodes platform archive_sample 1 (3 ∷ [])
chunk_one-Decodes =
    read_chunk_by_index_into-Decodes platform archive_sample platform-IsRoomy
      (bytes_source-IsSource (0 ∷ 0 ∷ 1 ∷ 2 ∷ 3 ∷ [])) (path_label (97 ∷ [])) 1 1 1 [] (3 ∷ [])
      (3 ∷ []) chunk_sample

abbrev content_sample : IsContent platform archive_sample entry_sample (1 ∷ 2 ∷ 3 ∷ [])
content_sample = record {
  blocks = (1 ∷ 2 ∷ []) ∷ (3 ∷ []) ∷ [];
  number = refl;
  decoded = (omega arith, chunk_zero-Decodes, (omega arith, chunk_one-Decodes, tt));
  joined = refl;
  sized = refl;
}

-- Bytes 1 and 2 of the content, from both chunks.
read_range_index_into-slice_example :
    (scratch' : ArchiveScratch) × (read_range_index_into platform archive_sample 0
        (path_label (97 ∷ []))
        1
        2
        no_scratch
      ≡ ok (2 ∷ 3 ∷ [], scratch'))
read_range_index_into-slice_example =
    read_range_index_into-slice platform archive_sample platform-IsRoomy 0 (path_label (97 ∷ []))
      entry_sample (1 ∷ 2 ∷ 3 ∷ []) content_sample 1 2 no_scratch refl (omega arith) (omega arith)
      (omega arith) (omega arith, omega arith, inl refl, (omega arith, omega arith, inr refl, tt))
      (omega arith)

ab_is_normal : normalize_lookup_path platform (97 ∷ 98 ∷ []) ≡ ok (97 ∷ 98 ∷ [])
unfolding normalize_lookup_path normalize_path normalize_parts split classify contains_nul bytes_eq
ab_is_normal = refl

ab_is_found : find_entry_index_normalized platform archive_sample (97 ∷ 98 ∷ []) ≡ ok 0
unfolding find_entry_index_normalized find_path hash_range partition_point slice digest bytes_eq
ab_is_found = refl

abbrev readable_sample : IsReadable platform archive_sample (97 ∷ 98 ∷ []) (1 ∷ 2 ∷ 3 ∷ [])
readable_sample = record {
  normalized = 97 ∷ 98 ∷ [];
  idx = 0;
  entry = entry_sample;
  normal = ab_is_normal;
  found = ab_is_found;
  at_index = refl;
  content = content_sample;
  count_fits = omega arith;
  size_fits = omega arith;
  chunk_size_pos = omega arith;
  cut = (omega arith, omega arith, inl refl, (omega arith, omega arith, inr refl, tt));
  allowed = omega arith;
}

read_range-slice_example :
    read_range platform archive_sample (97 ∷ 98 ∷ []) 1 9
    ≡ (if leb 1 3 then ok (2 ∷ 3 ∷ []) else err invalid_range)
read_range-slice_example =
    read_range-slice platform archive_sample platform-IsRoomy (97 ∷ 98 ∷ []) (1 ∷ 2 ∷ 3 ∷ [])
      readable_sample 1 9 (omega arith)

read_range_exact-slice_example :
    read_range_exact platform archive_sample (97 ∷ 98 ∷ []) 1 9
    ≡ (if leb 10 3 then ok (2 ∷ 3 ∷ []) else err invalid_range)
read_range_exact-slice_example =
    read_range_exact-slice platform archive_sample platform-IsRoomy (97 ∷ 98 ∷ []) (1 ∷ 2 ∷ 3 ∷ [])
      readable_sample 1 9 (omega arith)
