-- ===== src/Tests/Layouts.antt =====
-- Alignments, headers, tables and their layout at concrete inputs.
use rasen_archive.Prelude.{
  ℕ, ◌+◌, ◌*◌, ◌^◌, ◌≤◌, ◌<◌, ◌≡◌, refl, ◌↔◌, List, [], ◌∷◌, ◌++◌, Bool, true, false,
}
use rasen_archive.Prelude.{All, length, slice, bytes_eq, arith}
use rasen_archive.Error.{ok, from_io}
use rasen_archive.Format
use rasen_archive.Format.{validate_alignment}
use rasen_archive.Format.Alignment.{validate_alignment_iff}
use rasen_archive.Format.Io.{align_up}
use rasen_archive.Format.Io.Align.{align_up-least}
use rasen_archive.Format.Header.{Header, write_header, read_header}
use rasen_archive.Format.Header.RoundTrip.{IsHeader, read_header-write_header}
use rasen_archive.Format.Model.{TocEntry, Chunk}
use rasen_archive.Format.Toc.{Limits, encode_toc, decode_toc}
use rasen_archive.Format.Toc.Chunks.{IsChunk}
use rasen_archive.Format.Toc.RoundTrip.{raw_size, decode_toc-encode_toc}
use rasen_archive.Format.Layout.{
  Bounds, check_chunk, check_chunks, check_shape, own_chunks, check_entry, check_entries, all_used,
  payload_size, validate_layout,
}
use rasen_archive.Format.Layout.Sound.{IsLayout, validate_layout-IsLayout, validate_layout-disjoint}
use rasen_archive.VirtualPath.{normalize_path, normalize_parts, split, classify, contains_nul}
use rasen_archive.Format.Toc.Entries.{IsEntry, path_bytes}
use rasen_archive.Tests.Setup.{digest, platform, platform-IsRoomy, list_sink, list_sink-IsSink}

validate_alignment_iff_example :
    (validate_alignment 4096 ≡ ok tt) ↔ ((k : ℕ) × (k ≤ 20) × (4096 ≡ 2 ^ k))
validate_alignment_iff_example = validate_alignment_iff 4096

align_up-least_example :
    (q : ℕ) × (align_up 61 (2 ^ 4) ≡ ok (q * 2 ^ 4)) × (61 ≤ q * 2 ^ 4) × (q * 2 ^ 4 < 61 + 2 ^ 4)
align_up-least_example = align_up-least 4 61 (omega arith) (omega arith)

abbrev header_sample : Header
header_sample = record {
  version = 1;
  flags = 15;
  header_size = 60;
  alignment = 16;
  chunk_size = 2;
  entry_count = 2;
  chunk_count = 3;
  toc_offset = 112;
  toc_size = 190;
  toc_raw_size = 190;
  toc_hash = 0x1122_3344_5566_7788;
}

header_sample-IsHeader : IsHeader header_sample
header_sample-IsHeader = record {
  version_fits = omega arith;
  flags_fit = omega arith;
  header_size_fits = omega arith;
  alignment_fits = omega arith;
  chunk_size_fits = omega arith;
  entry_count_fits = omega arith;
  chunk_count_fits = omega arith;
  toc_offset_fits = omega arith;
  toc_size_fits = omega arith;
  toc_raw_size_fits = omega arith;
  toc_hash_fits = omega arith;
}

read_header-write_header_example :
    (bytes : List ℕ) × (write_header (7 ∷ []) header_sample
      ≡ from_io (list_sink.write_all (7 ∷ []) bytes))
    × (length bytes ≡ Format.header_size)
    × ((rest : List ℕ) → read_header (bytes ++ rest) ≡ ok (header_sample, rest))
read_header-write_header_example =
    read_header-write_header list_sink-IsSink (7 ∷ []) header_sample header_sample-IsHeader

-- Two entries: "ab" with two chunks, and "c" with one.
abbrev entries_sample : List TocEntry
entries_sample =
    record {
      path = 97 ∷ 98 ∷ [];
      path_hash = 3135;
      original_size = 3;
      stored_size = 3;
      first_chunk = 0;
      chunk_count = 2;
    }
    ∷ record {
      path = 99 ∷ [];
      path_hash = 99;
      original_size = 2;
      stored_size = 1;
      first_chunk = 2;
      chunk_count = 1;
    }
    ∷ []

abbrev chunks_sample : List Chunk
chunks_sample =
    record { offset = 64; stored_size = 2; original_size = 2; checksum = 63; compressed = false }
    ∷ record { offset = 80; stored_size = 1; original_size = 1; checksum = 3; compressed = false }
    ∷ record { offset = 96; stored_size = 1; original_size = 2; checksum = 5; compressed = true }
    ∷ []

abbrev bounds_sample : Bounds
bounds_sample = record {
  toc_offset = 112;
  chunk_size = 2;
  alignment = 16;
  aead = false;
  max_total_decompressed_bytes = 100;
}

accepted_sample : validate_layout platform entries_sample chunks_sample bounds_sample ≡ ok tt
unfolding validate_layout check_chunks check_chunk payload_size check_entries check_entry
    check_shape own_chunks all_used slice
accepted_sample = refl

validate_layout-IsLayout_example : IsLayout bounds_sample entries_sample chunks_sample
validate_layout-IsLayout_example =
    validate_layout-IsLayout platform entries_sample chunks_sample bounds_sample accepted_sample

validate_layout-disjoint_example : (Format.header_size ≤ 64) × (64 + 2 ≤ 96) × (96 + 1 ≤ 112)
validate_layout-disjoint_example =
    validate_layout-disjoint platform entries_sample chunks_sample bounds_sample 0 2
      (record {
        offset = 64;
        stored_size = 2;
        original_size = 2;
        checksum = 63;
        compressed = false;
      })
      (record { offset = 96; stored_size = 1; original_size = 2; checksum = 5; compressed = true })
      accepted_sample (omega arith) refl refl

abbrev limits_sample : Limits
limits_sample = record {
  paths_stripped = false;
  max_path_bytes = 100;
  max_total_path_bytes = 100;
  max_single_asset_bytes = 1000;
}

ab_is_normal : normalize_path platform (97 ∷ 98 ∷ []) ≡ ok (97 ∷ 98 ∷ [])
unfolding normalize_path normalize_parts split classify contains_nul bytes_eq
ab_is_normal = refl

c_is_normal : normalize_path platform (99 ∷ []) ≡ ok (99 ∷ [])
unfolding normalize_path normalize_parts split classify contains_nul bytes_eq
c_is_normal = refl

digests : (digest (97 ∷ 98 ∷ []) ≡ 3135) × (digest (99 ∷ []) ≡ 99)
unfolding digest
digests = (refl, refl)

entries_sample-IsEntry : All (IsEntry platform limits_sample) entries_sample
entries_sample-IsEntry = (
  record {
    path_hash_fits = omega arith;
    original_size_fits = omega arith;
    stored_size_fits = omega arith;
    first_chunk_fits = omega arith;
    chunk_count_fits = omega arith;
    path_fits = omega arith;
    path_allowed = omega arith;
    asset_allowed = omega arith;
    path_valid = (omega arith, refl, ab_is_normal, digests.0);
  },
  (
    record {
      path_hash_fits = omega arith;
      original_size_fits = omega arith;
      stored_size_fits = omega arith;
      first_chunk_fits = omega arith;
      chunk_count_fits = omega arith;
      path_fits = omega arith;
      path_allowed = omega arith;
      asset_allowed = omega arith;
      path_valid = (omega arith, refl, c_is_normal, digests.1);
    },
    tt,
  ),
)

sample-IsChunk :
    (offset stored_size original_size checksum : ℕ) (compressed : Bool)
    → offset < 1000
    → stored_size < 1000
    → original_size < 1000
    → checksum < 1000
    → IsChunk (record {
      offset = offset;
      stored_size = stored_size;
      original_size = original_size;
      checksum = checksum;
      compressed = compressed;
    })
sample-IsChunk offset stored_size original_size checksum compressed p q r s = record {
  offset_fits = omega arith;
  stored_size_fits = omega arith;
  original_size_fits = omega arith;
  checksum_fits = omega arith;
}

chunks_sample-IsChunk : All IsChunk chunks_sample
chunks_sample-IsChunk = (
  sample-IsChunk 64 2 2 63 false (omega arith) (omega arith) (omega arith) (omega arith),
  (
    sample-IsChunk 80 1 1 3 false (omega arith) (omega arith) (omega arith) (omega arith),
    (sample-IsChunk 96 1 2 5 true (omega arith) (omega arith) (omega arith) (omega arith), tt),
  ),
)

decode_toc-encode_toc_example :
    (bytes : List ℕ) × (encode_toc platform entries_sample chunks_sample ≡ ok bytes)
    × (length bytes ≡ raw_size entries_sample chunks_sample)
    × (decode_toc platform bytes 2 3 limits_sample ≡ ok (entries_sample, chunks_sample))
unfolding path_bytes
decode_toc-encode_toc_example =
    decode_toc-encode_toc platform entries_sample chunks_sample platform-IsRoomy limits_sample
      entries_sample-IsEntry chunks_sample-IsChunk (omega arith) (omega arith)
