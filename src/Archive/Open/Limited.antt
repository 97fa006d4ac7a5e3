-- ===== src/Archive/Open/Limited.antt =====
-- What `validate_limits` and `clamped` of crates/rasen-archive/src/archive/reader.rs guarantee.
use rasen_archive.Prelude.{ℕ, ◌+◌, ◌*◌, ◌≤◌, ◌≡◌, ◌⊎◌, inl, inr, arith, true}
use rasen_archive.Error.{ok}
use rasen_archive.Format
use rasen_archive.Format.Header.{Header}
use rasen_archive.Archive.Limits.{ArchiveLimits, clamped, tooling_default}
use rasen_archive.Archive.Open.{
  has_flag, entry_memory, chunk_memory, estimated_metadata_bytes, minimum_toc, validate_limits,
}

-- Every limit is at most the other one.
pub record AreStricter (l m : ArchiveLimits) : Type 0 where
  pub toc_stored_bytes : l.max_toc_stored_bytes ≤ m.max_toc_stored_bytes
  pub toc_raw_bytes : l.max_toc_raw_bytes ≤ m.max_toc_raw_bytes
  pub entries : l.max_entries ≤ m.max_entries
  pub chunks : l.max_chunks ≤ m.max_chunks
  pub chunks_per_operation : l.max_chunks_per_operation ≤ m.max_chunks_per_operation
  pub path_bytes : l.max_path_bytes ≤ m.max_path_bytes
  pub total_path_bytes : l.max_total_path_bytes ≤ m.max_total_path_bytes
  pub total_decompressed_bytes : l.max_total_decompressed_bytes ≤ m.max_total_decompressed_bytes
  pub single_asset_bytes : l.max_single_asset_bytes ≤ m.max_single_asset_bytes
  pub metadata_bytes : l.max_metadata_bytes ≤ m.max_metadata_bytes

pub clamped-AreStricter : (l : ArchiveLimits) → AreStricter (clamped l) l
unfolding clamped
clamped-AreStricter l = record {
  toc_stored_bytes = omega arith;
  toc_raw_bytes = omega arith;
  entries = omega arith;
  chunks = omega arith;
  chunks_per_operation = omega arith;
  path_bytes = omega arith;
  total_path_bytes = omega arith;
  total_decompressed_bytes = omega arith;
  single_asset_bytes = omega arith;
  metadata_bytes = omega arith;
}

pub clamped-AreStricter_hard : (l : ArchiveLimits) → AreStricter (clamped l) tooling_default
unfolding clamped tooling_default
clamped-AreStricter_hard l = record {
  toc_stored_bytes = omega arith;
  toc_raw_bytes = omega arith;
  entries = omega arith;
  chunks = omega arith;
  chunks_per_operation = omega arith;
  path_bytes = omega arith;
  total_path_bytes = omega arith;
  total_decompressed_bytes = omega arith;
  single_asset_bytes = omega arith;
  metadata_bytes = omega arith;
}

-- The header keeps the limits. A debug entry has a path byte at least, and the estimate of the memory
-- counts the stored TOC, the raw TOC twice, and each entry and chunk.
pub record IsWithin (l : ArchiveLimits) (h : Header) : Type 0 where
  pub stored_toc : h.toc_size ≤ l.max_toc_stored_bytes
  pub raw_toc : h.toc_raw_size ≤ l.max_toc_raw_bytes
  pub entries : h.entry_count ≤ l.max_entries
  pub chunks : h.chunk_count ≤ l.max_chunks
  pub paths :
      (has_flag h Format.header_flag_paths_stripped ≡ true)
      ⊎ (h.entry_count ≤ l.max_total_path_bytes)
  pub records : 36 * h.entry_count + 36 * h.chunk_count + 4 ≤ h.toc_raw_size
  pub records_with_paths :
      (has_flag h Format.header_flag_paths_stripped ≡ true)
      ⊎ (37 * h.entry_count + 36 * h.chunk_count + 4 ≤ h.toc_raw_size)
  pub metadata :
      h.toc_size + 2 * h.toc_raw_size + entry_memory * h.entry_count + chunk_memory * h.chunk_count
      ≤ l.max_metadata_bytes

estimated_metadata_bytes-sum :
    (h : Header) (n : ℕ)
    → estimated_metadata_bytes h ≡ ok n
    → h.toc_size + 2 * h.toc_raw_size + entry_memory * h.entry_count + chunk_memory * h.chunk_count
      ≡ n
unfolding estimated_metadata_bytes
estimated_metadata_bytes-sum h n e = ground arith

minimum_toc-le :
    (h : Header) (n : ℕ)
    → minimum_toc h ≡ ok n
    → (36 * h.entry_count + 36 * h.chunk_count + 4 ≤ n)
      × ((has_flag h Format.header_flag_paths_stripped ≡ true)
          ⊎ (37 * h.entry_count + 36 * h.chunk_count + 4 ≤ n))
unfolding minimum_toc
minimum_toc-le h n e = ground arith

limits_parts :
    (h : Header) (l : ArchiveLimits)
    → validate_limits h l ≡ ok tt
    → (h.toc_size ≤ l.max_toc_stored_bytes)
      × (h.toc_raw_size ≤ l.max_toc_raw_bytes)
      × (h.entry_count ≤ l.max_entries)
      × (h.chunk_count ≤ l.max_chunks)
      × ((has_flag h Format.header_flag_paths_stripped ≡ true)
          ⊎ (h.entry_count ≤ l.max_total_path_bytes))
      × ((minimum : ℕ) × (estimate : ℕ) × (minimum_toc h ≡ ok minimum)
          × (minimum ≤ h.toc_raw_size)
          × (estimated_metadata_bytes h ≡ ok estimate)
          × (estimate ≤ l.max_metadata_bytes))
unfolding validate_limits
limits_parts h l e = ground arith

pub validate_limits-IsWithin :
    (h : Header) (l : ArchiveLimits) → validate_limits h l ≡ ok tt → IsWithin l h
validate_limits-IsWithin h l e =
    let (stored, raw, entries, chunks, paths, (minimum, estimate, e1, fits, e2, small)) =
      limits_parts h l e in
    let (records, with_paths) = minimum_toc-le h minimum e1 in
    let sum = estimated_metadata_bytes-sum h estimate e2 in
    record {
      stored_toc = stored;
      raw_toc = raw;
      entries = entries;
      chunks = chunks;
      paths = paths;
      records = omega (arith, records, fits);
      records_with_paths = elim with_paths [
        | inl stripped ↦ inl stripped
        | inr more ↦ inr (omega (arith, more, fits))
      ];
      metadata = omega (arith, sum, small);
    }
