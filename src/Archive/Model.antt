-- ===== src/Archive/Model.antt =====
-- The state of an open archive: `Entry`, `ArchiveScratch` and `Archive` of
-- crates/rasen-archive/src/archive/reader.rs, and `Protection` of src/pack/options.rs.
use rasen_archive.Prelude.{ℕ, List, [], Bool, Option, some, none, if◌then◌else◌}
use rasen_archive.VirtualPath
use rasen_archive.Format.Model.{TocEntry, Chunk}
use rasen_archive.Archive.Source.{Source}

pub data Protection : Type 0 where
  xor : Protection
  aead : Protection

pub record Entry : Type 0 where
  pub path : List ℕ
  pub path_hash : ℕ
  pub original_size : ℕ
  pub stored_size : ℕ
  pub first_chunk : ℕ
  pub chunk_count : ℕ

-- `impl From<TocEntry> for Entry`
unfoldable pub from_toc : TocEntry → Entry
from_toc e = record {
  path = e.path;
  path_hash = e.path_hash;
  original_size = e.original_size;
  stored_size = e.stored_size;
  first_chunk = e.first_chunk;
  chunk_count = e.chunk_count;
}

-- `Entry::path`
unfoldable pub entry_path : Entry → Option (List ℕ)
entry_path e = if VirtualPath.is_empty e.path then none else some e.path

pub record ArchiveScratch : Type 0 where
  pub stored : List ℕ
  pub decoded : List ℕ

abbrev pub no_scratch : ArchiveScratch
no_scratch = record { stored = []; decoded = [] }

-- An asset identifier is its number.
pub record Archive : Type 0 where
  pub source : Source
  pub entries : List Entry
  pub chunks : List Chunk
  pub index : List (ℕ × ℕ)
  pub chunk_size : ℕ
  pub alignment : ℕ
  pub paths_stripped : Bool
  pub protection : Protection
  pub aead_key : Option (List ℕ)
  pub max_chunks_per_operation : ℕ
