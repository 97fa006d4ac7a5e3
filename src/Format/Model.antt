-- ===== src/Format/Model.antt =====
-- crates/rasen-archive/src/format/model.rs
use rasen_archive.Prelude.{ℕ, List, Bool}

-- `path` is UTF-8 bytes, empty in a production archive.
pub record TocEntry : Type 0 where
  pub path : List ℕ
  pub path_hash : ℕ
  pub original_size : ℕ
  pub stored_size : ℕ
  pub first_chunk : ℕ
  pub chunk_count : ℕ

pub record Chunk : Type 0 where
  pub offset : ℕ
  pub stored_size : ℕ
  pub original_size : ℕ
  pub checksum : ℕ
  pub compressed : Bool
