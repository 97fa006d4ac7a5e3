-- ===== src/Pack/Options.antt =====
-- crates/rasen-archive/src/pack/options.rs
use rasen_archive.Prelude.{ℕ, Bool, true, false}
use rasen_archive.Error.{Fallible, ok, ◌>>◌}
use rasen_archive.Format
use rasen_archive.Format.{validate_chunk_size, validate_alignment}
use rasen_archive.Archive.Model.{Protection, xor}

pub data PackMode : Type 0 where
  debug : PackMode
  production : PackMode

abbrev pub strips_paths : PackMode → Bool
strips_paths debug = false
strips_paths production = true

pub record PackOptions : Type 0 where
  pub chunk_size : ℕ
  pub alignment : ℕ
  pub mode : PackMode
  pub protection : Protection

-- `impl Default for PackOptions`
abbrev pub default_options : PackOptions
default_options = record {
  chunk_size = Format.default_chunk_size;
  alignment = Format.default_alignment;
  mode = debug;
  protection = xor;
}

unfoldable pub validate : PackOptions → Fallible PackOptions
validate options = do
  validate_chunk_size options.chunk_size
  validate_alignment options.alignment
  ok options
