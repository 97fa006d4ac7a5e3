-- ===== src/Format.antt =====
-- crates/rasen-archive/src/format/mod.rs: the constants of the format and two checks.
pub mod Model
pub mod Io
pub mod Alignment
pub mod Header
pub mod Toc
pub mod Layout
use rasen_archive.Prelude.{
  ℕ, ◌+◌, ◌*◌, ◌-◌, List, [], ◌∷◌, Bool, not, ◌&&◌, ◌||◌, ltb, ◌==◌, bit_and,
}
use rasen_archive.Prelude.{if◌then◌else◌}
use rasen_archive.Error.{Fallible, ok, err, invalid_chunk_size, invalid_alignment}

-- "RPAK" and "TOC2".
abbrev pub magic : List ℕ
magic = 82 ∷ 80 ∷ 65 ∷ 75 ∷ []

abbrev pub toc_magic : List ℕ
toc_magic = 84 ∷ 79 ∷ 67 ∷ 50 ∷ []

abbrev pub version : ℕ
version = 1

abbrev pub header_size : ℕ
header_size = 60

abbrev pub default_chunk_size : ℕ
default_chunk_size = 64 * 1024

abbrev pub default_alignment : ℕ
default_alignment = 16

abbrev pub header_flag_toc_lz4 : ℕ
header_flag_toc_lz4 = 1

abbrev pub header_flag_toc_xor : ℕ
header_flag_toc_xor = 2

abbrev pub header_flag_chunked : ℕ
header_flag_chunked = 4

abbrev pub header_flag_xxh3 : ℕ
header_flag_xxh3 = 8

abbrev pub header_flag_paths_stripped : ℕ
header_flag_paths_stripped = 16

abbrev pub header_flag_aead : ℕ
header_flag_aead = 32

-- `TOC_LZ4 | CHUNKED | XXH3`, and all the flags of this version.
abbrev pub required_header_flags : ℕ
required_header_flags = 13

abbrev pub known_header_flags : ℕ
known_header_flags = 63

abbrev pub chunk_flag_lz4 : ℕ
chunk_flag_lz4 = 1

abbrev pub max_toc_stored_size : ℕ
max_toc_stored_size = 256 * 1024 * 1024

abbrev pub max_toc_raw_size : ℕ
max_toc_raw_size = 512 * 1024 * 1024

abbrev pub max_path_len : ℕ
max_path_len = 65535

abbrev pub max_chunk_size : ℕ
max_chunk_size = 64 * 1024 * 1024

abbrev pub max_alignment : ℕ
max_alignment = 1024 * 1024

abbrev pub toc_entry_fixed_size : ℕ
toc_entry_fixed_size = 36

abbrev pub toc_chunk_fixed_size : ℕ
toc_chunk_fixed_size = 36

unfoldable pub validate_chunk_size : ℕ → Fallible (Unit {0})
validate_chunk_size chunk_size =
    if chunk_size == 0 || ltb max_chunk_size chunk_size then err invalid_chunk_size else ok tt

-- `u32::is_power_of_two`: one bit is set.
unfoldable pub is_power_of_two : ℕ → Bool
is_power_of_two n = not (n == 0) && bit_and n (n - 1) == 0

unfoldable pub validate_alignment : ℕ → Fallible (Unit {0})
validate_alignment alignment =
    if alignment == 0 || ltb max_alignment alignment || not (is_power_of_two alignment)
    then err invalid_alignment
    else ok tt
