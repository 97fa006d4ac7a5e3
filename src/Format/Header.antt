-- ===== src/Format/Header.antt =====
-- crates/rasen-archive/src/format/header.rs
pub mod RoundTrip
use rasen_archive.Prelude.{
  ℕ, ◌+◌, ◌-◌, List, [], ◌∷◌, ◌++◌, Bool, ◌&&◌, ◌==◌, leb, bytes_eq, bit_and, bit_or, ◌/◌,
}
use rasen_archive.Prelude.{to_le_bytes, u16_mod}
use rasen_archive.Error.{
  Fallible, IoResult, ok, err, ◌>>=◌, ◌>>◌, guard, from_io, bad_magic, unsupported_version,
  unsupported_header_size, unsupported_flags, too_large,
}
use rasen_archive.Sink.{Sink}
use rasen_archive.Format
use rasen_archive.Format.Io.{read_exact, read_u16, read_u32, read_u64}

pub record Header : Type 0 where
  pub version : ℕ
  pub flags : ℕ
  pub header_size : ℕ
  pub alignment : ℕ
  pub chunk_size : ℕ
  pub entry_count : ℕ
  pub chunk_count : ℕ
  pub toc_offset : ℕ
  pub toc_size : ℕ
  pub toc_raw_size : ℕ
  pub toc_hash : ℕ

unfoldable pub write_header {ℓ} : {W : Type ℓ} ⦃s : Sink W⦄ → W → Header → Fallible W
write_header ⦃s⦄ w h = do
  w ← from_io (s.write_all w Format.magic)
  w ← from_io (s.write_all w (to_le_bytes 2 h.version))
  w ← from_io (s.write_all w (to_le_bytes 2 h.flags))
  w ← from_io (s.write_all w (to_le_bytes 4 h.header_size))
  w ← from_io (s.write_all w (to_le_bytes 4 h.alignment))
  w ← from_io (s.write_all w (to_le_bytes 4 h.chunk_size))
  w ← from_io (s.write_all w (to_le_bytes 4 h.entry_count))
  w ← from_io (s.write_all w (to_le_bytes 4 h.chunk_count))
  w ← from_io (s.write_all w (to_le_bytes 8 h.toc_offset))
  w ← from_io (s.write_all w (to_le_bytes 8 h.toc_size))
  w ← from_io (s.write_all w (to_le_bytes 8 h.toc_raw_size))
  from_io (s.write_all w (to_le_bytes 8 h.toc_hash))

unfoldable pub read_header : List ℕ → Fallible (Header × List ℕ)
read_header r = do
  (magic, r) ← from_io (read_exact 4 r)
  guard (bytes_eq magic Format.magic) bad_magic
  (version, r) ← read_u16 r
  (flags, r) ← read_u16 r
  (header_size, r) ← read_u32 r
  (alignment, r) ← read_u32 r
  (chunk_size, r) ← read_u32 r
  (entry_count, r) ← read_u32 r
  (chunk_count, r) ← read_u32 r
  (toc_offset, r) ← read_u64 r
  (toc_size, r) ← read_u64 r
  (toc_raw_size, r) ← read_u64 r
  (toc_hash, r) ← read_u64 r
  ok (
    record {
      version = version;
      flags = flags;
      header_size = header_size;
      alignment = alignment;
      chunk_size = chunk_size;
      entry_count = entry_count;
      chunk_count = chunk_count;
      toc_offset = toc_offset;
      toc_size = toc_size;
      toc_raw_size = toc_raw_size;
      toc_hash = toc_hash;
    },
    r,
  )

-- `count_ones` of a word with no bit above the sixth.
abbrev pub count_ones : ℕ → ℕ
count_ones x =
    bit_and x 1
    + bit_and (x / 2) 1
    + bit_and (x / 4) 1
    + bit_and (x / 8) 1
    + bit_and (x / 16) 1
    + bit_and (x / 32) 1

unfoldable pub validate_header : Header → Fallible (Unit {0})
validate_header header = do
  guard (header.version == Format.version) (unsupported_version header.version)
  guard (header.header_size == Format.header_size) (unsupported_header_size header.header_size)
  let protection = bit_and header.flags (bit_or Format.header_flag_toc_xor Format.header_flag_aead)
  guard
      (bit_and header.flags Format.required_header_flags == Format.required_header_flags
        && bit_and header.flags (u16_mod - 1 - Format.known_header_flags) == 0
        && count_ones protection == 1)
      (unsupported_flags header.flags)
  Format.validate_chunk_size header.chunk_size
  Format.validate_alignment header.alignment
  guard (leb header.toc_size Format.max_toc_stored_size) (too_large "stored TOC")
  guard (leb header.toc_raw_size Format.max_toc_raw_size) (too_large "raw TOC")
