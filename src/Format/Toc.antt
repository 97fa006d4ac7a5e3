-- ===== src/Format/Toc.antt =====
-- `encode_toc` and `decode_toc` of crates/rasen-archive/src/format/toc.rs.
pub mod Chunks
pub mod Entries
pub mod RoundTrip
pub mod Checked
pub mod Accepted
use rasen_archive.Prelude.{
  ℕ, zero, suc, ◌+◌, ◌-◌, List, [], ◌∷◌, ◌++◌, Bool, true, false, not, ◌&&◌,
}
use rasen_archive.Prelude.{Option, none, some, if◌then◌else◌, ltb, leb, ◌==◌, bytes_eq, bit_and}
use rasen_archive.Prelude.{to_le_bytes, u16_mod, u64_mod, length, checked_add, checked_mul}
use rasen_archive.Error.{
  Fallible, ok, err, ◌>>=◌, ◌>>◌, guard, ok_or, too_large, corrupt, bad_toc_magic, asset_too_large,
  metadata_limit_exceeded,
}
use rasen_archive.Platform.{Platform, reserve}
use rasen_archive.VirtualPath.{normalize_path}
use rasen_archive.Format
use rasen_archive.Format.Model.{TocEntry, Chunk}
use rasen_archive.Format.Io.{usize_to_u64}
use rasen_archive.Format.Io.Cursor
use rasen_archive.Format.Io.Cursor.{Cursor}

-- The first loop of `encode_toc`: the size of the entries, on top of `size`.
unfoldable pub entries_size : ℕ → List TocEntry → Fallible ℕ
entries_size size [] = ok size
entries_size size (entry ∷ entries) = do
  guard (leb (length entry.path) Format.max_path_len) (too_large "path")
  fixed ← ok_or (checked_add size Format.toc_entry_fixed_size) (too_large "raw TOC")
  size' ← ok_or (checked_add fixed (length entry.path)) (too_large "raw TOC")
  entries_size size' entries

-- `u16::try_from(path.len())`
abbrev pub u16_length : List ℕ → Fallible ℕ
u16_length path = if ltb (length path) u16_mod then ok (length path) else err (too_large "path")

unfoldable pub encode_entry : TocEntry → Fallible (List ℕ)
encode_entry entry = do
  path_len ← u16_length entry.path
  ok (
      to_le_bytes 8 entry.path_hash
      ++ (to_le_bytes 8 entry.original_size
          ++ (to_le_bytes 8 entry.stored_size
              ++ (to_le_bytes 4 entry.first_chunk
                  ++ (to_le_bytes 4 entry.chunk_count
                      ++ (to_le_bytes 2 path_len ++ (to_le_bytes 2 0 ++ entry.path)))))))

unfoldable pub encode_entries : List TocEntry → Fallible (List ℕ)
encode_entries [] = ok []
encode_entries (entry ∷ entries) = do
  out ← encode_entry entry
  rest ← encode_entries entries
  ok (out ++ rest)

unfoldable pub encode_chunk : Chunk → List ℕ
encode_chunk chunk =
    to_le_bytes 8 chunk.offset
    ++ (to_le_bytes 8 chunk.stored_size
        ++ (to_le_bytes 8 chunk.original_size
            ++ (to_le_bytes 8 chunk.checksum
                ++ (to_le_bytes 2 (if chunk.compressed then Format.chunk_flag_lz4 else 0)
                    ++ to_le_bytes 2 0))))

unfoldable pub encode_chunks : List Chunk → List ℕ
encode_chunks [] = []
encode_chunks (chunk ∷ chunks) = encode_chunk chunk ++ encode_chunks chunks

-- The arguments of `decode_toc` that its loops read.
pub record Limits : Type 0 where
  pub paths_stripped : Bool
  pub max_path_bytes : ℕ
  pub max_total_path_bytes : ℕ
  pub max_single_asset_bytes : ℕ

unfoldable pub decode_chunk : Cursor → Fallible (Chunk × Cursor)
decode_chunk cursor = do
  (offset, cursor) ← Cursor.u64 cursor
  (stored_size, cursor) ← Cursor.u64 cursor
  (original_size, cursor) ← Cursor.u64 cursor
  (checksum, cursor) ← Cursor.u64 cursor
  (flags, cursor) ← Cursor.u16 cursor
  (reserved, cursor) ← Cursor.u16 cursor
  guard (bit_and flags (u16_mod - 1 - Format.chunk_flag_lz4) == 0) (corrupt "unknown chunk flags")
  guard (reserved == 0) (corrupt "non-zero chunk reserved field")
  ok (
    record {
      offset = offset;
      stored_size = stored_size;
      original_size = original_size;
      checksum = checksum;
      compressed = not (bit_and flags Format.chunk_flag_lz4 == 0);
    },
    cursor,
  )

unfoldable pub decode_chunks : ℕ → Cursor → Fallible (List Chunk × Cursor)
decode_chunks zero cursor = ok ([], cursor)
decode_chunks (suc n) cursor = do
  (chunk, cursor) ← decode_chunk cursor
  (chunks, cursor) ← decode_chunks n cursor
  ok (chunk ∷ chunks, cursor)

module _ (env : Platform) where
  unfoldable pub encode_toc : List TocEntry → List Chunk → Fallible (List ℕ)
  encode_toc entries chunks = do
    size ← entries_size 4 entries
    table ← ok_or (checked_mul (length chunks) Format.toc_chunk_fixed_size) (too_large "raw TOC")
    size ← ok_or (checked_add size table) (too_large "raw TOC")
    guard (leb size Format.max_toc_raw_size) (too_large "raw TOC")
    reserve env size "raw TOC allocation"
    out ← encode_entries entries
    ok (Format.toc_magic ++ (out ++ encode_chunks chunks))

  -- `match (paths_stripped, path_len)`
  unfoldable pub decode_path : Bool → ℕ → List ℕ → ℕ → Fallible (List ℕ)
  decode_path true zero path_bytes path_hash = ok []
  decode_path true (suc n) path_bytes path_hash =
      err (corrupt "production TOC contains an entry path")
  decode_path false zero path_bytes path_hash =
      err (corrupt "debug TOC contains an empty entry path")
  decode_path false (suc n) path_bytes path_hash = do
    guard (env.from_utf8 path_bytes) (corrupt "entry path is not UTF-8")
    path ← normalize_path env path_bytes
    guard (env.xxh3_64 path == path_hash) (corrupt "entry path hash mismatch")
    ok path

  -- One round of the loop over entries, with the running total of path bytes.
  unfoldable pub decode_entry : Limits → ℕ → Cursor → Fallible (TocEntry × ℕ × Cursor)
  decode_entry limits total_path_bytes cursor = do
    (path_hash, cursor) ← Cursor.u64 cursor
    (original_size, cursor) ← Cursor.u64 cursor
    (stored_size, cursor) ← Cursor.u64 cursor
    (first_chunk, cursor) ← Cursor.u32 cursor
    (chunk_count, cursor) ← Cursor.u32 cursor
    (path_len, cursor) ← Cursor.u16 cursor
    (reserved, cursor) ← Cursor.u16 cursor
    guard (leb original_size limits.max_single_asset_bytes) asset_too_large
    guard (reserved == 0) (corrupt "non-zero entry reserved field")
    guard (leb path_len limits.max_path_bytes) (too_large "path length limit")
    total ← ok_or (checked_add total_path_bytes path_len) (too_large "total path bytes")
    guard (leb total limits.max_total_path_bytes) metadata_limit_exceeded
    (path_bytes, cursor) ← Cursor.take path_len cursor
    path ← decode_path limits.paths_stripped path_len path_bytes path_hash
    ok (
      record {
        path = path;
        path_hash = path_hash;
        original_size = original_size;
        stored_size = stored_size;
        first_chunk = first_chunk;
        chunk_count = chunk_count;
      },
      total,
      cursor,
    )

  unfoldable pub decode_entries : Limits → ℕ → ℕ → Cursor → Fallible (List TocEntry × Cursor)
  decode_entries limits zero total cursor = ok ([], cursor)
  decode_entries limits (suc n) total cursor = do
    (entry, total, cursor) ← decode_entry limits total cursor
    (entries, cursor) ← decode_entries limits n total cursor
    ok (entry ∷ entries, cursor)

  -- `entry_count * 36 + chunk_count * 36 + 4`, checked.
  unfoldable pub minimum_bytes : ℕ → ℕ → Fallible ℕ
  minimum_bytes entry_count chunk_count = do
    let too_many = too_large "TOC record counts"
    entries ← ok_or (checked_mul entry_count Format.toc_entry_fixed_size) too_many
    chunks ← ok_or (checked_mul chunk_count Format.toc_chunk_fixed_size) too_many
    records ← ok_or (checked_add entries chunks) too_many
    ok_or (checked_add records 4) too_many

  unfoldable pub decode_toc : List ℕ → ℕ → ℕ → Limits → Fallible (List TocEntry × List Chunk)
  decode_toc bytes entry_count chunk_count limits = do
    (magic, cursor) ← Cursor.take 4 (Cursor.new bytes)
    guard (bytes_eq magic Format.toc_magic) bad_toc_magic
    min_bytes ← minimum_bytes entry_count chunk_count
    guard (leb min_bytes (length bytes)) (corrupt "TOC counts exceed TOC size")
    reserve env entry_count "entry allocation"
    (entries, cursor) ← decode_entries limits entry_count 0 cursor
    reserve env chunk_count "chunk allocation"
    (chunks, cursor) ← decode_chunks chunk_count cursor
    guard (Cursor.is_empty cursor) (corrupt "trailing bytes in TOC")
    ok (entries, chunks)
