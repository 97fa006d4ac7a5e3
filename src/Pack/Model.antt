-- ===== src/Pack/Model.antt =====
-- The state of the packer, `Packer` of crates/rasen-archive/src/pack/writer.rs, and what is computed
-- from it. Nonces are the draws that are numbered from `draws` on.
use rasen_archive.Prelude.{ℕ, List, [], ◌∷◌, Bool, true, false, not, ◌&&◌}
use rasen_archive.Prelude.{Option, if◌then◌else◌, ◌==◌, bytes_eq, length, map}
use rasen_archive.Prelude.{bit_or}
use rasen_archive.Error.{
  Fallible, ok, err, panic, ◌>>=◌, ◌>>◌, guard, duplicate_path, hash_collision,
}
use rasen_archive.Format
use rasen_archive.Format.Model.{TocEntry, Chunk}
use rasen_archive.Format.Io.{usize_to_u32}
use rasen_archive.Format.Header.{Header}
use rasen_archive.Archive.Model.{Protection, xor, aead}
use rasen_archive.Pack.Options.{PackOptions, strips_paths}
use rasen_archive.Pack.Input.{slice_reader}

-- The buffers `raw` and `compressed` are fixed by their lengths, which the options give.
pub record Packer (W : Type 0) : Type 0 where
  pub writer : W
  pub key : List ℕ
  pub aead_key : Option (List ℕ)
  pub options : PackOptions
  pub entries : List TocEntry
  pub chunks : List Chunk
  pub seen_hashes : List ℕ
  pub offset : ℕ
  pub failed : Bool
  pub draws : ℕ

unfoldable pub contains_hash : ℕ → List ℕ → Bool
contains_hash hash [] = false
contains_hash hash (h ∷ hs) = let rest = contains_hash hash hs in if h == hash then true else rest

-- `self.entries.iter().any(..)`
unfoldable pub is_duplicate : ℕ → List ℕ → List TocEntry → Bool
is_duplicate path_hash path [] = false
is_duplicate path_hash path (e ∷ es) =
    let rest = is_duplicate path_hash path es in
    if e.path_hash == path_hash && bytes_eq e.path path then true else rest

-- `match self.seen_hashes.insert(path_hash)`: the set afterwards.
unfoldable pub insert_hash : {W : Type 0} → Packer W → List ℕ → ℕ → Fallible (List ℕ)
insert_hash p path path_hash =
    if not (contains_hash path_hash p.seen_hashes) then ok (path_hash ∷ p.seen_hashes) else do
      guard (not (is_duplicate path_hash path p.entries)) (duplicate_path path)
      guard (not (strips_paths p.options.mode)) (hash_collision path_hash)
      ok p.seen_hashes

-- `entry.path.clear()`
unfoldable pub clear_path : TocEntry → TocEntry
clear_path e = record e { path = [] }

-- The flags of the header.
abbrev pub protection_flag : Protection → ℕ
protection_flag xor = Format.header_flag_toc_xor
protection_flag aead = Format.header_flag_aead

unfoldable pub header_flags : PackOptions → ℕ
header_flags options =
    bit_or (bit_or Format.required_header_flags (protection_flag options.protection))
      (if strips_paths options.mode then Format.header_flag_paths_stripped else 0)

-- What the loop over the chunks of an input carries.
pub record Progress (W : Type 0) : Type 0 where
  pub packer : Packer W
  pub original_total : ℕ
  pub stored_total : ℕ

module _ {W : Type 0} where
  unfoldable pub header_of : Packer W → ℕ → ℕ → ℕ → ℕ → Fallible Header
  header_of p toc_offset toc_size toc_raw_size toc_hash = do
    chunk_size ← usize_to_u32 p.options.chunk_size "chunk size"
    entry_count ← usize_to_u32 (length p.entries) "entry count"
    chunk_count ← usize_to_u32 (length p.chunks) "chunk count"
    ok (record {
      version = Format.version;
      flags = header_flags p.options;
      header_size = Format.header_size;
      alignment = p.options.alignment;
      chunk_size = chunk_size;
      entry_count = entry_count;
      chunk_count = chunk_count;
      toc_offset = toc_offset;
      toc_size = toc_size;
      toc_raw_size = toc_raw_size;
      toc_hash = toc_hash;
    })

  abbrev pub strip : Packer W → Packer W
  strip p = record p {
    entries = if strips_paths p.options.mode then map clear_path p.entries else p.entries;
  }

  abbrev pub after_add : Packer W → Fallible (Packer W) → Fallible (Unit {0}) × Packer W
  after_add p (ok p') = (ok tt, p')
  after_add p (err e) = (err e, record p { failed = true })
  after_add p panic = (panic, p)
