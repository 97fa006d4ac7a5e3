-- ===== src/Ffi/Handlers.antt =====
-- The functions of crates/rasen-archive-ffi/src/archive.rs on paths, and those that open and describe an
-- archive. An archive is nothing, or what the handle points to.
use rasen_archive.Prelude.{ℕ, List, Bool, true, false, Option, length, get_elem?}
use rasen_archive.Error.{IoResult, ok, ◌>>=◌, ◌>>◌, map_err, ok_or}
use rasen_archive.Platform.{Platform}
use rasen_archive.VirtualPath.{normalize_path, hash_path}
use rasen_archive.Archive.Source.{Source}
use rasen_archive.Archive.Model.{Archive, ArchiveScratch, no_scratch}
use rasen_archive.Archive.Limits.{runtime_default, tooling_default}
use rasen_archive.Archive.Open.{open_with_limits}
use rasen_archive.Pack.Options.{default_options}
use rasen_archive.Ffi.Status.{
  FfiResult, Outcome, Message, failure, core, ffi_call, from_io_error, status_out_of_range,
  entry_index_out_of_range,
}
use rasen_archive.Ffi.Types.{
  RasenArchiveLimits, RasenArchiveInfo, RasenEntry, RasenPackOptions, from_limits, limits,
  ffi_entry, protection_number, from_pack_options, abi_version,
}
use rasen_archive.Ffi.Io.{Place, bytes, utf8, required_ref, required_mut, RasenBuffer, into_buffer}
use rasen_archive.Ffi.Source.{FfiSource, CallbackSource, memory, file, callback, ffi_source}

abbrev pub u8_from : Bool → ℕ
u8_from false = 0
u8_from true = 1

unfoldable pub rasen_abi_version : ℕ
rasen_abi_version = abi_version

unfoldable pub rasen_archive_limits_runtime : Place → Message → Outcome RasenArchiveLimits
rasen_archive_limits_runtime out last =
    ffi_call (required_mut out "out" >> ok (from_limits runtime_default)) last

unfoldable pub rasen_archive_limits_tooling : Place → Message → Outcome RasenArchiveLimits
rasen_archive_limits_tooling out last =
    ffi_call (required_mut out "out" >> ok (from_limits tooling_default)) last

unfoldable pub rasen_pack_options_default : Place → Message → Outcome RasenPackOptions
rasen_pack_options_default out last =
    ffi_call (required_mut out "out" >> ok (from_pack_options default_options)) last

unfoldable pub archive_info : Archive → RasenArchiveInfo
archive_info a = record {
  entry_count = length a.entries;
  chunk_size = a.chunk_size;
  alignment = a.alignment;
  paths_stripped = u8_from a.paths_stripped;
  protection = protection_number a.protection;
}

unfoldable pub rasen_archive_info : Option Archive → Place → Message → Outcome RasenArchiveInfo
rasen_archive_info archive out last =
    ffi_call (do a ← required_ref archive "archive"; required_mut out "out"; ok (archive_info a))
      last

unfoldable pub rasen_archive_entry_at : Option Archive → ℕ → Place → Message → Outcome RasenEntry
rasen_archive_entry_at archive index out last =
    ffi_call
      (do
        a ← required_ref archive "archive"
        e ←
            ok_or (get_elem? a.entries index)
              (failure status_out_of_range (entry_index_out_of_range index))
        required_mut out "out"
        ok (ffi_entry e))
      last

unfoldable pub rasen_scratch_new : Place → Message → Outcome ArchiveScratch
rasen_scratch_new out last = ffi_call (required_mut out "out" >> ok no_scratch) last

module _ (env : Platform) where
  unfoldable pub rasen_hash_path : Option (List ℕ) → ℕ → Place → Message → Outcome ℕ
  rasen_hash_path path path_len out_hash last =
      ffi_call
        (do
          path ← utf8 env path path_len "path"
          hash ← core (hash_path env path)
          required_mut out_hash "out_hash"
          ok hash)
        last

  unfoldable pub rasen_normalize_path : Option (List ℕ) → ℕ → Place → Message → Outcome RasenBuffer
  rasen_normalize_path path path_len out last =
      ffi_call
        (do
          required_mut out "out"
          path ← utf8 env path path_len "path"
          normalized ← core (normalize_path env path)
          ok (into_buffer normalized))
        last

  unfoldable pub open_archive : FfiSource → List ℕ → Option RasenArchiveLimits → FfiResult Archive
  open_archive source key limits_ptr =
      core (open_with_limits env (ffi_source source) key (limits limits_ptr))

  module _ (key : Option (List ℕ)) (key_len : ℕ) (limits_ptr : Option RasenArchiveLimits)
      (out : Place) (last : Message) where
    unfoldable pub rasen_archive_open_memory : Option (List ℕ) → ℕ → Outcome Archive
    rasen_archive_open_memory contents len =
        ffi_call
          (do
            required_mut out "out"
            source ← bytes contents len "data"
            key ← bytes key key_len "key"
            open_archive (memory source) key limits_ptr)
          last

    -- `File::open`, given by what it makes of a path.
    unfoldable pub rasen_archive_open_file :
        (List ℕ → IoResult Source) → Option (List ℕ) → ℕ → Outcome Archive
    rasen_archive_open_file file_open path path_len =
        ffi_call
          (do
            required_mut out "out"
            path ← utf8 env path path_len "path"
            key ← bytes key key_len "key"
            source ← map_err from_io_error (file_open path)
            open_archive (file source) key limits_ptr)
          last

    unfoldable pub rasen_archive_open_source : CallbackSource → Outcome Archive
    rasen_archive_open_source source =
        ffi_call
          (do
            required_mut out "out"
            key ← bytes key key_len "key"
            open_archive (callback source) key limits_ptr)
          last
