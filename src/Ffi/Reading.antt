-- ===== src/Ffi/Reading.antt =====
-- The functions of crates/rasen-archive-ffi/src/archive.rs that look up and read. The buffer `dst` of a
-- call that fails is left open.
use rasen_archive.Prelude.{ℕ, List, Option, length}
use rasen_archive.Error.{ok, ◌>>=◌, ◌>>◌}
use rasen_archive.Platform.{Platform}
use rasen_archive.Archive.Model.{Archive, ArchiveScratch}
use rasen_archive.Archive.Lookup.{entry, entry_by_id, try_contains, contains_id}
use rasen_archive.Archive.Read.{
  read, read_by_id, read_into, read_into_with_scratch, read_chunk, read_chunk_into,
  read_chunk_into_with_scratch, verify,
}
use rasen_archive.Archive.Range.{
  read_range, read_range_exact, read_range_into, read_range_with_scratch,
}
use rasen_archive.Ffi.Status.{FfiResult, Outcome, Message, core, ffi_call}
use rasen_archive.Ffi.Types.{RasenEntry, ffi_entry}
use rasen_archive.Ffi.Io.{
  Place, bytes_mut, utf8, required_ref, required_mut, RasenBuffer, into_buffer,
}
use rasen_archive.Ffi.Handlers.{u8_from}

module _ (env : Platform) where
  module _ (archive : Option Archive) where
    unfoldable pub rasen_archive_verify : Message → Outcome (Unit {0})
    rasen_archive_verify last =
        ffi_call (required_ref archive "archive" >>= λ a. core (verify env a)) last

    -- `read_buffer`, for an operation of the archive.
    unfoldable pub read_buffer : Place → (Archive → FfiResult (List ℕ)) → FfiResult RasenBuffer
    read_buffer out read_it = do
      a ← required_ref archive "archive"
      required_mut out "out"
      value ← read_it a
      ok (into_buffer value)

    unfoldable pub rasen_archive_entry_by_id : ℕ → Place → Message → Outcome RasenEntry
    rasen_archive_entry_by_id asset_id out last =
        ffi_call
          (do
            a ← required_ref archive "archive"
            e ← core (entry_by_id env a asset_id)
            required_mut out "out"
            ok (ffi_entry e))
          last

    unfoldable pub rasen_archive_contains_id : ℕ → Place → Message → Outcome ℕ
    rasen_archive_contains_id asset_id out_contains last =
        ffi_call
          (do
            a ← required_ref archive "archive"
            required_mut out_contains "out_contains"
            ok (u8_from (contains_id env a asset_id)))
          last

    unfoldable pub rasen_archive_read_by_id : ℕ → Place → Message → Outcome RasenBuffer
    rasen_archive_read_by_id asset_id out last =
        ffi_call (read_buffer out (λ a. core (read_by_id env a asset_id))) last

    module _ (path : Option (List ℕ)) (path_len : ℕ) where
      unfoldable pub rasen_archive_entry : Place → Message → Outcome RasenEntry
      rasen_archive_entry out last =
          ffi_call
            (do
              a ← required_ref archive "archive"
              path ← utf8 env path path_len "path"
              e ← core (entry env a path)
              required_mut out "out"
              ok (ffi_entry e))
            last

      unfoldable pub rasen_archive_contains : Place → Message → Outcome ℕ
      rasen_archive_contains out_contains last =
          ffi_call
            (do
              a ← required_ref archive "archive"
              path ← utf8 env path path_len "path"
              found ← core (try_contains env a path)
              required_mut out_contains "out_contains"
              ok (u8_from found))
            last

      unfoldable pub rasen_archive_read : Place → Message → Outcome RasenBuffer
      rasen_archive_read out last =
          ffi_call
            (do path ← utf8 env path path_len "path"; read_buffer out (λ a. core (read env a path)))
            last

      unfoldable pub rasen_archive_read_chunk : ℕ → Place → Message → Outcome RasenBuffer
      rasen_archive_read_chunk chunk_index out last =
          ffi_call
            (do
              path ← utf8 env path path_len "path"
              read_buffer out (λ a. core (read_chunk env a path chunk_index)))
            last

      unfoldable pub rasen_archive_read_range : ℕ → ℕ → Place → Message → Outcome RasenBuffer
      rasen_archive_read_range offset len out last =
          ffi_call
            (do
              path ← utf8 env path path_len "path"
              read_buffer out (λ a. core (read_range env a path offset len)))
            last

      unfoldable pub rasen_archive_read_range_exact : ℕ → ℕ → Place → Message → Outcome RasenBuffer
      rasen_archive_read_range_exact offset len out last =
          ffi_call
            (do
              path ← utf8 env path path_len "path"
              read_buffer out (λ a. core (read_range_exact env a path offset len)))
            last

      -- Into the buffer `dst` of the caller, which is what these store.
      module _ (dst : Option (List ℕ)) (dst_len : ℕ) where
        unfoldable pub rasen_archive_read_into : Message → Outcome (List ℕ)
        rasen_archive_read_into last =
            ffi_call
              (do
                a ← required_ref archive "archive"
                path ← utf8 env path path_len "path"
                dst ← bytes_mut dst dst_len "dst"
                core (read_into env a path (length dst)))
              last

        unfoldable pub rasen_archive_read_chunk_into : ℕ → Message → Outcome (List ℕ)
        rasen_archive_read_chunk_into chunk_index last =
            ffi_call
              (do
                a ← required_ref archive "archive"
                path ← utf8 env path path_len "path"
                dst ← bytes_mut dst dst_len "dst"
                core (read_chunk_into env a path chunk_index (length dst)))
              last

        unfoldable pub rasen_archive_read_range_into : ℕ → Place → Message → Outcome (ℕ × List ℕ)
        rasen_archive_read_range_into offset out_read last =
            ffi_call
              (do
                a ← required_ref archive "archive"
                path ← utf8 env path path_len "path"
                dst ← bytes_mut dst dst_len "dst"
                (count, dst) ← core (read_range_into env a path offset dst)
                required_mut out_read "out_read"
                ok (count, dst))
              last

        -- The scratch is nothing, or what the handle points to.
        module _ (scratch : Option ArchiveScratch) where
          unfoldable pub rasen_archive_read_into_with_scratch :
              Message → Outcome (List ℕ × ArchiveScratch)
          rasen_archive_read_into_with_scratch last =
              ffi_call
                (do
                  a ← required_ref archive "archive"
                  path ← utf8 env path path_len "path"
                  dst ← bytes_mut dst dst_len "dst"
                  scratch ← required_ref scratch "scratch"
                  core (read_into_with_scratch env a path (length dst) scratch))
                last

          unfoldable pub rasen_archive_read_chunk_into_with_scratch :
              ℕ → Message → Outcome (List ℕ × ArchiveScratch)
          rasen_archive_read_chunk_into_with_scratch chunk_index last =
              ffi_call
                (do
                  a ← required_ref archive "archive"
                  path ← utf8 env path path_len "path"
                  dst ← bytes_mut dst dst_len "dst"
                  scratch ← required_ref scratch "scratch"
                  core (read_chunk_into_with_scratch env a path chunk_index (length dst) scratch))
                last

          unfoldable pub rasen_archive_read_range_with_scratch :
              ℕ → Place → Message → Outcome (ℕ × List ℕ × ArchiveScratch)
          rasen_archive_read_range_with_scratch offset out_read last =
              ffi_call
                (do
                  a ← required_ref archive "archive"
                  path ← utf8 env path path_len "path"
                  dst ← bytes_mut dst dst_len "dst"
                  scratch ← required_ref scratch "scratch"
                  (count, dst, scratch) ←
                      core (read_range_with_scratch env a path offset dst scratch)
                  required_mut out_read "out_read"
                  ok (count, dst, scratch))
                last
