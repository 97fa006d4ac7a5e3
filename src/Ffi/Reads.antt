-- ===== src/Ffi/Reads.antt =====
-- `rasen_archive_read` of crates/rasen-archive-ffi/src/archive.rs.
use rasen_archive.Prelude.{ℕ, ◌≡◌, ap, sym, ◌∙◌, List, Option, none, some, get_elem?}
use rasen_archive.Error.{Fallible, ok, ◌>>=◌, >>=-eq-ok, ok-injective, map_err-eq-ok, ok_or}
use rasen_archive.Platform.{Platform, IsRoomy}
use rasen_archive.Sink.Memory.{memory_sink}
use rasen_archive.Archive.Source.{IsSource}
use rasen_archive.Archive.Model.{Archive, Entry}
use rasen_archive.VirtualPath.{normalize_lookup_path}
use rasen_archive.Archive.Lookup.{find_entry_index_normalized}
use rasen_archive.Archive.Read.{read}
use rasen_archive.Archive.Read.Whole.{IsContent, read-IsContent}
use rasen_archive.Ffi.Status
use rasen_archive.Ffi.Status.{
  RasenStatus, FfiFailure, FfiResult, Outcome, Message, code, core_status, core, from_error,
  ffi_call,
}
use rasen_archive.Ffi.Outcomes.{
  IsProper, bind-IsProper, ok-IsProper, core-IsProper, ffi_call-cases, required_ref-IsProper,
  required_mut-IsProper, utf8-IsProper,
}
use rasen_archive.Ffi.Io.{Place, utf8, required_ref, required_mut, RasenBuffer, into_buffer}
use rasen_archive.Ffi.Reading.{read_buffer, rasen_archive_read}

core-eq-ok : {A : Type 0} (m : Fallible A) (a : A) → core m ≡ ok a → m ≡ ok a
core-eq-ok m a h = map_err-eq-ok from_error m h

module _ (env : Platform) where
  module _ (archive : Option Archive) (path : Option (List ℕ)) (path_len : ℕ) (out : Place) where
    read_buffer-IsProper :
        (read_it : Archive → FfiResult (List ℕ))
        → ((a : Archive) → IsProper (read_it a))
        → IsProper (read_buffer env archive out read_it)
    unfolding read_buffer
    read_buffer-IsProper read_it proper =
        bind-IsProper (required_ref archive "archive") _ (required_ref-IsProper archive "archive")
          (λ a. bind-IsProper (required_mut out "out") _ (required_mut-IsProper out "out") (λ u.
            bind-IsProper (read_it a) _ (proper a) (λ value. ok-IsProper (into_buffer value))))

    read_buffer_parts :
        (read_it : Archive → FfiResult (List ℕ)) (buffer : RasenBuffer)
        → read_buffer env archive out read_it ≡ ok buffer
        → (a : Archive) × (value : List ℕ) × (archive ≡ some a)
          × (read_it a ≡ ok value)
          × (into_buffer value ≡ buffer)
    unfolding read_buffer required_ref
    read_buffer_parts read_it buffer h =
        let (a, e0, h0) = >>=-eq-ok (required_ref archive "archive") _ h in
        let (u, e1, h1) = >>=-eq-ok (required_mut out "out") _ h0 in
        let (value, e2, h2) = >>=-eq-ok (read_it a) _ h1 in
        (a, value, given archive a e0, e2, ok-injective h2)
      where
        given :
            (v : Option Archive) (a : Archive)
            → ok_or v (Status.failure Status.status_null_pointer (Status.is_null "archive")) ≡ ok a
            → v ≡ some a
        given none a e = absurd cc
        given (some b) a e = cc

    -- Where memory suffices and the archive's source fills its buffers: if `rasen_archive_read` ends with
    -- the status `Ok`, then the handle was that of an archive, the path was UTF-8 in the caller's memory,
    -- and the buffer that is stored is made of what `read` returns for the path: the content of the
    -- entry of the archive that the look-up of the normalized path finds.
    pub rasen_archive_read-IsContent :
        (last : Message)
        → IsRoomy env
        → ((a : Archive) → archive ≡ some a → IsSource a.source)
        → (rasen_archive_read env archive path path_len out last).status ≡ Status.status_ok
        → (a : Archive) × (p : List ℕ) × (normalized : List ℕ) × (idx : ℕ) × (value : List ℕ)
          × (e : Entry) × (archive ≡ some a)
          × (utf8 env path path_len "path" ≡ ok p)
          × (read env a p ≡ ok value)
          × (normalize_lookup_path env p ≡ ok normalized)
          × (find_entry_index_normalized env a normalized ≡ ok idx)
          × (get_elem? a.entries idx ≡ some e)
          × IsContent env a e value
          × ((rasen_archive_read env archive path path_len out last).stored
              ≡ some (into_buffer value))
    unfolding rasen_archive_read
    rasen_archive_read-IsContent last roomy exact h =
        let call : FfiResult RasenBuffer =
          (utf8 env path path_len "path" >>= λ p.
          read_buffer env archive out (λ a. core (read env a p))) in
        let proper =
          bind-IsProper (utf8 env path path_len "path")
            (λ p. read_buffer env archive out (λ a. core (read env a p)))
            (utf8-IsProper env path path_len "path")
            (λ p.
              read_buffer-IsProper (λ a. core (read env a p))
                (λ a. core-IsProper (read env a p))) in
        let (buffer, done, stored) = ffi_call-cases call last proper h in
        let (p, e0, h0) = >>=-eq-ok (utf8 env path path_len "path") _ done in
        let (a, value, given, e1, same) = read_buffer_parts (λ x. core (read env x p)) buffer h0 in
        let got = core-eq-ok (read env a p) value e1 in
        let (normalized, idx, e, p1, p2, p3, content) =
          read-IsContent env a roomy (exact a given) p value got in
        (
          a,
          p,
          normalized,
          idx,
          value,
          e,
          given,
          e0,
          got,
          p1,
          p2,
          p3,
          content,
          stored ∙ ap (λ b. some b) (sym same),
        )
