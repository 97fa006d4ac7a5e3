-- ===== src/Ffi/Packs.antt =====
-- `rasen_pack_memory` of crates/rasen-archive-ffi/src/pack.rs, with the packer.
use rasen_archive.Archive.Model.{xor, aead}
use rasen_archive.Pack.Options.{debug, production, default_options}
use rasen_archive.Prelude.{ℕ, zero, suc, ◌≡◌, ap, sym, ◌∙◌, List, [], ◌∷◌, Option, none, some}
use rasen_archive.Error.{Fallible, ok, ◌>>=◌, >>=-eq-ok, ok-injective, map_err-eq-ok}
use rasen_archive.Platform.{Platform, IsLawful}
use rasen_archive.Sink.Memory.{Memory, memory_sink, at_end}
use rasen_archive.Pack.Options.{PackOptions}
use rasen_archive.Pack.Packer.{InputFile, PackSummary}
use rasen_archive.Pack.Packer.Assets.{Asset}
use rasen_archive.Pack.Packer.Files.{AreFiles}
use rasen_archive.Pack.Packer.Archive.{IsArchive}
use rasen_archive.Pack.Packer.Written.{steps-IsArchive}
use rasen_archive.Pack.Packer.{new, add_files}
use rasen_archive.Ffi.Status
use rasen_archive.Ffi.Status.{
  RasenStatus, FfiFailure, FfiResult, Outcome, Message, code, core_status, core, from_error,
  ffi_call,
}
use rasen_archive.Ffi.Outcomes.{
  IsProper, bind-IsProper, ok-IsProper, core-IsProper, ffi_call-cases, failed-IsProper, value_ne_ok,
  required_mut-IsProper, raw_slice-IsProper, utf8-IsProper,
}
use rasen_archive.Ffi.Types.{
  RasenInputFile, RasenPackOptions, RasenPackSummary, pack_options, pack_mode, pack_protection,
}
use rasen_archive.Ffi.Io.{Place, raw_slice, bytes, utf8, required_mut, RasenBuffer, into_buffer}
use rasen_archive.Ffi.Pack.{
  input_files, buffered_inputs, pack_buffered, summary_for, rasen_pack_memory,
}

core-eq-ok : {A : Type 0} (m : Fallible A) (a : A) → core m ≡ ok a → m ≡ ok a
core-eq-ok m a h = map_err-eq-ok from_error m h

pack_mode-IsProper : (n : ℕ) → IsProper (pack_mode n)
unfolding pack_mode
pack_mode-IsProper zero = ok-IsProper debug
pack_mode-IsProper (suc zero) = ok-IsProper production
pack_mode-IsProper (suc (suc n)) =
    failed-IsProper Status.status_invalid_value (Status.invalid_pack_mode (suc (suc n))) value_ne_ok

pack_protection-IsProper : (n : ℕ) → IsProper (pack_protection n)
unfolding pack_protection
pack_protection-IsProper zero = ok-IsProper xor
pack_protection-IsProper (suc zero) = ok-IsProper aead
pack_protection-IsProper (suc (suc n)) =
    failed-IsProper Status.status_invalid_value (Status.invalid_protection (suc (suc n)))
      value_ne_ok

pack_options-IsProper : (o : Option RasenPackOptions) → IsProper (pack_options o)
unfolding pack_options
pack_options-IsProper none = ok-IsProper default_options
pack_options-IsProper (some o) =
    bind-IsProper (pack_mode o.mode) _ (pack_mode-IsProper o.mode) (λ mode.
      bind-IsProper (pack_protection o.protection) _ (pack_protection-IsProper o.protection)
        (λ protection. ok-IsProper _))

module _ (env : Platform) where
  input_files-IsProper : (files : List RasenInputFile) → IsProper (input_files env files)
  unfolding input_files bytes
  input_files-IsProper [] = ok-IsProper []
  input_files-IsProper (f ∷ fs) =
      bind-IsProper (utf8 env f.path f.path_len "file.path") _
        (utf8-IsProper env f.path f.path_len "file.path")
        (λ path.
          bind-IsProper (raw_slice f.contents f.contents_len "file.data") _
            (raw_slice-IsProper f.contents f.contents_len "file.data")
            (λ contents.
              bind-IsProper (input_files env fs) _ (input_files-IsProper fs)
                (λ rest. ok-IsProper _)))

  buffered_inputs-IsProper :
      (files : Option (List RasenInputFile)) (count : ℕ)
      → IsProper (buffered_inputs env files count)
  unfolding buffered_inputs
  buffered_inputs-IsProper files count =
      bind-IsProper (raw_slice files count "files") _ (raw_slice-IsProper files count "files")
        input_files-IsProper

  module _ (lawful : IsLawful env) where
    pack_buffered-IsArchive :
        (w' : Memory) (files : List InputFile) (key : List ℕ) (options : PackOptions)
        (summary : PackSummary)
        → pack_buffered env (at_end []) files key options ≡ ok (summary, w')
        → (assets : List Asset) × AreFiles env files assets
          × IsArchive env key options assets summary w'
    unfolding pack_buffered
    pack_buffered-IsArchive w' files key options summary h =
        let (p, e0, h0) = >>=-eq-ok (new env (at_end []) key options) _ h in
        let (p', e1, h1) = >>=-eq-ok (add_files env p files) _ h0 in
        (steps-IsArchive env lawful (at_end []) w' files key options p p' summary e0 e1 h1).1

    module _ (key : Option (List ℕ)) (key_len : ℕ) (options_ptr : Option RasenPackOptions)
        (last : Message) (files : Option (List RasenInputFile)) (file_count : ℕ)
        (out_archive out_summary : Place) where
      -- If `rasen_pack_memory` ends with the status `Ok`, then the caller's files, key and options could
      -- be read, and the buffer that is stored holds an archive of the files under that key and those
      -- options, with the summary of it if one is wanted.
      pub rasen_pack_memory-IsArchive :
          (rasen_pack_memory env key key_len options_ptr last files file_count out_archive
              out_summary).status
            ≡ Status.status_ok
          → (inputs : List InputFile) × (k : List ℕ) × (options : PackOptions) × (assets : List
              Asset)
            × (summary : PackSummary) × (w : Memory) × (buffered_inputs env files file_count
                ≡ ok inputs)
            × (bytes key key_len "key" ≡ ok k)
            × (pack_options options_ptr ≡ ok options)
            × AreFiles env inputs assets
            × IsArchive env k options assets summary w
            × ((rasen_pack_memory env key key_len options_ptr last files file_count out_archive
                  out_summary).stored
                ≡ some (into_buffer w.contents, summary_for out_summary summary))
      unfolding rasen_pack_memory bytes
      rasen_pack_memory-IsArchive h =
          let from_options : List InputFile
              → List ℕ
              → PackOptions
              → FfiResult (RasenBuffer × Option RasenPackSummary) =
            λ inputs k options.
              (core (pack_buffered env (at_end []) inputs k options) >>= λ (summary, w).
              ok (into_buffer w.contents, summary_for out_summary summary)) in
          let from_key : List InputFile
              → List ℕ
              → FfiResult (RasenBuffer × Option RasenPackSummary) =
            λ inputs k. (pack_options options_ptr >>= from_options inputs k) in
          let from_files : List InputFile → FfiResult (RasenBuffer × Option RasenPackSummary) =
            λ inputs. (raw_slice key key_len "key" >>= from_key inputs) in
          let from_out : Unit {0} → FfiResult (RasenBuffer × Option RasenPackSummary) =
            λ u. (buffered_inputs env files file_count >>= from_files) in
          let proper =
            bind-IsProper (required_mut out_archive "out_archive") from_out
              (required_mut-IsProper out_archive "out_archive")
              (λ u.
                bind-IsProper (buffered_inputs env files file_count) from_files
                  (buffered_inputs-IsProper files file_count)
                  (λ inputs.
                    bind-IsProper (raw_slice key key_len "key") (from_key inputs)
                      (raw_slice-IsProper key key_len "key")
                      (λ k.
                        bind-IsProper (pack_options options_ptr) (from_options inputs k)
                          (pack_options-IsProper options_ptr)
                          (λ options.
                            bind-IsProper (core (pack_buffered env (at_end []) inputs k options)) _
                              (core-IsProper (pack_buffered env (at_end []) inputs k options))
                              (λ (summary, w).
                                ok-IsProper
                                  (into_buffer w.contents, summary_for out_summary summary)))))) in
          let (result, done, stored) =
            ffi_call-cases (required_mut out_archive "out_archive" >>= from_out) last proper h in
          let (u, e0, h0) = >>=-eq-ok (required_mut out_archive "out_archive") from_out done in
          let (inputs, e1, h1) = >>=-eq-ok (buffered_inputs env files file_count) from_files h0 in
          let (k, e2, h2) = >>=-eq-ok (raw_slice key key_len "key") (from_key inputs) h1 in
          let (options, e3, h3) = >>=-eq-ok (pack_options options_ptr) (from_options inputs k) h2 in
          let ((summary, w), e4, h4) =
            >>=-eq-ok (core (pack_buffered env (at_end []) inputs k options)) _ h3 in
          let (assets, holding, archive) =
            pack_buffered-IsArchive w inputs k options summary
              (core-eq-ok (pack_buffered env (at_end []) inputs k options) (summary, w) e4) in
          (
            inputs,
            k,
            options,
            assets,
            summary,
            w,
            e1,
            e2,
            e3,
            holding,
            archive,
            stored ∙ ap (λ b. some b) (sym (ok-injective h4)),
          )
