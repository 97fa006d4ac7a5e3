-- ===== src/Ffi/Pack.antt =====
-- crates/rasen-archive-ffi/src/pack.rs
use rasen_archive.Prelude.{ℕ, List, [], ◌∷◌, Option, none, some}
use rasen_archive.Error.{IoResult, Fallible, ok, err, panic, ◌>>=◌, ◌>>◌}
use rasen_archive.Platform.{Platform}
use rasen_archive.Sink.{Sink}
use rasen_archive.Sink.Memory.{memory_sink, at_end}
use rasen_archive.Pack.Options.{PackOptions}
use rasen_archive.Pack.Model.{Packer}
use rasen_archive.Pack.Packer.{InputFile, PackSummary, new, add_files, add_reader, finish}
use rasen_archive.Ffi.Status.{FfiResult, Outcome, Message, core, from_io_error, ffi_call}
use rasen_archive.Ffi.Types.{
  RasenInputFile, RasenPackOptions, RasenPackSummary, pack_options, from_summary,
}
use rasen_archive.Ffi.Io.{
  Place, null, place, bytes, utf8, raw_slice, required_ref, required_mut, RasenBuffer, into_buffer,
  CallbackReader, callback_reader, CallbackWriter, callback_writer, ReadAnswer,
}

-- `if let Some(out_summary) = out_summary.as_mut()`: what is stored there.
unfoldable pub summary_for : Place → PackSummary → Option RasenPackSummary
summary_for null summary = none
summary_for place summary = some (from_summary summary)

-- An input stream: its path, the caller's data and the callback.
pub record RasenStreamInput (U : Type 0) : Type 0 where
  pub path : Option (List ℕ)
  pub path_len : ℕ
  pub user_data : U
  pub read : Option (U → ℕ → ReadAnswer U)

-- What `rasen_pack_file` leaves at the path.
pub data FileLeft (W : Type 0) : Type 0 where
  untouched : FileLeft W
  removed : FileLeft W
  unfinished : FileLeft W
  complete : W → FileLeft W

abbrev file_left : {W : Type 0} → Fallible (PackSummary × W) → FileLeft W
file_left (ok (summary, w)) = complete w
file_left (err e) = removed
file_left panic = unfinished

module _ (env : Platform) where
  -- The `map` of `buffered_inputs`.
  unfoldable pub input_files : List RasenInputFile → FfiResult (List InputFile)
  input_files [] = ok []
  input_files (file ∷ files) = do
    path ← utf8 env file.path file.path_len "file.path"
    contents ← bytes file.contents file.contents_len "file.data"
    rest ← input_files files
    ok (record { path = path; contents = contents } ∷ rest)

  unfoldable pub buffered_inputs : Option (List RasenInputFile) → ℕ → FfiResult (List InputFile)
  buffered_inputs files count = raw_slice files count "files" >>= input_files

  unfoldable pub pack_buffered :
      {W : Type 0} ⦃s : Sink W⦄
      → W
      → List InputFile
      → List ℕ
      → PackOptions
      → Fallible (PackSummary × W)
  pack_buffered writer files key options = do
    packer ← new env writer key options
    packer ← add_files env packer files
    finish env packer

  module _ (key : Option (List ℕ)) (key_len : ℕ) (options_ptr : Option RasenPackOptions)
      (last : Message) where
    -- The archive, and the summary if it is wanted.
    unfoldable pub rasen_pack_memory :
        Option (List RasenInputFile)
        → ℕ
        → Place
        → Place
        → Outcome (RasenBuffer × Option RasenPackSummary)
    rasen_pack_memory files file_count out_archive out_summary =
        ffi_call
          (do
            required_mut out_archive "out_archive"
            files ← buffered_inputs files file_count
            key ← bytes key key_len "key"
            options ← pack_options options_ptr
            (summary, writer) ← core (pack_buffered (at_end []) files key options)
            ok (into_buffer writer.contents, summary_for out_summary summary))
          last

    -- `OpenOptions::open` with `create_new`, given by what it makes of a path. What follows it, and what
    -- is left at the path.
    module _ {W : Type 0} ⦃s : Sink W⦄ (create_new : List ℕ → IoResult W) where
      unfoldable pub pack_into_file :
          List ℕ
          → List InputFile
          → List ℕ
          → PackOptions
          → Place
          → FfiResult (Option RasenPackSummary) × FileLeft W
      pack_into_file output_path files key options out_summary = elim (create_new output_path) [
        | ok writer ↦
            let result = pack_buffered writer files key options in
            (core result >>= λ (summary, w). ok (summary_for out_summary summary), file_left result)
        | err e ↦ (err (from_io_error e), untouched)
        | panic ↦ (panic, untouched)
      ]

      -- The conversions before the file is opened.
      unfoldable pub file_arguments :
          Option (List ℕ)
          → ℕ
          → Option (List RasenInputFile)
          → ℕ
          → FfiResult (List ℕ × List InputFile × List ℕ × PackOptions)
      file_arguments output_path output_path_len files file_count = do
        output_path ← utf8 env output_path output_path_len "output_path"
        files ← buffered_inputs files file_count
        key ← bytes key key_len "key"
        options ← pack_options options_ptr
        ok (output_path, files, key, options)

      unfoldable pub rasen_pack_file :
          Option (List ℕ)
          → ℕ
          → Option (List RasenInputFile)
          → ℕ
          → Place
          → Outcome (Option RasenPackSummary) × FileLeft W
      rasen_pack_file output_path output_path_len files file_count out_summary =
          elim (file_arguments output_path output_path_len files file_count) [
            | ok (path, inputs, k, options) ↦
                let (result, left) = pack_into_file path inputs k options out_summary in
                (ffi_call result last, left)
            | err e ↦ (ffi_call (err e) last, untouched)
            | panic ↦ (ffi_call panic last, untouched)
          ]

    module _ {U V : Type 0} where
      -- The loop over the inputs. Each has this fuel.
      unfoldable pub add_streams :
          ℕ
          → Packer (CallbackWriter V)
          → List (RasenStreamInput U)
          → FfiResult (Packer (CallbackWriter V))
      add_streams fuel packer [] = ok packer
      add_streams fuel packer (input ∷ inputs) =
          utf8 env input.path input.path_len "input.path" >>= λ path.
          let reader : CallbackReader U = record {
            user_data = input.user_data;
            read = input.read;
          } in
          let (result, packer') = add_reader env fuel packer path reader in
          core result >> add_streams fuel packer' inputs

      unfoldable pub rasen_pack_streams :
          ℕ
          → Option (List (RasenStreamInput U))
          → ℕ
          → Option (CallbackWriter V)
          → Place
          → Outcome (Option RasenPackSummary × CallbackWriter V)
      rasen_pack_streams fuel inputs input_count writer out_summary =
          ffi_call
            (do
              inputs ← raw_slice inputs input_count "inputs"
              key ← bytes key key_len "key"
              callbacks ← required_ref writer "writer"
              options ← pack_options options_ptr
              packer ← core (new env (record callbacks { position = 0 }) key options)
              packer ← add_streams fuel packer inputs
              (summary, w) ← core (finish env packer)
              ok (summary_for out_summary summary, w))
            last
