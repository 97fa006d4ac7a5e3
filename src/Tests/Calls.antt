-- ===== src/Tests/Calls.antt =====
-- Calls of the C interface at concrete inputs.
use rasen_archive.Prelude.{
  ℕ, ◌+◌, ◌<◌, ◌≤◌, ◌≡◌, refl, List, [], ◌∷◌, ◌⊎◌, none, some, get_elem?, length, arith, u64_mod,
}
use mathlib.Core.Path.{subst}
use rasen_archive.Error.{ok, err}
use rasen_archive.Sink.Memory.{Memory}
use rasen_archive.Archive.Source.{IsSource}
use rasen_archive.Archive.Source.Bytes.{bytes_source-IsSource}
use rasen_archive.Archive.Model.{Archive, Entry, aead}
use rasen_archive.Archive.Limits.{runtime_default}
use rasen_archive.VirtualPath.{normalize_lookup_path}
use rasen_archive.Archive.Lookup.{find_entry_index_normalized}
use rasen_archive.Archive.Read.{read}
use rasen_archive.Archive.Read.Whole.{IsContent}
use rasen_archive.Pack.Options.{PackOptions, production}
use rasen_archive.Pack.Packer.{InputFile, PackSummary}
use rasen_archive.Pack.Packer.Assets.{Asset}
use rasen_archive.Pack.Packer.Files.{AreFiles}
use rasen_archive.Pack.Packer.Archive.{IsArchive}
use rasen_archive.Ffi.Status
use rasen_archive.Ffi.Status.{FfiFailure, ffi_call}
use rasen_archive.Ffi.Types.{
  RasenPackOptions, RasenInputFile, pack_options, from_pack_options, limits, from_limits,
}
use rasen_archive.Ffi.Options.{pack_options-from_pack_options, pack_options-cases}
use rasen_archive.Ffi.Io.{
  place, utf8, bytes, into_buffer, CallbackReader, callback_read, CallbackWriter,
  callback_write_all, callback_seek_start,
}
use rasen_archive.Ffi.Source.{memory, ffi_source}
use rasen_archive.Archive.Source.{bytes_source}
use rasen_archive.Ffi.Callbacks.{
  ffi_source-bytes_source, callback_read-le, callback_write_all-position,
}
use rasen_archive.Ffi.Reading.{rasen_archive_read}
use rasen_archive.Ffi.Pack.{buffered_inputs, pack_buffered, summary_for, rasen_pack_memory}
use rasen_archive.Ffi.Reads.{rasen_archive_read-IsContent}
use rasen_archive.Ffi.Packs.{rasen_pack_memory-IsArchive}
use rasen_archive.Tests.Reads.{archive_sample, read_sample}
use rasen_archive.Tests.Packs.{sample_options, buffered_sample}
use rasen_archive.Tests.Setup.{platform, platform-IsRoomy, platform-IsLawful}

abbrev secret_options : PackOptions
secret_options = record { chunk_size = 4096; alignment = 16; mode = production; protection = aead }

pack_options-from_pack_options_example :
    (pack_options (some (from_pack_options secret_options)) ≡ ok secret_options)
    × (limits (some (from_limits runtime_default)) ≡ runtime_default)
pack_options-from_pack_options_example =
    pack_options-from_pack_options secret_options runtime_default

abbrev c_options : RasenPackOptions
c_options = record { chunk_size = 2; alignment = 4; mode = 1; protection = 2 }

pack_options-cases_example :
    ((c_options.mode < 2)
      × (c_options.protection < 2)
      × ((options : PackOptions) × (pack_options (some c_options) ≡ ok options)
          × (from_pack_options options ≡ c_options)))
    ⊎ (((2 ≤ c_options.mode) ⊎ (2 ≤ c_options.protection))
        × ((f : FfiFailure) × (pack_options (some c_options) ≡ err f)
            × (f.status ≡ Status.status_invalid_value)))
pack_options-cases_example = pack_options-cases c_options

ffi_source-bytes_source_example : ffi_source (memory (1 ∷ 2 ∷ [])) ≡ bytes_source (1 ∷ 2 ∷ [])
ffi_source-bytes_source_example = ffi_source-bytes_source (1 ∷ 2 ∷ [])

-- A callback that delivers one byte, the number of calls so far.
abbrev counter : CallbackReader ℕ
counter = record {
  user_data = 7;
  read = some (λ n room. record { status = 0; buffer = n ∷ []; amount = 1; user_data = n + 1 });
}

counted_sample : callback_read counter 3 ≡ (ok (7 ∷ []), record counter { user_data = 8 })
unfolding callback_read rasen_archive.Ffi.Io.read_answer
counted_sample = refl

callback_read-le_example : length {A = ℕ} (7 ∷ []) ≤ 3
callback_read-le_example =
    callback_read-le counter (record counter { user_data = 8 }) 3 (7 ∷ []) counted_sample

-- Callbacks that accept everything.
abbrev writer : CallbackWriter ℕ
writer = record {
  user_data = 0;
  write = some (λ n src. (0, n + 1));
  seek = some (λ n position. (0, n));
  len = some (λ n. (0, 0, n));
  position = 5;
}

written_sample :
    callback_write_all writer (1 ∷ 2 ∷ []) ≡ ok (record writer { user_data = 1; position = 7 })
unfolding callback_write_all rasen_archive.Ffi.Io.callback_write
written_sample = refl

callback_write_all-position_example : (7 ≡ 5 + length {A = ℕ} (1 ∷ 2 ∷ [])) × (7 < u64_mod)
callback_write_all-position_example =
    callback_write_all-position writer (record writer { user_data = 1; position = 7 }) (1 ∷ 2 ∷ [])
      (omega arith) written_sample

read_call_sample :
    (rasen_archive_read platform
      (some archive_sample)
      (some (97 ∷ 98 ∷ []))
      2
      place
      Status.panic_caught).status
    ≡ Status.status_ok
unfolding rasen_archive_read utf8 bytes rasen_archive.Ffi.Io.raw_slice
    rasen_archive.Ffi.Io.required_ref rasen_archive.Ffi.Io.required_mut
    rasen_archive.Ffi.Reading.read_buffer ffi_call
read_call_sample = rw read_sample refl

sample_source : (a : Archive) → some archive_sample ≡ some a → IsSource a.source
sample_source a e =
    let same : archive_sample ≡ a = cc in
    subst (λ (x : Archive). IsSource x.source) same (bytes_source-IsSource (0 ∷ 0 ∷ 1 ∷ 2 ∷ 3 ∷ []))

rasen_archive_read-IsContent_example :
    (a : Archive) × (p : List ℕ) × (normalized : List ℕ) × (idx : ℕ) × (value : List ℕ)
    × (e : Entry) × (some archive_sample ≡ some a)
    × (utf8 platform (some (97 ∷ 98 ∷ [])) 2 "path" ≡ ok p)
    × (read platform a p ≡ ok value)
    × (normalize_lookup_path platform p ≡ ok normalized)
    × (find_entry_index_normalized platform a normalized ≡ ok idx)
    × (get_elem? a.entries idx ≡ some e)
    × IsContent platform a e value
    × ((rasen_archive_read platform
          (some archive_sample)
          (some (97 ∷ 98 ∷ []))
          2
          place
          Status.panic_caught).stored
        ≡ some (into_buffer value))
rasen_archive_read-IsContent_example =
    rasen_archive_read-IsContent platform (some archive_sample) (some (97 ∷ 98 ∷ [])) 2 place
      Status.panic_caught platform-IsRoomy sample_source read_call_sample

abbrev c_files : List RasenInputFile
c_files =
    record {
      path = some (97 ∷ []);
      path_len = 1;
      contents = some (1 ∷ 2 ∷ 3 ∷ []);
      contents_len = 3;
    }
    ∷ record { path = some (98 ∷ []); path_len = 1; contents = none; contents_len = 0 }
    ∷ []

pack_call_sample :
    (rasen_pack_memory platform
      (some (5 ∷ []))
      1
      (some (from_pack_options sample_options))
      Status.panic_caught
      (some c_files)
      2
      place
      place).status
    ≡ Status.status_ok
unfolding rasen_pack_memory utf8 bytes rasen_archive.Ffi.Io.raw_slice
    rasen_archive.Ffi.Io.required_mut buffered_inputs rasen_archive.Ffi.Pack.input_files
    pack_options rasen_archive.Ffi.Types.pack_mode rasen_archive.Ffi.Types.pack_protection
    from_pack_options ffi_call
pack_call_sample = rw buffered_sample refl

rasen_pack_memory-IsArchive_example :
    (inputs : List InputFile) × (k : List ℕ) × (options : PackOptions) × (assets : List Asset)
    × (summary : PackSummary) × (w : Memory) × (buffered_inputs platform (some c_files) 2
        ≡ ok inputs)
    × (bytes (some (5 ∷ [])) 1 "key" ≡ ok k)
    × (pack_options (some (from_pack_options sample_options)) ≡ ok options)
    × AreFiles platform inputs assets
    × IsArchive platform k options assets summary w
    × ((rasen_pack_memory platform
          (some (5 ∷ []))
          1
          (some (from_pack_options sample_options))
          Status.panic_caught
          (some c_files)
          2
          place
          place).stored
        ≡ some (into_buffer w.contents, summary_for place summary))
rasen_pack_memory-IsArchive_example =
    rasen_pack_memory-IsArchive platform platform-IsLawful (some (5 ∷ [])) 1
      (some (from_pack_options sample_options)) Status.panic_caught (some c_files) 2 place place
      pack_call_sample
