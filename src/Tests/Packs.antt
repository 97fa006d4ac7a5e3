-- ===== src/Tests/Packs.antt =====
-- The packer at concrete inputs.
use rasen_archive.Prelude.{
  ℕ, zero, suc, ◌+◌, ◌*◌, ◌^◌, ◌<◌, ◌≤◌, ◌≡◌, refl, ◌⊎◌, inl, inr, List, [], ◌∷◌, ◌++◌, All, true,
  false, none, length, replicate, take, drop, u64_mod, arith,
}
use rasen_archive.Error.{ok, err, invalid_path, incomplete_pack}
use rasen_archive.Archive.Model.{xor}
use rasen_archive.Sink.Memory.{Memory, memory_sink, at_end}
use rasen_archive.Pack.Options.{PackOptions, debug}
use rasen_archive.Pack.Input.{Reader, slice_reader}
use rasen_archive.Pack.Model.{Packer, Progress, insert_hash, contains_hash}
use rasen_archive.Pack.Store.{align, store_chunks}
use rasen_archive.Pack.Store.Padding.{padded, align-padded}
use rasen_archive.Pack.Packer.{InputFile, PackSummary, pack_with_options, add_reader, finish}
use rasen_archive.Pack.Packer.Assets.{Asset}
use rasen_archive.Pack.Packer.Failed.{add_reader-failed}
use rasen_archive.Pack.Packer.Files.{AreFiles}
use rasen_archive.Pack.Packer.Unique.{Differs, insert_hash-Differs}
use rasen_archive.Pack.Packer.Archive.{IsArchive}
use rasen_archive.Pack.Packer.Written.{pack_with_options-IsArchive}
use rasen_archive.Ffi.Pack.{pack_buffered}
use rasen_archive.Tests.Streams.{stream, trickle_reader}
use rasen_archive.Tests.Setup.{platform, platform-IsLawful}

abbrev pub sample_options : PackOptions
sample_options = record { chunk_size = 2; alignment = 4; mode = debug; protection = xor }

abbrev pub files : List InputFile
files =
    record { path = 97 ∷ []; contents = 1 ∷ 2 ∷ 3 ∷ [] }
    ∷ record { path = 98 ∷ []; contents = [] }
    ∷ []

-- The header, the blocks with their padding, and the TOC.
abbrev sample_header : List ℕ
sample_header =
    82 ∷ 80 ∷ 65 ∷ 75 ∷ 1 ∷ 0 ∷ 15 ∷ 0 ∷ 60 ∷ 0 ∷ 0 ∷ 0 ∷ 4 ∷ 0 ∷ 0 ∷ 0 ∷ 2 ∷ 0 ∷ 0 ∷ 0 ∷ 2 ∷ 0 ∷ 0
    ∷ 0 ∷ 2 ∷ 0 ∷ 0 ∷ 0 ∷ 68 ∷ 0 ∷ 0 ∷ 0 ∷ 0 ∷ 0 ∷ 0 ∷ 0 ∷ 150 ∷ 0 ∷ 0 ∷ 0 ∷ 0 ∷ 0 ∷ 0 ∷ 0 ∷ 150 ∷ 0
    ∷ 0 ∷ 0 ∷ 0 ∷ 0 ∷ 0 ∷ 0 ∷ 30 ∷ 109 ∷ 253 ∷ 222 ∷ 210 ∷ 129 ∷ 35 ∷ 152 ∷ []

abbrev sample_toc : List ℕ
sample_toc =
    81 ∷ 74 ∷ 70 ∷ 55 ∷ 100 ∷ 5 ∷ 5 ∷ 5 ∷ 5 ∷ 5 ∷ 5 ∷ 5 ∷ 6 ∷ 5 ∷ 5 ∷ 5 ∷ 5 ∷ 5 ∷ 5 ∷ 5 ∷ 6 ∷ 5 ∷ 5
    ∷ 5 ∷ 5 ∷ 5 ∷ 5 ∷ 5 ∷ 5 ∷ 5 ∷ 5 ∷ 5 ∷ 7 ∷ 5 ∷ 5 ∷ 5 ∷ 4 ∷ 5 ∷ 5 ∷ 5 ∷ 100 ∷ 103 ∷ 5 ∷ 5 ∷ 5 ∷ 5
    ∷ 5 ∷ 5 ∷ 5 ∷ 5 ∷ 5 ∷ 5 ∷ 5 ∷ 5 ∷ 5 ∷ 5 ∷ 5 ∷ 5 ∷ 5 ∷ 5 ∷ 5 ∷ 5 ∷ 5 ∷ 5 ∷ 5 ∷ 7 ∷ 5 ∷ 5 ∷ 5 ∷ 5
    ∷ 5 ∷ 5 ∷ 5 ∷ 4 ∷ 5 ∷ 5 ∷ 5 ∷ 103 ∷ 57 ∷ 5 ∷ 5 ∷ 5 ∷ 5 ∷ 5 ∷ 5 ∷ 5 ∷ 7 ∷ 5 ∷ 5 ∷ 5 ∷ 5 ∷ 5 ∷ 5
    ∷ 5 ∷ 7 ∷ 5 ∷ 5 ∷ 5 ∷ 5 ∷ 5 ∷ 5 ∷ 5 ∷ 58 ∷ 5 ∷ 5 ∷ 5 ∷ 5 ∷ 5 ∷ 5 ∷ 5 ∷ 5 ∷ 5 ∷ 5 ∷ 5 ∷ 69 ∷ 5
    ∷ 5 ∷ 5 ∷ 5 ∷ 5 ∷ 5 ∷ 5 ∷ 4 ∷ 5 ∷ 5 ∷ 5 ∷ 5 ∷ 5 ∷ 5 ∷ 5 ∷ 4 ∷ 5 ∷ 5 ∷ 5 ∷ 5 ∷ 5 ∷ 5 ∷ 5 ∷ 6 ∷ 5
    ∷ 5 ∷ 5 ∷ 5 ∷ 5 ∷ 5 ∷ 5 ∷ 5 ∷ 5 ∷ 5 ∷ 5 ∷ []

abbrev pub archive : List ℕ
archive = sample_header ++ ((1 ∷ 2 ∷ 0 ∷ 0 ∷ 3 ∷ 0 ∷ 0 ∷ 0 ∷ []) ++ sample_toc)

packed_sample :
    pack_with_options platform (at_end []) files (5 ∷ []) sample_options ≡ ok (at_end archive)
unfolding pack_with_options rasen_archive.Sink.Memory.memory_sink
    rasen_archive.Pack.Input.slice_reader rasen_archive.Pack.Input.after_read
    rasen_archive.Pack.Input.read_chunk rasen_archive.Pack.Options.validate
    rasen_archive.Pack.Model.contains_hash rasen_archive.Pack.Model.is_duplicate
    rasen_archive.Pack.Model.insert_hash rasen_archive.Pack.Model.clear_path
    rasen_archive.Pack.Model.header_flags rasen_archive.Pack.Model.header_of
    rasen_archive.Pack.Store.protect rasen_archive.Pack.Store.pad rasen_archive.Pack.Store.align
    rasen_archive.Pack.Store.store_chunk rasen_archive.Pack.Store.store_chunks
    rasen_archive.Pack.Packer.new rasen_archive.Pack.Packer.add_reader_inner
    rasen_archive.Pack.Packer.add_reader rasen_archive.Pack.Packer.store_toc
    rasen_archive.Pack.Packer.write_out rasen_archive.Pack.Packer.finish
    rasen_archive.Pack.Packer.add_files rasen_archive.VirtualPath.contains_nul
    rasen_archive.VirtualPath.split rasen_archive.VirtualPath.classify
    rasen_archive.VirtualPath.normalize_parts rasen_archive.VirtualPath.normalize_path
    rasen_archive.VirtualPath.push_part rasen_archive.Crypto.Xor.xor_from
    rasen_archive.Crypto.Xor.xor_in_place rasen_archive.Format.validate_chunk_size
    rasen_archive.Format.validate_alignment rasen_archive.Format.is_power_of_two
    rasen_archive.Format.Io.align_up rasen_archive.Format.Io.usize_to_u32
    rasen_archive.Format.Io.usize_to_u64 rasen_archive.Format.Header.write_header
    rasen_archive.Format.Toc.encode_toc rasen_archive.Format.Toc.encode_entry
    rasen_archive.Format.Toc.encode_chunk rasen_archive.Tests.Setup.digest
    rasen_archive.Format.Toc.entries_size rasen_archive.Format.Toc.encode_entries
    rasen_archive.Format.Toc.encode_chunks rasen_archive.Prelude.to_le_bytes
    rasen_archive.Prelude.bytes_eq
packed_sample = refl

pub buffered_sample :
    pack_buffered platform (at_end []) files (5 ∷ []) sample_options
    ≡ ok (record { archive_len = 218; entry_count = 2; chunk_count = 2 }, at_end archive)
unfolding pack_buffered rasen_archive.Sink.Memory.memory_sink rasen_archive.Pack.Input.slice_reader
    rasen_archive.Pack.Input.after_read rasen_archive.Pack.Input.read_chunk
    rasen_archive.Pack.Options.validate rasen_archive.Pack.Model.contains_hash
    rasen_archive.Pack.Model.is_duplicate rasen_archive.Pack.Model.insert_hash
    rasen_archive.Pack.Model.clear_path rasen_archive.Pack.Model.header_flags
    rasen_archive.Pack.Model.header_of rasen_archive.Pack.Store.protect rasen_archive.Pack.Store.pad
    rasen_archive.Pack.Store.align rasen_archive.Pack.Store.store_chunk
    rasen_archive.Pack.Store.store_chunks rasen_archive.Pack.Packer.new
    rasen_archive.Pack.Packer.add_reader_inner rasen_archive.Pack.Packer.add_reader
    rasen_archive.Pack.Packer.store_toc rasen_archive.Pack.Packer.write_out
    rasen_archive.Pack.Packer.finish rasen_archive.Pack.Packer.add_files
    rasen_archive.VirtualPath.contains_nul rasen_archive.VirtualPath.split
    rasen_archive.VirtualPath.classify rasen_archive.VirtualPath.normalize_parts
    rasen_archive.VirtualPath.normalize_path rasen_archive.VirtualPath.push_part
    rasen_archive.Crypto.Xor.xor_from rasen_archive.Crypto.Xor.xor_in_place
    rasen_archive.Format.validate_chunk_size rasen_archive.Format.validate_alignment
    rasen_archive.Format.is_power_of_two rasen_archive.Format.Io.align_up
    rasen_archive.Format.Io.usize_to_u32 rasen_archive.Format.Io.usize_to_u64
    rasen_archive.Format.Header.write_header rasen_archive.Format.Toc.encode_toc
    rasen_archive.Format.Toc.encode_entry rasen_archive.Format.Toc.encode_chunk
    rasen_archive.Tests.Setup.digest rasen_archive.Format.Toc.entries_size
    rasen_archive.Format.Toc.encode_entries rasen_archive.Format.Toc.encode_chunks
    rasen_archive.Prelude.to_le_bytes rasen_archive.Prelude.bytes_eq
buffered_sample = refl

pack_with_options-IsArchive_example :
    ((at_end []).contents ≡ [])
    × ((assets : List Asset) × (summary : PackSummary) × AreFiles platform files assets
        × IsArchive platform (5 ∷ []) sample_options assets summary (at_end archive))
pack_with_options-IsArchive_example =
    pack_with_options-IsArchive platform platform-IsLawful (at_end []) (at_end archive) files
      (5 ∷ []) sample_options packed_sample

abbrev packer : Packer Memory
packer = record {
  writer = at_end (replicate 60 0);
  key = 5 ∷ [];
  aead_key = none;
  options = sample_options;
  entries = [];
  chunks = [];
  seen_hashes = [];
  offset = 60;
  failed = false;
  draws = 0;
}

refused_sample :
    add_reader platform 6 packer [] stream ≡ (err invalid_path, record packer { failed = true })
unfolding add_reader rasen_archive.Pack.Packer.add_reader_inner
    rasen_archive.VirtualPath.contains_nul rasen_archive.VirtualPath.split
    rasen_archive.VirtualPath.classify rasen_archive.VirtualPath.normalize_parts
    rasen_archive.VirtualPath.normalize_path
refused_sample = refl

add_reader-failed_example :
    (add_reader platform 6 (record packer { failed = true }) (97 ∷ []) stream
      ≡ (err incomplete_pack, record packer { failed = true }))
    × (finish platform (record packer { failed = true }) ≡ err incomplete_pack)
add_reader-failed_example =
    add_reader-failed platform 6 6 packer (record packer { failed = true }) [] (97 ∷ []) stream
      stream invalid_path refused_sample

padded_sample :
    align (record packer { writer = at_end (replicate 61 0); offset = 61 })
    ≡ ok (padded packer (replicate 61 0) 3)
unfolding align rasen_archive.Pack.Store.pad rasen_archive.Format.Io.align_up
    rasen_archive.Sink.Memory.memory_sink
padded_sample = refl

align-padded_example :
    (n : ℕ) × (q : ℕ) × (length (replicate {A = ℕ} 61 0) + n ≡ q * 2 ^ 2)
    × (length (replicate {A = ℕ} 61 0) + n < u64_mod)
    × (padded (record packer { writer = at_end (replicate 61 0); offset = 61 }) (replicate 61 0) n
        ≡ padded packer (replicate 61 0) 3)
align-padded_example =
    align-padded (record packer { writer = at_end (replicate 61 0); offset = 61 }) (replicate 61 0)
      2 refl refl (omega arith) refl padded_sample

abbrev one_entry : Packer Memory
one_entry = record packer {
  entries =
      record {
        path = 97 ∷ [];
        path_hash = 3;
        original_size = 0;
        stored_size = 0;
        first_chunk = 0;
        chunk_count = 0;
      }
      ∷ [];
  seen_hashes = 3 ∷ [];
}

-- The same hash under another path.
accepted_sample : insert_hash one_entry (98 ∷ []) 3 ≡ ok (3 ∷ [])
unfolding insert_hash rasen_archive.Pack.Model.contains_hash rasen_archive.Pack.Model.is_duplicate
    rasen_archive.Prelude.bytes_eq
accepted_sample = refl

one_entry_seen : All (λ e. contains_hash e.path_hash one_entry.seen_hashes ≡ true) one_entry.entries
unfolding rasen_archive.Pack.Model.contains_hash
one_entry_seen = (refl, tt)

insert_hash-Differs_example :
    All (Differs false 3 (98 ∷ [])) one_entry.entries
    × (contains_hash 3 (3 ∷ []) ≡ true)
    × All (λ e. contains_hash e.path_hash (3 ∷ []) ≡ true) one_entry.entries
insert_hash-Differs_example =
    insert_hash-Differs one_entry (98 ∷ []) 3 (3 ∷ []) one_entry_seen accepted_sample
