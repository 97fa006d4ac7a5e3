-- ===== src/Tests/Stored.antt =====
-- A chunk of an encrypted archive at a concrete input.
use rasen_archive.Prelude.{ℕ, ◌≡◌, refl, List, [], ◌∷◌, ◌++◌, some, false, replicate, arith}
use rasen_archive.Error.{ok}
use rasen_archive.Archive.Model.{Archive, aead}
use rasen_archive.Archive.Source.{bytes_source}
use rasen_archive.Archive.Chunks.{path_label, read_chunk_by_index_into}
use rasen_archive.Format.Model.{Chunk}
use rasen_archive.Pack.Store.Stored.{IsStored}
use rasen_archive.Pack.Store.ReadBack.{read_chunk_by_index_into-IsStored}
use rasen_archive.Tests.Setup.{platform, platform-IsRoomy}

-- The plain bytes 1 2, behind a nonce of 24 bytes and a tag of 16.
abbrev sealed : List ℕ
sealed = replicate 40 0 ++ (1 ∷ 2 ∷ [])

abbrev sealed_chunk : Chunk
sealed_chunk = record {
  offset = 64;
  stored_size = 42;
  original_size = 2;
  checksum = 63;
  compressed = false;
}

abbrev payload : List ℕ
payload = replicate 4 0 ++ (sealed ++ [])

abbrev sealed_archive : Archive
sealed_archive = record {
  source = bytes_source (replicate 60 0 ++ (payload ++ (7 ∷ [])));
  entries = [];
  chunks = sealed_chunk ∷ [];
  index = [];
  chunk_size = 2;
  alignment = 4;
  paths_stripped = false;
  protection = aead;
  aead_key = some (5 ∷ []);
  max_chunks_per_operation = 1;
}

sealed_chunk-IsStored : IsStored platform (some (5 ∷ [])) 2 4 payload 0 sealed_chunk (1 ∷ 2 ∷ [])
unfolding rasen_archive.Tests.Setup.digest rasen_archive.Crypto.Aead.decrypt
    rasen_archive.Crypto.Aead.split_stored
sealed_chunk-IsStored = record {
  plain = 1 ∷ 2 ∷ [];
  stored = sealed;
  front = replicate 4 0;
  back = [];
  some_bytes = omega arith;
  fits = omega arith;
  original = refl;
  size = refl;
  checked = refl;
  packed = refl;
  sealed = (refl, refl);
  place = refl;
  at_offset = refl;
  aligned = refl;
}

read_chunk_by_index_into-IsStored_example :
    (after : List ℕ) × (read_chunk_by_index_into platform sealed_archive
        (path_label (97 ∷ []))
        0
        0
        2
        []
      ≡ ok (1 ∷ 2 ∷ [], after))
read_chunk_by_index_into-IsStored_example =
    read_chunk_by_index_into-IsStored platform platform-IsRoomy sealed_archive (replicate 60 0)
      payload (7 ∷ []) 2 4 0 sealed_chunk (1 ∷ 2 ∷ []) (path_label (97 ∷ [])) 0 [] refl refl
      (omega arith) (omega arith) (omega arith) refl sealed_chunk-IsStored
