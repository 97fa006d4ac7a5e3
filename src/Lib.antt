-- ===== src/Lib.antt =====
-- The archive library of the repository, crates/rasen-archive: its format, its reader, its packer and
-- the transformations of the bytes that they share; and its C interface, crates/rasen-archive-ffi.
--
-- An archive is a header of 60 bytes, the chunks of the assets, and a table of contents (TOC) that
-- is compressed and either obfuscated by XOR or encrypted. The reader takes the header from a
-- random-access source, checks it and the caller's limits, decrypts and decompresses the TOC,
-- decodes the tables of entries and chunks, validates their layout, and builds a sorted index from
-- identifiers to entries. A read normalizes the path, looks it up, and reads, decrypts, decompresses
-- and checks the chunks that it needs. The packer reads each input in pieces of the chunk size,
-- compresses a piece if that makes it smaller, encrypts it if the archive is encrypted, and writes it at
-- an aligned offset; in the end it writes the TOC behind the chunks and the header over the place that
-- was left for it. The C interface converts what the caller hands over, calls the reader or the packer,
-- and turns the result into a status and values for the caller.
--
-- Files, with the code that they model (paths below crates/rasen-archive/src):
--   Error              error.rs; results with `?`, and a result `panic` for what unwinds
--   VirtualPath        path.rs; the split into parts and canonical paths in its children
--   Crypto.Aead, Xor   crypto/aead.rs, crypto/xor.rs
--   Compression        compression/lz4.rs
--   Format             format/mod.rs, with the children Model, Io, Io.Cursor, Header, Toc (format/model.rs,
--                      io.rs, header.rs, toc.rs) and Layout (validate_layout of format/toc.rs)
--   Archive.Source     archive/source.rs
--   Archive.Limits, Model, Index, Open, Lookup, Chunks, Read, Range
--                      archive/reader.rs: the limits, the state, the index, opening, look-up, single
--                      chunks, whole entries and verification, and ranges; Open.Opened says what an
--                      opened archive is
--   Pack.Options, Input, Model, Store, Packer
--                      pack/options.rs and pack/writer.rs: the options, read_chunk, the state, padding and
--                      chunks, and the operations. Beside them stand the specifications: Store.Stored (a
--                      chunk holds a piece of the input), Store.Growth (the destination while inputs are
--                      added), Packer.Assets (entries describe their blocks), Packer.Archive (the whole
--                      archive), and Store.ReadBack and Packer.ReadBack for what the reader makes of it
--   Ffi                crates/rasen-archive-ffi/src: Status (error.rs, RasenStatus of types.rs), Types
--                      (types.rs), Io and Source (io.rs), Handlers and Reading
--                      (archive.rs), Pack (pack.rs)
--   Platform           what comes from other crates and the system, as a parameter: XXH3, LZ4, BLAKE3,
--                      XChaCha20-Poly1305, random nonces, UTF-8 validation, the allocator
--   Sink               std::io::Write and Seek of a destination, as an interface; Memory is a cursor over
--                      a vector
--   Prelude            numbers, lists, Boolean tests, words and bits
--   Tests              runs of the definitions, and the results at concrete inputs
--
-- Conventions. Bytes are numbers, text is its UTF-8 bytes, an AssetId is its number. Words keep their
-- widths in the conditions of checked operations; `usize` has 64 bits. A loop is recursion on a list
-- or on the number of rounds that are left. What a function leaves in a mutable buffer is part of its
-- result, and the content of a buffer after an error is not modelled. A reservation of memory asks the
-- parameter `can_reserve`. `sort_unstable_by_key` keeps equal keys in one of the orders that it may
-- choose. Some functions have fuel: `check_buckets` gets the length of the index, of which every round
-- takes at least one member off, and `file_read_exact_at` gets a number of attempts and says when they
-- do not do, since the system may interrupt a read for ever: the bytes to read and the attempts that
-- may be interrupted are enough together.
-- `pad` gets the number of bytes, of which every round writes one at least. `read_chunk` and
-- `store_chunks` get a number of rounds, since a reader may go on or be interrupted for ever; a loop that
-- has not ended by then counts as a panic. For a slice of n bytes n + 1 rounds are enough.
--
-- In the C interface a pointer to bytes is nothing, or the memory behind it, which the caller promises to
-- be long enough; a pointer for a result is null or a place. A call gives a status, what it has stored if
-- it succeeded, and the thread's last error. A message is given by its parts.
--
-- Not modelled: the command line tool (crates/rasen-packer), which parses arguments, walks directories and
-- prints; the texts of errors; plain getters; and in the C interface the release of memory, the `destroy`
-- callback and the version string.
mod Prelude
pub mod Error
pub mod Platform
pub mod Sink
pub mod VirtualPath
pub mod Crypto
pub mod Compression
pub mod Format
pub mod Archive
pub mod Pack
pub mod Ffi
mod Tests
