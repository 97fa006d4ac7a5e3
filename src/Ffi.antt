-- ===== src/Ffi.antt =====
-- The C interface, crates/rasen-archive-ffi/src. A pointer to bytes is nothing, or the memory behind it;
-- a pointer for a result is null or a place. What a call stores stands in its outcome.
pub mod Status
pub mod Types
pub mod Io
pub mod Source
pub mod Codes
pub mod Handlers
pub mod Reading
pub mod Outcomes
pub mod Options
pub mod Reads
pub mod Packs
pub mod Pack
pub mod Callbacks
