-- ===== src/Archive.antt =====
-- crates/rasen-archive/src/archive
pub mod Source
pub mod Limits
pub mod Model
pub mod Index
pub mod Open
pub mod Lookup
pub mod Chunks
pub mod Read
pub mod Range
