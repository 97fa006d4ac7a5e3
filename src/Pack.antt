-- ===== src/Pack.antt =====
-- crates/rasen-archive/src/pack
pub mod Options
pub mod Input
pub mod Model
pub mod Store
pub mod Packer
