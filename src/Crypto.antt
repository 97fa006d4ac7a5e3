-- ===== src/Crypto.antt =====
-- crates/rasen-archive/src/crypto
pub mod Aead
pub mod Xor
