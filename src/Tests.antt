-- ===== src/Tests.antt =====
-- Runs of the definitions at concrete inputs.
mod Setup
mod Streams
mod Packs
mod Calls
mod Paths
mod Ciphers
mod Layouts
mod Reads
mod Stored
mod ReadBack
mod Opened
mod Files
