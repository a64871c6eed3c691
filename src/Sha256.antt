-- ===== src/Sha256.antt =====
-- src/sha256.rs: the streaming SHA-256 by which the executable is identified.
pub mod Compress
pub mod Hasher
pub mod Blocks
pub mod Chunks
pub mod Padding
pub mod Hex
mod Tests
