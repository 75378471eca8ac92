-- ===== src/Compression.antt =====
-- The compression readers, compression/.
pub mod File
pub mod Reader
pub mod Gzip
pub mod Xz
