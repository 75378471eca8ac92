-- ===== src/Compression/Xz.antt =====
-- The reader of xz files, compression/xz/xz_reader.c and xz_reader.h.
pub mod Lzma
pub mod Cache
pub mod Block
pub mod Read
pub mod Indexes
mod Tests
