-- ===== src/Ext4.antt =====
-- The ext4 file system, fs/ext4.
pub mod Disk
pub mod Super
pub mod Start
pub mod Logging
pub mod Extents
pub mod Inode
pub mod Layout
pub mod BlockMap
pub mod Read
pub mod Directory
pub mod Dcache
pub mod Path
pub mod Operations
mod Tests
