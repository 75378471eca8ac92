-- ===== src/Ext4/Tests.antt =====
-- Runs on concrete disks and files.
mod Inodes
mod Caches
mod Files
mod Maps
mod Reads
mod Listing
mod Paths
mod Trees
mod Rings
mod Calls
mod Disks
mod Logs
