-- ===== src/Ext4/Tests/Files.antt =====
-- Concrete disks and files.
use spotlight.Base.{ℕ, ◌-◌, ◌%◌, ltb, if◌then◌else◌, List, [], ◌∷◌, ◌++◌, replicate, get_or}
use spotlight.Ext4.Disk.{Image}
use spotlight.Ext4.Super.{SuperBlock}
use spotlight.Ext4.Inode.{Inode}
use spotlight.Ext4.Extents.{Extent}
use spotlight.Ext4.Extents.Tree.{Tree, leaf}

-- A leaf with one extent: blocks 0 and 1 at 5 and 6.
abbrev pub leaf_bytes : List ℕ
leaf_bytes =
    10 ∷ 243 ∷ 1 ∷ 0 ∷ 4 ∷ 0 ∷ 0 ∷ 0 ∷ 0 ∷ 0 ∷ 0 ∷ 0 ∷ 0 ∷ 0 ∷ 0 ∷ 0 ∷ 2 ∷ 0 ∷ 0 ∷ 0 ∷ 5 ∷ 0 ∷ 0 ∷ 0
    ∷ []

-- A directory: the entry `.` of inode 2, an unused one, and the entry `abc` of inode 11.
abbrev pub dir_bytes : List ℕ
dir_bytes =
    2 ∷ 0 ∷ 0 ∷ 0 ∷ 12 ∷ 0 ∷ 1 ∷ 2 ∷ 46 ∷ 0 ∷ 0 ∷ 0 ∷ 0 ∷ 0 ∷ 0 ∷ 0 ∷ 12 ∷ 0 ∷ 0 ∷ 0 ∷ 0 ∷ 0 ∷ 0 ∷ 0
    ∷ 11 ∷ 0 ∷ 0 ∷ 0 ∷ 232 ∷ 3 ∷ 3 ∷ 1 ∷ 97 ∷ 98 ∷ 99 ∷ []

-- The leaf stands in block 7, the directory in block 8.
abbrev pub disk : Image
disk = record {
  size = 16384;
  byte = λ i.
      if ltb i 7168
      then i % 251
      else (if ltb i 8192 then get_or leaf_bytes (i - 7168) 0 else get_or dir_bytes (i - 8192) 0);
}

-- Blocks of 1 KiB.
abbrev pub super : SuperBlock
super = record {
  s_blocks_count_lo = 16;
  s_log_block_size = 0;
  s_blocks_per_group = 8192;
  s_inodes_per_group = 16;
  s_magic = 0xef53;
  s_inode_size = 128;
  s_desc_size = 0;
}

abbrev pub extent : Extent
extent = record { ee_block = 0; ee_len = 2; ee_start_hi = 0; ee_start_lo = 5 }

abbrev pub tree : Tree
tree = leaf (extent ∷ [])

abbrev pub file : Inode
file = record {
  i_mode = 0x81a4;
  i_uid = 0;
  i_size_lo = 1500;
  i_atime = 0;
  i_ctime = 0;
  i_mtime = 0;
  i_gid = 0;
  i_links_count = 1;
  i_blocks_lo = 4;
  i_flags = 0x80000;
  i_block = leaf_bytes ++ replicate 36 0;
  i_size_high = 0;
}

-- The root of a tree of depth 1, whose child is block 7.
abbrev pub node_bytes : List ℕ
node_bytes =
    10 ∷ 243 ∷ 1 ∷ 0 ∷ 4 ∷ 0 ∷ 1 ∷ 0 ∷ 0 ∷ 0 ∷ 0 ∷ 0 ∷ 0 ∷ 0 ∷ 0 ∷ 0 ∷ 7 ∷ 0 ∷ 0 ∷ 0 ∷ 0 ∷ 0 ∷ 0 ∷ 0
    ∷ []

-- A leaf with one extent: blocks 10 to 13 at 100.
abbrev pub late_bytes : List ℕ
late_bytes =
    10 ∷ 243 ∷ 1 ∷ 0 ∷ 4 ∷ 0 ∷ 0 ∷ 0 ∷ 0 ∷ 0 ∷ 0 ∷ 0 ∷ 10 ∷ 0 ∷ 0 ∷ 0 ∷ 4 ∷ 0 ∷ 0 ∷ 0 ∷ 100 ∷ 0 ∷ 0
    ∷ 0 ∷ []

-- A leaf with one extent: blocks 2^22 and 2^22 + 1, behind 4 GiB, at 5.
abbrev pub far_bytes : List ℕ
far_bytes =
    10 ∷ 243 ∷ 1 ∷ 0 ∷ 4 ∷ 0 ∷ 0 ∷ 0 ∷ 0 ∷ 0 ∷ 0 ∷ 0 ∷ 0 ∷ 0 ∷ 64 ∷ 0 ∷ 2 ∷ 0 ∷ 0 ∷ 0 ∷ 5 ∷ 0 ∷ 0
    ∷ 0 ∷ []

abbrev pub far_file : Inode
far_file = record file { i_size_high = 2; i_block = far_bytes ++ replicate 36 0 }

-- No extents: block 0 at 5, block 1 a hole.
abbrev pub sparse : Inode
sparse = record file { i_flags = 0; i_block = 5 ∷ replicate 59 0 }

-- No extents: block 0 at 8.
abbrev pub directory : Inode
directory = record file {
  i_mode = 0x41ed;
  i_size_lo = 1024;
  i_flags = 0;
  i_block = 8 ∷ replicate 59 0;
}
