-- ===== src/Ext4/Tests/Inodes.antt =====
-- An inode of a small disk, and the start from it.
use spotlight.Base.{◌+◌, ◌*◌, ◌≡◌, ◌==◌, if◌then◌else◌, true, none, some, [], ◌∷◌, arith, refl, inl}
use spotlight.Base.Result.{ok}
use spotlight.Base.Bytes.{slice}
use spotlight.Ext4.Disk.{Image}
use spotlight.Ext4.Super.{
  boot_sector_size, super_block_sizeof, super_block_of, SuperBlock, Super, super_fill,
  super_group_fill,
}
use spotlight.Ext4.Start.Fuse.{start_fuse, available_fuse_implementations, start_fuse-magic}
use spotlight.Ext4.Start.{E4f, serves}
use spotlight.Ext4.Inode.{Inode, inode_get_by_number}
use spotlight.Ext4.Inode.Stored.{inode_get_by_number-IsInode}
use spotlight.Ext4.Layout.{
  number, IsSuper, block_bytes, descriptors_start, descriptor_bytes, groups, inode_table,
  inode_offset, IsInode,
}

-- The table of inodes of the only group starts with block 5.
abbrev disk : Image
disk = record {
  size = 1048576;
  byte = λ i.
      if i == 1029
      then 32
      else if i == 1057
      then 32
      else if i == 1065
      then 4
      else if i == 1080
      then 83
      else if i == 1081
      then 239
      else if i == 1112
      then 128
      else if i == 2056
      then 5
      else if i == 6528
      then 164
      else if i == 6529
      then 129
      else if i == 6530
      then 7
      else if i == 6532
      then 10
      else 0;
}

abbrev super_block : SuperBlock
super_block = record {
  s_blocks_count_lo = 8192;
  s_log_block_size = 0;
  s_blocks_per_group = 8192;
  s_inodes_per_group = 1024;
  s_magic = 0xef53;
  s_inode_size = 128;
  s_desc_size = 0;
}

super_block-IsSuper : IsSuper disk super_block
unfolding number
super_block-IsSuper = record {
  blocks_count_lo = refl;
  log_block_size = refl;
  blocks_per_group = refl;
  inodes_per_group = refl;
  magic = refl;
  inode_size = refl;
  desc_size = refl;
}

inode_table_test : inode_table disk super_block 0 ≡ 5
unfolding inode_table number descriptors_start descriptor_bytes
inode_table_test = refl

inode_offset_test : inode_offset disk super_block 12 ≡ 6528
unfolding inode_offset inode_table number block_bytes descriptors_start descriptor_bytes
inode_offset_test = refl

groups_test : groups super_block ≡ 1
unfolding groups
groups_test = refl

descriptors_test :
    descriptors_start super_block + groups super_block * descriptor_bytes super_block ≡ 2080
unfolding descriptors_start groups descriptor_bytes
descriptors_test = refl

inode_get_by_number-IsInode_example :
    (fs : Super) × (inode : Inode) × (super_fill disk ≡ ok super_block)
    × (super_group_fill disk super_block ≡ ok fs)
    × (inode_get_by_number disk fs 12 ≡ ok inode)
    × IsInode disk (inode_offset disk super_block 12) inode
inode_get_by_number-IsInode_example =
    inode_get_by_number-IsInode disk super_block (inl refl) 12 super_block-IsSuper (omega arith)
      (omega arith) (omega arith) (omega arith) (omega arith) (omega arith)
      (omega (arith, groups_test)) (omega (arith, descriptors_test)) (omega arith)
      (omega (arith, groups_test)) (omega arith) (omega (arith, inode_table_test))
      (omega (arith, inode_offset_test))

abbrev options : E4f
options = record { disk = some (100 ∷ []); logfile = none }

-- The disk above has the magic number, so it is served.
start_fuse-magic_example :
    start_fuse
      (available_fuse_implementations (λ e. some options) (λ path. some disk) (λ logfile. true))
    ≡ ok (
        if (super_block_of (slice disk.byte boot_sector_size super_block_sizeof)).s_magic == 0xef53
        then some (serves disk)
        else none)
start_fuse-magic_example =
    start_fuse-magic (λ e. some options) (λ path. some disk) (λ logfile. true) options (100 ∷ [])
      disk refl refl refl refl (omega arith)
