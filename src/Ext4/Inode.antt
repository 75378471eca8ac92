-- ===== src/Ext4/Inode.antt =====
-- fs/ext4/inode.c, inode.h and types/ext4_inode.h: inodes, and how one is read by its number.
pub mod Location
pub mod Stored
use spotlight.Base.{
  ℕ, ◌+◌, ◌-◌, ◌*◌, ◌%◌, ◌^◌, ◌/◌, ◌==◌, if◌then◌else◌, min, List, take, drop, Bool, u32,
}
use spotlight.Base.Result.{Result, ok, err, enoent, ◌>>=◌}
use spotlight.Base.Bytes.{le16, le32}
use spotlight.Ext4.Disk.{Image, disk_read}
use spotlight.Ext4.Super.{Super, inode_table_offset}

-- The fields of `struct ext4_inode` that the code reads; `i_block` are its 60 bytes.
pub record Inode : Type 0 where
  pub i_mode : ℕ
  pub i_uid : ℕ
  pub i_size_lo : ℕ
  pub i_atime : ℕ
  pub i_ctime : ℕ
  pub i_mtime : ℕ
  pub i_gid : ℕ
  pub i_links_count : ℕ
  pub i_blocks_lo : ℕ
  pub i_flags : ℕ
  pub i_block : List ℕ
  pub i_size_high : ℕ

abbrev pub inode_sizeof : ℕ
inode_sizeof = 156

-- The struct in memory, from its first bytes; the fields lie within the first 112.
unfoldable pub inode_of : List ℕ → Inode
inode_of b = record {
  i_mode = le16 b 0;
  i_uid = le16 b 2;
  i_size_lo = le32 b 4;
  i_atime = le32 b 8;
  i_ctime = le32 b 12;
  i_mtime = le32 b 16;
  i_gid = le16 b 24;
  i_links_count = le16 b 26;
  i_blocks_lo = le32 b 28;
  i_flags = le32 b 32;
  i_block = take 60 (drop 40 b);
  i_size_high = le32 b 108;
}

-- `inode_get_size`; the low half has 32 bits, so the bitwise or is a sum.
unfoldable pub inode_get_size : Inode → ℕ
inode_get_size inode = inode.i_size_high * 2 ^ 32 + inode.i_size_lo

-- `i_flags & EXT4_EXTENTS_FL`
unfoldable pub has_extents : Inode → Bool
has_extents inode = inode.i_flags / 2 ^ 19 % 2 == 1

-- The offset of inode `n` (counted from 0) in its group's table; the product is a `uint32_t`.
unfoldable pub inode_offset_in_table : Super → ℕ → ℕ
inode_offset_in_table fs n = u32 (n % fs.super.s_inodes_per_group * fs.super.s_inode_size)

-- `inode_get_by_number`
unfoldable pub inode_get_by_number : Image → Super → ℕ → Result Inode
inode_get_by_number image fs n = if n == 0 then err enoent else do
  off ← inode_table_offset fs (n - 1)
  bytes ←
      disk_read image (off + inode_offset_in_table fs (n - 1))
        (min fs.super.s_inode_size inode_sizeof)
  ok (inode_of bytes)
