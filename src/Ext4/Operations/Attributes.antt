-- ===== src/Ext4/Operations/Attributes.antt =====
-- fs/ext4/op_getattr.c: the attributes as they stand on the disk.
use spotlight.Base.{ℕ, ◌+◌, ◌*◌, ◌/◌, ◌%◌, ◌≡◌, arith}
use spotlight.Ext4.Disk.{Image}
use spotlight.Ext4.Inode.{Inode, inode_get_size}
use spotlight.Ext4.Layout.{number, IsInode}
use spotlight.Ext4.Operations.{Stat, clear_bit, without_write, stat_of}

-- The three bits of a mode that permit writing.
unfoldable pub write_bits : ℕ → ℕ
write_bits mode = mode / 128 % 2 * 128 + mode / 16 % 2 * 16 + mode / 2 % 2 * 2

-- The attributes of the inode that stands on the image from `o` on.
pub record IsStat (image : Image) (o : ℕ) (st : Stat) : Type 0 where
  pub mode : st.st_mode + write_bits (number image.byte o 2) ≡ number image.byte o 2
  pub nlink : st.st_nlink ≡ number image.byte (o + 26) 2
  pub size : st.st_size ≡ number image.byte (o + 4) 4 + 4294967296 * number image.byte (o + 108) 4
  pub blocks : st.st_blocks ≡ number image.byte (o + 28) 4
  pub uid : st.st_uid ≡ number image.byte (o + 2) 2
  pub gid : st.st_gid ≡ number image.byte (o + 24) 2
  pub atime : st.st_atime ≡ number image.byte (o + 8) 4
  pub mtime : st.st_mtime ≡ number image.byte (o + 16) 4
  pub ctime : st.st_ctime ≡ number image.byte (o + 12) 4

write_bits-without_write : (mode : ℕ) → without_write mode + write_bits mode ≡ mode
unfolding without_write clear_bit write_bits
write_bits-without_write mode = omega arith

pub stat_of-IsStat :
    (image : Image) (o : ℕ) (inode : Inode) → IsInode image o inode → IsStat image o (stat_of inode)
unfolding stat_of inode_get_size
stat_of-IsStat image o inode stored = record {
  mode = rw (← stored.mode) (write_bits-without_write inode.i_mode);
  nlink = stored.links_count;
  size = omega (arith, stored.size_lo, stored.size_high);
  blocks = stored.blocks_lo;
  uid = stored.uid;
  gid = stored.gid;
  atime = stored.atime;
  mtime = stored.mtime;
  ctime = stored.ctime;
}
