-- ===== src/Ext4/Layout.antt =====
-- The layout of ext4 on disk, as its documentation gives it, read byte by byte from the image: the
-- fields of the super block, of a group descriptor and of an inode, and where they stand. What
-- fs/ext4/super.c and inode.c read is compared with it.
use spotlight.Base.{
  ℕ, zero, suc, ◌+◌, ◌-◌, ◌*◌, ◌/◌, ◌%◌, ◌^◌, ◌≡◌, ◌≤◌, ◌==◌, max, if◌then◌else◌, arith, ap, ◌∙◌,
}
use spotlight.Base.Bytes.{slice, le16, le32, get_or-slice}
use spotlight.Ext4.Disk.{Image}
use spotlight.Ext4.Super.{SuperBlock}
use spotlight.Ext4.Inode.{Inode}

-- The number that `n` bytes from `o` on stand for, the lowest first.
unfoldable pub number : (ℕ → ℕ) → ℕ → ℕ → ℕ
number f o zero = 0
number f o (suc n) = f o + 256 * number f (o + 1) n

-- The super block stands at 1024.
pub record IsSuper (image : Image) (s : SuperBlock) : Type 0 where
  pub blocks_count_lo : s.s_blocks_count_lo ≡ number image.byte 1028 4
  pub log_block_size : s.s_log_block_size ≡ number image.byte 1048 4
  pub blocks_per_group : s.s_blocks_per_group ≡ number image.byte 1056 4
  pub inodes_per_group : s.s_inodes_per_group ≡ number image.byte 1064 4
  pub magic : s.s_magic ≡ number image.byte 1080 2
  pub inode_size : s.s_inode_size ≡ number image.byte 1112 2
  pub desc_size : s.s_desc_size ≡ number image.byte 1278 2

-- Blocks have 1 KiB, 2 KiB, up to 64 KiB.
unfoldable pub block_bytes : SuperBlock → ℕ
block_bytes s = 2 ^ (s.s_log_block_size + 10)

-- The descriptors start with the block behind the super block.
unfoldable pub descriptors_start : SuperBlock → ℕ
descriptors_start s = if s.s_log_block_size == 0 then 2048 else block_bytes s

unfoldable pub descriptor_bytes : SuperBlock → ℕ
descriptor_bytes s = if s.s_desc_size == 0 then 32 else s.s_desc_size

-- The whole groups, one at least.
unfoldable pub groups : SuperBlock → ℕ
groups s = max 1 (s.s_blocks_count_lo / s.s_blocks_per_group)

-- The block with which the table of inodes of group `g` starts: a descriptor of more than 32 bytes
-- has a high half.
unfoldable pub inode_table : Image → SuperBlock → ℕ → ℕ
inode_table image s g =
    let at = descriptors_start s + g * descriptor_bytes s in
    number image.byte (at + 8) 4
    + 2 ^ 32 * (if s.s_desc_size == 0 then 0 else number image.byte (at + 40) 4)

-- Where the inode `n`, counted from 1, stands.
unfoldable pub inode_offset : Image → SuperBlock → ℕ → ℕ
inode_offset image s n =
    inode_table image s ((n - 1) / s.s_inodes_per_group) * block_bytes s
    + (n - 1) % s.s_inodes_per_group * s.s_inode_size

-- The inode as it stands on the image from `o` on.
pub record IsInode (image : Image) (o : ℕ) (inode : Inode) : Type 0 where
  pub mode : inode.i_mode ≡ number image.byte o 2
  pub uid : inode.i_uid ≡ number image.byte (o + 2) 2
  pub size_lo : inode.i_size_lo ≡ number image.byte (o + 4) 4
  pub atime : inode.i_atime ≡ number image.byte (o + 8) 4
  pub ctime : inode.i_ctime ≡ number image.byte (o + 12) 4
  pub mtime : inode.i_mtime ≡ number image.byte (o + 16) 4
  pub gid : inode.i_gid ≡ number image.byte (o + 24) 2
  pub links_count : inode.i_links_count ≡ number image.byte (o + 26) 2
  pub blocks_lo : inode.i_blocks_lo ≡ number image.byte (o + 28) 4
  pub flags : inode.i_flags ≡ number image.byte (o + 32) 4
  pub block : inode.i_block ≡ slice image.byte (o + 40) 60
  pub size_high : inode.i_size_high ≡ number image.byte (o + 108) 4

-- The fields of a buffer are the numbers that stand there.
pub le16-number : (f : ℕ → ℕ) (o n k : ℕ) → k + 2 ≤ n → le16 (slice f o n) k ≡ number f (o + k) 2
unfolding number
le16-number f o n k h =
    let second =
      get_or-slice f o n (k + 1) 0 (omega arith)
      ∙ ap f {x = o + (k + 1)} {y = o + k + 1} (omega arith) in
    omega (arith, get_or-slice f o n k 0 (omega arith), second)

number-two : (f : ℕ → ℕ) (o : ℕ) → number f o 4 ≡ number f o 2 + 65536 * number f (o + 2) 2
unfolding number
number-two f o =
    let third = ap f {x = o + 1 + 1} {y = o + 2} (omega arith) in
    let fourth = ap f {x = o + 1 + 1 + 1} {y = o + 2 + 1} (omega arith) in
    omega (arith, third, fourth)

pub le32-number : (f : ℕ → ℕ) (o n k : ℕ) → k + 4 ≤ n → le32 (slice f o n) k ≡ number f (o + k) 4
le32-number f o n k h =
    let high =
      le16-number f o n (k + 2) (omega arith)
      ∙ ap (λ p. number f p 2) {x = o + (k + 2)} {y = o + k + 2} (omega arith) in
    omega (arith, le16-number f o n k (omega arith), high, number-two f (o + k))
