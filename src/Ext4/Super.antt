-- ===== src/Ext4/Super.antt =====
-- fs/ext4/super.c, super.h and types/ext4_super.h: the super block, the block group descriptors and
-- the arithmetic of blocks.
use spotlight.Base.{
  ℕ, zero, suc, ◌+◌, ◌*◌, ◌/◌, ◌%◌, ◌^◌, ◌==◌, ltb, if◌then◌else◌, List, [], ◌∷◌, not, u32, u64,
  get_elem?,
}
use spotlight.Base.Result.{Result, ok, ◌>>=◌, ◌>>◌, check, deref}
use spotlight.Base.Bytes.{le16, le32}
use spotlight.Ext4.Disk.{Image, disk_read}

-- The fields of `struct ext4_super_block` that the code reads.
pub record SuperBlock : Type 0 where
  pub s_blocks_count_lo : ℕ
  pub s_log_block_size : ℕ
  pub s_blocks_per_group : ℕ
  pub s_inodes_per_group : ℕ
  pub s_magic : ℕ
  pub s_inode_size : ℕ
  pub s_desc_size : ℕ

abbrev pub boot_sector_size : ℕ
boot_sector_size = 0x400

-- `sizeof(struct ext4_super_block)`, `sizeof(struct ext4_group_desc)`
abbrev pub super_block_sizeof : ℕ
super_block_sizeof = 1024

abbrev pub group_desc_sizeof : ℕ
group_desc_sizeof = 64

abbrev pub group_desc_min_size : ℕ
group_desc_min_size = 0x20

unfoldable pub super_block_of : List ℕ → SuperBlock
super_block_of b = record {
  s_blocks_count_lo = le32 b 0x04;
  s_log_block_size = le32 b 0x18;
  s_blocks_per_group = le32 b 0x20;
  s_inodes_per_group = le32 b 0x28;
  s_magic = le16 b 0x38;
  s_inode_size = le16 b 0x58;
  s_desc_size = le16 b 0xfe;
}

-- The field of `struct ext4_group_desc` that the code reads.
pub record GroupDesc : Type 0 where
  pub bg_inode_table_lo : ℕ

unfoldable pub group_desc_of : List ℕ → GroupDesc
group_desc_of b = record { bg_inode_table_lo = le32 b 8 }

-- The static variables of super.c.
pub record Super : Type 0 where
  pub super : SuperBlock
  pub gdesc_table : List GroupDesc

-- Integer division: by zero it kills the process.
unfoldable pub divide : ℕ → ℕ → Result ℕ
divide a b = check (not (b == 0)) >> ok (a / b)

-- `super_block_size`, the macro BLOCK_SIZE; the shift is 64 bits wide, the result 32.
unfoldable pub block_size : SuperBlock → ℕ
block_size s = u32 (2 ^ (s.s_log_block_size + 10))

-- BLOCKS2BYTES
unfoldable pub blocks2bytes : SuperBlock → ℕ → ℕ
blocks2bytes s blks = u64 (blks * block_size s)

-- BYTES2BLOCKS
unfoldable pub bytes2blocks : SuperBlock → ℕ → ℕ
bytes2blocks s bytes = bytes / block_size s + (if bytes % block_size s == 0 then 0 else 1)

-- ALIGN_TO(n, align) for an `align` that is a power of two. The mask `~(align - 1)` is a `uint32_t`,
-- so it also clears the upper half of a 64-bit `n`.
unfoldable pub align_to : ℕ → ℕ → ℕ
align_to n align = if n % align == 0 then n else n % 2 ^ 32 / align * align + align

unfoldable pub n_block_groups : SuperBlock → Result ℕ
n_block_groups s = do
  n ← divide s.s_blocks_count_lo s.s_blocks_per_group
  ok (if n == 0 then 1 else n)

unfoldable pub group_desc_size : SuperBlock → ℕ
group_desc_size s = if s.s_desc_size == 0 then group_desc_min_size else group_desc_sizeof

-- `super_fill`; the log lines compute the number of block groups.
unfoldable pub super_fill : Image → Result SuperBlock
super_fill image = do
  bytes ← disk_read image boot_sector_size super_block_sizeof
  let s = super_block_of bytes
  _ ← n_block_groups s
  ok s

-- The offset on disk of the descriptor of group `i`.
unfoldable pub group_desc_offset : SuperBlock → ℕ → ℕ
group_desc_offset s i =
    align_to (boot_sector_size + super_block_sizeof) (block_size s) + u32 (i * group_desc_size s)

-- The loop of `super_group_fill`: `n` groups left, from group `i` on.
unfoldable pub group_fill_from : Image → SuperBlock → ℕ → ℕ → Result (List GroupDesc)
group_fill_from image s zero i = ok []
group_fill_from image s (suc n) i = do
  bytes ← disk_read image (group_desc_offset s i) (group_desc_size s)
  rest ← group_fill_from image s n (i + 1)
  ok (group_desc_of bytes ∷ rest)

unfoldable pub super_group_fill : Image → SuperBlock → Result Super
super_group_fill image s = do
  n ← n_block_groups s
  table ← group_fill_from image s n 0
  ok (record { super = s; gdesc_table = table })

-- `super_group_inode_table_offset`
unfoldable pub inode_table_offset : Super → ℕ → Result ℕ
inode_table_offset fs inode_num = do
  n_group ← divide inode_num fs.super.s_inodes_per_group
  n ← n_block_groups fs.super
  check (ltb n_group n)
  desc ← deref (get_elem? fs.gdesc_table n_group)
  ok (blocks2bytes fs.super desc.bg_inode_table_lo)
