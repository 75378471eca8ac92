-- ===== src/Ext4/Read.antt =====
-- fs/ext4/op_read.c: reading a file. A buffer that the code fills from the front is the list of the
-- bytes that it has written there.
pub mod Content
pub mod Loop
pub mod First
pub mod Limits
pub mod Whole
pub mod ByExtents
use spotlight.Base.{
  ℕ, zero, suc, ◌+◌, ◌-◌, ◌*◌, ◌/◌, ◌%◌, ◌==◌, ltb, leb, if◌then◌else◌, true, false, List, [], ◌++◌,
  length, replicate, u32, u64, sub_u64,
}
use spotlight.Base.Result.{Result, ok, out_of_fuel, ◌>>=◌, ◌>>◌, check}
use spotlight.Ext4.Disk.{Image, disk_read, disk_ctx_create, disk_ctx_read}
use spotlight.Ext4.Super.{SuperBlock, Super, block_size, blocks2bytes, align_to}
use spotlight.Ext4.Inode.{Inode, inode_get_size, inode_get_by_number}
use spotlight.Ext4.BlockMap.{inode_get_data_pblock}

-- `truncate_size`
unfoldable pub truncate_size : Inode → ℕ → ℕ → ℕ
truncate_size inode size offset =
    let inode_size = inode_get_size inode in
    if leb inode_size offset
    then 0
    else (if leb inode_size (u64 (offset + size)) then inode_size - offset else size)

module _ (image : Image) (s : SuperBlock) (inode : Inode) where
  -- `first_read`: the bytes up to the first block boundary.
  unfoldable pub first_read : ℕ → ℕ → Result (List ℕ)
  first_read size offset =
      let end_lblock = u32 (u64 (offset + sub_u64 size 1) / block_size s) in
      let start_lblock = u32 (offset / block_size s) in
      let start_block_off = u32 (offset % block_size s) in
      let size_to_block_end = sub_u64 (align_to offset (block_size s)) offset in
      if size == 0
      then ok []
      else (if start_block_off == 0 then ok [] else do
        (start_pblock, _) ← inode_get_data_pblock image s inode start_lblock
        let where_ = u64 (blocks2bytes s start_pblock + start_block_off)
        if start_lblock == end_lblock then disk_read image where_ size else do
          check (u64 (offset + size_to_block_end) % block_size s == 0)
          disk_read image where_ size_to_block_end)

  -- The body of the loop of `op_read`: what the blocks from `lblock` on give, if `wanted` bytes are
  -- still to be read, and `extent_len`. A block that is not mapped reads as zeros.
  unfoldable pub read_extent : ℕ → ℕ → Result (List ℕ × ℕ)
  read_extent lblock wanted = do
    (pblock, extent_len) ← inode_get_data_pblock image s inode lblock
    if pblock == 0
        then ok
            (replicate (if ltb (block_size s) wanted then block_size s else wanted) 0, extent_len)
        else do
          read_ctx ← disk_ctx_create (blocks2bytes s pblock) (block_size s) extent_len
          (bytes, _) ← disk_ctx_read image read_ctx wanted
          ok (bytes, extent_len)

  -- The loop of `op_read`. The fuel is one more than the bytes that are left to read.
  unfoldable pub read_loop : ℕ → ℕ → ℕ → List ℕ → Result (List ℕ)
  read_loop zero size lblock buf = out_of_fuel
  read_loop (suc fuel) size lblock buf = elim (ltb (length buf) size) [
    | true ↦ do
      (bytes, extent_len) ← read_extent lblock (size - length buf)
      read_loop fuel size (u32 (lblock + extent_len)) (buf ++ bytes)
    | false ↦ ok buf
  ]

  -- `op_read` behind the inode's lookup.
  unfoldable pub read_file : ℕ → ℕ → Result (List ℕ)
  read_file asked offset =
      let size = truncate_size inode asked offset in
      do
        first ← first_read size offset
        buf ← read_loop (size + 1) size (u32 ((offset + length first) / block_size s)) first
        check (length buf == size)
        ok buf

-- `op_read` of the inode `fh` that `op_open` has stored.
unfoldable pub op_read : Image → Super → ℕ → ℕ → ℕ → Result (List ℕ)
op_read image fs fh size offset = do
  inode ← inode_get_by_number image fs fh
  read_file image fs.super inode size offset
