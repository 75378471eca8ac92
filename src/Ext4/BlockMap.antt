-- ===== src/Ext4/BlockMap.antt =====
-- fs/ext4/inode.c: the physical block of a logical block, through the extent tree or through the
-- ext2/3 indirect blocks.
pub mod Indirect
pub mod Routes
pub mod ByExtents
use spotlight.Base.{ℕ, ◌+◌, ◌-◌, ◌*◌, ◌/◌, ◌%◌, ltb, leb, if◌then◌else◌, Option, none, some, List}
use spotlight.Base.Result.{Result, ok, fault, ◌>>=◌, ◌>>◌, check}
use spotlight.Base.Bytes.{le32}
use spotlight.Ext4.Disk.{Image, disk_read_u32}
use spotlight.Ext4.Super.{SuperBlock, block_size, blocks2bytes, bytes2blocks}
use spotlight.Ext4.Extents.{extent_get_pblock}
use spotlight.Ext4.Inode.{Inode, inode_get_size, has_extents}

abbrev pub ndir_blocks : ℕ
ndir_blocks = 12

-- ADDRESSES_IN_IND_BLOCK, ADDRESSES_IN_DIND_BLOCK, ADDRESSES_IN_TIND_BLOCK
abbrev pub addresses_in_ind : SuperBlock → ℕ
addresses_in_ind s = block_size s / 4

abbrev pub addresses_in_dind : SuperBlock → ℕ
addresses_in_dind s = addresses_in_ind s * addresses_in_ind s

abbrev pub addresses_in_tind : SuperBlock → ℕ
addresses_in_tind s = addresses_in_dind s * addresses_in_ind s

-- MAX_IND_BLOCK, MAX_DIND_BLOCK, MAX_TIND_BLOCK
abbrev pub max_ind_block : SuperBlock → ℕ
max_ind_block s = ndir_blocks + addresses_in_ind s

abbrev pub max_dind_block : SuperBlock → ℕ
max_dind_block s = max_ind_block s + addresses_in_dind s

abbrev pub max_tind_block : SuperBlock → ℕ
max_tind_block s = max_dind_block s + addresses_in_tind s

-- The rounds that the model gives `extent_get_pblock`: more than a `uint16_t` depth can ask for.
unfoldable pub extent_fuel : ℕ
extent_fuel = 65537

module _ (image : Image) (s : SuperBlock) where
  -- `__inode_get_data_pblock_ind`
  unfoldable pub pblock_ind : ℕ → ℕ → Result ℕ
  pblock_ind lblock index_block = do
    check (ltb lblock (addresses_in_ind s))
    disk_read_u32 image (blocks2bytes s index_block + lblock * 4)

  -- `__inode_get_data_pblock_dind`
  unfoldable pub pblock_dind : ℕ → ℕ → Result ℕ
  pblock_dind lblock dindex_block = do
    check (ltb lblock (addresses_in_dind s))
    let offset = lblock / addresses_in_ind s * 4
    index_block ← disk_read_u32 image (blocks2bytes s dindex_block + offset)
    pblock_ind (lblock % addresses_in_ind s) index_block

  -- `__inode_get_data_pblock_tind`
  unfoldable pub pblock_tind : ℕ → ℕ → Result ℕ
  pblock_tind lblock tindex_block = do
    check (ltb lblock (addresses_in_tind s))
    let offset = lblock / addresses_in_dind s * 4
    dindex_block ← disk_read_u32 image (blocks2bytes s tindex_block + offset)
    pblock_dind (lblock % addresses_in_dind s) dindex_block

  -- The branches of `inode_get_data_pblock` for an inode without extents.
  unfoldable pub pblock_indirect : Inode → ℕ → Result ℕ
  pblock_indirect inode lblock =
      let index_block = le32 inode.i_block (4 * ndir_blocks) in
      let dindex_block = le32 inode.i_block (4 * (ndir_blocks + 1)) in
      let tindex_block = le32 inode.i_block (4 * (ndir_blocks + 2)) in
      check (leb lblock (bytes2blocks s (inode_get_size inode)))
      >> (if ltb lblock ndir_blocks
          then ok (le32 inode.i_block (4 * lblock))
          else (if ltb lblock (max_ind_block s)
              then pblock_ind (lblock - ndir_blocks) index_block
              else (if ltb lblock (max_dind_block s)
                  then pblock_dind (lblock - max_ind_block s) dindex_block
                  else (if ltb lblock (max_tind_block s)
                      then pblock_tind (lblock - max_dind_block s) tindex_block
                      else fault))))

  -- `inode_get_data_pblock`: the physical block, and what `*extent_len` is afterwards.
  unfoldable pub inode_get_data_pblock : Inode → ℕ → Result (ℕ × ℕ)
  inode_get_data_pblock inode lblock =
      if has_extents inode
      then (do
        (pblock, len) ← extent_get_pblock image s extent_fuel inode.i_block lblock
        ok (pblock, elim len [ none ↦ 1 | some n ↦ n ]))
      else do pblock ← pblock_indirect inode lblock; ok (pblock, 1)
