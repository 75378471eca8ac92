-- ===== src/Ext4/Read/ByExtents.antt =====
-- Reading a file whose blocks stand in an extent tree.
use native.Mathlib.Nat.{div-add-mod', mod-lt}
use native.Mathlib.Decide.{dec_lt}
use spotlight.Base.{ℕ, ◌-◌, ◌/◌, ◌%◌, ◌^◌, ◌≡◌, ◌≢◌, ◌<◌, min, arith, inr}
use spotlight.Base.Result.{ok}
use spotlight.Base.Bytes.{slice}
use spotlight.Ext4.Disk.{Image}
use spotlight.Ext4.Super.{SuperBlock, block_size}
use spotlight.Ext4.Inode.{Inode, inode_get_size}
use spotlight.Ext4.Extents.Tree.{Tree, extents}
use spotlight.Ext4.BlockMap.ByExtents.{extent_block, IsWhole, IsWhole-IsMapped}
use spotlight.Ext4.Read.{read_file}
use spotlight.Ext4.Read.Content.{file_byte}
use spotlight.Ext4.Read.Loop.{lt-bytes2blocks}
use spotlight.Ext4.Read.Whole.{read_file-content, read_file-past_end}

module _ (image : Image) (s : SuperBlock) (inode : Inode) (t : Tree) (hi : ℕ)
    (pos : 0 < block_size s) (whole : IsWhole image s inode t hi) where
  -- Inside such a file every block is mapped.
  no_hole_at :
      (offset : ℕ)
      → offset < inode_get_size inode
      → extent_block (extents t) (offset / block_size s) ≢ 0
  unfolding extent_block
  no_hole_at offset inside =
      let w = block_size s in
      let parts = div-add-mod' offset w in
      let rem = mod-lt offset pos in
      let (e, f) =
        whole.no_hole (offset / w)
          (lt-bytes2blocks s _ (offset / w) (offset % w) rem (omega arith)) in
      let (start, _) = whole.on_disk (offset / w) e f in
      rw (extent_block, f) (λ z. omega (arith, z, start))

  -- For a file without holes, whose ordered extent tree is stored on the disk and whose extents
  -- lie on the disk, a read of less than 2 GiB at an offset below 4 GiB (an image below 2^63
  -- bytes, a block size that is not 0) succeeds and delivers the bytes that the extents name, from
  -- the offset on: as many as were asked for, or those up to the end of the file.
  pub read_file-extents :
      (asked offset : ℕ)
      → image.size < 2 ^ 63
      → asked < 2 ^ 31
      → offset < 2 ^ 32
      → read_file image s inode asked offset
        ≡ ok (
            slice
              (file_byte image (block_size s) (extent_block (extents t)))
              offset
              (min asked (inode_get_size inode - offset)))
  read_file-extents asked offset small narrow low = elim (dec_lt offset (inode_get_size inode)) [
    | no past ↦
        read_file-past_end image s inode (file_byte image (block_size s) (extent_block (extents t)))
          asked offset (omega arith)
    | yes before ↦
        read_file-content image s inode (extent_block (extents t)) pos small
          (IsWhole-IsMapped image s inode t hi whole) asked offset narrow (omega arith)
          (inr (low, no_hole_at offset before))
  ]
