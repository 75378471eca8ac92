-- ===== src/Ext4/Read/Whole.antt =====
-- `op_read` behind the inode's lookup: what it delivers, against the content of the file.
use native.Mathlib.Nat.{div-add-mod', mod-lt}
use native.Mathlib.Decide.{dec_lt, ℕ_discrete}
use spotlight.Base.{
  ℕ, ◌+◌, ◌-◌, ◌*◌, ◌/◌, ◌%◌, ◌^◌, ◌≡◌, ◌≤◌, ◌<◌, min, List, [], arith, ap, ◌∙◌, refl, sym, u32,
  eq→==, ne→not-==,
}
use spotlight.Base.Blocks.{div_of_parts}
use spotlight.Base.Result.{ok}
use spotlight.Base.Bytes.{slice, slice_at, length-slice}
use spotlight.Ext4.Disk.{Image}
use spotlight.Ext4.Super.{SuperBlock, block_size}
use spotlight.Ext4.Inode.{Inode, inode_get_size}
use spotlight.Ext4.Read.{truncate_size, first_read, read_loop, read_file}
use spotlight.Ext4.Read.Content.{file_byte, IsMapped, CanStart}
use spotlight.Ext4.Read.Loop.{read_loop-content, lt-bytes2blocks}
use spotlight.Ext4.Read.First.{head_size, first_read-content}

-- If offset and size add up to less than 2^64, the size of a read is cut to what the file holds
-- behind the offset, 0 at or behind its end.
pub truncate_size-min :
    (inode : Inode) (asked offset : ℕ)
    → offset + asked < 2 ^ 64
    → truncate_size inode asked offset ≡ min asked (inode_get_size inode - offset)
unfolding truncate_size
truncate_size-min inode asked offset h = ground arith

read_file-nothing :
    (image : Image) (s : SuperBlock) (inode : Inode) (asked offset : ℕ)
    → truncate_size inode asked offset ≡ 0
    → read_file image s inode asked offset ≡ ok []
unfolding read_file first_read read_loop slice
read_file-nothing image s inode asked offset e = rw e refl

-- At or behind the end of the file there is nothing to read.
pub read_file-past_end :
    (image : Image) (s : SuperBlock) (inode : Inode) (f : ℕ → ℕ) (asked offset : ℕ)
    → inode_get_size inode ≤ offset
    → read_file image s inode asked offset
      ≡ ok (slice f offset (min asked (inode_get_size inode - offset)))
unfolding truncate_size slice
read_file-past_end image s inode f asked offset h =
    read_file-nothing image s inode asked offset (ground arith)
    ∙ ap ok (slice_at f offset offset 0 _ refl (omega arith))

module _ (image : Image) (s : SuperBlock) (inode : Inode) (data_block : ℕ → ℕ)
    (pos : 0 < block_size s) (small : image.size < 2 ^ 63)
    (mapped : IsMapped image s inode data_block) where
  abbrev content : ℕ → ℕ → List ℕ
  content = slice (file_byte image (block_size s) data_block)

  -- A block boundary inside the file is a block number of 32 bits.
  at_boundary :
      (k n : ℕ)
      → n ≡ k * block_size s
      → n < inode_get_size inode
      → n ≡ u32 (n / block_size s) * block_size s
  at_boundary k n e inside =
      let w = block_size s in
      let (_, _, _, run) = mapped k (lt-bytes2blocks s _ k 0 pos (omega arith)) in
      let quot = div_of_parts w k 0 {n = n} (omega arith) pos in
      let small_k : u32 (n / w) ≡ k = omega (arith, quot, run.narrow) in
      e ∙ ap (λ b. b * w) (sym small_k)

  -- Behind the first read the position is a block boundary, unless the read is complete.
  boundary :
      (size offset : ℕ)
      → head_size (block_size s) size offset < size
      → (k : ℕ) × (offset + head_size (block_size s) size offset ≡ k * block_size s)
  boundary size offset more =
      let w = block_size s in
      let parts = div-add-mod' offset w in
      let rem = mod-lt offset pos in
      elim (ℕ_discrete (offset % w) 0) [
        | yes z ↦ (offset / w, rw z (omega arith))
        | no ne ↦ (offset / w + 1, rw (ne→not-== _ _ ne) (ground arith))
      ]

  -- If the block map of the inode is `data_block`, 0 for a hole, with each run of blocks on the
  -- disk, then a read of less than 2 GiB that ends below 2^63 succeeds and delivers the content of
  -- the file from the offset on, zeros in the holes: as many bytes as were asked for, or those up
  -- to the end of the file. The offset is a multiple of the block size, or lies below 4 GiB in a
  -- block that is no hole.
  pub read_file-content :
      (asked offset : ℕ)
      → asked < 2 ^ 31
      → offset + asked < 2 ^ 63
      → CanStart (block_size s) data_block offset
      → read_file image s inode asked offset
        ≡ ok (content offset (min asked (inode_get_size inode - offset)))
  unfolding read_file slice
  read_file-content asked offset narrow fits start =
      let w = block_size s in
      let f = file_byte image w data_block in
      let size = min asked (inode_get_size inode - offset) in
      let r = head_size w size offset in
      elim (dec_lt offset (inode_get_size inode)) [
        | no past ↦ read_file-past_end image s inode f asked offset (omega arith)
        | yes before ↦
            let inside : offset + size ≤ inode_get_size inode = omega arith in
            rw
              (
                truncate_size-min inode asked offset (omega arith),
                first_read-content image s inode data_block pos small mapped size offset
                    (omega arith) start inside,
                length-slice f offset r,
                read_loop-content image s inode data_block pos small mapped (size + 1) size offset _
                    r (ground arith) (omega arith) (omega arith) inside
                    (λ more.
                      let (k, e) = boundary size offset more in at_boundary k _ e (omega arith)),
                length-slice f offset size,
                eq→== size size refl,
              )
              refl
      ]
