-- ===== src/Ext4/Read/Limits.antt =====
-- `first_read` in a hole and beyond 4 GiB.
use native.Mathlib.Nat.{div-add-mod', mod-lt}
use spotlight.Base.{
  ℕ, ◌+◌, ◌-◌, ◌/◌, ◌%◌, ◌^◌, ◌==◌, ◌≡◌, ◌≢◌, ◌≤◌, ◌<◌, min, arith, ap, ◌∙◌, refl, u32, u64,
  sub_u64, ne→not-==,
}
use spotlight.Base.Result.{ok, fault, check-fault}
use spotlight.Base.Bytes.{slice, slice_at}
use spotlight.Ext4.Disk.{Image}
use spotlight.Ext4.Disk.Laws.{disk_read-large}
use spotlight.Ext4.Super.{SuperBlock, block_size, blocks2bytes, align_to}
use spotlight.Ext4.Inode.{Inode}
use spotlight.Ext4.BlockMap.{inode_get_data_pblock}
use spotlight.Ext4.Read.{first_read}
use spotlight.Ext4.Read.First.{align_to-up, last-long, first_read-block}

module _ (image : Image) (s : SuperBlock) (inode : Inode) (pos : 0 < block_size s)
    (size offset len : ℕ) where
  -- At an offset below 4 GiB that is not a multiple of the block size and lies in a block that the
  -- map reports as a hole, `first_read` delivers bytes from the start of the disk, at the offset
  -- inside the block, in place of zeros.
  pub first_read-hole :
      image.size < 2 ^ 63
      → block_size s ≤ image.size
      → 0 < size
      → size < 2 ^ 31
      → offset < 2 ^ 32
      → offset % block_size s ≢ 0
      → (offset + (size - 1)) / block_size s < 2 ^ 32
      → inode_get_data_pblock image s inode (offset / block_size s) ≡ ok (0, len)
      → first_read image s inode size offset
        ≡ ok (
            slice image.byte
              (offset % block_size s)
              (min size (block_size s - offset % block_size s)))
  first_read-hole small big some narrow low ne far hole =
      first_read-block image s inode pos small size offset some narrow low 0 len hole far
        (omega arith) ne
      ∙ ap ok (slice_at _ _ _ _ _ (omega arith) refl)

  -- At an offset of 4 GiB or more that is not a multiple of the block size, a read of less than 2
  -- GiB of a mapped block that goes across a block boundary faults.
  pub first_read-beyond_4g :
      (pblock : ℕ)
      → image.size < 2 ^ 63
      → block_size s < 2 ^ 31
      → size < 2 ^ 31
      → 2 ^ 32 ≤ offset
      → offset + size < 2 ^ 63
      → block_size s < offset % block_size s + size
      → offset % block_size s ≢ 0
      → (offset + (size - 1)) / block_size s < 2 ^ 32
      → inode_get_data_pblock image s inode (offset / block_size s) ≡ ok (pblock, len)
      → first_read image s inode size offset ≡ fault
  unfolding first_read
  first_read-beyond_4g pblock small width narrow high fits long ne far e =
      let w = block_size s in
      let q = offset / w in
      let r = offset % w in
      let last = (offset + (size - 1)) / w in
      let parts = div-add-mod' offset w in
      let rem = mod-lt offset pos in
      let after = last-long w size offset pos (omega arith) long in
      let end : u64 (offset + sub_u64 size 1) ≡ offset + (size - 1) = omega arith in
      let quot : u32 q ≡ q = omega arith in
      let rest : u32 r ≡ r = omega arith in
      let end32 : u32 last ≡ last = omega arith in
      let low = div-add-mod' (offset % 2 ^ 32) w in
      let span = sub_u64 (align_to offset w) offset in
      let up = align_to-up offset w ne in
      let large =
        disk_read-large image (u64 (blocks2bytes s pblock + r)) span (omega (arith, up))
          (omega (arith, up)) in
      rw
        (
          ne→not-== size 0 (omega arith),
          end,
          quot,
          rest,
          end32,
          ne→not-== r 0 ne,
          e,
          ne→not-== q last (omega arith),
          large,
        )
        (check-fault (u64 (offset + span) % w == 0))
