-- ===== src/Ext4/Inode/Stored.antt =====
-- fs/ext4/super.c and inode.c: the super block and the inodes that are read, against the layout.
use spotlight.Base.{
  ℕ, ◌+◌, ◌-◌, ◌*◌, ◌/◌, ◌%◌, ◌^◌, ◌≡◌, ◌≤◌, ◌<◌, ◌⊎◌, inl, inr, min, take, arith, refl, sym, subst,
  ap, ◌∙◌,
}
use spotlight.Base.Result.{ok}
use spotlight.Base.Bytes.{slice, slice_at, take-slice, drop-slice}
use spotlight.Ext4.Disk.{Image}
use spotlight.Ext4.Disk.Laws.{disk_read-slice}
use spotlight.Ext4.Super.{
  SuperBlock, Super, super_block_of, super_fill, group_desc_of, group_desc_size, super_group_fill,
}
use spotlight.Ext4.Inode.{Inode, inode_of, inode_sizeof, inode_get_by_number}
use spotlight.Ext4.Inode.Location.{
  descriptor, offset_of, n_block_groups-groups, inode_get_by_number-offset_of,
}
use spotlight.Ext4.Layout.{
  number, IsSuper, block_bytes, descriptors_start, descriptor_bytes, groups, inode_table,
  inode_offset, IsInode, le16-number, le32-number,
}

-- The two sizes of a descriptor.
abbrev pub IsDescSize : SuperBlock → Type 0
IsDescSize s = (s.s_desc_size ≡ 0) ⊎ (s.s_desc_size ≡ 64)

group_desc_size-descriptor_bytes :
    (s : SuperBlock) → IsDescSize s → group_desc_size s ≡ descriptor_bytes s
unfolding group_desc_size descriptor_bytes
group_desc_size-descriptor_bytes s (inl e) = rw e refl
group_desc_size-descriptor_bytes s (inr e) = rw e refl

group_desc_size-enough : (s : SuperBlock) → IsDescSize s → 12 ≤ group_desc_size s
unfolding group_desc_size
group_desc_size-enough s (inl e) = rw e (omega arith)
group_desc_size-enough s (inr e) = rw e (omega arith)

same_super :
    (s : SuperBlock) (a b c d e f g : ℕ)
    → s.s_blocks_count_lo ≡ a
    → s.s_log_block_size ≡ b
    → s.s_blocks_per_group ≡ c
    → s.s_inodes_per_group ≡ d
    → s.s_magic ≡ e
    → s.s_inode_size ≡ f
    → s.s_desc_size ≡ g
    → ◌≡◌ {A = SuperBlock}
        (record {
          s_blocks_count_lo = a;
          s_log_block_size = b;
          s_blocks_per_group = c;
          s_inodes_per_group = d;
          s_magic = e;
          s_inode_size = f;
          s_desc_size = g;
        })
        s
same_super s a b c d e f g ea eb ec ed ee ef eg = rw (← ea, ← eb, ← ec, ← ed, ← ee, ← ef, ← eg) refl

module _ (image : Image) (s : SuperBlock) (there : IsSuper image s) where
  super_block_of-IsSuper : super_block_of (slice image.byte 1024 1024) ≡ s
  unfolding super_block_of
  super_block_of-IsSuper =
      let f = image.byte in
      same_super s _ _ _ _ _ _ _
        (there.blocks_count_lo ∙ sym (le32-number f 1024 1024 4 (omega arith)))
        (there.log_block_size ∙ sym (le32-number f 1024 1024 24 (omega arith)))
        (there.blocks_per_group ∙ sym (le32-number f 1024 1024 32 (omega arith)))
        (there.inodes_per_group ∙ sym (le32-number f 1024 1024 40 (omega arith)))
        (there.magic ∙ sym (le16-number f 1024 1024 56 (omega arith)))
        (there.inode_size ∙ sym (le16-number f 1024 1024 88 (omega arith)))
        (there.desc_size ∙ sym (le16-number f 1024 1024 254 (omega arith)))

  super_fill-IsSuper : 2048 ≤ image.size → 0 < s.s_blocks_per_group → super_fill image ≡ ok s
  unfolding super_fill
  super_fill-IsSuper inside some_blocks =
      rw
        (
          super_fill,
          disk_read-slice image 1024 1024 inside (omega arith),
          super_block_of-IsSuper,
          n_block_groups-groups s some_blocks,
        )
        refl

inode_of-IsInode :
    (image : Image) (o n : ℕ) → 112 ≤ n → IsInode image o (inode_of (slice image.byte o n))
unfolding inode_of
inode_of-IsInode image o n h =
    let f = image.byte in
    record {
      mode = le16-number f o n 0 (omega arith) ∙ ap (λ p. number f p 2) {x = o + 0} (omega arith);
      uid = le16-number f o n 2 (omega arith);
      size_lo = le32-number f o n 4 (omega arith);
      atime = le32-number f o n 8 (omega arith);
      ctime = le32-number f o n 12 (omega arith);
      mtime = le32-number f o n 16 (omega arith);
      gid = le16-number f o n 24 (omega arith);
      links_count = le16-number f o n 26 (omega arith);
      blocks_lo = le32-number f o n 28 (omega arith);
      flags = le32-number f o n 32 (omega arith);
      block =
          ap (take 60) (drop-slice f o n 40)
          ∙ take-slice f (o + 40) (n - 40) 60
          ∙ slice_at f (o + 40) (o + 40) _ 60 refl (omega arith);
      size_high = le32-number f o n 108 (omega arith);
    }

-- The low half of the number of the first block is all of it.
low_half : (a b c : ℕ) → a ≡ b → b + 2 ^ 32 * c < 2 ^ 32 → a ≡ b + 2 ^ 32 * c
low_half a b c e h = omega arith

module _ (image : Image) (s : SuperBlock) (size : IsDescSize s) where
  descriptor-inode_table :
      (g : ℕ)
      → inode_table image s g < 2 ^ 32
      → (descriptor image s g).bg_inode_table_lo ≡ inode_table image s g
  unfolding descriptor group_desc_of inode_table
  descriptor-inode_table g low =
      low_half _ _ _
        (le32-number image.byte (descriptors_start s + g * group_desc_size s) (group_desc_size s) 8
            (omega (arith, group_desc_size-enough s size))
          ∙ ap (λ c. number image.byte (descriptors_start s + g * c + 8) 4)
              (group_desc_size-descriptor_bytes s size))
        low

  offset_of-inode_offset :
      (n : ℕ)
      → inode_table image s ((n - 1) / s.s_inodes_per_group) < 2 ^ 32
      → offset_of image s n ≡ inode_offset image s n
  unfolding offset_of inode_offset
  offset_of-inode_offset n low =
      ap (λ b. b * block_bytes s + (n - 1) % s.s_inodes_per_group * s.s_inode_size)
        (descriptor-inode_table ((n - 1) / s.s_inodes_per_group) low)

  -- If the super block stands at 1024 as the layout of ext4 gives it, then filling the super block
  -- and the table of descriptors succeeds, and the inode n is read with the fields that stand,
  -- byte by byte, where the layout puts it: in the table of inodes of its group, from the
  -- descriptor behind the super block, at its index in the group. Blocks have 1 to 64 KiB,
  -- descriptors 32 bytes (s_desc_size 0) or 64, inodes 128 bytes at least, groups a block and an
  -- inode at least; there are fewer than 2^26 groups, n is counted from 1 and lies in one of the
  -- whole groups (or in the only one), the table of inodes of that group starts below the block
  -- 2^32, so that the high half of its number is 0, and the offset in it fits 32 bits; the image
  -- has at least 2048 bytes and fewer than 2^63, and the descriptors and the inode lie on it.
  pub inode_get_by_number-IsInode :
      (n : ℕ)
      → IsSuper image s
      → 2048 ≤ image.size
      → image.size < 2 ^ 63
      → s.s_log_block_size ≤ 6
      → 0 < s.s_blocks_per_group
      → 0 < s.s_inodes_per_group
      → 128 ≤ s.s_inode_size
      → groups s < 2 ^ 26
      → descriptors_start s + groups s * descriptor_bytes s ≤ image.size
      → 0 < n
      → (n - 1) / s.s_inodes_per_group < groups s
      → (n - 1) % s.s_inodes_per_group * s.s_inode_size < 2 ^ 32
      → inode_table image s ((n - 1) / s.s_inodes_per_group) < 2 ^ 32
      → inode_offset image s n + s.s_inode_size ≤ image.size
      → (fs : Super) × (inode : Inode) × (super_fill image ≡ ok s)
        × (super_group_fill image s ≡ ok fs)
        × (inode_get_by_number image fs n ≡ ok inode)
        × IsInode image (inode_offset image s n) inode
  inode_get_by_number-IsInode n there super_inside small log some_blocks some_inodes wide few tables
        some_inode group narrow low inside =
      let at = offset_of-inode_offset n low in
      let tables' =
        subst (λ c. descriptors_start s + groups s * c ≤ image.size)
          (sym (group_desc_size-descriptor_bytes s size)) tables in
      let (fs, filled, got) =
        inode_get_by_number-offset_of image s log n some_blocks some_inodes few tables' some_inode
          group narrow (omega (arith, at)) small in
      (
        fs,
        inode_of (slice image.byte (offset_of image s n) (min s.s_inode_size inode_sizeof)),
        super_fill-IsSuper image s there super_inside some_blocks,
        filled,
        got,
        subst
            (λ o.
              IsInode image o (
                inode_of
                  (slice image.byte (offset_of image s n) (min s.s_inode_size inode_sizeof))))
            at
            (inode_of-IsInode image (offset_of image s n) (min s.s_inode_size inode_sizeof)
              (omega arith)),
      )
