-- ===== src/Ext4/Inode/Location.antt =====
-- fs/ext4/super.c and inode.c: where `inode_get_by_number` reads an inode, with the table of group
-- descriptors that `super_group_fill` reads.
use spotlight.Base.{
  ℕ, zero, suc, ◌+◌, ◌-◌, ◌*◌, ◌/◌, ◌%◌, ◌^◌, ◌≡◌, ◌≤◌, ◌<◌, ◌==◌, min, max, if◌then◌else◌, false,
  Bool-cases, inl, inr, some, List, [], ◌∷◌, get_elem?, u32, u64, arith, refl, sym, subst, ap, ◌⊎◌,
  ◌∙◌, lt→ltb,
}
use spotlight.Base.Result.{ok, ◌>>=◌}
use spotlight.Base.Bytes.{slice}
use spotlight.Ext4.Disk.{Image}
use spotlight.Ext4.Disk.Laws.{disk_read-slice}
use spotlight.Ext4.Super.{
  SuperBlock, GroupDesc, group_desc_of, Super, divide, block_size, blocks2bytes, align_to,
  n_block_groups, group_desc_size, group_desc_offset, group_fill_from, super_group_fill,
  inode_table_offset,
}
use spotlight.Ext4.Layout.{block_bytes, descriptors_start, groups}
use spotlight.Ext4.Inode.{inode_of, inode_sizeof, inode_offset_in_table, inode_get_by_number}

-- The descriptor of group `i`, and the place of inode `n`, counted from 1, that it gives.
unfoldable pub descriptor : Image → SuperBlock → ℕ → GroupDesc
descriptor image s i =
    group_desc_of
      (slice image.byte (descriptors_start s + i * group_desc_size s) (group_desc_size s))

unfoldable pub offset_of : Image → SuperBlock → ℕ → ℕ
offset_of image s n =
    (descriptor image s ((n - 1) / s.s_inodes_per_group)).bg_inode_table_lo * block_bytes s
    + (n - 1) % s.s_inodes_per_group * s.s_inode_size

pub small_shift : (k : ℕ) → k ≤ 6 → u32 (2 ^ (k + 10)) ≡ 2 ^ (k + 10)
small_shift zero h = refl
small_shift (suc zero) h = refl
small_shift (suc (suc zero)) h = refl
small_shift (suc (suc (suc zero))) h = refl
small_shift (suc (suc (suc (suc zero)))) h = refl
small_shift (suc (suc (suc (suc (suc zero))))) h = refl
small_shift (suc (suc (suc (suc (suc (suc zero)))))) h = refl
small_shift (suc (suc (suc (suc (suc (suc (suc k))))))) h = absurd (omega arith)

start_of :
    (k : ℕ) → k ≤ 6 → align_to 2048 (u32 (2 ^ (k + 10))) ≡ (if k == 0 then 2048 else 2 ^ (k + 10))
unfolding align_to
start_of zero h = refl
start_of (suc zero) h = refl
start_of (suc (suc zero)) h = refl
start_of (suc (suc (suc zero))) h = refl
start_of (suc (suc (suc (suc zero)))) h = refl
start_of (suc (suc (suc (suc (suc zero))))) h = refl
start_of (suc (suc (suc (suc (suc (suc zero)))))) h = refl
start_of (suc (suc (suc (suc (suc (suc (suc k))))))) h = absurd (omega arith)

pub n_block_groups-groups :
    (s : SuperBlock) → 0 < s.s_blocks_per_group → n_block_groups s ≡ ok (groups s)
unfolding n_block_groups divide groups
n_block_groups-groups s h =
    let n = s.s_blocks_count_lo / s.s_blocks_per_group in
    let some_blocks : (s.s_blocks_per_group == 0) ≡ false = ground arith in
    let one : (if n == 0 then 1 else n) ≡ max 1 n = ground arith in
    rw (n_block_groups, divide, some_blocks, one) refl

found_cons :
    (d : GroupDesc) (table : List GroupDesc) (at : ℕ → GroupDesc) (n : ℕ)
    → d ≡ at 0
    → ((j : ℕ) → j < n → get_elem? table j ≡ some (at (suc j)))
    → (j : ℕ) → j < suc n
    → get_elem? (d ∷ table) j ≡ some (at j)
found_cons d table at n e found zero h = ap some e
found_cons d table at n e found (suc j) h = found j (omega arith)

wide_enough : (n : ℕ) → n < 2 ^ 63 → u64 n ≡ n
wide_enough n h = omega arith

-- The sizes of a descriptor, with which products are linear.
group_desc_size-cases : (s : SuperBlock) → (group_desc_size s ≡ 32) ⊎ (group_desc_size s ≡ 64)
unfolding group_desc_size
group_desc_size-cases s = elim (Bool-cases (s.s_desc_size == 0)) [
  | inl old ↦ rw old (inl refl)
  | inr new ↦ rw new (inr refl)
]

narrow_of : (c j n : ℕ) → (c ≡ 32) ⊎ (c ≡ 64) → j < n → n < 2 ^ 26 → j * c < 2 ^ 32
narrow_of c j n (inl e) h few = subst (λ c. j * c < 2 ^ 32) (sym e) (omega arith)
narrow_of c j n (inr e) h few = subst (λ c. j * c < 2 ^ 32) (sym e) (omega arith)

inside_of :
    (c j n start size : ℕ)
    → (c ≡ 32) ⊎ (c ≡ 64)
    → j < n
    → start + n * c ≤ size
    → start + j * c + c ≤ size
inside_of c j n start size (inl e) h =
    subst (λ c. start + n * c ≤ size → start + j * c + c ≤ size) (sym e) λ l. omega arith
inside_of c j n start size (inr e) h =
    subst (λ c. start + n * c ≤ size → start + j * c + c ≤ size) (sym e) λ l. omega arith

module _ (image : Image) (s : SuperBlock) (log : s.s_log_block_size ≤ 6) where
  group_desc_offset-start :
      (i : ℕ)
      → i * group_desc_size s < 2 ^ 32
      → group_desc_offset s i ≡ descriptors_start s + i * group_desc_size s
  unfolding group_desc_offset block_size descriptors_start block_bytes
  group_desc_offset-start i h =
      let narrow : u32 (i * group_desc_size s) ≡ i * group_desc_size s = omega arith in
      rw (group_desc_offset, start_of s.s_log_block_size log, narrow) refl

  group_desc_size-small : group_desc_size s ≤ 64
  unfolding group_desc_size
  group_desc_size-small = elim (Bool-cases (s.s_desc_size == 0)) [
    | inl old ↦ rw old (omega arith)
    | inr new ↦ rw new (omega arith)
  ]

  -- The descriptors that are read, from group `i` on.
  group_fill_from-descriptor :
      (n i : ℕ)
      → ((j : ℕ) → j < i + n → j * group_desc_size s < 2 ^ 32)
      → ((j : ℕ)
          → j < i + n
          → descriptors_start s + j * group_desc_size s + group_desc_size s ≤ image.size)
      → (table : List GroupDesc) × (group_fill_from image s n i ≡ ok table)
        × ((j : ℕ) → j < n → get_elem? table j ≡ some (descriptor image s (i + j)))
  unfolding group_fill_from descriptor
  group_fill_from-descriptor zero i narrow inside = ([], refl, λ j h. absurd (omega arith))
  group_fill_from-descriptor (suc n) i narrow inside =
      let (table, run, found) =
        group_fill_from-descriptor n (i + 1) (λ j h. narrow j (omega arith))
          λ j h. inside j (omega arith) in
      let here = group_desc_offset-start i (narrow i (omega arith)) in
      let read =
        disk_read-slice image (descriptors_start s + i * group_desc_size s) (group_desc_size s)
          (inside i (omega arith)) (omega (arith, group_desc_size-small)) in
      (
        descriptor image s i ∷ table,
        rw (group_fill_from, here, read, run) refl,
        found_cons (descriptor image s i) table (λ j. descriptor image s (i + j)) n
            (ap (descriptor image s) (omega arith))
            λ j h. found j h ∙ ap (λ k. some (descriptor image s k)) {x = i + 1 + j} (omega arith),
      )

  -- An inode is read from the place that the descriptor of its group gives.
  pub inode_get_by_number-offset_of :
      (n : ℕ)
      → 0 < s.s_blocks_per_group
      → 0 < s.s_inodes_per_group
      → groups s < 2 ^ 26
      → descriptors_start s + groups s * group_desc_size s ≤ image.size
      → 0 < n
      → (n - 1) / s.s_inodes_per_group < groups s
      → (n - 1) % s.s_inodes_per_group * s.s_inode_size < 2 ^ 32
      → offset_of image s n + min s.s_inode_size inode_sizeof ≤ image.size
      → image.size < 2 ^ 63
      → (fs : Super) × (super_group_fill image s ≡ ok fs)
        × (inode_get_by_number image fs n
            ≡ ok (
                inode_of
                  (slice image.byte (offset_of image s n) (min s.s_inode_size inode_sizeof))))
  unfolding super_group_fill inode_get_by_number inode_table_offset divide blocks2bytes block_size
      offset_of inode_offset_in_table block_bytes
  inode_get_by_number-offset_of n some_blocks some_inodes few tables some_inode there narrow inside
        small =
      let g = (n - 1) / s.s_inodes_per_group in
      let count = n_block_groups-groups s some_blocks in
      let size = group_desc_size-cases s in
      let (table, run, found) =
        group_fill_from-descriptor (groups s) 0
          (λ j h. narrow_of (group_desc_size s) j (groups s) size (omega arith) few)
          λ j h.
            inside_of (group_desc_size s) j (groups s) (descriptors_start s) image.size size
              (omega arith) tables in
      let fs : Super = record { super = s; gdesc_table = table } in
      let lo = (descriptor image s g).bg_inode_table_lo in
      let o = (n - 1) % s.s_inodes_per_group * s.s_inode_size in
      let within : lo * block_bytes s + o + min s.s_inode_size inode_sizeof ≤ image.size = inside in
      let shift = small_shift s.s_log_block_size log in
      let low : u64 (lo * 2 ^ (s.s_log_block_size + 10)) ≡ lo * 2 ^ (s.s_log_block_size + 10) =
        wide_enough (lo * block_bytes s) (omega (arith, within)) in
      let fits : u32 o ≡ o = omega arith in
      let first : get_elem? table g ≡ some (descriptor image s g) =
        found g there ∙ ap (λ k. some (descriptor image s k)) {x = 0 + g} (omega arith) in
      let not_zero : (n == 0) ≡ false = ground arith in
      let per_group : (s.s_inodes_per_group == 0) ≡ false = ground arith in
      let read =
        disk_read-slice image (offset_of image s n) (min s.s_inode_size inode_sizeof) inside
          (omega arith) in
      (
        fs,
        rw (super_group_fill, count, run) refl,
        rw
            (
              inode_get_by_number,
              not_zero,
              inode_table_offset,
              per_group,
              count,
              lt→ltb g (groups s) there,
              first,
              ◌>>=◌,
              shift,
              low,
              fits,
              read,
            )
            refl,
      )
