-- ===== src/Ext4/BlockMap/Indirect.antt =====
-- The indirect blocks: which addresses the code follows for each logical block.
use mathlib.Core.Path.{fun_ext}
use spotlight.Base.{ℕ, ◌+◌, ◌-◌, ◌*◌, ◌≡◌, ◌≤◌, ◌<◌, arith, ap, refl, lt→ltb, le→not-ltb, le→leb}
use spotlight.Base.Blocks.{div_of_parts, mod_of_parts}
use spotlight.Base.Result.{Result, ok, fault, ◌>>=◌}
use spotlight.Base.Bytes.{le32}
use spotlight.Ext4.Disk.{Image, disk_read_u32}
use spotlight.Ext4.Super.{SuperBlock, blocks2bytes, bytes2blocks}
use spotlight.Ext4.Inode.{Inode, inode_get_size}
use spotlight.Ext4.BlockMap.{
  ndir_blocks, addresses_in_ind, max_ind_block, max_dind_block, max_tind_block, pblock_ind,
  pblock_dind, pblock_tind, pblock_indirect,
}

-- Address `i` of the address block `block`.
unfoldable pub address : Image → SuperBlock → ℕ → ℕ → Result ℕ
address image s block i = disk_read_u32 image (blocks2bytes s block + i * 4)

-- Entry `i` of the array `i_block`.
unfoldable pub root_address : Inode → ℕ → ℕ
root_address inode i = le32 inode.i_block (4 * i)

index_lt : (n a i j : ℕ) → i < n → j < a → i * a + j < n * a
index_lt n a i j h k = grind arith

module _ (image : Image) (s : SuperBlock) where
  abbrev a : ℕ
  a = addresses_in_ind s

  ind-address : (i block : ℕ) → i < a → pblock_ind image s i block ≡ address image s block i
  unfolding pblock_ind address
  ind-address i block h = rw (lt→ltb _ _ h) refl

  dind-address :
      (i j block : ℕ)
      → i < a
      → j < a
      → pblock_dind image s (i * a + j) block
        ≡ (do b ← address image s block i; address image s b j)
  unfolding pblock_dind address
  dind-address i j block h k =
      rw (lt→ltb _ _ (index_lt a a i j h k), div_of_parts a i j refl k, mod_of_parts a i j refl k)
        (ap (◌>>=◌ (address image s block i)) (fun_ext λ b. ind-address j b k))

  tind-address :
      (i j k block : ℕ)
      → i < a
      → j < a
      → k < a
      → pblock_tind image s (i * (a * a) + (j * a + k)) block
        ≡ (do b ← address image s block i; c ← address image s b j; address image s c k)
  unfolding pblock_tind address
  tind-address i j k block hi hj hk =
      rw
        (
          lt→ltb _ _ top,
          div_of_parts (a * a) i (j * a + k) refl low,
          mod_of_parts (a * a) i (j * a + k) refl low,
        )
        (ap (◌>>=◌ (address image s block i)) (fun_ext λ b. dind-address j k b hj hk))
    where
      low : j * a + k < a * a
      low = index_lt a a j k hj hk

      top : i * (a * a) + (j * a + k) < a * a * a
      top = omega (arith, index_lt a (a * a) i (j * a + k) hi low)

  module _ (inode : Inode) (lblock : ℕ)
      (inside : lblock ≤ bytes2blocks s (inode_get_size inode)) where
    -- The twelve direct blocks.
    pub direct :
        lblock < ndir_blocks → pblock_indirect image s inode lblock ≡ ok (root_address inode lblock)
    unfolding pblock_indirect root_address
    direct h = ground arith

    -- One level of indirection.
    pub indirect :
        (i : ℕ)
        → lblock ≡ ndir_blocks + i
        → i < a
        → pblock_indirect image s inode lblock ≡ address image s (root_address inode 12) i
    unfolding pblock_indirect root_address
    indirect i e h = ground (arith, ind-address i (le32 inode.i_block (4 * ndir_blocks)))

    -- Two levels.
    pub double_indirect :
        (i j : ℕ)
        → lblock ≡ max_ind_block s + (i * a + j)
        → i < a
        → j < a
        → pblock_indirect image s inode lblock
          ≡ (do b ← address image s (root_address inode 13) i; address image s b j)
    unfolding pblock_indirect root_address
    double_indirect i j e hi hj =
        let low = index_lt a a i j hi hj in
        let rest : lblock - max_ind_block s ≡ i * a + j = omega arith in
        rw
          (
            le→leb _ _ inside,
            le→not-ltb lblock ndir_blocks (omega arith),
            le→not-ltb lblock (max_ind_block s) (omega arith),
            lt→ltb lblock (max_dind_block s) (omega arith),
            rest,
          )
          (dind-address i j (le32 inode.i_block (4 * (ndir_blocks + 1))) hi hj)

    -- Three levels.
    pub triple_indirect :
        (i j k : ℕ)
        → lblock ≡ max_dind_block s + (i * (a * a) + (j * a + k))
        → i < a
        → j < a
        → k < a
        → pblock_indirect image s inode lblock ≡ (do
          b ← address image s (root_address inode 14) i
          c ← address image s b j
          address image s c k)
    unfolding pblock_indirect root_address
    triple_indirect i j k e hi hj hk =
        let low = index_lt a a j k hj hk in
        let top = index_lt a (a * a) i (j * a + k) hi low in
        let rest : lblock - max_dind_block s ≡ i * (a * a) + (j * a + k) = omega arith in
        rw
          (
            le→leb _ _ inside,
            le→not-ltb lblock ndir_blocks (omega arith),
            le→not-ltb lblock (max_ind_block s) (omega arith),
            le→not-ltb lblock (max_dind_block s) (omega arith),
            lt→ltb lblock (max_tind_block s) (omega arith),
            rest,
          )
          (tind-address i j k (le32 inode.i_block (4 * (ndir_blocks + 2))) hi hj hk)

    -- Behind the last level the code stops at an assertion.
    beyond : max_tind_block s ≤ lblock → pblock_indirect image s inode lblock ≡ fault
    unfolding pblock_indirect
    beyond h = ground arith
