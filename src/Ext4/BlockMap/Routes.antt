-- ===== src/Ext4/BlockMap/Routes.antt =====
-- fs/ext4/inode.c: the block map of ext2/3 as its documentation gives it, and the block that the code
-- finds. An inode has 12 addresses of blocks, and one each of a block of addresses, of a block of
-- such blocks, and of a block of those.
use spotlight.Base.{
  ℕ, zero, suc, ◌+◌, ◌*◌, ◌/◌, ◌^◌, ◌≡◌, ◌≤◌, ◌<◌, get_or, u32, u64, arith, refl, sym, ap, ◌∙◌,
}
use spotlight.Base.Result.{ok, ◌>>=◌}
use spotlight.Ext4.Disk.{Image, disk_read_u32}
use spotlight.Ext4.Disk.Laws.{disk_read-slice}
use spotlight.Ext4.Super.{SuperBlock, block_size, blocks2bytes, bytes2blocks}
use spotlight.Ext4.Inode.{Inode, inode_get_size}
use spotlight.Ext4.Inode.Location.{small_shift}
use spotlight.Ext4.Layout.{number, block_bytes, le32-number}
use spotlight.Ext4.BlockMap.{addresses_in_ind, pblock_indirect}
use spotlight.Ext4.BlockMap.Indirect.{
  address, root_address, direct, indirect, double_indirect, triple_indirect,
}

-- The route to a block: through how many address blocks, and the index in each.
pub data Route : Type 0 where
  direct_route : ℕ → Route
  single : ℕ → Route
  double : ℕ → ℕ → Route
  triple : ℕ → ℕ → ℕ → Route

-- A block holds so many addresses of four bytes.
unfoldable pub per_block : SuperBlock → ℕ
per_block s = 2 ^ (s.s_log_block_size + 8)

abbrev pub IsRoute : SuperBlock → Route → Type 0
IsRoute s (direct_route i) = i < 12
IsRoute s (single i) = i < per_block s
IsRoute s (double i j) = (i < per_block s) × (j < per_block s)
IsRoute s (triple i j k) = (i < per_block s) × (j < per_block s) × (k < per_block s)

-- The logical block that a route leads to: the routes in order, the shorter ones first.
unfoldable pub route_block : SuperBlock → Route → ℕ
route_block s (direct_route i) = i
route_block s (single i) = 12 + i
route_block s (double i j) = 12 + per_block s + (i * per_block s + j)
route_block s (triple i j k) =
    12
    + per_block s
    + per_block s * per_block s
    + (i * (per_block s * per_block s) + (j * per_block s + k))

-- Address `i` of the inode, and address `i` of the block `block`.
unfoldable pub root_entry : Inode → ℕ → ℕ
root_entry inode i = number (λ p. get_or inode.i_block p 0) (4 * i) 4

unfoldable pub entry : Image → SuperBlock → ℕ → ℕ → ℕ
entry image s block i = number image.byte (block * block_bytes s + 4 * i) 4

-- The address at the end of a route.
unfoldable pub follow : Image → SuperBlock → Inode → Route → ℕ
follow image s inode (direct_route i) = root_entry inode i
follow image s inode (single i) = entry image s (root_entry inode 12) i
follow image s inode (double i j) = entry image s (entry image s (root_entry inode 13) i) j
follow image s inode (triple i j k) =
    entry image s (entry image s (entry image s (root_entry inode 14) i) j) k

-- The blocks of addresses on the route stand on the image.
abbrev OnImage : Image → SuperBlock → ℕ → Type 0
OnImage image s block = (block + 1) * block_bytes s ≤ image.size

unfoldable pub AreOnImage : Image → SuperBlock → Inode → Route → Type 0
AreOnImage image s inode (direct_route i) = Unit
AreOnImage image s inode (single i) = OnImage image s (root_entry inode 12)
AreOnImage image s inode (double i j) =
    OnImage image s (root_entry inode 13) × OnImage image s (entry image s (root_entry inode 13) i)
AreOnImage image s inode (triple i j k) =
    OnImage image s (root_entry inode 14)
    × OnImage image s (entry image s (root_entry inode 14) i)
    × OnImage image s (entry image s (entry image s (root_entry inode 14) i) j)

quarter : (k : ℕ) → k ≤ 6 → u32 (2 ^ (k + 10)) / 4 ≡ 2 ^ (k + 8)
quarter zero h = refl
quarter (suc zero) h = refl
quarter (suc (suc zero)) h = refl
quarter (suc (suc (suc zero))) h = refl
quarter (suc (suc (suc (suc zero)))) h = refl
quarter (suc (suc (suc (suc (suc zero))))) h = refl
quarter (suc (suc (suc (suc (suc (suc zero)))))) h = refl
quarter (suc (suc (suc (suc (suc (suc (suc k))))))) h = absurd (omega arith)

four : (k : ℕ) → k ≤ 6 → 4 * 2 ^ (k + 8) ≤ 2 ^ (k + 10)
four k h = omega (arith, quarter k h, small_shift k h)

root_address-root_entry : (inode : Inode) (i : ℕ) → root_address inode i ≡ root_entry inode i
unfolding root_address root_entry number
root_address-root_entry inode i =
    let at : ℕ → ℕ = λ p. get_or inode.i_block p 0 in
    let third : at (4 * i + 2) ≡ at (4 * i + 1 + 1) = ap at (omega arith) in
    let fourth : at (4 * i + 2 + 1) ≡ at (4 * i + 1 + 1 + 1) = ap at (omega arith) in
    omega (arith, third, fourth)

module _ (image : Image) (s : SuperBlock) (log : s.s_log_block_size ≤ 6)
    (small : image.size < 2 ^ 63) where
  addresses_in_ind-per_block : addresses_in_ind s ≡ per_block s
  unfolding block_size per_block
  addresses_in_ind-per_block = quarter s.s_log_block_size log

  whole : (n : ℕ) → n < 2 ^ 63 → u64 n ≡ n
  whole n h = omega arith

  blocks2bytes-block_bytes :
      (block : ℕ) → OnImage image s block → blocks2bytes s block ≡ block * block_bytes s
  unfolding blocks2bytes block_size block_bytes
  blocks2bytes-block_bytes block on_image =
      ap (λ b. u64 (block * b)) (small_shift s.s_log_block_size log)
      ∙ whole (block * 2 ^ (s.s_log_block_size + 10)) (omega (arith, on_image))

  address-entry :
      (block i : ℕ)
      → i < per_block s
      → OnImage image s block
      → address image s block i ≡ ok (entry image s block i)
  unfolding address entry disk_read_u32 per_block block_bytes
  address-entry block i h on_image =
      let at : blocks2bytes s block + i * 4 ≡ block * block_bytes s + 4 * i =
        omega (arith, blocks2bytes-block_bytes block on_image) in
      let inside : block * block_bytes s + 4 * i + 4 ≤ image.size =
        omega (arith, four s.s_log_block_size log, on_image) in
      rw
        (
          address,
          at,
          disk_read_u32,
          disk_read-slice image (block * block_bytes s + 4 * i) 4 inside (omega arith),
        )
        (ap ok (
          le32-number image.byte (block * block_bytes s + 4 * i) 4 0 (omega arith)
          ∙ ap (λ p. number image.byte p 4) {x = block * block_bytes s + 4 * i + 0} (omega arith)))

  -- For blocks of 1 to 64 KiB and an image of less than 2^63 bytes: for each route of the block
  -- map of ext2/3 (one of 12 direct blocks, or one, two or three levels of address blocks with an
  -- index in each, below 2^(s_log_block_size + 8)) whose address blocks lie on the image, the code
  -- finds for the logical block that the route leads to, counted as the layout counts the blocks
  -- and not beyond the number of blocks of the file, the address that stands at the end of the
  -- route, read byte by byte from the image.
  pub pblock_indirect-follow :
      (inode : Inode) (route : Route)
      → IsRoute s route
      → AreOnImage image s inode route
      → route_block s route ≤ bytes2blocks s (inode_get_size inode)
      → pblock_indirect image s inode (route_block s route) ≡ ok (follow image s inode route)
  unfolding route_block follow AreOnImage
  pblock_indirect-follow inode (direct_route i) r on_image h =
      direct image s inode i h r ∙ ap ok (root_address-root_entry inode i)
  pblock_indirect-follow inode (single i) r on_image h =
      let p = addresses_in_ind-per_block in
      indirect image s inode (12 + i) h i refl (omega (arith, p, r))
      ∙ ap (λ b. address image s b i) (root_address-root_entry inode 12)
      ∙ address-entry (root_entry inode 12) i r on_image
  pblock_indirect-follow inode (double i j) r on_image h =
      let p = addresses_in_ind-per_block in
      double_indirect image s inode (12 + per_block s + (i * per_block s + j)) h i j
        (ap (λ a. 12 + a + (i * a + j)) (sym p)) (omega (arith, p, r.0)) (omega (arith, p, r.1))
      ∙ rw
          (
            root_address-root_entry inode 13,
            address-entry (root_entry inode 13) i r.0 on_image.0,
            ◌>>=◌,
          )
          (address-entry (entry image s (root_entry inode 13) i) j r.1 on_image.1)
  pblock_indirect-follow inode (triple i j k) r on_image h =
      let p = addresses_in_ind-per_block in
      let b = entry image s (root_entry inode 14) i in
      triple_indirect image s inode
        (12
          + per_block s
          + per_block s * per_block s
          + (i * (per_block s * per_block s) + (j * per_block s + k)))
        h i j k (ap (λ a. 12 + a + a * a + (i * (a * a) + (j * a + k))) (sym p))
        (omega (arith, p, r.0)) (omega (arith, p, r.1)) (omega (arith, p, r.2))
      ∙ rw
          (
            root_address-root_entry inode 14,
            address-entry (root_entry inode 14) i r.0 on_image.0,
            ◌>>=◌,
            address-entry b j r.1 on_image.1,
            ◌>>=◌,
          )
          (address-entry (entry image s b j) k r.2 on_image.2)
