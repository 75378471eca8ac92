-- ===== src/Ext4/Extents.antt =====
-- fs/ext4/extents.c and types/ext4_extents.h: the physical block of a logical block, by the extent
-- tree that starts in the inode. A node is the buffer that holds it.
pub mod Tree
pub mod Leaf
pub mod Lookup
use spotlight.Base.{
  ℕ, zero, suc, ◌+◌, ◌*◌, ◌==◌, leb, ltb, if◌then◌else◌, true, false, Option, none, some, List,
  length, u32, sub_u32,
}
use spotlight.Base.Result.{Result, ok, out_of_fuel, ◌>>=◌, ◌>>◌, check, deref}
use spotlight.Base.Bytes.{le16, le32}
use spotlight.Ext4.Disk.{Image, disk_read}
use spotlight.Ext4.Super.{SuperBlock, blocks2bytes}

abbrev pub ext_magic : ℕ
ext_magic = 0xf30a

-- `struct ext4_extent`
pub record Extent : Type 0 where
  pub ee_block : ℕ
  pub ee_len : ℕ
  pub ee_start_hi : ℕ
  pub ee_start_lo : ℕ

-- `struct ext4_extent_idx`
pub record ExtentIdx : Type 0 where
  pub ei_block : ℕ
  pub ei_leaf_lo : ℕ
  pub ei_leaf_hi : ℕ

-- `struct ext4_extent_header`
pub record ExtentHeader : Type 0 where
  pub eh_magic : ℕ
  pub eh_entries : ℕ
  pub eh_depth : ℕ

abbrev pub extent_header_sizeof : ℕ
extent_header_sizeof = 12

abbrev pub extent_sizeof : ℕ
extent_sizeof = 12

unfoldable pub header_of : List ℕ → ExtentHeader
header_of b = record { eh_magic = le16 b 0; eh_entries = le16 b 2; eh_depth = le16 b 6 }

-- `ee_array[i]` and `ei_array[i]`, behind the header; `none` outside the buffer.
unfoldable pub extent_at : List ℕ → ℕ → Option Extent
extent_at b i =
    let o = extent_header_sizeof + extent_sizeof * i in
    if leb (o + extent_sizeof) (length b)
    then some (record {
      ee_block = le32 b o;
      ee_len = le16 b (o + 4);
      ee_start_hi = le16 b (o + 6);
      ee_start_lo = le32 b (o + 8);
    })
    else none

unfoldable pub index_at : List ℕ → ℕ → Option ExtentIdx
index_at b i =
    let o = extent_header_sizeof + extent_sizeof * i in
    if leb (o + extent_sizeof) (length b)
    then some
        (record { ei_block = le32 b o; ei_leaf_lo = le32 b (o + 4); ei_leaf_hi = le16 b (o + 8) })
    else none

-- `extent_get_block_from_ees` with `n` entries left, from entry `i` on: the physical block, 0 if no
-- extent ends behind `lblock`, and what is stored through `len`, if anything is.
unfoldable pub block_from_ees : List ℕ → ℕ → ℕ → ℕ → Result (ℕ × Option ℕ)
block_from_ees b zero i lblock = ok (0, none)
block_from_ees b (suc n) i lblock = do
  e ← deref (extent_at b i)
  check (e.ee_start_hi == 0)
  if ltb lblock (u32 (e.ee_block + e.ee_len))
      then ok (
        u32 (e.ee_start_lo + sub_u32 lblock e.ee_block),
        some (sub_u32 (e.ee_block + e.ee_len) lblock),
      )
      else block_from_ees b n (i + 1) lblock

-- `extent_get_extents_in_block`
unfoldable pub extents_in_block : Image → SuperBlock → ℕ → Result (List ℕ)
extents_in_block image s block = do
  header ← disk_read image (blocks2bytes s block) extent_header_sizeof
  let len = (header_of header).eh_entries * extent_sizeof + extent_header_sizeof
  disk_read image (blocks2bytes s block) len

-- The loop of `extent_get_pblock` over the index entries: `recurse_ei` when it ends.
unfoldable pub index_loop : List ℕ → ℕ → ℕ → ℕ → Option ExtentIdx → Result (Option ExtentIdx)
index_loop b zero i lblock recurse_ei = ok recurse_ei
index_loop b (suc n) i lblock recurse_ei = do
  e ← deref (index_at b i)
  check (e.ei_leaf_hi == 0)
  if ltb lblock e.ei_block then ok recurse_ei else index_loop b n (i + 1) lblock (some e)

-- `extent_get_pblock`; the fuel bounds the depth of the tree.
unfoldable pub extent_get_pblock : Image → SuperBlock → ℕ → List ℕ → ℕ → Result (ℕ × Option ℕ)
extent_get_pblock image s zero extents lblock = out_of_fuel
extent_get_pblock image s (suc fuel) extents lblock = do
  let eh = header_of extents
  check (eh.eh_magic == ext_magic)
  elim (eh.eh_depth == 0) [
    | true ↦ block_from_ees extents eh.eh_entries 0 lblock
    | false ↦ do
      recurse_ei ← index_loop extents eh.eh_entries 0 lblock none
      ei ← deref recurse_ei
      leaf_extents ← extents_in_block image s ei.ei_leaf_lo
      extent_get_pblock image s fuel leaf_extents lblock
  ]
