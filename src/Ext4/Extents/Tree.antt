-- ===== src/Ext4/Extents/Tree.antt =====
-- The extent tree that the buffers of extents.c hold, and the mapping that it stands for.
use spotlight.Base.{
  ℕ, suc, ◌+◌, ◌^◌, ◌≡◌, ◌≢◌, ◌≤◌, ◌<◌, Bool, ◌&&◌, Option, none, some, List, [], ◌∷◌, ◌++◌, leb,
  ltb, if◌then◌else◌, length, max,
}
use spotlight.Base.Result.{ok}
use spotlight.Ext4.Disk.{Image}
use spotlight.Ext4.Super.{SuperBlock}
use spotlight.Ext4.Extents.{
  Extent, ExtentIdx, ext_magic, header_of, extent_at, index_at, extents_in_block,
}

mutual
  pub data Tree : Type 0 where
    leaf : List Extent → Tree
    node : Children → Tree

  pub data Children : Type 0 where
    nil : Children
    cons : ExtentIdx → Tree → Children → Children

unfoldable mutual
  -- All extents, from left to right.
  pub extents : Tree → List Extent
  extents (leaf es) = es
  extents (node cs) = extents_all cs

  pub extents_all : Children → List Extent
  extents_all nil = []
  extents_all (cons _ t cs) = extents t ++ extents_all cs

unfoldable mutual
  pub depth : Tree → ℕ
  depth (leaf es) = 0
  depth (node cs) = suc (depth_all cs)

  pub depth_all : Children → ℕ
  depth_all nil = 0
  depth_all (cons _ t cs) = max (depth t) (depth_all cs)

abbrev pub count : Children → ℕ
count nil = 0
count (cons _ _ cs) = suc (count cs)

-- The extent that maps a logical block.
abbrev pub covers : Extent → ℕ → Bool
covers e lblock = leb e.ee_block lblock && ltb lblock (e.ee_block + e.ee_len)

unfoldable pub find_extent : List Extent → ℕ → Option Extent
find_extent [] lblock = none
find_extent (e ∷ es) lblock = if covers e lblock then some e else find_extent es lblock

-- No part of an extent needs more than 32 bits.
pub record IsNarrow (e : Extent) : Type 0 where
  pub start_hi : e.ee_start_hi ≡ 0
  pub block_fits : e.ee_block + e.ee_len < 2 ^ 32
  pub start_fits : e.ee_start_lo + e.ee_len ≤ 2 ^ 32

-- The extents lie in order, apart, between the logical blocks `lo` and `hi`.
abbrev pub Ordered : ℕ → List Extent → ℕ → Type 0
Ordered lo [] hi = lo ≤ hi
Ordered lo (e ∷ es) hi = (lo ≤ e.ee_block) × IsNarrow e × Ordered (e.ee_block + e.ee_len) es hi

abbrev pub first_block : Children → ℕ → ℕ
first_block nil hi = hi
first_block (cons idx _ _) hi = idx.ei_block

abbrev mutual
  -- Each child holds the blocks from its index entry's up to the next one's.
  pub OrderedTree : ℕ → Tree → ℕ → Type 0
  OrderedTree lo (leaf es) hi = Ordered lo es hi
  OrderedTree lo (node cs) hi = OrderedAll lo cs hi

  pub OrderedAll : ℕ → Children → ℕ → Type 0
  OrderedAll lo nil hi = lo ≤ hi
  OrderedAll lo (cons idx t cs) hi =
      (lo ≤ idx.ei_block)
      × (idx.ei_leaf_hi ≡ 0)
      × OrderedTree idx.ei_block t (first_block cs hi)
      × OrderedAll (first_block cs hi) cs hi

abbrev pub ExtentsAt : List ℕ → ℕ → List Extent → Type 0
ExtentsAt b i [] = Unit {0}
ExtentsAt b i (e ∷ es) = (extent_at b i ≡ some e) × ExtentsAt b (i + 1) es

module _ (image : Image) (s : SuperBlock) where
  abbrev mutual
    -- The buffer holds the tree, its children in blocks of the disk.
    pub Stored : List ℕ → Tree → Type 0
    Stored b (leaf es) =
        ((header_of b).eh_magic ≡ ext_magic)
        × ((header_of b).eh_depth ≡ 0)
        × ((header_of b).eh_entries ≡ length es)
        × ExtentsAt b 0 es
    Stored b (node cs) =
        ((header_of b).eh_magic ≡ ext_magic)
        × ((header_of b).eh_depth ≢ 0)
        × ((header_of b).eh_entries ≡ count cs)
        × StoredAll b 0 cs

    pub StoredAll : List ℕ → ℕ → Children → Type 0
    StoredAll b i nil = Unit {0}
    StoredAll b i (cons idx t cs) =
        (index_at b i ≡ some idx)
        × ((child : List ℕ) × (extents_in_block image s idx.ei_leaf_lo ≡ ok child) × Stored child t)
        × StoredAll b (i + 1) cs
