-- ===== src/Ext4/BlockMap/ByExtents.antt =====
-- The block map of an inode whose blocks stand in an extent tree.
use spotlight.Base.{
  ℕ, ◌+◌, ◌-◌, ◌*◌, ◌≡◌, ◌≤◌, ◌<◌, true, none, some, List, [], ◌∷◌, ◌++◌, arith, refl,
}
use spotlight.Ext4.Disk.{Image}
use spotlight.Ext4.Super.{SuperBlock, block_size, bytes2blocks}
use spotlight.Ext4.Extents.{Extent}
use spotlight.Ext4.Extents.Tree.{
  Tree, Children, leaf, node, nil, cons, extents, extents_all, depth, find_extent, first_block,
  Ordered, OrderedTree, OrderedAll, Stored,
}
use spotlight.Ext4.Extents.Leaf.{find_extent-Found}
use spotlight.Ext4.Extents.Lookup.{tree-Found, extent_get_pblock-find_extent}
use spotlight.Ext4.Inode.{Inode, inode_get_size, has_extents}
use spotlight.Ext4.BlockMap.{extent_fuel, inode_get_data_pblock}
use spotlight.Ext4.Read.Content.{IsMapped}

-- The physical block that the extents name, 0 for a hole.
unfoldable pub extent_block : List Extent → ℕ → ℕ
extent_block es lblock = elim (find_extent es lblock) [
  | none ↦ 0
  | some e ↦ e.ee_start_lo + (lblock - e.ee_block)
]

Ordered-append :
    (lo : ℕ) (xs : List Extent) (mid : ℕ) (ys : List Extent) (hi : ℕ)
    → Ordered lo xs mid
    → Ordered mid ys hi
    → Ordered lo (xs ++ ys) hi
Ordered-append lo [] mid [] hi h k = omega arith
Ordered-append lo [] mid (y ∷ ys) hi h k = (omega arith, k.1, k.2)
Ordered-append lo (x ∷ xs) mid ys hi h k =
    (h.0, h.1, Ordered-append (x.ee_block + x.ee_len) xs mid ys hi h.2 k)

Ordered-lower :
    (lo mid : ℕ) (es : List Extent) (hi : ℕ) → lo ≤ mid → Ordered mid es hi → Ordered lo es hi
Ordered-lower lo mid [] hi le h = omega arith
Ordered-lower lo mid (e ∷ es) hi le h = (omega arith, h.1, h.2)

mutual
  unfolding extents

  -- The extents of an ordered tree are in order.
  pub extents-Ordered :
      (lo : ℕ) (t : Tree) (hi : ℕ) → OrderedTree lo t hi → Ordered lo (extents t) hi
  extents-Ordered lo (leaf es) hi h = h
  extents-Ordered lo (node cs) hi h = extents_all-Ordered lo cs hi h

  extents_all-Ordered :
      (lo : ℕ) (cs : Children) (hi : ℕ) → OrderedAll lo cs hi → Ordered lo (extents_all cs) hi
  extents_all-Ordered lo nil hi h = h
  extents_all-Ordered lo (cons idx t cs) hi h =
      Ordered-append lo (extents t) (first_block cs hi) (extents_all cs) hi
        (Ordered-lower lo idx.ei_block (extents t) (first_block cs hi) h.0
          (extents-Ordered idx.ei_block t (first_block cs hi) h.2))
        (extents_all-Ordered (first_block cs hi) cs hi h.3)

-- All blocks of an extent are found in it.
find_extent-inside :
    (lo : ℕ) (es : List Extent) (hi l m : ℕ) {x : Extent}
    → Ordered lo es hi
    → find_extent es l ≡ some x
    → x.ee_block ≤ m
    → m < x.ee_block + x.ee_len
    → find_extent es m ≡ some x
unfolding find_extent
find_extent-inside lo [] hi l m h f a b = cc
find_extent-inside lo (e ∷ es) hi l m {x} h f a b = ground (
  arith,
  find_extent-Found (e.ee_block + e.ee_len) es hi l {x = x} h.2,
  find_extent-inside (e.ee_block + e.ee_len) es hi l m {x = x} h.2,
)

-- A file with no hole, whose extents lie on the disk and apart from its first block.
pub record IsWhole (image : Image) (s : SuperBlock) (inode : Inode) (t : Tree) (hi : ℕ)
    : Type 0 where
  pub flag : has_extents inode ≡ true
  pub stored : Stored image s inode.i_block t
  pub ordered : OrderedTree 0 t hi
  pub shallow : depth t < extent_fuel
  pub no_hole :
      (lblock : ℕ)
      → lblock < bytes2blocks s (inode_get_size inode)
      → (e : Extent) × (find_extent (extents t) lblock ≡ some e)
  pub on_disk :
      (lblock : ℕ) (e : Extent)
      → find_extent (extents t) lblock ≡ some e
      → (0 < e.ee_start_lo) × ((e.ee_start_lo + e.ee_len) * block_size s ≤ image.size)

module _ (image : Image) (s : SuperBlock) (inode : Inode) (t : Tree) (hi : ℕ) where
  -- For a file without holes, whose ordered extent tree is stored on the disk and whose extents
  -- lie on the disk, the map of the inode gives for every block of the file the physical block
  -- that the extents name and the length of a run that goes on consecutively on the disk.
  pub IsWhole-IsMapped :
      IsWhole image s inode t hi → IsMapped image s inode (extent_block (extents t))
  unfolding inode_get_data_pblock extent_block
  IsWhole-IsMapped h lblock inside =
      let (e, f) = h.no_hole lblock inside in
      let g = tree-Found 0 t hi lblock h.ordered f in
      let (start, disk) = h.on_disk lblock e f in
      (
        e.ee_start_lo + (lblock - e.ee_block),
        e.ee_block + e.ee_len - lblock,
        rw
            (
              h.flag,
              extent_get_pblock-find_extent image s lblock extent_fuel inode.i_block 0 t hi h.stored
                  h.ordered f h.shallow,
            )
            refl,
        record {
          mapped = rw (f, extent_block) refl;
          some_block = omega (arith, g.before);
          hole = λ z. absurd (omega (arith, start));
          consecutive = λ ne k small.
              let there =
                find_extent-inside 0 (extents t) hi lblock (lblock + k)
                  (extents-Ordered 0 t hi h.ordered) f (omega (arith, g.from))
                  (omega (arith, g.before)) in
              rw (there, extent_block) (omega (arith, g.from));
          on_disk = λ ne.
              let all : e.ee_start_lo + (lblock - e.ee_block) + (e.ee_block + e.ee_len - lblock)
                  ≡ e.ee_start_lo + e.ee_len =
                omega (arith, g.from, g.before) in
              rw all disk;
          narrow = omega (arith, g.before, g.narrow.block_fits);
        },
      )
