-- ===== src/Ext4/Extents/Lookup.antt =====
-- `extent_get_pblock` over a stored, ordered tree of any depth.
use spotlight.Base.{
  ℕ, zero, suc, ◌+◌, ◌-◌, ◌≡◌, ◌≤◌, ◌<◌, ◌⊎◌, inl, inr, Option, some, none, List, [], ◌∷◌, ◌++◌,
  arith, refl, ◌≢◌, ne→not-==, zero,
}
use spotlight.Base.Result.{ok}
use spotlight.Ext4.Disk.{Image}
use spotlight.Ext4.Super.{SuperBlock}
use spotlight.Ext4.Extents.{Extent, ExtentIdx, index_loop, extents_in_block, extent_get_pblock}
use spotlight.Ext4.Extents.Tree.{
  Tree, Children, leaf, node, nil, cons, extents, extents_all, depth, depth_all, count, find_extent,
  first_block, OrderedTree, OrderedAll, Stored, StoredAll,
}
use spotlight.Ext4.Extents.Leaf.{Found, find_extent-Found, Ordered-le, block_from_ees-find_extent}

find_extent-append :
    (xs ys : List Extent) (lblock : ℕ) {x : Extent}
    → find_extent (xs ++ ys) lblock ≡ some x
    → (find_extent xs lblock ≡ some x) ⊎ (find_extent ys lblock ≡ some x)
unfolding find_extent
find_extent-append [] ys lblock f = inr f
find_extent-append (e ∷ xs) ys lblock {x} f =
    ground (arith, find_extent-append xs ys lblock {x = x})

mutual
  OrderedTree-le : (lo : ℕ) (t : Tree) (hi : ℕ) → OrderedTree lo t hi → lo ≤ hi
  OrderedTree-le lo (leaf es) hi h = Ordered-le lo es hi h
  OrderedTree-le lo (node cs) hi h = OrderedAll-le lo cs hi h

  OrderedAll-le : (lo : ℕ) (cs : Children) (hi : ℕ) → OrderedAll lo cs hi → lo ≤ hi
  OrderedAll-le lo nil hi h = h
  OrderedAll-le lo (cons idx t cs) hi h = omega (
    arith,
    OrderedTree-le idx.ei_block t (first_block cs hi) h.2,
    OrderedAll-le (first_block cs hi) cs hi h.3,
  )

mutual
  unfolding extents

  -- What is found in a tree lies between its bounds.
  pub tree-Found :
      (lo : ℕ) (t : Tree) (hi lblock : ℕ) {x : Extent}
      → OrderedTree lo t hi
      → find_extent (extents t) lblock ≡ some x
      → Found lo x lblock hi
  tree-Found lo (leaf es) hi lblock h f = find_extent-Found lo es hi lblock h f
  tree-Found lo (node cs) hi lblock h f = children-Found lo cs hi lblock h f

  pub children-Found :
      (lo : ℕ) (cs : Children) (hi lblock : ℕ) {x : Extent}
      → OrderedAll lo cs hi
      → find_extent (extents_all cs) lblock ≡ some x
      → Found lo x lblock hi
  children-Found lo nil hi lblock h f = find_extent-Found lo [] hi lblock h f
  children-Found lo (cons idx t cs) hi lblock {x} h f =
      elim (find_extent-append (extents t) (extents_all cs) lblock f) [
        | inl here ↦ ground (
          arith,
          OrderedAll-le (first_block cs hi) cs hi h.3,
          tree-Found idx.ei_block t (first_block cs hi) lblock h.2 here,
        )
        | inr later ↦ ground (
          arith,
          OrderedTree-le idx.ei_block t (first_block cs hi) h.2,
          children-Found (first_block cs hi) cs hi lblock h.3 later,
        )
      ]

not-found : (lblock : ℕ) {x : Extent} → find_extent [] lblock ≢ some x
unfolding find_extent
not-found lblock e = cc

-- What the loop of a node leads to: a child that holds the extent.
pub record Chosen (image : Image) (s : SuperBlock) (cs : Children) (lblock : ℕ) (x : Extent)
    : Type 0 where
  pub idx : ExtentIdx
  pub tree : Tree
  pub buffer : List ℕ
  pub hi : ℕ
  pub read : extents_in_block image s idx.ei_leaf_lo ≡ ok buffer
  pub stored : Stored image s buffer tree
  pub ordered : OrderedTree idx.ei_block tree hi
  pub found : find_extent (extents tree) lblock ≡ some x
  pub shallow : depth tree ≤ depth_all cs

module _ (image : Image) (s : SuperBlock) (lblock : ℕ) where
  -- At an entry behind the block the loop ends.
  index_loop-stop :
      (b : List ℕ) (i : ℕ) (cs : Children) (hi : ℕ) (r : Option ExtentIdx)
      → StoredAll image s b i cs
      → OrderedAll (first_block cs hi) cs hi
      → lblock < first_block cs hi
      → index_loop b (count cs) i lblock r ≡ ok r
  unfolding index_loop
  index_loop-stop b i nil hi r st h l = refl
  index_loop-stop b i (cons idx t cs) hi r st h l = rw st.0 (ground arith)

  index_loop-Chosen :
      (b : List ℕ) (i lo : ℕ) (cs : Children) (hi : ℕ) (r : Option ExtentIdx) {x : Extent}
      → StoredAll image s b i cs
      → OrderedAll lo cs hi
      → find_extent (extents_all cs) lblock ≡ some x
      → (c : Chosen image s cs lblock x) × (index_loop b (count cs) i lblock r ≡ ok (some c.idx))
  unfolding extents depth index_loop
  index_loop-Chosen b i lo nil hi r st h f = absurd (not-found lblock f)
  index_loop-Chosen b i lo (cons idx t cs) hi r {x} st h f =
      elim (find_extent-append (extents t) (extents_all cs) lblock f) [
        | inl here ↦
            let g = tree-Found idx.ei_block t (first_block cs hi) lblock h.2 here in
            (
              record {
                idx = idx;
                tree = t;
                buffer = st.1.0;
                hi = first_block cs hi;
                read = st.1.1;
                stored = st.1.2;
                ordered = h.2;
                found = here;
                shallow = omega arith;
              },
              rw st.0 (ground (arith, index_loop-stop b (i + 1) cs hi (some idx) st.2 h.3)),
            )
        | inr later ↦
            let g = children-Found (first_block cs hi) cs hi lblock h.3 later in
            let le = OrderedTree-le idx.ei_block t (first_block cs hi) h.2 in
            let (c, e) =
              index_loop-Chosen b (i + 1) (first_block cs hi) cs hi (some idx) st.2 h.3 later in
            (
              record {
                idx = c.idx;
                tree = c.tree;
                buffer = c.buffer;
                hi = c.hi;
                read = c.read;
                stored = c.stored;
                ordered = c.ordered;
                found = c.found;
                shallow = omega (arith, c.shallow);
              },
              rw st.0 (ground (arith, e)),
            )
      ]

  -- Over an ordered extent tree of any depth that the buffer and the blocks of the disk hold, a
  -- logical block that an extent maps is found where that extent puts it, with the number of
  -- blocks for which the extent goes on; fuel above the depth of the tree is enough.
  pub extent_get_pblock-find_extent :
      (fuel : ℕ) (b : List ℕ) (lo : ℕ) (t : Tree) (hi : ℕ) {x : Extent}
      → Stored image s b t
      → OrderedTree lo t hi
      → find_extent (extents t) lblock ≡ some x
      → depth t < fuel
      → extent_get_pblock image s fuel b lblock
        ≡ ok (x.ee_start_lo + (lblock - x.ee_block), some (x.ee_block + x.ee_len - lblock))
  unfolding extents depth extent_get_pblock
  extent_get_pblock-find_extent zero b lo t hi st h f d = absurd (omega arith)
  extent_get_pblock-find_extent (suc fuel) b lo (leaf es) hi st h f d =
      rw (st.0, st.1, st.2) (block_from_ees-find_extent b lblock _ 0 lo es hi st.3 h refl f)
  extent_get_pblock-find_extent (suc fuel) b lo (node cs) hi st h f d =
      let (c, e) = index_loop-Chosen b 0 lo cs hi none st.3 h f in
      rw (st.0, ne→not-== _ _ st.1, st.2, e, c.read)
        (extent_get_pblock-find_extent fuel c.buffer c.idx.ei_block c.tree c.hi c.stored c.ordered
          c.found (omega (arith, c.shallow)))
