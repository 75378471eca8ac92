-- ===== src/Ext4/Tests/Maps.antt =====
-- Runs of the block maps.
use spotlight.Base.{
  ℕ, ◌+◌, ◌-◌, ◌*◌, ◌≡◌, ◌≤◌, ◌<◌, Option, none, some, subst, ◌≢◌, inl, inr, arith, refl,
  Bool-cases, ◌==◌, if◌then◌else◌, ◌∷◌, ◌++◌, replicate,
}
use spotlight.Base.Result.{ok}
use spotlight.Base.Bytes.{slice}
use spotlight.Ext4.Disk.{Image, disk_read, pread}
use spotlight.Ext4.Super.{block_size, bytes2blocks, blocks2bytes}
use spotlight.Ext4.Inode.{Inode, inode_get_size, has_extents}
use spotlight.Ext4.Extents.Lookup.{extent_get_pblock-find_extent}
use spotlight.Ext4.Extents.Leaf.{block_from_ees-gap}
use spotlight.Ext4.BlockMap.{extent_fuel, pblock_indirect}
use spotlight.Ext4.BlockMap.Routes.{
  double, per_block, IsRoute, route_block, root_entry, entry, follow, AreOnImage,
  pblock_indirect-follow,
}
use spotlight.Ext4.Layout.{number, block_bytes}
use spotlight.Ext4.Extents.{
  Extent, ExtentIdx, index_at, extents_in_block, extent_get_pblock, block_from_ees, extent_at,
  header_of,
}
use spotlight.Ext4.Extents.Tree.{
  Tree, node, nil, cons, extents, depth, covers, find_extent, IsNarrow, OrderedTree, Stored,
}
use spotlight.Ext4.BlockMap.ByExtents.{IsWhole, IsWhole-IsMapped, extent_block}
use spotlight.Ext4.Read.Content.{IsMapped}
use spotlight.Ext4.Tests.Files.{disk, super, extent, tree, file, leaf_bytes, node_bytes, late_bytes}

pub block_size_1024 : block_size super ≡ 1024
unfolding block_size
block_size_1024 = refl

stored : Stored disk super file.i_block tree
unfolding header_of extent_at
stored = (refl, refl, refl, (refl, tt))

extent-IsNarrow : IsNarrow extent
extent-IsNarrow = record { start_hi = refl; block_fits = omega arith; start_fits = omega arith }

ordered : OrderedTree 0 tree 2
ordered = (omega arith, extent-IsNarrow, omega arith)

size_1500 : inode_get_size file ≡ 1500
unfolding inode_get_size
size_1500 = refl

two_blocks : bytes2blocks super (inode_get_size file) ≡ 2
unfolding bytes2blocks block_size inode_get_size
two_blocks = refl

find_low : (lblock : ℕ) → lblock < 2 → find_extent (extents tree) lblock ≡ some extent
unfolding find_extent extents
find_low lblock h = ground arith

absent : (e : Extent) → none ≢ some e
absent e f = cc

find_only :
    (lblock : ℕ) (e : Extent) → find_extent (extents tree) lblock ≡ some e → some extent ≡ some e
unfolding find_extent extents
find_only lblock e f = elim (Bool-cases (covers extent lblock)) [
  | inl y ↦ rw y at f
  | inr n ↦ absurd (absent e (rw n at f))
]

abbrev OnDisk : Option Extent → Type 0
OnDisk none = Unit {0}
OnDisk (some e) = (0 < e.ee_start_lo) × ((e.ee_start_lo + e.ee_len) * block_size super ≤ 16384)

pub file-IsWhole : IsWhole disk super file tree 2
unfolding has_extents depth extent_fuel
file-IsWhole = record {
  flag = refl;
  stored = stored;
  ordered = ordered;
  shallow = omega arith;
  no_hole = λ lblock h. (extent, find_low lblock (omega (arith, two_blocks)));
  on_disk = λ lblock e f.
      subst OnDisk (find_only lblock e f) (omega arith, omega (arith, block_size_1024));
}

abbrev index : ExtentIdx
index = record { ei_block = 0; ei_leaf_lo = 7; ei_leaf_hi = 0 }

abbrev deep_tree : Tree
deep_tree = node (cons index tree nil)

deep-Stored : Stored disk super node_bytes deep_tree
unfolding header_of extent_at index_at extents_in_block disk_read pread slice blocks2bytes
    block_size
deep-Stored = (
  refl,
  (λ z. omega (arith, z)),
  refl,
  (refl, (leaf_bytes, refl, (refl, refl, refl, (refl, tt))), tt),
)

deep_ordered : OrderedTree 0 deep_tree 2
deep_ordered = (omega arith, refl, ordered, omega arith)

deep_found : find_extent (extents deep_tree) 1 ≡ some extent
unfolding find_extent extents
deep_found = refl

shallow : depth deep_tree < 2
unfolding depth
shallow = omega arith

extent_get_pblock-find_extent_example :
    extent_get_pblock disk super 2 node_bytes 1 ≡ ok (5 + (1 - 0), some (0 + 2 - 1))
extent_get_pblock-find_extent_example =
    extent_get_pblock-find_extent disk super 1 2 node_bytes 0 deep_tree 2 {x = extent} deep-Stored
      deep_ordered deep_found shallow

IsWhole-IsMapped_example : IsMapped disk super file (extent_block (extents tree))
IsWhole-IsMapped_example = IsWhole-IsMapped disk super file tree 2 file-IsWhole

abbrev late : Extent
late = record { ee_block = 10; ee_len = 4; ee_start_hi = 0; ee_start_lo = 100 }

late_at : extent_at late_bytes 0 ≡ some late
unfolding extent_at
late_at = refl

late-IsNarrow : IsNarrow late
late-IsNarrow = record { start_hi = refl; block_fits = omega arith; start_fits = omega arith }

block_from_ees-gap_example :
    block_from_ees late_bytes 1 0 7 ≡ ok (100 - (10 - 7), some (10 + 4 - 7))
block_from_ees-gap_example =
    block_from_ees-gap late_bytes 0 0 7 late late_at late-IsNarrow (omega arith) (omega arith)
      (omega arith)

-- Block 9 has the block 11 as its address 2, which has the block 13 as its address 3.
abbrev routes_disk : Image
routes_disk = record {
  size = 16384;
  byte = λ i. if i == 9224 then 11 else if i == 11276 then 13 else 0;
}

abbrev routes_file : Inode
routes_file = record file {
  i_size_lo = 921600;
  i_flags = 0;
  i_block = 5 ∷ replicate 51 0 ++ (9 ∷ replicate 7 0);
}

double-IsRoute : IsRoute super (double 2 3)
unfolding per_block
double-IsRoute = (omega arith, omega arith)

double-AreOnImage : AreOnImage routes_disk super routes_file (double 2 3)
unfolding AreOnImage root_entry entry number block_bytes
double-AreOnImage = (omega arith, omega arith)

route_inside : route_block super (double 2 3) ≤ bytes2blocks super (inode_get_size routes_file)
unfolding route_block per_block bytes2blocks block_size inode_get_size
route_inside = omega arith

route_test : route_block super (double 2 3) ≡ 783
unfolding route_block per_block
route_test = refl

follow_test : follow routes_disk super routes_file (double 2 3) ≡ 13
unfolding follow entry root_entry number block_bytes
follow_test = refl

pblock_indirect-follow_example :
    pblock_indirect routes_disk super routes_file (route_block super (double 2 3))
    ≡ ok (follow routes_disk super routes_file (double 2 3))
pblock_indirect-follow_example =
    pblock_indirect-follow routes_disk super (omega arith) (omega arith) routes_file (double 2 3)
      double-IsRoute double-AreOnImage route_inside
