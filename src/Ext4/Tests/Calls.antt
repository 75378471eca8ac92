-- ===== src/Ext4/Tests/Calls.antt =====
-- Runs of the operations on a disk with one directory.
use spotlight.Base.{
  ℕ, zero, suc, min, Bool, ◌-◌, ◌≡◌, false, inr, ◌⊎◌, List, [], ◌∷◌, replicate, arith, refl,
}
use spotlight.Base.Result.{ok, enoent}
use spotlight.Base.Bytes.{slice}
use spotlight.Ext4.Disk.{pread, disk_read}
use spotlight.Ext4.Super.{
  n_block_groups, block_size, bytes2blocks, blocks2bytes, inode_table_offset, divide,
}
use spotlight.Ext4.Inode.{
  Inode, inode_of, inode_get_by_number, inode_get_size, inode_offset_in_table, has_extents,
}
use spotlight.Ext4.BlockMap.{inode_get_data_pblock, pblock_indirect}
use spotlight.Ext4.Read.Content.{file_byte, IsMapped}
use spotlight.Ext4.Directory.Entries.{list_entries}
use spotlight.Ext4.Path.{done, failed}
use spotlight.Ext4.Path.Names.{lookup_name, same_name}
use spotlight.Ext4.Path.Components.{components, first_token, later, keep, NoZero, Fits}
use spotlight.Ext4.Path.Resolve.{resolve, resolve_in}
use spotlight.Ext4.Path.Resolve.Sequence.{
  Leads, first_cache, first_tree, first_tree-root, first-IsCoherent,
}
use spotlight.Ext4.Dcache.{Dcache}
use spotlight.Ext4.Read.{op_read}
use spotlight.Ext4.Operations.Attributes.{IsStat}
use spotlight.Ext4.Layout.{number, IsInode}
use spotlight.Ext4.Operations.{Stat, op_getattr, op_open, op_readdir}
use spotlight.Ext4.Operations.Paths.{
  IsCached, op_getattr-resolve, op_open-op_read, op_readdir-resolve,
}
use spotlight.Ext4.Tests.Files.{directory}
use spotlight.Ext4.Tests.Trees.{
  disk, fs, super, block_size_1024, directories, entries, abc-Leads, names, root-IsDirectory,
  dir_block,
}

abbrev file : Inode
file = record directory {
  i_mode = 0x81a4;
  i_size_lo = 600;
  i_links_count = 0;
  i_blocks_lo = 0;
  i_block = 5 ∷ replicate 59 0;
}

file_read : inode_get_by_number disk fs 11 ≡ ok file
unfolding inode_get_by_number n_block_groups inode_table_offset blocks2bytes block_size divide
    inode_offset_in_table disk_read pread slice inode_of
file_read = refl

abbrev file_block : ℕ → ℕ
file_block n = 5

file_one_block : bytes2blocks super (inode_get_size file) ≡ 1
unfolding bytes2blocks block_size inode_get_size
file_one_block = refl

file_mapped : inode_get_data_pblock disk super file 0 ≡ ok (5, 1)
unfolding inode_get_data_pblock has_extents pblock_indirect bytes2blocks block_size inode_get_size
file_mapped = refl

file-IsMapped : IsMapped disk super file file_block
file-IsMapped zero h = (
  5,
  1,
  file_mapped,
  record {
    mapped = refl;
    some_block = omega arith;
    hole = λ e. absurd (omega (arith, e));
    consecutive = λ ne k small. omega arith;
    on_disk = λ ne. omega (arith, block_size_1024);
    narrow = omega arith;
  },
)
file-IsMapped (suc n) h = absurd (omega (arith, file_one_block))

first-IsCached : IsCached entries first_cache
first-IsCached = record {
  t = first_tree;
  cache = first-IsCoherent entries;
  at_root = first_tree-root;
}

-- The second read of 500 bytes of `/abc` gets the last 100.
op_open-op_read_example :
    (dc' : Dcache) × (fh : ℕ) × (op_open disk fs 4 first_cache (47 ∷ 97 ∷ 98 ∷ 99 ∷ []) 0
      ≡ ok (done fh, dc'))
    × (op_read disk fs fh 500 500
        ≡ ok (
            slice
              (file_byte disk (block_size super) file_block)
              500
              (min 500 (inode_get_size file - 500))))
    × IsCached entries dc'
op_open-op_read_example =
    op_open-op_read entries disk fs 4 (omega (arith, block_size_1024))
      (omega (arith, block_size_1024)) (omega arith) directories first_cache first-IsCached
      (47 ∷ 97 ∷ 98 ∷ 99 ∷ []) 11 abc-Leads 0 500 500 file file_block refl file_read file-IsMapped
      (omega arith) (omega arith) (inr (omega arith, λ e. omega (arith, e)))

-- `filler` collects the names.
abbrev collect : List (List ℕ) → List ℕ → ℕ → Bool × List (List ℕ)
collect names name offset = (false, name ∷ names)

dot-Leads : Leads entries (47 ∷ 46 ∷ []) 2
unfolding NoZero components first_token later keep Fits resolve resolve_in lookup_name same_name
dot-Leads = record {
  absolute = refl;
  zeros = (refl, (refl, tt));
  fits = (omega arith, tt);
  leads = refl;
}

file-IsInode : IsInode disk 2304 file
unfolding number slice
file-IsInode = record {
  mode = refl;
  uid = refl;
  size_lo = refl;
  atime = refl;
  ctime = refl;
  mtime = refl;
  gid = refl;
  links_count = refl;
  blocks_lo = refl;
  flags = refl;
  block = refl;
  size_high = refl;
}

op_getattr-resolve_example :
    (dc' : Dcache) × (((◌≡◌ {A = ℕ} 11 0)
        × (op_getattr disk fs 4 first_cache (47 ∷ 97 ∷ 98 ∷ 99 ∷ []) ≡ ok (failed enoent, dc')))
      ⊎ ((st : Stat) × (op_getattr disk fs 4 first_cache (47 ∷ 97 ∷ 98 ∷ 99 ∷ [])
            ≡ ok (done st, dc'))
          × IsStat disk 2304 st))
    × IsCached entries dc'
op_getattr-resolve_example =
    op_getattr-resolve entries disk fs 4 (omega (arith, block_size_1024))
      (omega (arith, block_size_1024)) (omega arith) directories first_cache first-IsCached
      (47 ∷ 97 ∷ 98 ∷ 99 ∷ []) 11 abc-Leads 2304 (inr (file, file_read, file-IsInode))

op_readdir-resolve_example :
    (dc' : Dcache) × (op_readdir disk fs 4 collect first_cache (47 ∷ 46 ∷ []) 0 []
      ≡ ok (
        done (
            list_entries collect
              (file_byte disk (block_size super) dir_block)
              (0 ∷ 12 ∷ 24 ∷ [])
              []),
        dc',
      ))
    × IsCached entries dc'
op_readdir-resolve_example =
    op_readdir-resolve entries disk fs 4 (omega (arith, block_size_1024))
      (omega (arith, block_size_1024)) (omega arith) directories first_cache first-IsCached
      (47 ∷ 46 ∷ []) 2 dot-Leads collect [] names root-IsDirectory
