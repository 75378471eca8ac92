-- ===== src/Ext4/Tests/Listing.antt =====
-- Runs of the listing of a directory.
use spotlight.Base.{ℕ, zero, suc, ◌≡◌, Bool, false, List, [], ◌∷◌, arith, refl}
use spotlight.Base.Result.{ok}
use spotlight.Base.Bytes.{slice}
use spotlight.Ext4.Super.{block_size, bytes2blocks}
use spotlight.Ext4.Inode.{inode_get_size, has_extents}
use spotlight.Ext4.BlockMap.{inode_get_data_pblock, pblock_indirect}
use spotlight.Ext4.Read.Content.{file_byte, IsMapped}
use spotlight.Ext4.Directory.{readdir_inode}
use spotlight.Ext4.Directory.Entries.{entry_at, IsChain, list_entries}
use spotlight.Ext4.Directory.Context.{NoHole}
use spotlight.Ext4.Directory.Listing.{readdir_inode-entries}
use spotlight.Ext4.Tests.Files.{disk, super, directory}
use spotlight.Ext4.Tests.Maps.{block_size_1024}

abbrev dir_block : ℕ → ℕ
dir_block n = 8

-- `filler` collects the names.
abbrev collect : List (List ℕ) → List ℕ → ℕ → Bool × List (List ℕ)
collect names name offset = (false, name ∷ names)

one_block : bytes2blocks super (inode_get_size directory) ≡ 1
unfolding bytes2blocks block_size inode_get_size
one_block = refl

dir_mapped : inode_get_data_pblock disk super directory 0 ≡ ok (8, 1)
unfolding inode_get_data_pblock has_extents pblock_indirect bytes2blocks block_size inode_get_size
dir_mapped = refl

directory-IsMapped : IsMapped disk super directory dir_block
directory-IsMapped zero h = (
  8,
  1,
  dir_mapped,
  record {
    mapped = refl;
    some_block = omega arith;
    hole = λ e. absurd (omega (arith, e));
    consecutive = λ ne k small. omega arith;
    on_disk = λ ne. omega (arith, block_size_1024);
    narrow = omega arith;
  },
)
directory-IsMapped (suc n) h = absurd (omega (arith, one_block))

directory-NoHole : NoHole disk super directory dir_block
directory-NoHole offset h e = omega (arith, e)

directory_size : inode_get_size directory ≡ 1024
unfolding inode_get_size
directory_size = refl

directory-IsChain :
    IsChain
      (file_byte disk (block_size super) dir_block)
      (block_size super)
      (inode_get_size directory)
      0
      (0 ∷ 12 ∷ 24 ∷ [])
unfolding file_byte block_size inode_get_size entry_at slice
directory-IsChain = (
  refl,
  omega arith,
  omega arith,
  omega arith,
  (
    refl,
    omega arith,
    omega arith,
    omega arith,
    (refl, omega arith, omega arith, omega arith, refl),
  ),
)

readdir_inode-entries_example :
    readdir_inode collect disk super directory 4 0 []
    ≡ ok (list_entries collect (file_byte disk (block_size super) dir_block) (0 ∷ 12 ∷ 24 ∷ []) [])
readdir_inode-entries_example =
    readdir_inode-entries collect disk super directory dir_block (omega (arith, block_size_1024))
      (omega (arith, block_size_1024)) (omega arith) directory-IsMapped directory-NoHole 4 0
      (0 ∷ 12 ∷ 24 ∷ []) [] (omega (arith, directory_size)) directory-IsChain (omega arith)
