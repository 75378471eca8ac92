-- ===== src/Ext4/Tests/Trees.antt =====
-- Runs of the search of paths on a disk with one directory, and of its cache.
use spotlight.Base.{
  ℕ, zero, suc, ◌%◌, ◌-◌, ◌*◌, ◌==◌, ◌≡◌, ltb, if◌then◌else◌, Bool-cases, true, inl, inr, Option,
  some, none, List, [], ◌∷◌, ◌++◌, replicate, get_or, arith, refl, sym, subst, ap, ◌∙◌, ==→eq,
}
use spotlight.Base.Result.{ok}
use spotlight.Base.Bytes.{slice}
use spotlight.Ext4.Disk.{Image, pread, disk_read}
use spotlight.Ext4.Super.{
  SuperBlock, Super, n_block_groups, block_size, bytes2blocks, blocks2bytes, inode_table_offset,
  divide,
}
use spotlight.Ext4.Inode.{
  inode_of, inode_get_by_number, inode_get_size, inode_offset_in_table, has_extents,
}
use spotlight.Ext4.BlockMap.{inode_get_data_pblock, pblock_indirect}
use spotlight.Ext4.Read.Content.{file_byte, IsMapped}
use spotlight.Ext4.Directory.Entries.{entry_at, IsChain}
use spotlight.Ext4.Directory.Context.{NoHole}
use spotlight.Ext4.Path.{root_inode_n, is_dir, find_dentry, inode_get_idx_by_path}
use spotlight.Ext4.Path.Names.{Entry, used_entries, lookup_name, same_name}
use spotlight.Ext4.Path.Components.{components, first_token, later, keep, NoZero, Fits}
use spotlight.Ext4.Path.Resolve.{Directories, IsDirectory, resolve, resolve_in}
use spotlight.Ext4.Path.Resolve.Cached.{IsCoherent}
use spotlight.Ext4.Path.Resolve.Walk.{inode_get_idx_by_path-resolve}
use spotlight.Ext4.Path.Resolve.Sequence.{
  run_searches, Leads, AllLead, first_cache, first_tree, first_tree-root, first-IsCoherent,
  run_searches-lead,
}
use spotlight.Ext4.Path.Find.{find_dentry-lookup_name}
use spotlight.Ext4.Directory.{DirCtx}
use spotlight.Ext4.Dcache.{Dcache, root}
use spotlight.Ext4.Dcache.Rings.{Tree}
use spotlight.Ext4.Tests.Files.{directory, dir_bytes}

-- The inode of the directory, as it stands on the disk.
abbrev inode_bytes : List ℕ
inode_bytes = 237 ∷ 65 ∷ 0 ∷ 0 ∷ 0 ∷ 4 ∷ replicate 20 0 ++ (1 ∷ 0 ∷ 4 ∷ replicate 11 0 ++ (8 ∷ []))

-- The inode 11: a file of 600 bytes in block 5.
abbrev file_bytes : List ℕ
file_bytes = 164 ∷ 129 ∷ 0 ∷ 0 ∷ 88 ∷ 2 ∷ replicate 34 0 ++ (5 ∷ [])

-- The table of inodes stands in block 1, the directory in block 8.
abbrev pub disk : Image
disk = record {
  size = 16384;
  byte = λ i.
      if ltb i 2304
      then get_or inode_bytes (i - 1152) 0
      else (if ltb i 4096
          then get_or file_bytes (i - 2304) 0
          else (if ltb i 8192 then i % 251 else get_or dir_bytes (i - 8192) 0));
}

-- A single group, blocks of 1 KiB.
abbrev pub super : SuperBlock
super = record {
  s_blocks_count_lo = 8192;
  s_log_block_size = 0;
  s_blocks_per_group = 8192;
  s_inodes_per_group = 16;
  s_magic = 0xef53;
  s_inode_size = 128;
  s_desc_size = 0;
}

pub block_size_1024 : block_size super ≡ 1024
unfolding block_size
block_size_1024 = refl

abbrev pub fs : Super
fs = record { super = super; gdesc_table = record { bg_inode_table_lo = 1 } ∷ [] }

pub root_read : inode_get_by_number disk fs 2 ≡ ok directory
unfolding inode_get_by_number n_block_groups inode_table_offset blocks2bytes block_size divide
    inode_offset_in_table disk_read pread slice inode_of
root_read = refl

abbrev pub dir_block : ℕ → ℕ
dir_block n = 8

one_block : bytes2blocks super (inode_get_size directory) ≡ 1
unfolding bytes2blocks block_size inode_get_size
one_block = refl

dir_mapped : inode_get_data_pblock disk super directory 0 ≡ ok (8, 1)
unfolding inode_get_data_pblock has_extents pblock_indirect bytes2blocks block_size inode_get_size
dir_mapped = refl

pub directory-IsMapped : IsMapped disk super directory dir_block
directory-IsMapped zero h = (
  8,
  1,
  dir_mapped,
  record {
    mapped = refl;
    some_block = omega arith;
    hole = λ e. absurd (omega (arith, e));
    consecutive = λ ne k small. omega arith;
    on_disk = λ ne. omega (arith, block_size_1024);
    narrow = omega arith;
  },
)
directory-IsMapped (suc n) h = absurd (omega (arith, one_block))

pub directory-NoHole : NoHole disk super directory dir_block
directory-NoHole offset h e = omega (arith, e)

pub directory_size : inode_get_size directory ≡ 1024
unfolding inode_get_size
directory_size = refl

pub directory-IsChain :
    IsChain
      (file_byte disk (block_size super) dir_block)
      (block_size super)
      (inode_get_size directory)
      0
      (0 ∷ 12 ∷ 24 ∷ [])
unfolding file_byte block_size inode_get_size entry_at slice
directory-IsChain = (
  refl,
  omega arith,
  omega arith,
  omega arith,
  (
    refl,
    omega arith,
    omega arith,
    omega arith,
    (refl, omega arith, omega arith, omega arith, refl),
  ),
)

-- The names `.` and `abc`.
abbrev pub names : List Entry
names = (46 ∷ [], 2) ∷ ((97 ∷ 98 ∷ 99 ∷ [], 11) ∷ [])

abbrev pub entries : Directories
entries n = if n == 2 then some names else none

pub directory_names :
    used_entries (file_byte disk (block_size super) dir_block) (0 ∷ 12 ∷ 24 ∷ []) ≡ names
unfolding used_entries file_byte block_size entry_at slice
directory_names = refl

pub directory-is_dir : is_dir directory ≡ true
unfolding is_dir
directory-is_dir = refl

abbrev pub root-IsDirectory : IsDirectory disk fs 4 2 names
root-IsDirectory = record {
  inode = directory;
  data_block = dir_block;
  os = 0 ∷ 12 ∷ 24 ∷ [];
  got = root_read;
  dir = directory-is_dir;
  mapped = directory-IsMapped;
  no_hole = directory-NoHole;
  some_byte = omega (arith, directory_size);
  low = omega (arith, directory_size);
  chain = directory-IsChain;
  enough = omega arith;
  listed = directory_names;
}

not_listed : (es : List Entry) → ◌≡◌ {A = Option (List Entry)} none (some es) → ◌≡◌ {A = ℕ} 0 1
not_listed es e = ap (λ (o : Option (List Entry)). elim o [ none ↦ 0 | some x ↦ 1 ]) e

listed : List Entry → Option (List Entry) → List Entry
listed other none = other
listed other (some es) = es

pub directories : (n : ℕ) (es : List Entry) → entries n ≡ some es → IsDirectory disk fs 4 n es
unfolding listed
directories n es e = elim (Bool-cases (n == 2)) [
  | inl here ↦
      let there : entries n ≡ some names = rw here refl in
      let same : names ≡ es = ap (listed []) (sym there ∙ e) in
      subst (λ es. IsDirectory disk fs 4 n es) same
        (subst (λ n. IsDirectory disk fs 4 n names) (sym (==→eq n 2 here)) root-IsDirectory)
  | inr other ↦
      let nothing : entries n ≡ none = rw other refl in
      absurd (omega (arith, not_listed es (sym nothing ∙ e)))
]

-- `/./abc`, twice `/abc`, and `/./x`.
abbrev paths : List (List ℕ)
paths =
    (47 ∷ 46 ∷ 47 ∷ 97 ∷ 98 ∷ 99 ∷ [])
    ∷ ((47 ∷ 97 ∷ 98 ∷ 99 ∷ []) ∷ ((47 ∷ 97 ∷ 98 ∷ 99 ∷ []) ∷ ((47 ∷ 46 ∷ 47 ∷ 120 ∷ []) ∷ [])))

path-Leads : Leads entries (47 ∷ 46 ∷ 47 ∷ 97 ∷ 98 ∷ 99 ∷ []) 11
unfolding NoZero components first_token later keep Fits resolve resolve_in lookup_name same_name
path-Leads = record {
  absolute = refl;
  zeros = (refl, (refl, (refl, (refl, (refl, (refl, tt))))));
  fits = (omega arith, (omega arith, tt));
  leads = refl;
}

pub abc-Leads : Leads entries (47 ∷ 97 ∷ 98 ∷ 99 ∷ []) 11
unfolding NoZero components first_token later keep Fits resolve resolve_in lookup_name same_name
abc-Leads = record {
  absolute = refl;
  zeros = (refl, (refl, (refl, (refl, tt))));
  fits = (omega arith, tt);
  leads = refl;
}

paths-AllLead : AllLead entries paths (11 ∷ 11 ∷ 11 ∷ 0 ∷ [])
unfolding AllLead NoZero components first_token later keep Fits resolve resolve_in lookup_name
    same_name
paths-AllLead = (
  path-Leads,
  (
    abc-Leads,
    (
      abc-Leads,
      (
        record {
          absolute = refl;
          zeros = (refl, (refl, (refl, (refl, tt))));
          fits = (omega arith, (omega arith, tt));
          leads = refl;
        },
        refl,
      ),
    ),
  ),
)

run_searches-lead_example : run_searches disk fs 4 paths ≡ ok (some (11 ∷ 11 ∷ 11 ∷ 0 ∷ []))
run_searches-lead_example =
    run_searches-lead entries disk fs 4 (omega (arith, block_size_1024))
      (omega (arith, block_size_1024)) (omega arith) directories paths (11 ∷ 11 ∷ 11 ∷ 0 ∷ [])
      paths-AllLead

abbrev path : List ℕ
path = 47 ∷ 46 ∷ 47 ∷ 97 ∷ 98 ∷ 99 ∷ []

inode_get_idx_by_path-resolve_example :
    (dc' : Dcache) × (t' : Tree) × (inode_get_idx_by_path disk fs 4 first_cache path ≡ ok (11, dc'))
    × IsCoherent entries dc' t'
    × (t'.inode root ≡ root_inode_n)
inode_get_idx_by_path-resolve_example =
    inode_get_idx_by_path-resolve disk fs 4 entries (omega (arith, block_size_1024))
      (omega (arith, block_size_1024)) (omega arith) directories first_cache first_tree path 11
      (first-IsCoherent entries) first_tree-root path-Leads.absolute path-Leads.zeros
      path-Leads.fits path-Leads.leads

abbrev start : DirCtx
start = record {
  lblock = 0;
  buf =
      slice (file_byte disk (block_size super) dir_block) (0 * block_size super) (block_size super);
}

-- The name `abc` in front of a slash.
find_dentry-lookup_name_example :
    find_dentry disk fs 4 directory 0 start (97 ∷ 98 ∷ 99 ∷ 47 ∷ []) 3
    ≡ ok (
        lookup_name
          (97 ∷ 98 ∷ 99 ∷ [])
          (used_entries (file_byte disk (block_size super) dir_block) (0 ∷ 12 ∷ 24 ∷ [])))
find_dentry-lookup_name_example =
    find_dentry-lookup_name disk fs directory dir_block (omega (arith, block_size_1024))
      (omega (arith, block_size_1024)) (omega arith) directory-IsMapped directory-NoHole
      (97 ∷ 98 ∷ 99 ∷ 47 ∷ []) 3 (omega arith) 4 0 (0 ∷ 12 ∷ 24 ∷ []) start
      (omega (arith, directory_size)) directory-IsChain refl (omega arith)
