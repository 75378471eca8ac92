-- ===== src/Ext4/Path/Resolve.antt =====
-- fs/ext4/inode.c: `inode_get_idx_by_path` against the search of a path in an abstract tree of
-- directories.
pub mod Cached
pub mod Turn
pub mod Walk
pub mod Sequence
use spotlight.Base.{
  ℕ, zero, suc, ◌+◌, ◌≡◌, ◌≤◌, ◌<◌, ◌^◌, Option, none, some, List, [], ◌∷◌, length, arith, refl,
  sym, ap, ◌∙◌, true, inl, inr, subst,
}
use spotlight.Base.Result.{ok}
use spotlight.Ext4.Disk.{Image}
use spotlight.Ext4.Super.{Super, block_size}
use spotlight.Ext4.Inode.{Inode, inode_get_by_number, inode_get_size}
use spotlight.Ext4.Read.Content.{file_byte, IsMapped}
use spotlight.Ext4.Directory.Entries.{IsChain}
use spotlight.Ext4.Directory.Context.{NoHole}
use spotlight.Ext4.Dcache.{dcache_entry_name_len}
use spotlight.Ext4.Path.{is_dir}
use spotlight.Ext4.Path.Names.{Entry, lookup_name, used_entries}
use spotlight.Ext4.Path.Components.{first_token, later, components, NoZero, Fits, components-cases}

-- The names in a directory, by its inode; none for what is no directory.
abbrev pub Directories : Type 0
Directories = ℕ → Option (List Entry)

-- The inode that a list of names leads to, 0 when a name is missing, and none when a name is
-- searched in what is no directory.
unfoldable pub resolve_in : Directories → Option (List Entry) → List ℕ → (ℕ → Option ℕ) → Option ℕ
resolve_in entries none name on = none
resolve_in entries (some es) name on = elim (lookup_name name es) [ none ↦ some 0 | some m ↦ on m ]

unfoldable pub resolve : Directories → ℕ → List (List ℕ) → Option ℕ
resolve entries n [] = some n
resolve entries n (name ∷ names) =
    resolve_in entries (entries n) name (λ m. resolve entries m names)

-- What the cache may say of a child: its name leads to its inode.
pub record IsNamed (entries : Directories) (n : ℕ) (name : List ℕ) (m : ℕ) : Type 0 where
  pub zeros : NoZero name
  pub es : List Entry
  pub listed : entries n ≡ some es
  pub leads : lookup_name name es ≡ some m

-- The inode `n` is a directory on the image with these names, which `turns` turns go through.
pub record IsDirectory (image : Image) (fs : Super) (turns : ℕ) (n : ℕ) (es : List Entry)
    : Type 0 where
  pub inode : Inode
  pub data_block : ℕ → ℕ
  pub os : List ℕ
  pub got : inode_get_by_number image fs n ≡ ok inode
  pub dir : is_dir inode ≡ true
  pub mapped : IsMapped image fs.super inode data_block
  pub no_hole : NoHole image fs.super inode data_block
  pub some_byte : 0 < inode_get_size inode
  pub low : inode_get_size inode < 2 ^ 32
  pub chain :
      IsChain
        (file_byte image (block_size fs.super) data_block)
        (block_size fs.super)
        (inode_get_size inode)
        0
        os
  pub enough : length os < turns
  pub listed : used_entries (file_byte image (block_size fs.super) data_block) os ≡ es

pub resolve-IsNamed :
    (entries : Directories) (n : ℕ) (name : List ℕ) (m : ℕ) (names : List (List ℕ))
    → IsNamed entries n name m
    → resolve entries n (name ∷ names) ≡ resolve entries m names
unfolding resolve resolve_in
resolve-IsNamed entries n name m names v = rw (v.listed, resolve_in, v.leads) refl

-- The first component of a path that fits.
pub Fits-first :
    (path : List ℕ)
    → Fits (components path)
    → (length (first_token path) + 1 ≤ dcache_entry_name_len) × Fits (later path)
unfolding Fits
Fits-first path fits = elim (components-cases path) [
  | inl (empty, e) ↦ (omega (arith, empty), subst Fits e fits)
  | inr (more, e) ↦ subst Fits e fits
]
