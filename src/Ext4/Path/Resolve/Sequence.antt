-- ===== src/Ext4/Path/Resolve/Sequence.antt =====
-- fs/ext4/inode.c: searches one after the other, from `inode_init` on. Each has the cache that the
-- last one left.
use spotlight.Base.{
  ℕ, ◌^◌, ◌==◌, ◌≡◌, ◌<◌, Option, some, none, List, [], ◌∷◌, get_or, arith, refl, sym, ap, true,
}
use spotlight.Base.Result.{Result, ok, ◌>>=◌}
use spotlight.Ext4.Disk.{Image}
use spotlight.Ext4.Super.{Super, block_size}
use spotlight.Ext4.Dcache.{root, store, dcache_init_root, empty_dcache, Dcache}
use spotlight.Ext4.Dcache.Rings.{Tree, first_of, count, IsRing, entry_of}
use spotlight.Ext4.Path.{slash, root_inode_n, inode_get_idx_by_path, inode_init}
use spotlight.Ext4.Path.Names.{Entry}
use spotlight.Ext4.Path.Components.{components, NoZero, Fits}
use spotlight.Ext4.Path.Resolve.{Directories, resolve, IsDirectory}
use spotlight.Ext4.Path.Resolve.Cached.{IsCoherent}
use spotlight.Ext4.Path.Resolve.Walk.{inode_get_idx_by_path-resolve}

-- The inodes that a sequence of searches returns.
unfoldable pub searches : Image → Super → ℕ → Dcache → List (List ℕ) → Result (List ℕ)
searches image fs turns dc [] = ok []
searches image fs turns dc (path ∷ paths) = do
  (m, dc) ← inode_get_idx_by_path image fs turns dc path
  ms ← searches image fs turns dc paths
  ok (m ∷ ms)

-- From `inode_init` on.
unfoldable pub run_searches : Image → Super → ℕ → List (List ℕ) → Result (Option (List ℕ))
run_searches image fs turns paths = do
  started ← inode_init empty_dcache
  elim started [ none ↦ ok none | some dc ↦ do ms ← searches image fs turns dc paths; ok (some ms) ]

-- A path with the inode that it leads to.
pub record Leads (entries : Directories) (path : List ℕ) (m : ℕ) : Type 0 where
  pub absolute : get_or path 0 0 ≡ slash
  pub zeros : NoZero path
  pub fits : Fits (components path)
  pub leads : resolve entries root_inode_n (components path) ≡ some m

unfoldable pub AllLead : Directories → List (List ℕ) → List ℕ → Type 0
AllLead entries [] ms = ms ≡ []
AllLead entries (path ∷ paths) [] = ◌≡◌ {A = ℕ} 1 0
AllLead entries (path ∷ paths) (m ∷ ms) = Leads entries path m × AllLead entries paths ms

-- The cache behind `inode_init`, and what it stands for.
unfoldable pub first_cache : Dcache
first_cache =
    store empty_dcache root (record { childs = 0; siblings = 0; inode = root_inode_n; name = [] })

unfoldable pub first_tree : Tree
first_tree = record { kids = λ q. []; sibling = λ q. 0; inode = λ q. root_inode_n; name = λ q. [] }

pub first_tree-root : first_tree.inode root ≡ root_inode_n
unfolding first_tree
first_tree-root = refl

module _ (entries : Directories) where
  first-root : (q : ℕ) → 0 < q → q < 2 → (q == root) ≡ true
  first-root q pos low = ground arith

  pub first-IsCoherent : IsCoherent entries first_cache first_tree
  unfolding first_cache first_tree store count IsRing entry_of first_of
  first-IsCoherent = record {
    some_entry = omega arith;
    entry = λ q pos low. rw (first-root q pos low) refl;
    ring = λ q. tt;
    once = λ x q. omega arith;
    owned = λ x q r h k. absurd (omega arith);
    parent = λ x q h. absurd (omega arith);
    older = λ x q h. absurd (omega arith);
    old = λ x q h. absurd (omega arith);
    few = λ q. omega arith;
    child = λ x q h. absurd (omega arith);
  }

  inode_init-first : inode_init empty_dcache ≡ ok (some first_cache)
  unfolding inode_init dcache_init_root first_cache
  inode_init-first = refl

  module _ (image : Image) (fs : Super) (turns : ℕ) (pos : 0 < block_size fs.super)
      (narrow : block_size fs.super < 2 ^ 31) (small : image.size < 2 ^ 63)
      (directories : (n : ℕ) (es : List Entry)
        → entries n ≡ some es
        → IsDirectory image fs turns n es) where
    searches-lead :
        (dc : Dcache) (t : Tree) (paths : List (List ℕ)) (ms : List ℕ)
        → IsCoherent entries dc t
        → t.inode root ≡ root_inode_n
        → AllLead entries paths ms
        → searches image fs turns dc paths ≡ ok ms
    unfolding searches AllLead
    searches-lead dc t [] ms v at_root all = ap ok (sym all)
    searches-lead dc t (path ∷ paths) [] v at_root all = absurd (omega arith)
    searches-lead dc t (path ∷ paths) (m ∷ ms) v at_root (l, ls) =
        let (dc', t', run, v', at_root') =
          inode_get_idx_by_path-resolve image fs turns entries pos narrow small directories dc t
            path m v at_root l.absolute l.zeros l.fits l.leads in
        rw (searches, run, ◌>>=◌, searches-lead dc' t' paths ms v' at_root' ls) refl

    -- From the start of the cache on, any sequence of searches of paths, each with the cache that
    -- the last one left, returns for each path the inode that its names lead to in the tree of
    -- directories on the disk, 0 for a name that is missing: what is cached never changes an
    -- answer. Each path starts with a slash, has no zero byte and no name of 40 bytes or more, and
    -- searches names in directories only; each directory has entries, none of them across a block
    -- boundary and no name of 255 bytes, no holes and fewer than 4 GiB, and `turns` exceeds the
    -- number of its entries. Blocks have fewer than 2^31 bytes, the image fewer than 2^63.
    pub run_searches-lead :
        (paths : List (List ℕ)) (ms : List ℕ)
        → AllLead entries paths ms
        → run_searches image fs turns paths ≡ ok (some ms)
    unfolding run_searches
    run_searches-lead paths ms all =
        rw
          (
            run_searches,
            inode_init-first,
            ◌>>=◌,
            searches-lead first_cache first_tree paths ms first-IsCoherent first_tree-root all,
          )
          refl
