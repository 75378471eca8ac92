-- ===== src/Ext4/Path/Resolve/Turn.antt =====
-- fs/ext4/inode.c: one turn of the walk in `inode_get_idx_by_path`, branch by branch.
use spotlight.Base.{ℕ, suc, ◌==◌, ◌≡◌, some, none, List, refl, true, false}
use spotlight.Base.Result.{ok, ◌>>=◌}
use spotlight.Ext4.Disk.{Image}
use spotlight.Ext4.Super.{Super}
use spotlight.Ext4.Inode.{Inode, inode_get_by_number}
use spotlight.Ext4.Directory.{DirCtx, inode_dir_ctx_reset}
use spotlight.Ext4.Dcache.{Dcache, dcache_insert}
use spotlight.Ext4.Path.{
  is_dir, filled, get_path_token_len, skip_trailing_backslash, find_slash, find_dentry, walk,
}

module _ (image : Image) (fs : Super) (turns : ℕ) where
  module _ (fuel : ℕ) (dc : Dcache) (dc_entry idx n : ℕ) (path : List ℕ)
      (len : get_path_token_len (skip_trailing_backslash path) ≡ ok n) where
    abbrev p : List ℕ
    p = skip_trailing_backslash path

    pub run-end :
        (n == 0) ≡ true → walk image fs turns (suc fuel) dc dc_entry idx path ≡ ok (idx, dc)
    unfolding walk
    run-end e = rw (walk, len, ◌>>=◌, e) refl

    module _ (more : (n == 0) ≡ false) (inode : Inode) (ctx : DirCtx)
        (got : inode_get_by_number image fs idx ≡ ok inode)
        (reset : inode_dir_ctx_reset image fs.super inode ≡ ok ctx) where
      pub run-missing :
          find_dentry image fs turns inode 0 ctx p n ≡ ok none
          → walk image fs turns (suc fuel) dc dc_entry idx path ≡ ok (0, dc)
      unfolding walk filled
      run-missing found = rw (walk, len, ◌>>=◌, more, got, reset, found) refl

      module _ (k : ℕ) (found : find_dentry image fs turns inode 0 ctx p n ≡ ok (some k))
          (dir : is_dir inode ≡ true) (entry : ℕ) (dc' : Dcache)
          (insert : dcache_insert dc dc_entry p n k ≡ ok (entry, dc')) where
        pub run-last :
            find_slash p ≡ none → walk image fs turns (suc fuel) dc dc_entry idx path ≡ ok (k, dc')
        unfolding walk filled
        run-last last =
            rw (walk, len, ◌>>=◌, more, got, reset, found, ◌>>=◌, dir, insert, ◌>>=◌, last) refl

        pub run-next :
            (rest : List ℕ)
            → find_slash p ≡ some rest
            → walk image fs turns (suc fuel) dc dc_entry idx path
              ≡ walk image fs turns fuel dc' entry k rest
        unfolding walk filled
        run-next rest next =
            rw (walk, len, ◌>>=◌, more, got, reset, found, ◌>>=◌, dir, insert, ◌>>=◌, next) refl
