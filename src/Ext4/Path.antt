-- ===== src/Ext4/Path.antt =====
-- fs/ext4/inode.c: the inode of a path, through the dcache and the directories. A path is the list
-- of its bytes, and what a pointer into it still has in front of it; behind the last byte stands the
-- terminating zero.
pub mod Token
pub mod Names
pub mod Find
pub mod Components
pub mod Resolve
use spotlight.Base.{
  ℕ, zero, suc, ◌+◌, ◌/◌, ◌%◌, ◌^◌, ◌==◌, leb, ◌&&◌, ◌||◌, if◌then◌else◌, Bool, true, false, Option,
  none, some, List, [], ◌∷◌, get_or, drop, take, length, u8, u32,
}
use spotlight.Base.Result.{Errno, Result, ok, err, fault, out_of_fuel, ◌>>=◌, ◌>>◌, check}
use spotlight.Ext4.Disk.{Image}
use spotlight.Ext4.Super.{Super}
use spotlight.Ext4.Inode.{Inode, inode_get_by_number}
use spotlight.Ext4.Directory.{
  DirCtx, dentry_at, dentry_header_sizeof, inode_dentry_get, inode_dir_ctx_reset, dentry_fuel,
}
use spotlight.Ext4.Dcache.{
  Dcache, no_entry, dcache_insert, dcache_lookup, dcache_get_inode, dcache_init_root,
}

abbrev pub slash : ℕ
slash = 47

abbrev pub root_inode_n : ℕ
root_inode_n = 2

abbrev pub ends_token : ℕ → Bool
ends_token c = (c == slash) || (c == 0)

-- The loop of `get_path_token_len`, whose counter has 8 bits.
unfoldable pub token_len_from : ℕ → List ℕ → ℕ → Result ℕ
token_len_from zero path len = out_of_fuel
token_len_from (suc fuel) path len = elim (ends_token (get_or path len 0)) [
  | true ↦ ok len
  | false ↦ token_len_from fuel path (u8 (len + 1))
]

-- `get_path_token_len`: with 256 turns the counter has taken each of its values.
unfoldable pub get_path_token_len : List ℕ → Result ℕ
get_path_token_len path = token_len_from 256 path 0

-- The loop of `get_cached_inode_num`: the entry, and the path that is left. Each turn but the last
-- goes past a token.
unfoldable pub cached_from : ℕ → Dcache → ℕ → List ℕ → Result (ℕ × List ℕ × Dcache)
cached_from zero dc next path = out_of_fuel
cached_from (suc fuel) dc next path =
    let path = if get_or path 0 0 == slash then drop 1 path else path in
    do
      path_len ← get_path_token_len path
      elim (path_len == 0) [
        | true ↦ ok (next, path, dc)
        | false ↦ do
          (found, dc) ← dcache_lookup dc next path path_len
          elim (found == no_entry) [
            | true ↦ ok (next, path, dc)
            | false ↦ cached_from fuel dc found (drop path_len path)
          ]
      ]

-- `get_cached_inode_num`
unfoldable pub get_cached_inode_num : Dcache → List ℕ → Result (ℕ × List ℕ × Dcache)
get_cached_inode_num dc path = cached_from (length path + 1) dc no_entry path

-- `skip_trailing_backslash`
unfoldable pub skip_trailing_backslash : List ℕ → List ℕ
skip_trailing_backslash [] = []
skip_trailing_backslash (c ∷ path) = if c == slash then skip_trailing_backslash path else c ∷ path

-- `strchr(path, '/')`
unfoldable pub find_slash : List ℕ → Option (List ℕ)
find_slash [] = none
find_slash (c ∷ path) = if c == slash then some (c ∷ path) else find_slash path

-- `memcmp` is 0.
unfoldable pub same_bytes : ℕ → List ℕ → List ℕ → Bool
same_bytes zero a b = true
same_bytes (suc n) a b = (get_or a 0 0 == get_or b 0 0) && same_bytes n (drop 1 a) (drop 1 b)

-- `S_ISDIR(inode.i_mode)`
unfoldable pub is_dir : Inode → Bool
is_dir inode = inode.i_mode / 2 ^ 12 % 2 ^ 4 == 4

-- An inode that is used although its number had no inode was never filled.
unfoldable pub filled {ℓ} : {A : Type ℓ} → Result A → Result A
filled (ok a) = ok a
filled (err e) = fault
filled fault = fault
filled out_of_fuel = out_of_fuel

-- What an operation returns to its caller, while the state that it leaves stays.
pub data Reply {ℓ} (A : Type ℓ) : Type ℓ where
  done : A → Reply A
  failed : Errno → Reply A

unfoldable pub reply_of {ℓ} : {A : Type ℓ} → Result A → Result (Reply A)
reply_of (ok a) = ok (done a)
reply_of (err e) = ok (failed e)
reply_of fault = fault
reply_of out_of_fuel = out_of_fuel

module _ (image : Image) (fs : Super) where
  -- The inner loop of `inode_get_idx_by_path`: the inode of the entry with that name.
  unfoldable pub find_dentry : ℕ → Inode → ℕ → DirCtx → List ℕ → ℕ → Result (Option ℕ)
  find_dentry zero inode offset dctx path path_len = out_of_fuel
  find_dentry (suc fuel) inode offset dctx path path_len = do
    (pos, dctx) ← inode_dentry_get image fs.super inode dentry_fuel offset dctx
    elim pos [
      | none ↦ ok none
      | some o ↦ do
        dentry ← dentry_at dctx.buf o
        let rest = find_dentry fuel inode (u32 (offset + dentry.rec_len)) dctx path path_len
        elim (dentry.inode == 0) [
          | true ↦ rest
          | false ↦ elim (path_len == dentry.name_len) [
            | false ↦ rest
            | true ↦ do
              check (leb (o + dentry_header_sizeof + dentry.name_len) (length dctx.buf))
              elim (same_bytes dentry.name_len path (drop (o + dentry_header_sizeof) dctx.buf)) [
                | false ↦ rest
                | true ↦ ok (some dentry.inode)
              ]
          ]
        ]
    ]

  -- The outer loop, a turn for each component of the path; `turns` bounds the entries of a directory.
  unfoldable pub walk : ℕ → ℕ → Dcache → ℕ → ℕ → List ℕ → Result (ℕ × Dcache)
  walk turns zero dc dc_entry inode_idx path = out_of_fuel
  walk turns (suc fuel) dc dc_entry inode_idx path =
      let path = skip_trailing_backslash path in
      do
        path_len ← get_path_token_len path
        elim (path_len == 0) [
          | true ↦ ok (inode_idx, dc)
          | false ↦ do
            inode ← filled (inode_get_by_number image fs inode_idx)
            dctx ← inode_dir_ctx_reset image fs.super inode
            found ← find_dentry turns inode 0 dctx path path_len
            elim found [
              | none ↦ ok (0, dc)
              | some n ↦ do
                (dc_entry, dc) ←
                    if is_dir inode
                    then dcache_insert dc dc_entry path path_len n
                    else ok (dc_entry, dc)
                elim (find_slash path) [
                  | none ↦ ok (n, dc)
                  | some rest ↦ walk turns fuel dc dc_entry n rest
                ]
            ]
        ]

  -- `inode_get_idx_by_path`
  unfoldable pub inode_get_idx_by_path : ℕ → Dcache → List ℕ → Result (ℕ × Dcache)
  inode_get_idx_by_path turns dc path = do
    check (get_or path 0 0 == slash)
    (dc_entry, rest, dc) ← get_cached_inode_num dc path
    inode_idx ← dcache_get_inode dc dc_entry
    walk turns (length path + 1) dc dc_entry inode_idx rest

  -- `inode_get_by_path`
  unfoldable pub inode_get_by_path : ℕ → Dcache → List ℕ → Result (Reply Inode × Dcache)
  inode_get_by_path turns dc path = do
    (n, dc) ← inode_get_idx_by_path turns dc path
    reply ← reply_of (inode_get_by_number image fs n)
    ok (reply, dc)

-- `inode_init`
unfoldable pub inode_init : Dcache → Result (Option Dcache)
inode_init dc = dcache_init_root dc root_inode_n
