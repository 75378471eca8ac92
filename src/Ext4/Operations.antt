-- ===== src/Ext4/Operations.antt =====
-- fs/ext4/op_getattr.c, op_open.c, op_readlink.c, op_readdir.c and op_init.c: the operations that
-- start from a path, and the start of the file system.
pub mod Mode
pub mod Attributes
pub mod Paths
use spotlight.Base.{
  ℕ, zero, suc, ◌+◌, ◌-◌, ◌*◌, ◌/◌, ◌%◌, ◌^◌, ◌==◌, leb, ltb, if◌then◌else◌, Bool, true, false,
  Option, none, some, List, [], ◌∷◌, length, take,
}
use spotlight.Base.Result.{Result, ok, err, eacces, einval, fault, ◌>>=◌, ◌>>◌, check}
use spotlight.Ext4.Disk.{Image, disk_read}
use spotlight.Ext4.Super.{SuperBlock, Super, block_size, blocks2bytes, super_fill, super_group_fill}
use spotlight.Ext4.Inode.{Inode, inode_get_size}
use spotlight.Ext4.BlockMap.{inode_get_data_pblock}
use spotlight.Ext4.Directory.{readdir_inode}
use spotlight.Ext4.Dcache.{Dcache, empty_dcache}
use spotlight.Ext4.Path.{inode_get_idx_by_path, inode_get_by_path, inode_init, Reply, done, failed}

-- The fields of `struct stat` that `op_getattr` fills; the others are zeros.
pub record Stat : Type 0 where
  pub st_mode : ℕ
  pub st_nlink : ℕ
  pub st_size : ℕ
  pub st_blocks : ℕ
  pub st_uid : ℕ
  pub st_gid : ℕ
  pub st_atime : ℕ
  pub st_mtime : ℕ
  pub st_ctime : ℕ

-- A number with bit `k` cleared.
unfoldable pub clear_bit : ℕ → ℕ → ℕ
clear_bit k m = m - m / 2 ^ k % 2 * 2 ^ k

-- `i_mode & ~0222`
unfoldable pub without_write : ℕ → ℕ
without_write mode = clear_bit 7 (clear_bit 4 (clear_bit 1 mode))

unfoldable pub stat_of : Inode → Stat
stat_of inode = record {
  st_mode = without_write inode.i_mode;
  st_nlink = inode.i_links_count;
  st_size = inode_get_size inode;
  st_blocks = inode.i_blocks_lo;
  st_uid = inode.i_uid;
  st_gid = inode.i_gid;
  st_atime = inode.i_atime;
  st_mtime = inode.i_mtime;
  st_ctime = inode.i_ctime;
}

-- The bytes of a string up to its zero.
unfoldable pub string_of : List ℕ → List ℕ
string_of [] = []
string_of (c ∷ cs) = if c == 0 then [] else c ∷ string_of cs

-- `S_ISLNK(inode.i_mode)`
unfoldable pub is_link : Inode → Bool
is_link inode = inode.i_mode / 2 ^ 12 % 2 ^ 4 == 10

-- `get_link_dest`: the string that stands in the buffer of `bufsize` bytes.
unfoldable pub get_link_dest : Image → SuperBlock → Inode → ℕ → Result (List ℕ)
get_link_dest image s inode bufsize =
    let inode_size = inode_get_size inode in
    check (ltb inode_size bufsize)
    >> (if leb inode_size 60 then ok (string_of (take inode_size inode.i_block)) else do
      (pblock, _) ← inode_get_data_pblock image s inode 0
      block ← disk_read image (blocks2bytes s pblock) (block_size s)
      ok (string_of (take inode_size (take (bufsize - 1) (string_of block)))))

module _ (image : Image) (fs : Super) (turns : ℕ) where
  -- `op_getattr`
  unfoldable pub op_getattr : Dcache → List ℕ → Result (Reply Stat × Dcache)
  op_getattr dc path = do
    (reply, dc) ← inode_get_by_path image fs turns dc path
    elim reply [ failed e ↦ ok (failed e, dc) | done inode ↦ ok (done (stat_of inode), dc) ]

  -- `op_open`: the number of the inode, which becomes `fh`. `O_RDONLY` is 0.
  unfoldable pub op_open : Dcache → List ℕ → ℕ → Result (Reply ℕ × Dcache)
  op_open dc path flags =
      if flags % 4 == 0
      then (do (n, dc) ← inode_get_idx_by_path image fs turns dc path; ok (done n, dc))
      else ok (failed eacces, dc)

  -- `op_readlink`, which takes no notice of a failed lookup: the inode was never filled then.
  unfoldable pub op_readlink : Dcache → List ℕ → ℕ → Result (Reply (List ℕ) × Dcache)
  op_readlink dc path bufsize = do
    (reply, dc) ← inode_get_by_path image fs turns dc path
    elim reply [
      | failed e ↦ fault
      | done inode ↦
          if is_link inode
          then (do dest ← get_link_dest image fs.super inode bufsize; ok (done dest, dc))
          else ok (failed einval, dc)
    ]

  -- `op_readdir`
  unfoldable pub op_readdir {ℓ} :
      {Buffer : Type ℓ}
      → (Buffer → List ℕ → ℕ → Bool × Buffer)
      → Dcache
      → List ℕ
      → ℕ
      → Buffer
      → Result (Reply Buffer × Dcache)
  op_readdir filler dc path offset buf = do
    (reply, dc) ← inode_get_by_path image fs turns dc path
    elim reply [
      | failed e ↦ ok (failed e, dc)
      | done inode ↦ do
        buf ← readdir_inode filler image fs.super inode turns offset buf
        ok (done buf, dc)
    ]

-- `op_init`: the super block, the group descriptors and the root of the dcache.
unfoldable pub op_init : Image → Dcache → Result (Super × Dcache)
op_init image dc = do
  s ← super_fill image
  fs ← super_group_fill image s
  root ← inode_init dc
  elim root [ none ↦ fault | some dc ↦ ok (fs, dc) ]
