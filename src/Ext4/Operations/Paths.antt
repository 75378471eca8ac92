-- ===== src/Ext4/Operations/Paths.antt =====
-- fs/ext4/op_getattr.c, op_open.c, op_read.c and op_readdir.c on the inode that a path leads to in
-- the abstract tree of directories.
use spotlight.Base.{
  ℕ, ◌+◌, ◌-◌, ◌%◌, ◌^◌, ◌≡◌, ◌<◌, Bool, some, List, inl, inr, ◌⊎◌, min, refl, eq→==,
}
use spotlight.Base.Result.{ok, enoent, ◌>>=◌}
use spotlight.Base.Bytes.{slice}
use spotlight.Ext4.Disk.{Image}
use spotlight.Ext4.Super.{Super, block_size}
use spotlight.Ext4.Inode.{Inode, inode_get_by_number, inode_get_size}
use spotlight.Ext4.Read.{op_read}
use spotlight.Ext4.Read.Content.{file_byte, IsMapped, CanStart}
use spotlight.Ext4.Read.Whole.{read_file-content}
use spotlight.Ext4.Directory.Entries.{list_entries}
use spotlight.Ext4.Directory.Listing.{readdir_inode-entries}
use spotlight.Ext4.Dcache.{root, Dcache}
use spotlight.Ext4.Dcache.Rings.{Tree}
use spotlight.Ext4.Path.{
  root_inode_n, inode_get_idx_by_path, inode_get_by_path, Reply, done, failed, reply_of,
}
use spotlight.Ext4.Path.Names.{Entry}
use spotlight.Ext4.Path.Resolve.{Directories, IsDirectory}
use spotlight.Ext4.Path.Resolve.Cached.{IsCoherent}
use spotlight.Ext4.Path.Resolve.Walk.{inode_get_idx_by_path-resolve}
use spotlight.Ext4.Path.Resolve.Sequence.{Leads}
use spotlight.Ext4.Layout.{IsInode}
use spotlight.Ext4.Operations.Attributes.{IsStat, stat_of-IsStat}
use spotlight.Ext4.Operations.{Stat, stat_of, op_getattr, op_open, op_readdir}

-- The cache that an operation leaves stands for a tree again.
pub record IsCached (entries : Directories) (dc : Dcache) : Type 0 where
  pub t : Tree
  pub cache : IsCoherent entries dc t
  pub at_root : t.inode root ≡ root_inode_n

no_inode :
    (image : Image) (fs : Super) (m : ℕ)
    → m ≡ 0
    → reply_of (inode_get_by_number image fs m) ≡ ok (failed enoent)
unfolding reply_of inode_get_by_number
no_inode image fs m e = rw e refl

module _ (entries : Directories) (image : Image) (fs : Super) (turns : ℕ)
    (pos : 0 < block_size fs.super) (narrow : block_size fs.super < 2 ^ 31)
    (small : image.size < 2 ^ 63)
    (directories : (n : ℕ) (es : List Entry)
      → entries n ≡ some es
      → IsDirectory image fs turns n es)
    (dc : Dcache) (v : IsCached entries dc) (path : List ℕ) (m : ℕ) (l : Leads entries path m) where
  search :
      (dc' : Dcache) × (inode_get_idx_by_path image fs turns dc path ≡ ok (m, dc'))
      × IsCached entries dc'
  search =
      let (dc', t', run, v', kept) =
        inode_get_idx_by_path-resolve image fs turns entries pos narrow small directories dc v.t
          path m v.cache v.at_root l.absolute l.zeros l.fits l.leads in
      (dc', run, record { t = t'; cache = v'; at_root = kept })

  by_path :
      (reply : Reply Inode)
      → reply_of (inode_get_by_number image fs m) ≡ ok reply
      → (dc' : Dcache) × (inode_get_by_path image fs turns dc path ≡ ok (reply, dc'))
        × IsCached entries dc'
  unfolding inode_get_by_path
  by_path reply got =
      let (dc', run, leaves) = search in (dc', rw (inode_get_by_path, run, ◌>>=◌, got) refl, leaves)

  -- On a disk that holds the tree of directories `entries`, with a cache that stands for names of
  -- that tree, the attributes of a path that leads to the inode m, which is read from the image
  -- and stands there from the offset o on, are those that stand at o byte by byte, the mode
  -- without its three write permissions and the size with its high half, and a path that leads to
  -- no inode (m is 0) gives the error ENOENT; the cache that is left stands for names of the tree
  -- again. The path starts with a slash, has no zero byte and no name of 40 bytes or more, and
  -- searches names in directories only; each of them has entries, none of them across a block
  -- boundary and no name of 255 bytes, no holes and fewer than 4 GiB, and `turns` exceeds the
  -- number of its entries. Blocks have fewer than 2^31 bytes, the image fewer than 2^63.
  pub op_getattr-resolve :
      (o : ℕ)
      → (m ≡ 0)
        ⊎ ((inode : Inode) × (inode_get_by_number image fs m ≡ ok inode) × IsInode image o inode)
      → (dc' : Dcache) × (((m ≡ 0) × (op_getattr image fs turns dc path ≡ ok (failed enoent, dc')))
          ⊎ ((st : Stat) × (op_getattr image fs turns dc path ≡ ok (done st, dc'))
              × IsStat image o st))
        × IsCached entries dc'
  unfolding op_getattr reply_of
  op_getattr-resolve o (inl none) =
      let (dc', run, leaves) = by_path (failed enoent) (no_inode image fs m none) in
      (dc', inl (none, rw (op_getattr, run) refl), leaves)
  op_getattr-resolve o (inr (inode, got, stored)) =
      let (dc', run, leaves) = by_path (done inode) (rw (got, reply_of) refl) in
      (
        dc',
        inr (stat_of inode, rw (op_getattr, run) refl, stat_of-IsStat image o inode stored),
        leaves,
      )

  -- On a disk that holds the tree of directories `entries`, with a cache that stands for names of
  -- that tree, opening for reading a path that leads to the inode m of a file returns a handle,
  -- and a read of less than 2 GiB through that handle that ends below 2^63 delivers the content of
  -- that file from the offset on, as many bytes as were asked for or those up to its end. The
  -- block map of the file is `data_block`, each run of blocks lies on the disk, and the offset is
  -- a multiple of the block size, or lies below 4 GiB in a block that is no hole. The path starts
  -- with a slash, has no zero byte and no name of 40 bytes or more, and searches names in
  -- directories only; each directory has entries, none of them across a block boundary and no name
  -- of 255 bytes, no holes and fewer than 4 GiB, and `turns` exceeds the number of its entries.
  -- Blocks have fewer than 2^31 bytes, the image fewer than 2^63. The cache that is left stands
  -- for names of the tree again.
  pub op_open-op_read :
      (flags asked offset : ℕ) (inode : Inode) (data_block : ℕ → ℕ)
      → flags % 4 ≡ 0
      → inode_get_by_number image fs m ≡ ok inode
      → IsMapped image fs.super inode data_block
      → asked < 2 ^ 31
      → offset + asked < 2 ^ 63
      → CanStart (block_size fs.super) data_block offset
      → (dc' : Dcache) × (fh : ℕ) × (op_open image fs turns dc path flags ≡ ok (done fh, dc'))
        × (op_read image fs fh asked offset
            ≡ ok (
                slice
                  (file_byte image (block_size fs.super) data_block)
                  offset
                  (min asked (inode_get_size inode - offset))))
        × IsCached entries dc'
  unfolding op_open op_read
  op_open-op_read flags asked offset inode data_block read_only got mapped few fits start =
      let (dc', run, leaves) = search in
      (
        dc',
        m,
        rw (op_open, eq→== (flags % 4) 0 read_only, run) refl,
        rw (op_read, got)
            (read_file-content image fs.super inode data_block pos small mapped asked offset few
              fits start),
        leaves,
      )

  -- On a disk that holds the tree of directories `entries`, with a cache that stands for names of
  -- that tree, listing a path that leads to a directory from the offset 0 gives the printable
  -- names of its entries in use to `filler` in order, each with the offset behind its entry, until
  -- it says that it is full; the cache that is left stands for names of the tree again. The path
  -- starts with a slash, has no zero byte and no name of 40 bytes or more, and searches names in
  -- directories only; the directory and those on the way have entries, none of them across a block
  -- boundary and no name of 255 bytes, no holes and fewer than 4 GiB, and `turns` exceeds the
  -- number of their entries. Blocks have fewer than 2^31 bytes, the image fewer than 2^63.
  pub op_readdir-resolve {ℓ} :
      {Buffer : Type ℓ} (filler : Buffer → List ℕ → ℕ → Bool × Buffer) (buf : Buffer)
      (es : List Entry) (d : IsDirectory image fs turns m es)
      → (dc' : Dcache) × (op_readdir image fs turns filler dc path 0 buf
          ≡ ok (
            done
                (list_entries filler (file_byte image (block_size fs.super) d.data_block) d.os buf),
            dc',
          ))
        × IsCached entries dc'
  unfolding op_readdir reply_of
  op_readdir-resolve filler buf es d =
      let (dc', run, leaves) = by_path (done d.inode) (rw d.got refl) in
      (
        dc',
        rw
            (
              op_readdir,
              run,
              ◌>>=◌,
              readdir_inode-entries filler image fs.super d.inode d.data_block pos narrow small
                  d.mapped d.no_hole turns 0 d.os buf d.some_byte d.chain d.enough,
            )
            refl,
        leaves,
      )
