-- ===== src/Ext4/Directory.antt =====
-- fs/ext4/inode.c, inode.h, op_readdir.c and types/ext4_dentry.h: the entries of a directory, read
-- through a context that keeps one block of it.
pub mod Entries
pub mod Fields
pub mod Context
pub mod At
pub mod Listing
use spotlight.Base.{
  ℕ, zero, suc, ◌+◌, ◌*◌, ◌/◌, ◌%◌, ◌==◌, leb, ltb, if◌then◌else◌, true, false, Bool, Option, none,
  some, List, [], ◌∷◌, length, take, drop, u32, get_or, not,
}
use spotlight.Base.Result.{Result, ok, out_of_fuel, ◌>>=◌, ◌>>◌, check}
use spotlight.Base.Bytes.{le16, le32}
use spotlight.Ext4.Disk.{Image, disk_read}
use spotlight.Ext4.Super.{SuperBlock, block_size, blocks2bytes}
use spotlight.Ext4.Inode.{Inode, inode_get_size}
use spotlight.Ext4.BlockMap.{inode_get_data_pblock}

-- The fields of `struct ext4_dir_entry_2` that the code reads, but the name.
pub record Dentry : Type 0 where
  pub inode : ℕ
  pub rec_len : ℕ
  pub name_len : ℕ

abbrev pub dentry_header_sizeof : ℕ
dentry_header_sizeof = 8

-- `struct inode_dir_ctx`
pub record DirCtx : Type 0 where
  pub lblock : ℕ
  pub buf : List ℕ

abbrev pub dentry_of : List ℕ → ℕ → Dentry
dentry_of b o = record { inode = le32 b o; rec_len = le16 b (o + 4); name_len = get_or b (o + 6) 0 }

-- The entry at a position of the buffer.
unfoldable pub dentry_at : List ℕ → ℕ → Result Dentry
dentry_at b o = do check (leb (o + dentry_header_sizeof) (length b)); ok (dentry_of b o)

abbrev pub name_buf_size : ℕ
name_buf_size = 255

-- `get_printable_name`: the name up to its length; the zero behind it must fit into the buffer.
unfoldable pub get_printable_name : List ℕ → ℕ → ℕ → Result (List ℕ)
get_printable_name b o name_len = do
  check (leb (o + dentry_header_sizeof + name_len) (length b))
  check (ltb name_len name_buf_size)
  ok (take name_len (drop (o + dentry_header_sizeof) b))

module _ (image : Image) (s : SuperBlock) (inode : Inode) where
  -- `dir_ctx_update`
  unfoldable pub dir_ctx_update : ℕ → Result DirCtx
  dir_ctx_update lblock = do
    (dir_pblock, _) ← inode_get_data_pblock image s inode lblock
    buf ← disk_read image (blocks2bytes s dir_pblock) (block_size s)
    ok (record { lblock = lblock; buf = buf })

  -- `inode_dir_ctx_reset`
  unfoldable pub inode_dir_ctx_reset : Result DirCtx
  inode_dir_ctx_reset = dir_ctx_update 0

  -- `inode_dentry_get`: the position of the entry in the buffer, none at the end of the directory.
  -- It calls itself once at most.
  unfoldable pub inode_dentry_get : ℕ → ℕ → DirCtx → Result (Option ℕ × DirCtx)
  inode_dentry_get zero offset ctx = out_of_fuel
  inode_dentry_get (suc fuel) offset ctx =
      let lblock = u32 (offset / block_size s) in
      check (leb offset (inode_get_size inode)) >> elim (inode_get_size inode == offset) [
        | true ↦ ok (none, ctx)
        | false ↦ elim (lblock == ctx.lblock) [
          | true ↦ ok (some (u32 (offset % block_size s)), ctx)
          | false ↦ do ctx ← dir_ctx_update lblock; inode_dentry_get fuel offset ctx
        ]
      ]

abbrev pub dentry_fuel : ℕ
dentry_fuel = 2

-- `name_buf[0]`, of a name and the zero behind it.
abbrev pub printable : List ℕ → Bool
printable name = not (get_or name 0 0 == 0)

-- The loop of `op_readdir`. `filler` is the function that FUSE hands over, with its buffer as a
-- state; it says whether the buffer is full. The fuel bounds the entries.
module _ {ℓ} {Buffer : Type ℓ} (filler : Buffer → List ℕ → ℕ → Bool × Buffer) (image : Image)
    (s : SuperBlock) (inode : Inode) where
  unfoldable pub readdir_loop : ℕ → ℕ → DirCtx → Buffer → Result Buffer
  readdir_loop zero offset ctx buf = out_of_fuel
  readdir_loop (suc fuel) offset ctx buf = do
    (pos, ctx) ← inode_dentry_get image s inode dentry_fuel offset ctx
    elim pos [
      | none ↦ ok buf
      | some o ↦ do
        dentry ← dentry_at ctx.buf o
        let offset = offset + dentry.rec_len
        elim (dentry.inode == 0) [
          | true ↦ readdir_loop fuel offset ctx buf
          | false ↦ do
            name ← get_printable_name ctx.buf o dentry.name_len
            elim (printable name) [
              | false ↦ readdir_loop fuel offset ctx buf
              | true ↦
                  let (full, buf) = filler buf name offset in
                  elim full [ true ↦ ok buf | false ↦ readdir_loop fuel offset ctx buf ]
            ]
        ]
    ]

  -- `op_readdir` behind the lookup of the path.
  unfoldable pub readdir_inode : ℕ → ℕ → Buffer → Result Buffer
  readdir_inode fuel offset buf = do
    ctx ← inode_dir_ctx_reset image s inode
    readdir_loop fuel offset ctx buf
