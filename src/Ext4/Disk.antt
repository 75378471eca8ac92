-- ===== src/Ext4/Disk.antt =====
-- fs/ext4/disk.c: reads of the disk, whole or through a context. The disk is what the read layer
-- delivers, the bytes of the decompressed image; the lock of `__disk_read` makes one step of it.
pub mod Laws
pub mod Blocks
pub mod Session
use spotlight.Base.{
  ℕ, ◌+◌, ◌-◌, ◌*◌, ◌==◌, ltb, if◌then◌else◌, min, List, length, not, u64, int_to_size,
}
use spotlight.Base.Result.{Result, ok, fault, ◌>>=◌, ◌>>◌, check}
use spotlight.Base.Bytes.{slice, le32}

-- The decompressed disk image: `size` bytes.
pub record Image : Type 0 where
  pub size : ℕ
  pub byte : ℕ → ℕ

-- What `read_wrapper` puts into the buffer; it returns their number.
unfoldable pub pread : Image → ℕ → ℕ → List ℕ
unfolding slice
pread image where_ size = slice image.byte where_ (min size (image.size - where_))

-- `__disk_read`. The number of bytes goes through the `int` of `_pread`.
unfoldable pub disk_read : Image → ℕ → ℕ → Result (List ℕ)
disk_read image where_ size =
    let bytes = pread image where_ size in do check (int_to_size (length bytes) == size); ok bytes

-- `disk_read_u32`
unfoldable pub disk_read_u32 : Image → ℕ → Result ℕ
disk_read_u32 image where_ = do bytes ← disk_read image where_ 4; ok (le32 bytes 0)

-- `struct disk_ctx`
pub record DiskCtx : Type 0 where
  pub cur : ℕ
  pub size : ℕ

-- `disk_ctx_create`
unfoldable pub disk_ctx_create : ℕ → ℕ → ℕ → Result DiskCtx
disk_ctx_create where_ size len = do
  check (not (size == 0))
  ok (record { cur = where_; size = u64 (size * len) })

-- `__disk_ctx_read`: the bytes, and the context moved past them.
unfoldable pub disk_ctx_read : Image → DiskCtx → ℕ → Result (List ℕ × DiskCtx)
disk_ctx_read image ctx size = do
  check (not (ctx.size == 0))
  let wanted = if ltb ctx.size size then ctx.size else size
  bytes ← disk_read image ctx.cur wanted
  ok (bytes, record { cur = ctx.cur + length bytes; size = ctx.size - length bytes })
