-- ===== src/Ext4/Disk/Laws.antt =====
-- Reads inside the image.
use spotlight.Base.{
  ℕ, ◌+◌, ◌-◌, ◌^◌, ◌≡◌, ◌≤◌, ◌<◌, ◌≢◌, ◌==◌, arith, min, ap, int_to_size, true, false, length,
  refl,
}
use spotlight.Base.Result.{ok, fault}
use spotlight.Base.Bytes.{slice, length-slice}
use spotlight.Ext4.Disk.{Image, pread, disk_read, DiskCtx, disk_ctx_read}

pub pread-slice :
    (image : Image) (where_ size : ℕ)
    → where_ + size ≤ image.size
    → pread image where_ size ≡ slice image.byte where_ size
unfolding pread
pread-slice image where_ size h =
    ap (slice image.byte where_) {x = min size (image.size - where_)} (omega arith)

int_to_size_small : (n m : ℕ) → n ≡ m → m < 2 ^ 31 → (int_to_size n == m) ≡ true
int_to_size_small n m e h = ground arith

-- A read inside the image, of less than 2 GiB, delivers the bytes there.
pub disk_read-slice :
    (image : Image) (where_ size : ℕ)
    → where_ + size ≤ image.size
    → size < 2 ^ 31
    → disk_read image where_ size ≡ ok (slice image.byte where_ size)
unfolding disk_read
disk_read-slice image where_ size h small = rw (
  pread-slice image where_ size h,
  int_to_size_small _ size (length-slice image.byte where_ size) small,
)

-- A read of less than 2 GiB inside the image through a context that is not empty delivers the
-- bytes at the context's position, no more than the context has left, and moves the context past
-- them.
pub disk_ctx_read-slice :
    (image : Image) (ctx : DiskCtx) (size n : ℕ)
    → ctx.size ≢ 0
    → n ≡ min size ctx.size
    → ctx.cur + n ≤ image.size
    → n < 2 ^ 31
    → disk_ctx_read image ctx size
      ≡ ok (slice image.byte ctx.cur n, record { cur = ctx.cur + n; size = ctx.size - n })
unfolding disk_ctx_read
disk_ctx_read-slice image ctx size n ne e h small =
    ground (arith, disk_read-slice image ctx.cur n, length-slice image.byte ctx.cur n)

int_to_size_large : (n m : ℕ) → 2 ^ 31 ≤ m → m < 2 ^ 64 - 2 ^ 31 → (int_to_size n == m) ≡ false
int_to_size_large n m h k = ground arith

-- A read of 2^31 bytes or more, up to 2^64 - 2^31, faults: the number of bytes is compared after
-- it has gone through an `int`.
pub disk_read-large :
    (image : Image) (where_ size : ℕ)
    → 2 ^ 31 ≤ size
    → size < 2 ^ 64 - 2 ^ 31
    → disk_read image where_ size ≡ fault
unfolding disk_read
disk_read-large image where_ size h k =
    rw (int_to_size_large (length (pread image where_ size)) size h k) refl
