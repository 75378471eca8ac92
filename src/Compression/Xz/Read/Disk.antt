-- ===== src/Compression/Xz/Read/Disk.antt =====
-- The xz reader behind the disk access of fs/ext4/disk.c: the image that the file system reads.
use spotlight.Base.{ℕ, ◌+◌, ◌^◌, ◌≡◌, ◌≤◌, ◌<◌, List}
use spotlight.Base.Int.{pos}
use spotlight.Base.Result.{ok}
use spotlight.Base.Bytes.{slice}
use spotlight.Compression.File.{File}
use spotlight.Compression.Xz.Lzma.{Lzma, IsXz}
use spotlight.Compression.Xz.Read.{XzReader, xz_read}
use spotlight.Compression.Xz.Read.Valid.{IsValid}
use spotlight.Compression.Xz.Read.Content.{xz_read-content}
use spotlight.Ext4.Disk.{Image, disk_read}
use spotlight.Ext4.Disk.Laws.{disk_read-slice}

-- For an image that is the content of an xz file that liblzma understands, both of less than 2^63
-- bytes, a read of less than 2 GiB inside the image, from in front of its end, succeeds in the
-- model of the disk that the file system reads from, and `xz_read` returns its size and delivers
-- the same bytes, with a valid reader before and after.
pub disk_read-xz_read :
    (lz : Lzma) (file : File) (index : lz.Index) (image : Image)
    → file.size < 2 ^ 63
    → image.size < 2 ^ 63
    → IsXz lz file index image.byte image.size
    → (r : XzReader) (where_ size : ℕ) → IsValid image.byte image.size r
    → where_ < image.size
    → where_ + size ≤ image.size
    → size < 2 ^ 31
    → (bytes : List ℕ) × (r' : XzReader) × (disk_read image where_ size ≡ ok bytes)
      × (xz_read lz file index r where_ size ≡ ok (pos size, bytes, r'))
      × IsValid image.byte image.size r'
disk_read-xz_read lz file index image small narrow xz r where_ size v inside fits short =
    let (r', done, v') =
      xz_read-content lz file index image.byte image.size small narrow xz r where_ size v inside
        fits in
    (slice image.byte where_ size, r', disk_read-slice image where_ size fits short, done, v')
