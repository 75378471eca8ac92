-- ===== src/Ext4/Tests/Disks.antt =====
-- A disk that is opened, read and closed.
use spotlight.Base.{
  ℕ, ◌+◌, ◌==◌, ◌≡◌, Bool, true, false, Option, none, some, if◌then◌else◌, List, [], ◌∷◌, length,
  refl,
}
use spotlight.Base.Result.{ok, fault, ◌>>=◌}
use spotlight.Compression.Reader.{
  CompressionReaderImpl, CompressionReader, compression_reader_alloc, get_supported_comp_reader,
  raw_read,
}
use spotlight.Ext4.Disk.Session.{
  Session, closed, disk_open, disk_close, read_all, disk_read_through, read_reader, all_closed,
  keep_file, disk_open-disk_close,
}

-- A file is its position.
abbrev start : ℕ → ℕ
start position = 0

abbrev returned : ℕ → ℕ
returned n = n

abbrev picky : CompressionReaderImpl ℕ ℕ ℕ
picky = record {
  is_supported = λ position. (false, position + 2);
  alloc = λ position. (none, position);
  read = λ handle offset length. (0, handle);
  free = λ handle. ok tt;
}

abbrev raw : CompressionReaderImpl ℕ ℕ ℕ
raw = raw_read (λ file offset length. length)

abbrev readers : List (CompressionReaderImpl ℕ ℕ ℕ)
readers = picky ∷ (raw ∷ [])

-- The only file has an empty name.
abbrev fopen : List ℕ → Option ℕ
fopen path = if length path == 0 then some 0 else none

abbrev fileno : ℕ → Bool
fileno file = true

abbrev reader : CompressionReader ℕ ℕ ℕ
reader = record { reader = 0; reader_impl = raw }

raw_alloc : compression_reader_alloc start readers 0 ≡ ok (some reader, 0)
unfolding compression_reader_alloc get_supported_comp_reader raw_read
raw_alloc = refl

raw_free : (handle : ℕ) → raw.free handle ≡ ok tt
unfolding raw_read
raw_free handle = refl

abbrev reads : List (ℕ × ℕ)
reads = (1024, 1024) ∷ ((0, 512) ∷ [])

disk_open-disk_close_example :
    (st : Session ℕ ℕ ℕ) × (disk_open fopen fileno closed [] ≡ (true, st))
    × (read_all start returned readers st reads
        ≡ keep_file start returned readers 0 (read_reader start returned readers reader reads))
    × ((read_all start returned readers st reads >>= λ r. disk_close r.1)
        ≡ all_closed start returned readers (read_reader start returned readers reader reads))
    × (disk_read_through start returned readers closed 1024 1024 ≡ fault)
disk_open-disk_close_example =
    disk_open-disk_close start returned readers fopen fileno [] 0 0 reader 1024 1024 ((0, 512) ∷ [])
      refl refl raw_alloc raw_free
