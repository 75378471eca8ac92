-- ===== src/Compression/Reader.antt =====
-- compression/compression_reader.c, compression_reader.h, raw_read/reader.c and read_layer.c: the
-- choice of a reader for the image, and the reads that go through it. `File` is an open file with its
-- position and `rewind` puts that to the start; `Handle` is what a reader allocates, `Answer` what a
-- read delivers.
pub mod Choice
mod Tests
use spotlight.Base.{ℕ, Bool, true, false, Option, none, some, List, [], ◌∷◌, if◌then◌else◌}
use spotlight.Base.Result.{Result, ok, ◌>>=◌, deref}

module _ (File Handle Answer : Type 0) where
  -- `CompressionReaderImpl`
  pub record CompressionReaderImpl : Type 0 where
    pub is_supported : File → Bool × File
    pub alloc : File → Option Handle × File
    pub read : Handle → ℕ → ℕ → Answer × Handle
    pub free : Handle → Result (Unit {0})

  -- `CompressionReader`
  pub record CompressionReader : Type 0 where
    pub reader : Handle
    pub reader_impl : CompressionReaderImpl

-- `compression_reader_free`, which then releases the struct itself.
unfoldable pub compression_reader_free :
    {File Handle Answer : Type 0} → CompressionReader File Handle Answer → Result (Unit {0})
compression_reader_free reader = reader.reader_impl.free reader.reader

module _ {File Handle Answer : Type 0} (rewind : File → File) where
  -- `get_supported_comp_reader` over the readers that are left.
  unfoldable pub get_supported_comp_reader :
      List (CompressionReaderImpl File Handle Answer)
      → File
      → Option (CompressionReaderImpl File Handle Answer) × File
  get_supported_comp_reader [] file = (none, file)
  get_supported_comp_reader (r ∷ rs) file =
      let (supported, file) = r.is_supported file in
      if supported then (some r, file) else get_supported_comp_reader rs (rewind file)

  -- `compression_reader_alloc`; none if no reader supports the file.
  unfoldable pub compression_reader_alloc :
      List (CompressionReaderImpl File Handle Answer)
      → File
      → Result (Option (CompressionReader File Handle Answer) × File)
  compression_reader_alloc available_readers file =
      let (impl, file) = get_supported_comp_reader available_readers file in
      let file = rewind file in
      elim impl [
        | none ↦ ok (none, file)
        | some r ↦
            let (handle, file) = r.alloc file in
            do reader ← deref handle; ok (some (record { reader = reader; reader_impl = r }), file)
      ]

  -- `compression_read`
  unfoldable pub compression_read :
      CompressionReader File Handle Answer → ℕ → ℕ → Answer × CompressionReader File Handle Answer
  compression_read reader offset length =
      let (answer, handle) = reader.reader_impl.read reader.reader offset length in
      (answer, record reader { reader = handle })

  -- `read_wrapper`: the first read allocates the reader, which the later ones keep.
  unfoldable pub read_wrapper :
      List (CompressionReaderImpl File Handle Answer)
      → Option (CompressionReader File Handle Answer)
      → File
      → ℕ
      → ℕ
      → Result (Answer × CompressionReader File Handle Answer × File)
  read_wrapper available_readers (some reader) file offset length =
      let (answer, reader) = compression_read reader offset length in ok (answer, reader, file)
  read_wrapper available_readers none file offset length = do
    (allocated, file) ← compression_reader_alloc available_readers file
    reader ← deref allocated
    let (answer, reader) = compression_read reader offset length
    ok (answer, reader, file)

-- `available_readers` of constructors.h: the first has the highest precedence.
unfoldable pub available_readers :
    {File Handle Answer : Type 0}
    → CompressionReaderImpl File Handle Answer
    → CompressionReaderImpl File Handle Answer
    → CompressionReaderImpl File Handle Answer
    → List (CompressionReaderImpl File Handle Answer)
available_readers gzip_reader xz_reader raw_reader = gzip_reader ∷ (xz_reader ∷ (raw_reader ∷ []))

-- The raw reader, which supports every file and is the file itself; `pread` reads from it.
unfoldable pub raw_read :
    {File Answer : Type 0} → (File → ℕ → ℕ → Answer) → CompressionReaderImpl File File Answer
raw_read pread = record {
  is_supported = λ file. (true, file);
  alloc = λ file. (some file, file);
  read = λ file offset length. (pread file offset length, file);
  free = λ file. ok tt;
}
