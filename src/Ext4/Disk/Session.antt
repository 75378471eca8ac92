-- ===== src/Ext4/Disk/Session.antt =====
-- fs/ext4/disk.c and read_layer.c: the state of the disk, from `disk_open` over reads to `disk_close`.
-- `fopen` says which files can be opened, `fileno` whether an open file has a descriptor, and
-- `returned` what a read gives as the number of bytes.
use spotlight.Base.{
  ℕ, ap, ◌∙◌, ◌==◌, ◌≡◌, Bool, Bool-cases, inl, inr, true, false, Option, none, some, List, [], ◌∷◌,
  refl,
}
use spotlight.Base.Result.{Result, ok, err, fault, out_of_fuel, ◌>>=◌, ◌>>◌, check}
use spotlight.Compression.Reader.{
  CompressionReaderImpl, CompressionReader, compression_read, compression_reader_alloc,
  compression_reader_free, read_wrapper,
}

-- The static variables of disk.c and read_layer.c; `disk_fd` says whether the descriptor is valid.
pub record Session (File Handle Answer : Type 0) : Type 0 where
  pub disk_fd : Bool
  pub disk_file : Option File
  pub compression_reader : Option (CompressionReader File Handle Answer)

module _ {File Handle Answer : Type 0} where
  -- Before the first `disk_open`.
  abbrev pub closed : Session File Handle Answer
  closed = record { disk_fd = false; disk_file = none; compression_reader = none }

  -- `free_read_wrapper`
  unfoldable pub free_read_wrapper :
      Session File Handle Answer → Result (Session File Handle Answer)
  free_read_wrapper st = elim st.compression_reader [
    | none ↦ ok st
    | some reader ↦ compression_reader_free reader >> ok (record st { compression_reader = none })
  ]

  -- `disk_close`
  unfoldable pub disk_close :
      Session File Handle Answer → Result (Bool × Session File Handle Answer)
  disk_close st = do
    st ← free_read_wrapper st
    elim st.disk_file [
      | none ↦ ok (false, st)
      | some file ↦ ok (true, record st { disk_fd = false; disk_file = none })
    ]

  -- `disk_open`; true for 0.
  unfoldable pub disk_open :
      (List ℕ → Option File)
      → (File → Bool)
      → Session File Handle Answer
      → List ℕ
      → Bool × Session File Handle Answer
  disk_open fopen fileno st path = elim (fopen path) [
    | none ↦ (false, record st { disk_file = none })
    | some file ↦ (fileno file, record st { disk_fd = fileno file; disk_file = some file })
  ]

module _ {File Handle Answer : Type 0} (rewind : File → File) (returned : Answer → ℕ)
    (available_readers : List (CompressionReaderImpl File Handle Answer)) where
  -- `_pread`: a reader that is there needs no file.
  unfoldable pub pread_through :
      Session File Handle Answer → ℕ → ℕ → Result (Answer × Session File Handle Answer)
  pread_through st where_ size = elim st.disk_file [
    | some file ↦ do
      (answer, reader, file) ←
          read_wrapper rewind available_readers st.compression_reader file where_ size
      ok (answer, record st { disk_file = some file; compression_reader = some reader })
    | none ↦ elim st.compression_reader [
      | none ↦ fault
      | some reader ↦
          let (answer, reader) = compression_read rewind reader where_ size in
          ok (answer, record st { compression_reader = some reader })
    ]
  ]

  -- `__disk_read`
  unfoldable pub disk_read_through :
      Session File Handle Answer → ℕ → ℕ → Result (Answer × Session File Handle Answer)
  disk_read_through st where_ size = do
    check st.disk_fd
    (answer, st) ← pread_through st where_ size
    check (returned answer == size)
    ok (answer, st)

  -- Reads one after the other.
  unfoldable pub read_all :
      Session File Handle Answer → List (ℕ × ℕ) → Result (List Answer × Session File Handle Answer)
  read_all st [] = ok ([], st)
  read_all st ((where_, size) ∷ reads) = do
    (answer, st) ← disk_read_through st where_ size
    (answers, st) ← read_all st reads
    ok (answer ∷ answers, st)

  -- The reads through one reader.
  unfoldable pub read_reader :
      CompressionReader File Handle Answer
      → List (ℕ × ℕ)
      → Result (List Answer × CompressionReader File Handle Answer)
  read_reader reader [] = ok ([], reader)
  read_reader reader ((where_, size) ∷ reads) = do
    let (answer, reader) = compression_read rewind reader where_ size
    check (returned answer == size)
    (answers, reader) ← read_reader reader reads
    ok (answer ∷ answers, reader)

  -- An open disk whose reader is there.
  abbrev pub opened : File → CompressionReader File Handle Answer → Session File Handle Answer
  opened file reader = record {
    disk_fd = true;
    disk_file = some file;
    compression_reader = some reader;
  }

  abbrev pub keep_file :
      File
      → Result (List Answer × CompressionReader File Handle Answer)
      → Result (List Answer × Session File Handle Answer)
  keep_file file run = do (answers, reader) ← run; ok (answers, opened file reader)

  keep_file-cons :
      (file : File) (a : Answer) (run : Result (List Answer × CompressionReader File Handle Answer))
      → ◌≡◌ {A = Result (List Answer × Session File Handle Answer)}
          (keep_file file run >>= λ r. ok (a ∷ r.0, r.1))
          (keep_file file (run >>= λ r. ok (a ∷ r.0, r.1)))
  keep_file-cons file a (ok r) = refl
  keep_file-cons file a (err e) = refl
  keep_file-cons file a fault = refl
  keep_file-cons file a out_of_fuel = refl

  read_all-opened :
      (file : File) (reader : CompressionReader File Handle Answer) (reads : List (ℕ × ℕ))
      → read_all (opened file reader) reads ≡ keep_file file (read_reader reader reads)
  unfolding read_all read_reader disk_read_through pread_through read_wrapper
  read_all-opened file reader [] = refl
  read_all-opened file reader ((where_, size) ∷ reads) =
      let (answer, next) = compression_read rewind reader where_ size in
      elim (Bool-cases (returned answer == size)) [
        | inr short ↦ rw short refl
        | inl whole ↦
            rw (whole, read_all-opened file next reads)
              (keep_file-cons file answer (read_reader next reads))
      ]

  -- The first read allocates the reader.
  pread_through-first :
      (file file' : File) (reader : CompressionReader File Handle Answer) (where_ size : ℕ)
      → compression_reader_alloc rewind available_readers file ≡ ok (some reader, file')
      → pread_through
          (record { disk_fd = true; disk_file = some file; compression_reader = none })
          where_
          size
        ≡ pread_through (opened file' reader) where_ size
  unfolding pread_through read_wrapper
  pread_through-first file file' reader where_ size alloc =
      rw (pread_through, read_wrapper, alloc) refl

  -- Closing behind reads that end well.
  abbrev pub close_after :
      File
      → Result (List Answer × CompressionReader File Handle Answer)
      → Result (Bool × Session File Handle Answer)
  close_after file run = run >>= λ r. disk_close (opened file r.1)

  abbrev pub all_closed :
      Result (List Answer × CompressionReader File Handle Answer)
      → Result (Bool × Session File Handle Answer)
  all_closed run = run >>= λ r. ok (true, closed)

  close-cons :
      (file : File) (a : Answer) (run : Result (List Answer × CompressionReader File Handle Answer))
      → close_after file run ≡ all_closed run
      → close_after file (run >>= λ r. ok (a ∷ r.0, r.1))
        ≡ all_closed (run >>= λ r. ok (a ∷ r.0, r.1))
  close-cons file a (ok r) e = e
  close-cons file a (err x) e = refl
  close-cons file a fault e = refl
  close-cons file a out_of_fuel e = refl

  close_after-all_closed :
      (file : File) (reader : CompressionReader File Handle Answer) (reads : List (ℕ × ℕ))
      → ((handle : Handle) → reader.reader_impl.free handle ≡ ok tt)
      → close_after file (read_reader reader reads) ≡ all_closed (read_reader reader reads)
  unfolding read_reader disk_close free_read_wrapper compression_reader_free compression_read
  close_after-all_closed file reader [] frees = rw (frees reader.reader) refl
  close_after-all_closed file reader ((where_, size) ∷ reads) frees =
      let (answer, next) = compression_read rewind reader where_ size in
      elim (Bool-cases (returned answer == size)) [
        | inr short ↦ rw short refl
        | inl whole ↦ rw whole (
            close-cons file answer (read_reader next reads)
              (close_after-all_closed file next reads frees))
      ]

  keep_file-close :
      (file : File) (run : Result (List Answer × CompressionReader File Handle Answer))
      → ◌≡◌ {A = Result (Bool × Session File Handle Answer)}
          (keep_file file run >>= λ r. disk_close r.1)
          (close_after file run)
  keep_file-close file (ok r) = refl
  keep_file-close file (err e) = refl
  keep_file-close file fault = refl
  keep_file-close file out_of_fuel = refl

  -- If a file can be opened, has a descriptor and is supported by a reader whose release never
  -- faults, then opening it on a closed disk succeeds, and one or more reads give what the same
  -- reads give through the one reader that is allocated for the file, which the first read
  -- allocates and the later ones keep. Closing the disk behind reads that end without a fault
  -- succeeds and leaves it as it was before, with no reader and no file; a read of a closed disk
  -- faults.
  pub disk_open-disk_close :
      (fopen : List ℕ → Option File) (fileno : File → Bool) (path : List ℕ) (file file' : File)
      (reader : CompressionReader File Handle Answer) (where_ size : ℕ) (reads : List (ℕ × ℕ))
      → fopen path ≡ some file
      → fileno file ≡ true
      → compression_reader_alloc rewind available_readers file ≡ ok (some reader, file')
      → ((handle : Handle) → reader.reader_impl.free handle ≡ ok tt)
      → (st : Session File Handle Answer) × (disk_open fopen fileno closed path ≡ (true, st))
        × (read_all st ((where_, size) ∷ reads)
            ≡ keep_file file' (read_reader reader ((where_, size) ∷ reads)))
        × ((read_all st ((where_, size) ∷ reads) >>= λ r. disk_close r.1)
            ≡ all_closed (read_reader reader ((where_, size) ∷ reads)))
        × (disk_read_through closed where_ size ≡ fault)
  unfolding disk_open read_all disk_read_through
  disk_open-disk_close fopen fileno path file file' reader where_ size reads there valid alloc
        frees =
      let st : Session File Handle Answer = record {
        disk_fd = true;
        disk_file = some file;
        compression_reader = none;
      } in
      let all = (where_, size) ∷ reads in
      let run : read_all st all ≡ keep_file file' (read_reader reader all) =
        rw (read_all, disk_read_through, pread_through-first file file' reader where_ size alloc)
          (read_all-opened file' reader all) in
      (
        st,
        rw (disk_open, there, valid) refl,
        run,
        ap {B = Result (Bool × Session File Handle Answer)} (λ r. r >>= λ x. disk_close x.1) run
            ∙ keep_file-close file' (read_reader reader all)
            ∙ close_after-all_closed file' reader all frees,
        refl,
      )
