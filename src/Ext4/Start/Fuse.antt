-- ===== src/Ext4/Start/Fuse.antt =====
-- fs/fuse_implementation.c and constructors.h: the choice of a file system, and its start.
use spotlight.Base.{
  ℕ, ◌+◌, ◌≡◌, ◌≤◌, ◌==◌, if◌then◌else◌, Bool, true, false, Bool-cases, inl, inr, Option, none,
  some, List, [], ◌∷◌, refl,
}
use spotlight.Base.Result.{Result, ok, ◌>>=◌}
use spotlight.Base.Bytes.{slice}
use spotlight.Ext4.Disk.{Image}
use spotlight.Ext4.Super.{boot_sector_size, super_block_sizeof, super_block_of}
use spotlight.Ext4.Start.{
  E4f, default_options, Start, serves, ext4fuse_is_supported, ext4fuse_main, start-magic,
}

-- `FuseImplementation`, at the arguments of the program
pub record FuseImplementation : Type 0 where
  pub is_supported : Result Bool
  pub start : Result Start

-- `get_supported_fuse_impl`; none is NULL.
unfoldable pub get_supported_fuse_impl :
    List FuseImplementation → Result (Option FuseImplementation)
get_supported_fuse_impl [] = ok none
get_supported_fuse_impl (i ∷ available) = do
  supported ← i.is_supported
  elim supported [ true ↦ ok (some i) | false ↦ get_supported_fuse_impl available ]

-- `start_fuse`; none is NO_SUPPORTED_FUSE_IMPLEMENTATION.
unfoldable pub start_fuse : List FuseImplementation → Result (Option Start)
start_fuse available = do
  fuse_impl ← get_supported_fuse_impl available
  elim fuse_impl [ none ↦ ok none | some i ↦ do ret ← i.start; ok (some ret) ]

module _ (fuse_opt_parse : E4f → Option E4f) (disk_open : List ℕ → Option Image)
    (logging_open : Option (List ℕ) → Bool) where
  -- `available_fuse_implementations`
  unfoldable pub available_fuse_implementations : List FuseImplementation
  available_fuse_implementations =
      record {
        is_supported = do
          (supported, left_open) ← ext4fuse_is_supported fuse_opt_parse disk_open
          ok supported;
        start = ext4fuse_main fuse_opt_parse disk_open true logging_open;
      }
      ∷ []

  -- When the options name a disk that can be opened and that holds the super block, and a log file
  -- that can be opened, and the signal handler is set, the program serves that disk if the magic
  -- number of the super block is 0xef53, and otherwise finds no file system that supports it and
  -- serves nothing.
  pub start_fuse-magic :
      (e4f : E4f) (path : List ℕ) (image : Image)
      → fuse_opt_parse default_options ≡ some e4f
      → e4f.disk ≡ some path
      → logging_open e4f.logfile ≡ true
      → disk_open path ≡ some image
      → boot_sector_size + super_block_sizeof ≤ image.size
      → start_fuse available_fuse_implementations
        ≡ ok (
            if (super_block_of (slice image.byte boot_sector_size super_block_sizeof)).s_magic
              == 0xef53
            then some (serves image)
            else none)
  unfolding start_fuse get_supported_fuse_impl available_fuse_implementations
  start_fuse-magic e4f path image parsed named logs opened inside =
      let magic =
        (super_block_of (slice image.byte boot_sector_size super_block_sizeof)).s_magic == 0xef53 in
      let (supported, started) =
        start-magic fuse_opt_parse disk_open logging_open e4f path image parsed named logs opened
          inside in
      elim (Bool-cases magic) [
        | inl e ↦ rw (start_fuse, get_supported_fuse_impl, supported, e, ◌>>=◌, started, e) refl
        | inr e ↦ rw (start_fuse, get_supported_fuse_impl, supported, e) refl
      ]
