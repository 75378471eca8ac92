-- ===== src/Ext4/Start.antt =====
-- fs/ext4/fuse-main.c: the checks before the file system is served. The parse of the arguments by the
-- fuse library, and the files that can be opened, are parameters; messages are left out.
pub mod Fuse
use spotlight.Base.{
  ℕ, ◌+◌, ◌*◌, ◌≡◌, ◌≤◌, ◌<◌, ◌==◌, if◌then◌else◌, not, Bool, true, false, Option, none, some, List,
  get_or, arith, refl, sym, ap, ap₂, ◌∙◌,
}
use spotlight.Base.Result.{Result, ok, fault, ◌>>=◌}
use spotlight.Base.Bytes.{le16, slice, get_or-slice}
use spotlight.Ext4.Disk.{Image, disk_read}
use spotlight.Ext4.Disk.Laws.{disk_read-slice}
use spotlight.Ext4.Super.{boot_sector_size, super_block_sizeof, super_block_of}

-- `struct e4f`, the options; the names of files are their bytes.
pub record E4f : Type 0 where
  pub disk : Option (List ℕ)
  pub logfile : Option (List ℕ)

abbrev pub default_options : E4f
default_options = record { disk = none; logfile = none }

-- FUSE_OPT_KEY_OPT, FUSE_OPT_KEY_NONOPT and any other key
pub data OptKey : Type 0 where
  key_opt key_nonopt key_other : OptKey

-- `e4f_opt_proc`: whether the argument is kept for fuse.
unfoldable pub e4f_opt_proc : E4f → List ℕ → OptKey → Result (Bool × E4f)
e4f_opt_proc e4f arg key_opt = ok (true, e4f)
e4f_opt_proc e4f arg key_nonopt = elim e4f.disk [
  | none ↦ ok (false, record e4f { disk = some arg })
  | some path ↦ ok (true, e4f)
]
e4f_opt_proc e4f arg key_other = fault

-- The offset of `s_magic` on disk.
abbrev pub disk_magic_offset : ℕ
disk_magic_offset = 1080

-- The magic number of the disk.
unfoldable pub has_magic : Image → Result Bool
has_magic image = do bytes ← disk_read image disk_magic_offset 2; ok (le16 bytes 0 == 0xef53)

-- How `ext4fuse_main` goes on: it fails, or hands the operations to fuse.
pub data Start : Type 0 where
  failure : Start
  usage : Start
  serves : Image → Start

module _ (fuse_opt_parse : E4f → Option E4f) (disk_open : List ℕ → Option Image) where
  -- `ext4fuse_is_supported`, with the disk that it leaves open
  unfoldable pub ext4fuse_is_supported : Result (Bool × Option Image)
  ext4fuse_is_supported = elim (fuse_opt_parse default_options) [
    | none ↦ ok (false, none)
    | some e4f ↦ elim e4f.disk [
      | none ↦ ok (false, none)
      | some path ↦ elim (disk_open path) [
        | none ↦ ok (false, none)
        | some image ↦ do
          magic ← has_magic image
          ok (if magic then (true, none) else (false, some image))
      ]
    ]
  ]

  -- `ext4fuse_main` up to the call of `fuse_main`; its arguments say whether the signal handler is set
  -- and whether a log file can be opened.
  unfoldable pub ext4fuse_main : Bool → (Option (List ℕ) → Bool) → Result Start
  ext4fuse_main signal logging_open =
      if not signal then ok failure else elim (fuse_opt_parse default_options) [
        | none ↦ ok failure
        | some e4f ↦ elim e4f.disk [
          | none ↦ ok usage
          | some path ↦
              if not (logging_open e4f.logfile) then ok failure else elim (disk_open path) [
                | none ↦ ok failure
                | some image ↦ do
                  magic ← has_magic image
                  ok (if magic then serves image else failure)
              ]
        ]
      ]

has_magic-super_block :
    (image : Image)
    → boot_sector_size + super_block_sizeof ≤ image.size
    → has_magic image
      ≡ ok (
          (super_block_of (slice image.byte boot_sector_size super_block_sizeof)).s_magic == 0xef53)
unfolding has_magic super_block_of
has_magic-super_block image inside =
    let whole = slice image.byte boot_sector_size super_block_sizeof in
    let part = slice image.byte disk_magic_offset 2 in
    let byte : (k : ℕ) → k < 2 → get_or part k 0 ≡ get_or whole (56 + k) 0 = λ k h.
      get_or-slice image.byte disk_magic_offset 2 k 0 h
      ∙ ap image.byte {x = 1080 + k} (omega arith)
      ∙ sym
          (get_or-slice image.byte boot_sector_size super_block_sizeof (56 + k) 0 (omega arith)) in
    rw (has_magic, disk_read-slice image disk_magic_offset 2 (omega arith) (omega arith))
      (ap₂ (λ a b. ok (a + 256 * b == 0xef53)) (byte 0 (omega arith)) (byte 1 (omega arith)))

-- When the options name a disk that can be opened and that holds the super block, a log file that
-- can be opened, and the signal handler is set, the disk is accepted, and later handed to fuse,
-- exactly when the magic number of the super block is 0xef53; a disk that is refused is left open
-- by the test.
pub start-magic :
    (fuse_opt_parse : E4f → Option E4f) (disk_open : List ℕ → Option Image)
    (logging_open : Option (List ℕ) → Bool) (e4f : E4f) (path : List ℕ) (image : Image)
    → fuse_opt_parse default_options ≡ some e4f
    → e4f.disk ≡ some path
    → logging_open e4f.logfile ≡ true
    → disk_open path ≡ some image
    → boot_sector_size + super_block_sizeof ≤ image.size
    → let magic =
        (super_block_of (slice image.byte boot_sector_size super_block_sizeof)).s_magic == 0xef53 in
      (ext4fuse_is_supported fuse_opt_parse disk_open
        ≡ ok (if magic then (true, none) else (false, some image)))
      × (ext4fuse_main fuse_opt_parse disk_open true logging_open
          ≡ ok (if magic then serves image else failure))
unfolding ext4fuse_is_supported ext4fuse_main
start-magic fuse_opt_parse disk_open logging_open e4f path image parsed named logs opened inside =
    let magic = has_magic-super_block image inside in
    (
      rw (ext4fuse_is_supported, parsed, named, opened, magic) refl,
      rw (ext4fuse_main, parsed, named, logs, opened, magic) refl,
    )
