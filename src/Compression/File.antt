-- ===== src/Compression/File.antt =====
-- The C library's reads of the compressed image: a regular file with its position. No read fails
-- but at the end of the file, so `ferror` is never set.
use spotlight.Base.{
  ℕ, suc, ◌+◌, ◌-◌, ltb, if◌then◌else◌, min, Option, none, some, List, length, [], ◌∷◌, ◌==◌, ◌&&◌,
  Bool, true, false,
}
use spotlight.Base.Bytes.{slice}

pub record File : Type 0 where
  pub size : ℕ
  pub byte : ℕ → ℕ
  pub position : ℕ

-- The bytes that `pread` puts into the buffer; it returns their number.
unfoldable pub pread_file : File → ℕ → ℕ → List ℕ
unfolding slice
pread_file file count at = slice file.byte at (min count (file.size - at))

-- `fread` of single bytes
unfoldable pub fread : File → ℕ → List ℕ × File
fread file count =
    let bytes = pread_file file count file.position in
    (bytes, record file { position = file.position + length bytes })

-- `getc`; none is EOF.
unfoldable pub getc : File → Option ℕ × File
getc file =
    if ltb file.position file.size
    then (some (file.byte file.position), record file { position = suc file.position })
    else (none, file)

-- `fseeko` from the start
unfoldable pub seek : File → ℕ → File
seek file at = record file { position = at }

-- The loop that compares the start of a file with a magic number.
unfoldable pub same_magic : List ℕ → List ℕ → Bool
same_magic [] [] = true
same_magic [] (b ∷ bs) = false
same_magic (a ∷ as_) [] = false
same_magic (a ∷ as_) (b ∷ bs) = (a == b) && same_magic as_ bs
