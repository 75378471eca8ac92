-- ===== src/Compression/Gzip.antt =====
-- compression/gzip/gzip_reader.c and gzip_reader.h: an index of access points into a gzip file, and
-- reads from the nearest one. The linked list of access points, to which entries are only appended,
-- is the list of its entries.
pub mod Zlib
pub mod Index
pub mod Access
pub mod Points
mod Tests
use spotlight.Base.{
  ℕ, suc, ◌+◌, ◌-◌, ltb, ◌==◌, if◌then◌else◌, Option, none, some, List, [], ◌∷◌, ◌++◌, take, drop,
}
use spotlight.Base.Int.{ℤ, pos, negsuc}
use spotlight.Compression.File.{File}

abbrev pub span : ℕ
span = 1048576

abbrev pub window_size : ℕ
window_size = 32768

abbrev pub chunk : ℕ
chunk = 16384

abbrev pub gzip_window_bits : ℤ
gzip_window_bits = pos 47

abbrev pub raw_inflate_bits : ℤ
raw_inflate_bits = negsuc 14

-- `GzipAccessPointEntry`, but its links
pub record AccessPoint : Type 0 where
  pub raw_byte_address : ℕ
  pub compressed_byte_address : ℕ
  pub bits : ℕ
  pub context : List ℕ

-- `GzipReader`
pub record GzipReader : Type 0 where
  pub gzip_file : File
  pub list : List AccessPoint

-- `create_access_point_entry`: the window in the order of the stream, from a buffer whose last `left`
-- bytes are the older ones.
unfoldable pub create_access_point_entry : ℕ → ℕ → ℕ → ℕ → List ℕ → AccessPoint
create_access_point_entry raw_byte_address compressed_byte_address bits left context = record {
  raw_byte_address = raw_byte_address;
  compressed_byte_address = compressed_byte_address;
  bits = bits;
  context =
      (if left == 0 then [] else take left (drop (window_size - left) context))
      ++ (if ltb left window_size then take (window_size - left) context else []);
}

-- `append_access_point_list`
unfoldable pub append_access_point_list : List AccessPoint → AccessPoint → List AccessPoint
append_access_point_list list entry = list ++ (entry ∷ [])

-- `list->last`
unfoldable pub last_access_point : List AccessPoint → Option AccessPoint
last_access_point [] = none
last_access_point (e ∷ []) = some e
last_access_point (e ∷ (d ∷ list)) = last_access_point (d ∷ list)

-- `gzip_reader_alloc`
unfoldable pub gzip_reader_alloc : File → GzipReader
gzip_reader_alloc gzip_file = record { gzip_file = gzip_file; list = [] }
