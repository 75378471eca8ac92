-- ===== src/Compression/Xz/Tests.antt =====
-- A run of the xz reader with a decoder that copies: a header of one byte, a block of three bytes,
-- and one byte behind it.
use spotlight.Base.{
  ℕ, ◌+◌, ◌-◌, ◌^◌, ◌==◌, ◌≡◌, ◌≤◌, ◌<◌, ◌⊎◌, ltb, min, if◌then◌else◌, Bool-cases, inl, inr, none,
  some, List, [], ◌∷◌, length, take, length-take, get_or, arith, refl, ap, ◌∙◌, lt→ltb, le→not-ltb,
}
use spotlight.Base.Int.{pos}
use spotlight.Base.Result.{ok}
use spotlight.Base.Bytes.{slice, slice_at, length-slice, take-slice, slice-congr}
use spotlight.Compression.File.{File}
use spotlight.Compression.Xz.Lzma.{
  lzma_ok, lzma_stream_end, BlockInfo, Coded, Lzma, DecodesBlock, IsXz,
}
use spotlight.Compression.Xz.Block.{got, read_block}
use spotlight.Compression.Xz.Block.Decode.{block_at, read_block-slice}
use spotlight.Compression.Xz.Read.{XzReader, empty_reader, reader_error, xz_read}
use spotlight.Compression.Xz.Read.Valid.{IsValid, empty_reader-IsValid}
use spotlight.Compression.Xz.Read.Content.{xz_read-content, xz_read-past_end, xz_read-error}
use spotlight.Compression.Xz.Read.Disk.{disk_read-xz_read}
use spotlight.Ext4.Disk.{Image, disk_read}

abbrev file : File
file = record { size = 5; byte = λ i. get_or (1 ∷ 7 ∷ 8 ∷ 9 ∷ 0 ∷ []) i 0; position = 0 }

abbrev content : ℕ → ℕ
content i = file.byte (1 + i)

abbrev block_info : BlockInfo
block_info = record {
  uncompressed_file_offset = 0;
  uncompressed_size = 3;
  compressed_file_offset = 0;
  unpadded_size = 4;
  check_type = 0;
}

-- The stream is the number of bytes that are still to be copied.
unfoldable copy_code : ℕ → List ℕ → ℕ → Coded ℕ
copy_code left input room =
    let n = min (min left (length input)) room in
    record {
      ret = if left - n == 0 then lzma_stream_end else lzma_ok;
      stream = left - n;
      used = n;
      out = take n input;
    }

abbrev copying : Lzma
copying = record {
  Index = Unit {0};
  Header = Unit {0};
  Stream = ℕ;
  index_iter_locate = λ index offset. if ltb offset 3 then some block_info else none;
  block_header_size_decode = λ b. 1;
  block_header_decode = λ check_type size bytes. (lzma_ok, tt);
  header_uncompressed_size = λ header. 3;
  block_compressed_size = λ header size. (lzma_ok, tt);
  block_decoder = λ header. (lzma_ok, 3);
  code = copy_code;
}

abbrev Progress : ℕ → ℕ → ℕ → Type 0
Progress left at k = (left + k ≡ 3) × (at ≡ 1 + k)

copied :
    (at k n m : ℕ)
    → at ≡ 1 + k
    → m ≤ n
    → take m (slice file.byte at n) ≡ slice content (0 + k) (length (take m (slice file.byte at n)))
copied at k n m e le =
    let len : length (take m (slice file.byte at n)) ≡ m =
      omega (arith, length-take m (slice file.byte at n), length-slice file.byte at n) in
    take-slice file.byte at n m
    ∙ slice-congr file.byte content at (0 + k) (min m n) (λ i l. ap file.byte (omega arith))
    ∙ slice_at content (0 + k) (0 + k) (min m n) _ refl (omega (arith, len))

copy_step :
    (left at k n room : ℕ)
    → Progress left at k
    → 0 < n
    → at + n ≤ 5
    → 3 ≤ k + room
    → let c = copy_code left (slice file.byte at n) room in
      (c.used ≤ n)
      × (c.out ≡ slice content (0 + k) (length c.out))
      × (k + length c.out ≤ 3)
      × (((c.ret ≡ lzma_stream_end) × (k + length c.out ≡ 3))
          ⊎ ((c.ret ≡ lzma_ok)
              × (0 < c.used + length c.out)
              × Progress c.stream (at + c.used) (k + length c.out)))
unfolding copy_code
copy_step left at k n room p some_byte inside wide =
    let m = min (min left (length (slice file.byte at n))) room in
    let known = length-slice file.byte at n in
    let len : length (take m (slice file.byte at n)) ≡ m =
      omega (arith, length-take m (slice file.byte at n), known) in
    (
      omega (arith, known),
      copied at k n m p.1 (omega (arith, known)),
      omega (arith, len, p.0),
      elim (Bool-cases (left - m == 0)) [
        | inl end ↦ inl (rw end refl, ground (arith, len, known))
        | inr more ↦ inr (
          rw more refl,
          ground (arith, len, known),
          (ground (arith, len, known), ground (arith, len, known)),
        )
      ],
    )

decodes : DecodesBlock copying file content 0 3
decodes = record {
  Progress = Progress;
  before_end = λ s at k p. omega (arith, p.0, p.1);
  within = λ s at k p. omega (arith, p.0);
  code_step = copy_step;
}

xz : IsXz copying file tt content 3
unfolding decodes
xz = record {
  info = λ offset. block_info;
  located = λ offset inside. rw (lt→ltb offset 3 inside) refl;
  past_end = λ offset past. rw (le→not-ltb offset 3 past) refl;
  from = λ offset inside. omega arith;
  before = λ offset inside. omega arith;
  inside = λ offset inside. omega arith;
  header = λ offset. tt;
  checked = λ offset. tt;
  stream = λ offset. 3;
  size_byte = λ offset inside e. omega (arith, e);
  some_header = λ offset inside. omega arith;
  header_bound = λ offset inside. omega arith;
  header_inside = λ offset inside. omega arith;
  header_decoded = λ offset inside. refl;
  size_matches = λ offset inside. refl;
  decoder = λ offset inside. refl;
  room = λ offset inside. omega arith;
  decodes = λ offset inside. (decodes, (refl, refl));
}

small : file.size < 2 ^ 63
small = omega arith

narrow : 3 < 2 ^ 63
narrow = omega arith

read_block-slice_example :
    read_block copying file tt 1
    ≡ ok (got (block_at copying file tt content 3 small xz 1 (omega arith)))
read_block-slice_example = read_block-slice copying file tt content 3 small xz 1 (omega arith)

xz_read-content_example :
    (r' : XzReader) × (xz_read copying file tt empty_reader 1 2 ≡ ok (pos 2, slice content 1 2, r'))
    × IsValid content 3 r'
xz_read-content_example =
    xz_read-content copying file tt content 3 small narrow xz empty_reader 1 2
      (empty_reader-IsValid content 3) (omega arith) (omega arith)

xz_read-past_end_example :
    (r' : XzReader) × (xz_read copying file tt empty_reader 1 9
      ≡ ok (pos (3 - 1 - 1), slice content 1 (3 - 1), r'))
    × IsValid content 3 r'
xz_read-past_end_example =
    xz_read-past_end copying file tt content 3 small narrow xz empty_reader 1 9
      (empty_reader-IsValid content 3) (omega arith) (omega arith)

xz_read-error_example :
    (r' : XzReader) × (xz_read copying file tt empty_reader 3 9 ≡ ok (reader_error, [], r'))
    × IsValid content 3 r'
xz_read-error_example =
    xz_read-error copying file tt content 3 small narrow xz empty_reader 3 9
      (empty_reader-IsValid content 3) (omega arith)

abbrev image : Image
image = record { size = 3; byte = content }

disk_read-xz_read_example :
    (bytes : List ℕ) × (r' : XzReader) × (disk_read image 1 2 ≡ ok bytes)
    × (xz_read copying file tt empty_reader 1 2 ≡ ok (pos 2, bytes, r'))
    × IsValid content 3 r'
disk_read-xz_read_example =
    disk_read-xz_read copying file tt image small narrow xz empty_reader 1 2
      (empty_reader-IsValid content 3) (omega arith) (omega arith) (omega arith)
