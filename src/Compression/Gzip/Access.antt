-- ===== src/Compression/Gzip/Access.antt =====
-- gzip_reader.c: reads of the decompressed stream from an access point of the index.
pub mod Fill
pub mod Skip
pub mod Content
use spotlight.Base.{
  ℕ, zero, suc, ◌+◌, ◌-◌, ◌%◌, ◌^◌, ltb, leb, ◌==◌, ◌&&◌, if◌then◌else◌, Bool, true, false, Option,
  none, some, List, [], ◌∷◌, ◌++◌, length, drop,
}
use spotlight.Base.Int.{ℤ, negsuc, to_int}
use spotlight.Base.Result.{Result, ok, fault, out_of_fuel, ◌>>=◌, ◌>>◌, check}
use spotlight.Compression.File.{same_magic, File, fread}
use spotlight.Compression.Gzip.{AccessPoint, GzipReader, window_size, chunk, raw_inflate_bits}
use spotlight.Compression.Gzip.Index.{resume, check_and_build_index}
use spotlight.Compression.Gzip.Zlib.{
  ZRet, z_ok, z_stream_end, z_need_dict, z_errno, z_data_error, z_mem_error, z_other, is_z_ok, Zlib,
}

-- INDEXER_ERROR
abbrev pub indexer_error : ℤ
indexer_error = negsuc 0

-- GZIP_MAGIC_HEADER
abbrev pub gzip_magic_header : List ℕ
gzip_magic_header = 31 ∷ 139 ∷ []

-- The stream with the input that it has left, and the file.
pub record Inflating (Stream : Type 0) : Type 0 where
  pub stream : Stream
  pub file : File
  pub input : List ℕ

-- `gzip_is_supported`, with the file behind its read
unfoldable pub gzip_is_supported : File → Result (Bool × File)
gzip_is_supported gzip_file =
    let (file_header, gzip_file) = fread gzip_file 2 in
    check (length file_header == 2) >> ok (same_magic file_header gzip_magic_header, gzip_file)

-- The search of `_gzip_read` for the access point to start at.
unfoldable pub find_access_point : AccessPoint → List AccessPoint → ℕ → AccessPoint
find_access_point current [] offset = current
find_access_point current (next ∷ list) offset =
    if ltb next.raw_byte_address offset then find_access_point next list offset else current

-- Z_STREAM_END counts as Z_OK.
abbrev pub is_done : ZRet → Bool
is_done z_ok = true
is_done z_stream_end = true
is_done z_need_dict = false
is_done z_errno = false
is_done z_data_error = false
is_done z_mem_error = false
is_done (z_other n) = false

module _ (z : Zlib) where
  -- The read of the next chunk, when all input is used.
  unfoldable pub refill_input : Inflating z.Stream → Inflating z.Stream
  refill_input st =
      if length st.input == 0
      then (let (input, file) = fread st.file chunk in record st { file = file; input = input })
      else st

  -- `read_next_chunk`, with the room for output; the bytes put out are the second result.
  unfoldable pub read_next_chunk : Inflating z.Stream → ℕ → ZRet × List ℕ × Inflating z.Stream
  read_next_chunk st avail_out =
      let st = refill_input st in
      if length st.input == 0
      then (z_data_error, [], st)
      else (let c = z.inflate st.stream st.input avail_out in
          (c.ret, c.out, record st { stream = c.stream; input = drop c.used st.input }))

  -- The inner loop of `_gzip_read`: until the room is filled. How often zlib is called has no bound
  -- that the code knows, so the turns are given.
  unfoldable pub fill : ℕ → Inflating z.Stream → ℕ → Result (ZRet × List ℕ × Inflating z.Stream)
  fill zero st avail_out = out_of_fuel
  fill (suc turns) st avail_out =
      let (ret, out, st) = read_next_chunk st avail_out in
      elim (ltb 0 (avail_out - length out) && is_z_ok ret) [
        | false ↦ ok (ret, out, st)
        | true ↦ do
          (ret, more, st) ← fill turns st (avail_out - length out)
          ok (ret, out ++ more, st)
      ]

  -- The outer loop: bytes are thrown away until the offset is reached, then put into the buffer, whose
  -- length zlib takes as an unsigned int.
  unfoldable pub skip_then_fill :
      ℕ → ℕ → Inflating z.Stream → ℕ → ℕ → Result (ZRet × List ℕ × Inflating z.Stream)
  skip_then_fill zero turns st offset length_ = out_of_fuel
  skip_then_fill (suc windows) turns st offset length_ = elim (offset == 0) [
    | true ↦ fill turns st (length_ % 2 ^ 32)
    | false ↦
        let n = if ltb window_size offset then window_size else offset in
        do
          (ret, discarded, st) ← fill turns st n
          elim (is_z_ok ret) [
            | false ↦ ok (ret, [], st)
            | true ↦ skip_then_fill windows turns st (offset - n) length_
          ]
  ]

  -- `_gzip_read`: the return value, and the bytes in the buffer. An access point behind the offset is
  -- a fault here; the code then skips by a negative offset.
  unfoldable pub gzip_read_indexed : ℕ → GzipReader → ℕ → ℕ → Result (ZRet × List ℕ × GzipReader)
  gzip_read_indexed turns reader offset length_ = elim (length_ == 0) [
    | true ↦ ok (z_ok, [], reader)
    | false ↦ elim reader.list [
      | [] ↦ fault
      | first ∷ list ↦
          let current = find_access_point first list offset in
          let (ret, stream) = z.inflate_init raw_inflate_bits in
          elim (is_z_ok ret) [
            | false ↦ ok (ret, [], reader)
            | true ↦ elim (resume z stream reader.gzip_file current) [
              | none ↦ ok (z_data_error, [], reader)
              | some (stream, file) ↦ check (leb current.raw_byte_address offset) >> do
                (ret, bytes, st) ←
                    skip_then_fill (offset + 1) turns
                      (record { stream = stream; file = file; input = [] })
                      (offset - current.raw_byte_address) length_
                ok (ret, bytes, record reader { gzip_file = st.file })
            ]
          ]
    ]
  ]

  -- `gzip_read`: the number that it returns, and the bytes in the buffer. An assertion that does not
  -- hold is a fault.
  unfoldable pub gzip_read : ℕ → List ℕ → GzipReader → ℕ → ℕ → Result (ℤ × List ℕ × GzipReader)
  gzip_read turns stack reader offset length_ = do
    (ret, reader) ← check_and_build_index z turns stack reader (offset + length_)
    check (is_done ret) >> do
      (ret, bytes, reader) ← gzip_read_indexed turns reader offset length_
      check (is_done ret) >> ok (to_int length_, bytes, reader)
