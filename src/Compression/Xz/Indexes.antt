-- ===== src/Compression/Xz/Indexes.antt =====
-- compression/xz/xz_reader.c: `parse_block_indexes`, which reads the indexes of the streams of a file
-- from its end, `xz_is_supported` and `xz_reader_alloc`. What they call of liblzma is a parameter.
pub mod Locate
mod Tests
use spotlight.Base.{
  ℕ, zero, suc, ◌+◌, ◌-◌, ◌*◌, ◌==◌, ltb, min, max, ◌&&◌, if◌then◌else◌, not, Bool, true, false,
  Option, none, some, List, [], ◌∷◌, length, get_or,
}
use spotlight.Base.Result.{Result, ok, out_of_fuel, ◌>>=◌, ◌>>◌, check}
use spotlight.Compression.File.{File, pread_file, fread, same_magic}
use spotlight.Compression.Xz.Lzma.{
  LzmaRet, lzma_ok, lzma_stream_end, lzma_prog_error, lzma_data_error, lzma_options_error, is_ok,
  is_stream_end,
}
use spotlight.Compression.Xz.Block.{io_buffer_size}
use spotlight.Compression.Xz.Read.{XzReader, empty_reader}

abbrev pub max_supported_block_size_mb : ℕ
max_supported_block_size_mb = 64

-- XZ_MAGIC_HEADER
abbrev pub xz_magic_header : List ℕ
xz_magic_header = 253 ∷ 55 ∷ 122 ∷ 88 ∷ 90 ∷ 0 ∷ []

-- A call of `lzma_code` with the index decoder; the index is there at the end of its stream.
pub record Decoded (Stream Index : Type 0) : Type 0 where
  pub ret : LzmaRet
  pub stream : Stream
  pub used : ℕ
  pub index : Index

-- The calls of liblzma.
pub record IndexLzma : Type 1 where
  pub Index : Type 0
  pub Stream : Type 0
  pub Flags : Type 0
  -- LZMA_STREAM_HEADER_SIZE
  pub stream_header_size : ℕ
  -- `lzma_stream_footer_decode` and `lzma_stream_header_decode`
  pub stream_footer_decode : List ℕ → LzmaRet × Flags
  pub stream_header_decode : List ℕ → LzmaRet × Flags
  pub version : Flags → ℕ
  pub backward_size : Flags → ℕ
  -- `lzma_stream_flags_compare`
  pub stream_flags_compare : Flags → Flags → LzmaRet
  -- `lzma_index_decoder`, and `lzma_code` behind it
  pub index_decoder : LzmaRet × Stream
  pub code : Stream → List ℕ → Decoded Stream Index
  pub index_total_size : Index → ℕ
  pub index_stream_flags : Index → Flags → LzmaRet × Index
  pub index_stream_padding : Index → ℕ → LzmaRet × Index
  pub index_cat : Index → Index → LzmaRet × Index
  -- the uncompressed sizes of the blocks that `lzma_index_iter_next` goes through
  pub nonempty_blocks : Index → List ℕ

-- A step of the parser: an error, with which the code leaves by `goto error`, or a value.
pub data Step (A : Type 0) : Type 0 where
  leaves : LzmaRet → Step A
  goes : A → Step A

-- What the search for a footer finds.
pub record Footer : Type 0 where
  pub position : ℕ
  pub stream_padding : ℕ
  pub buffer : List ℕ

-- How many of the bytes 2, 1 and 0 of the buffer are zero, from byte 2 on; byte 2 is.
unfoldable pub zeros_back : List ℕ → ℕ
zeros_back buffer = if get_or buffer 1 0 == 0 then (if get_or buffer 0 0 == 0 then 3 else 2) else 1

-- The largest uncompressed size
unfoldable pub max_block_size : List ℕ → ℕ
max_block_size [] = 0
max_block_size (size ∷ blocks) = max size (max_block_size blocks)

module _ (lz : IndexLzma) (file : File) where
  -- The loop that locates the footer of a stream. It moves back by 4 bytes at least.
  unfoldable pub locate_footer : ℕ → ℕ → ℕ → Result (Step Footer)
  locate_footer zero position stream_padding = out_of_fuel
  locate_footer (suc fuel) position stream_padding =
      let buffer = pread_file file lz.stream_header_size position in
      let k = zeros_back buffer in
      elim (ltb position lz.stream_header_size) [
        | true ↦ ok (leaves lzma_data_error)
        | false ↦ elim (length buffer == lz.stream_header_size) [
          | false ↦ ok (leaves lzma_prog_error)
          | true ↦ elim (get_or buffer 2 0 == 0) [
            | false ↦ ok (
                goes (record {
                  position = position;
                  stream_padding = stream_padding;
                  buffer = buffer;
                }))
            | true ↦ locate_footer fuel (position - 4 * k) (stream_padding + 4 * k)
          ]
        ]
      ]

  -- The loop that decodes an index: the return value, the index, the bytes of it that were not read,
  -- and `avail_in`.
  unfoldable pub decode_index : ℕ → lz.Stream → ℕ → ℕ → Result (Step (LzmaRet × lz.Index × ℕ × ℕ))
  decode_index zero stream position index_size = out_of_fuel
  decode_index (suc fuel) stream position index_size =
      let pread_size = min io_buffer_size index_size in
      let buffer = pread_file file pread_size position in
      let c = lz.code stream buffer in
      elim (length buffer == pread_size) [
        | false ↦ ok (leaves lzma_prog_error)
        | true ↦ elim (is_ok c.ret) [
          | true ↦ decode_index fuel c.stream (position + pread_size) (index_size - pread_size)
          | false ↦ ok (goes (c.ret, c.index, index_size - pread_size, pread_size - c.used))
        ]
      ]

  -- The index in front of a footer, when its decoder stops at its end.
  unfoldable pub whole_index : ℕ → ℕ → ℕ → Result (Step lz.Index)
  whole_index fuel position index_size =
      let (ret, stream) = lz.index_decoder in
      if not (is_ok ret) then ok (leaves ret) else do
        step ← decode_index fuel stream position index_size
        elim step [
          | leaves ret ↦ ok (leaves ret)
          | goes (ret, index, left, avail_in) ↦
              if not (is_stream_end ret)
              then ok (leaves ret)
              else if left == 0 && avail_in == 0
              then ok (goes index)
              else ok (leaves lzma_data_error)
        ]

  -- One turn of the loop over the streams: the index of the stream that ends at the position, the
  -- flags of its footer, its padding, and where it starts.
  unfoldable pub parse_stream : ℕ → ℕ → Result (Step (lz.Index × lz.Flags × ℕ × ℕ))
  parse_stream fuel position =
      let h = lz.stream_header_size in
      if ltb position (2 * h) then ok (leaves lzma_data_error) else do
        step ← locate_footer fuel (position - h) 0
        elim step [
          | leaves ret ↦ ok (leaves ret)
          | goes footer ↦
              let (ret, flags) = lz.stream_footer_decode footer.buffer in
              let index_size = lz.backward_size flags in
              let start = footer.position - index_size in
              if not (is_ok ret)
              then ok (leaves ret)
              else if not (lz.version flags == 0)
              then ok (leaves lzma_options_error)
              else if ltb footer.position (index_size + h)
              then ok (leaves lzma_data_error)
              else do
                step ← whole_index fuel start index_size
                elim step [
                  | leaves ret ↦ ok (leaves ret)
                  | goes index ↦
                      let first = start - h - lz.index_total_size index in
                      let buffer = pread_file file h first in
                      let (ret, header) = lz.stream_header_decode buffer in
                      if ltb (start - h) (lz.index_total_size index)
                      then ok (leaves lzma_data_error)
                      else if not (length buffer == h)
                      then ok (leaves lzma_prog_error)
                      else if not (is_ok ret)
                      then ok (leaves ret)
                      else if not (is_ok (lz.stream_flags_compare header flags))
                      then ok (leaves (lz.stream_flags_compare header flags))
                      else ok (goes (index, flags, footer.stream_padding, first))
                ]
        ]

  -- The flags and the padding go into the index, then the indexes behind it.
  unfoldable pub join_index : lz.Index → lz.Flags → ℕ → Option lz.Index → LzmaRet × Step lz.Index
  join_index index flags stream_padding behind =
      let (ignored, index) = lz.index_stream_flags index flags in
      let (ret, index) = lz.index_stream_padding index stream_padding in
      elim behind [
        | none ↦ (ret, goes index)
        | some indexes ↦
            let (ret, index) = lz.index_cat index indexes in
            if is_ok ret then (ret, goes index) else (ret, leaves ret)
      ]

  -- The loop of `parse_block_indexes`: the return value, and the index with the padding.
  unfoldable pub parse_from :
      ℕ → ℕ → ℕ → Option lz.Index → ℕ → Result (LzmaRet × Option lz.Index × ℕ)
  parse_from zero fuel position indexes stream_padding = out_of_fuel
  parse_from (suc streams) fuel position indexes stream_padding = do
    step ← parse_stream fuel position
    elim step [
      | leaves ret ↦ ok (ret, none, stream_padding)
      | goes (index, flags, padding, first) ↦
          let (ret, joined) = join_index index flags padding indexes in
          elim joined [
            | leaves ret ↦ ok (ret, none, stream_padding)
            | goes index ↦ elim (first == 0) [
              | true ↦ ok (ret, some index, stream_padding + padding)
              | false ↦ parse_from streams fuel first (some index) (stream_padding + padding)
            ]
          ]
    ]

  -- `parse_block_indexes`, on a number of turns for each loop
  unfoldable pub parse_block_indexes : ℕ → Result (LzmaRet × Option lz.Index × ℕ)
  parse_block_indexes fuel = parse_from fuel fuel file.size none 0

-- `xz_is_supported`
unfoldable pub xz_is_supported : IndexLzma → File → ℕ → Result (Bool × File)
xz_is_supported lz xz_file fuel =
    let (file_header, xz_file) = fread xz_file 6 in
    check (length file_header == 6) >> elim (same_magic file_header xz_magic_header) [
      | false ↦ ok (false, xz_file)
      | true ↦ do
        (ret, index, stream_padding) ← parse_block_indexes lz xz_file fuel
        elim (is_ok ret) [
          | false ↦ ok (false, xz_file)
          | true ↦ elim index [
            | none ↦ ok (true, xz_file)
            | some index ↦ ok (
              not (
                  ltb (max_supported_block_size_mb * 1024 * 1024)
                    (max_block_size (lz.nonempty_blocks index))),
              xz_file,
            )
          ]
        ]
    ]

-- `xz_reader_alloc`: the index and the reader; none is NULL.
unfoldable pub xz_reader_alloc :
    (lz : IndexLzma) → File → ℕ → Result (Option (Option lz.Index × XzReader))
xz_reader_alloc lz xz_file fuel = do
  (ret, index, stream_padding) ← parse_block_indexes lz xz_file fuel
  if is_ok ret then ok (some (index, empty_reader)) else ok none
