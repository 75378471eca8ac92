-- ===== src/Compression/Xz/Lzma.antt =====
-- What xz_reader.c calls of liblzma, over its own types. Nothing of it is defined here: it is a
-- parameter, and what it documents is a record of laws.
use spotlight.Base.{
  ℕ, ◌+◌, ◌≡◌, ◌≢◌, ◌≤◌, ◌<◌, ◌⊎◌, Bool, true, false, Option, none, some, List, length,
}
use spotlight.Base.Bytes.{slice}
use spotlight.Compression.File.{File}

-- `lzma_ret`
pub data LzmaRet : Type 0 where
  lzma_ok lzma_stream_end lzma_prog_error lzma_data_error lzma_options_error : LzmaRet
  lzma_other : ℕ → LzmaRet

-- `return_value == LZMA_OK` and `return_value == LZMA_STREAM_END`
abbrev pub is_ok : LzmaRet → Bool
is_ok lzma_ok = true
is_ok lzma_stream_end = false
is_ok lzma_prog_error = false
is_ok lzma_data_error = false
is_ok lzma_options_error = false
is_ok (lzma_other n) = false

abbrev pub is_stream_end : LzmaRet → Bool
is_stream_end lzma_ok = false
is_stream_end lzma_stream_end = true
is_stream_end lzma_prog_error = false
is_stream_end lzma_data_error = false
is_stream_end lzma_options_error = false
is_stream_end (lzma_other n) = false

-- What the code reads of the block of a `lzma_index_iter`.
pub record BlockInfo : Type 0 where
  pub uncompressed_file_offset : ℕ
  pub uncompressed_size : ℕ
  pub compressed_file_offset : ℕ
  pub unpadded_size : ℕ
  pub check_type : ℕ

-- What a call of `lzma_code` leaves: the bytes of the input that it used, and those it put out.
pub record Coded (Stream : Type 0) : Type 0 where
  pub ret : LzmaRet
  pub stream : Stream
  pub used : ℕ
  pub out : List ℕ

pub record Lzma : Type 1 where
  pub Index : Type 0
  pub Header : Type 0
  pub Stream : Type 0
  -- `lzma_index_iter_locate`; none if no block holds the offset
  pub index_iter_locate : Index → ℕ → Option BlockInfo
  -- `lzma_block_header_size_decode`
  pub block_header_size_decode : ℕ → ℕ
  -- `lzma_block_header_decode`, from the check, the uncompressed size and the bytes of the header
  pub block_header_decode : ℕ → ℕ → List ℕ → LzmaRet × Header
  -- `uncompressed_size` of the block behind it, which the header may not know
  pub header_uncompressed_size : Header → ℕ
  -- `lzma_block_compressed_size`
  pub block_compressed_size : Header → ℕ → LzmaRet × Header
  -- `lzma_block_decoder`
  pub block_decoder : Header → LzmaRet × Stream
  -- `lzma_code`, from the input and the room for output
  pub code : Stream → List ℕ → ℕ → Coded Stream

-- The decoder of a block from the position `at` of the file on, after `k` bytes of output, as a
-- predicate on streams that each call of `lzma_code` keeps.
pub record DecodesBlock (lz : Lzma) (file : File) (content : ℕ → ℕ) (start size : ℕ) : Type 1 where
  pub Progress : lz.Stream → ℕ → ℕ → Type 0
  -- The index and the footer stand behind the last block.
  pub before_end : (s : lz.Stream) (at k : ℕ) → Progress s at k → at < file.size
  pub within : (s : lz.Stream) (at k : ℕ) → Progress s at k → k ≤ size
  -- Given input and room for the rest of the block, the decoder uses a part of the input and puts
  -- out bytes of the content. It ends with the last of them, and gets on before.
  pub code_step :
      (s : lz.Stream) (at k n room : ℕ)
      → Progress s at k
      → 0 < n
      → at + n ≤ file.size
      → size ≤ k + room
      → let c = lz.code s (slice file.byte at n) room in
        (c.used ≤ n)
        × (c.out ≡ slice content (start + k) (length c.out))
        × (k + length c.out ≤ size)
        × (((c.ret ≡ lzma_stream_end) × (k + length c.out ≡ size))
            ⊎ ((c.ret ≡ lzma_ok)
                × (0 < c.used + length c.out)
                × Progress c.stream (at + c.used) (k + length c.out)))

-- The file is an xz file that liblzma understands, whose blocks hold `content`.
pub record IsXz (lz : Lzma) (file : File) (index : lz.Index) (content : ℕ → ℕ) (total : ℕ)
    : Type 1 where
  pub info : ℕ → BlockInfo
  pub located :
      (offset : ℕ) → offset < total → lz.index_iter_locate index offset ≡ some (info offset)
  pub past_end : (offset : ℕ) → total ≤ offset → lz.index_iter_locate index offset ≡ none
  pub from : (offset : ℕ) → offset < total → (info offset).uncompressed_file_offset ≤ offset
  pub before :
      (offset : ℕ)
      → offset < total
      → offset < (info offset).uncompressed_file_offset + (info offset).uncompressed_size
  pub inside :
      (offset : ℕ)
      → offset < total
      → (info offset).uncompressed_file_offset + (info offset).uncompressed_size ≤ total
  pub header : ℕ → lz.Header
  pub stream : ℕ → lz.Stream
  pub size_byte : (offset : ℕ) → offset < total → file.byte (info offset).compressed_file_offset ≢ 0
  pub some_header :
      (offset : ℕ)
      → offset < total
      → 0 < lz.block_header_size_decode (file.byte (info offset).compressed_file_offset)
  -- LZMA_BLOCK_HEADER_SIZE_MAX
  pub header_bound :
      (offset : ℕ)
      → offset < total
      → lz.block_header_size_decode (file.byte (info offset).compressed_file_offset) ≤ 1024
  pub header_inside :
      (offset : ℕ)
      → offset < total
      → (info offset).compressed_file_offset
          + lz.block_header_size_decode (file.byte (info offset).compressed_file_offset)
        ≤ file.size
  pub header_decoded :
      (offset : ℕ)
      → offset < total
      → lz.block_header_decode (info offset).check_type (info offset).uncompressed_size (
          slice file.byte
            (info offset).compressed_file_offset
            (lz.block_header_size_decode (file.byte (info offset).compressed_file_offset)))
        ≡ (lzma_ok, header offset)
  pub checked : ℕ → lz.Header
  pub size_matches :
      (offset : ℕ)
      → offset < total
      → lz.block_compressed_size (header offset) (info offset).unpadded_size
        ≡ (lzma_ok, checked offset)
  pub decoder :
      (offset : ℕ) → offset < total → lz.block_decoder (checked offset) ≡ (lzma_ok, stream offset)
  pub room :
      (offset : ℕ)
      → offset < total
      → (info offset).uncompressed_size ≤ lz.header_uncompressed_size (checked offset)
  pub decodes :
      (offset : ℕ)
      → offset < total
      → (d : DecodesBlock lz file content
          (info offset).uncompressed_file_offset
          (info offset).uncompressed_size)
        × d.Progress
            (stream offset)
            ((info offset).compressed_file_offset
              + lz.block_header_size_decode (file.byte (info offset).compressed_file_offset))
            0
