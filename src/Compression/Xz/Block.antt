-- ===== src/Compression/Xz/Block.antt =====
-- `read_block`: a block of the decompressed stream, decoded by liblzma.
pub mod Decode
use spotlight.Base.{
  ℕ, zero, suc, ◌+◌, ◌-◌, ◌==◌, ltb, leb, if◌then◌else◌, true, false, Option, none, some, List, [],
  ◌∷◌, ◌++◌, length, drop, get_or, sub_u64, sub_u32, u64,
}
use spotlight.Base.Result.{Result, ok, fault, out_of_fuel, ◌>>=◌, ◌>>◌, check}
use spotlight.Compression.File.{File, pread_file}
use spotlight.Compression.Xz.Lzma.{
  LzmaRet, lzma_ok, lzma_prog_error, lzma_data_error, is_ok, is_stream_end, BlockInfo, Coded, Lzma,
}
use spotlight.Compression.Xz.Cache.{Block}

abbrev pub io_buffer_size : ℕ
io_buffer_size = 16384

-- What `read_block` returns: a block, or what is not `LZMA_OK`. `freed` is `LZMA_OK` with data that
-- have been freed already.
pub data BlockReply : Type 0 where
  got : Block → BlockReply
  refused : LzmaRet → BlockReply
  freed : BlockReply

module _ (lz : Lzma) (file : File) where
  -- The input of the next call of `lzma_code`, and the offset behind it; none if the file has less.
  unfoldable pub refill : List ℕ → ℕ → Option (List ℕ × ℕ)
  refill pending compressed_offset =
      let avail_in =
        if ltb file.size (compressed_offset + io_buffer_size)
        then sub_u64 file.size compressed_offset
        else io_buffer_size in
      let bytes = pread_file file avail_in compressed_offset in
      if length pending == 0
      then (if ltb 0 avail_in
          then (if length bytes == avail_in
              then some (bytes, compressed_offset + avail_in)
              else none)
          else some (pending, compressed_offset))
      else some (pending, compressed_offset)

  -- The loop over `lzma_code`: the input that is left from the last read, the offset behind it, the
  -- room, and what has been written to `data`, which is `size` bytes long.
  unfoldable pub decode_loop :
      ℕ → ℕ → lz.Stream → List ℕ → ℕ → ℕ → List ℕ → Result (Option (LzmaRet × List ℕ))
  decode_loop zero size stream pending compressed_offset avail_out written = out_of_fuel
  decode_loop (suc fuel) size stream pending compressed_offset avail_out written =
      elim (refill pending compressed_offset) [
        | none ↦ ok none
        | some (input, compressed_offset) ↦
            let c = lz.code stream input avail_out in
            check (leb (length written + length c.out) size) >> elim (is_ok c.ret) [
              | true ↦
                  decode_loop fuel size c.stream (drop c.used input) compressed_offset
                    (avail_out - length c.out) (written ++ c.out)
              | false ↦ ok (some (c.ret, written ++ c.out))
            ]
      ]

  -- The end of `read_block`: the error path frees the data, and returns what the loop returned.
  unfoldable pub block_reply : BlockInfo → Option (LzmaRet × List ℕ) → BlockReply
  block_reply info none = freed
  block_reply info (some (ret, written)) =
      if is_stream_end ret
      then got (record {
        offset = info.uncompressed_file_offset;
        size = info.uncompressed_size;
        bytes = written;
      })
      else refused ret

  -- `read_block` from the decoded header on. The error paths in front of `malloc` free a pointer that
  -- was never set.
  unfoldable pub decode_block : BlockInfo → ℕ → lz.Header → Result BlockReply
  decode_block info compressed_offset header =
      let (ret, header) = lz.block_compressed_size header info.unpadded_size in
      if is_ok ret
      then (let (ret, stream) = lz.block_decoder header in
          if is_ok ret
          then (do
            end ←
                decode_loop (file.size + info.uncompressed_size + 1) info.uncompressed_size stream
                  [] compressed_offset (lz.header_uncompressed_size header) []
            ok (block_reply info end))
          else fault)
      else fault

  -- `read_block`
  unfoldable pub read_block : lz.Index → ℕ → Result BlockReply
  read_block index offset = elim (lz.index_iter_locate index offset) [
    | none ↦ ok (refused lzma_prog_error)
    | some info ↦
        let at = info.compressed_file_offset in
        let first = pread_file file 1 at in
        if length first == 1
        then (if get_or first 0 0 == 0
            then ok (refused lzma_data_error)
            else (let header_size = lz.block_header_size_decode (get_or first 0 0) in
                let rest = pread_file file (sub_u32 header_size 1) (at + 1) in
                if length rest == sub_u32 header_size 1
                then (let (ret, header) =
                      lz.block_header_decode info.check_type info.uncompressed_size
                        (first ++ rest) in
                    if is_ok ret
                    then decode_block info (at + 1 + sub_u32 header_size 1) header
                    else ok (refused ret))
                else ok (refused lzma_data_error)))
        else ok (refused lzma_prog_error)
  ]
