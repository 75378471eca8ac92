-- ===== src/Compression/Xz/Read.antt =====
-- `xz_read` and `xz_reader_alloc`: reads of the decompressed stream through the cache of blocks.
pub mod Valid
pub mod Turn
pub mod Content
pub mod Disk
use spotlight.Base.{
  ℕ, zero, suc, ◌+◌, ◌-◌, ◌≤◌, ltb, leb, if◌then◌else◌, true, false, Option, none, some, List, [],
  ◌++◌, length, take, drop, sub_u64,
}
use spotlight.Base.Int.{ℤ, pos, negsuc, ◌+ℤ◌}
use spotlight.Base.Result.{Result, ok, fault, out_of_fuel, ◌>>=◌, ◌>>◌, check}
use spotlight.Compression.File.{File}
use spotlight.Compression.Xz.Lzma.{Lzma}
use spotlight.Compression.Xz.Cache.{Ptr, Block, Heap, Cache, null, get_cache_block, add_new_block}
use spotlight.Compression.Xz.Block.{BlockReply, got, refused, freed, read_block}

-- The part of `XzReader` that reads change: the cache with the heap of its entries, whose addresses
-- `malloc` hands out one by one.
pub record XzReader : Type 0 where
  pub heap : Heap
  pub fresh : Ptr
  pub cache : Cache

-- READER_ERROR
abbrev pub reader_error : ℤ
reader_error = negsuc 0

-- The cache of `xz_reader_alloc`
abbrev pub empty_reader : XzReader
empty_reader = record {
  heap = λ p. none;
  fresh = 1;
  cache = record { num_blocks = 0; first = null; last = null };
}

-- How many bytes `xz_read` takes from a block.
unfoldable pub bytes_of_block : Block → ℕ → ℕ → ℕ
bytes_of_block b offset length_ =
    let rest = sub_u64 (b.offset + b.size) offset in if ltb rest length_ then rest else length_

module _ (lz : Lzma) (file : File) (index : lz.Index) where
  -- The first part of `xz_read`: the block of the offset, from the cache or into it. None is an error
  -- of `read_block`.
  unfoldable pub block_of_offset : XzReader → ℕ → Result (Option Block × XzReader)
  block_of_offset r offset = do
    (hit, heap, cache) ← get_cache_block r.heap r.cache offset
    elim hit [
      | some b ↦ ok (some b, record r { heap = heap; cache = cache })
      | none ↦ do
        reply ← read_block lz file index offset
        elim reply [
          | refused ret ↦ ok (none, record r { heap = heap; cache = cache })
          | freed ↦ fault
          | got b ↦ do
            (heap, cache) ← add_new_block r.fresh heap cache b
            ok (some b, record { heap = heap; fresh = r.fresh + 1; cache = cache })
        ]
    ]

  -- `xz_read`: the number that it returns, and the bytes that it has written to the buffer. Each turn
  -- but the last gets a byte at least.
  unfoldable pub xz_read_from : ℕ → XzReader → ℕ → ℕ → Result (ℤ × List ℕ × XzReader)
  xz_read_from zero r offset length_ = out_of_fuel
  xz_read_from (suc fuel) r offset length_ = do
    (found, r) ← block_of_offset r offset
    elim found [
      | none ↦ ok (reader_error, [], r)
      | some b ↦
          let n = bytes_of_block b offset length_ in
          let bytes = take n (drop (offset - b.offset) b.bytes) in
          check (leb (offset - b.offset + n) (length b.bytes)) >> elim (ltb 0 (length_ - n)) [
            | false ↦ ok (pos n, bytes, r)
            | true ↦ do
              (ret, more, r) ← xz_read_from fuel r (offset + n) (length_ - n)
              ok (pos n +ℤ ret, bytes ++ more, r)
          ]
    ]

  unfoldable pub xz_read : XzReader → ℕ → ℕ → Result (ℤ × List ℕ × XzReader)
  xz_read r offset length_ = xz_read_from (length_ + 1) r offset length_
