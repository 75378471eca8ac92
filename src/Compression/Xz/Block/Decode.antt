-- ===== src/Compression/Xz/Block/Decode.antt =====
-- `read_block` on a file that liblzma understands.
use spotlight.Base.{
  ℕ, zero, suc, ◌+◌, ◌-◌, ◌^◌, ◌≡◌, ◌≤◌, ◌<◌, ltb, min, if◌then◌else◌, Bool-cases, inl, inr, some,
  [], ◌∷◌, ◌++◌, length, sub_u64, sub_u32, arith, refl, ap, ◌∙◌, eq→==, ne→not-==, le→leb, lt→ltb,
  not-ltb→le,
}
use spotlight.Base.Result.{ok}
use spotlight.Base.Bytes.{slice, slice_at, length-slice, drop-slice, slice-append}
use spotlight.Compression.File.{File, pread_file}
use spotlight.Compression.Xz.Lzma.{lzma_stream_end, Lzma, DecodesBlock, IsXz}
use spotlight.Compression.Xz.Cache.{Block}
use spotlight.Compression.Xz.Block.{
  io_buffer_size, got, refill, decode_loop, block_reply, decode_block, read_block,
}

pread_file-slice :
    (file : File) (count at : ℕ)
    → at + count ≤ file.size
    → pread_file file count at ≡ slice file.byte at count
unfolding pread_file
pread_file-slice file count at h =
    slice_at file.byte at at (min count (file.size - at)) count refl (omega arith)

module _ (lz : Lzma) (file : File) (small : file.size < 2 ^ 63) where
  -- The bytes of one `pread` inside the file.
  refill-read :
      (at m : ℕ)
      → 0 < m
      → at + m ≤ file.size
      → (if ltb file.size (at + io_buffer_size) then sub_u64 file.size at else io_buffer_size) ≡ m
      → refill lz file [] at ≡ some (slice file.byte at m, at + m)
  unfolding refill
  refill-read at m some_byte inside e =
      rw
        (
          e,
          lt→ltb 0 m some_byte,
          pread_file-slice file m at inside,
          length-slice file.byte at m,
          eq→== m m refl,
        )
        refl

  refill-pending :
      (at n : ℕ)
      → 0 < n
      → refill lz file (slice file.byte at n) (at + n) ≡ some (slice file.byte at n, at + n)
  unfolding refill
  refill-pending at n some_byte = rw (length-slice file.byte at n, ne→not-== n 0 (omega arith)) refl

  refill-slice :
      (at n : ℕ)
      → at < file.size
      → at + n ≤ file.size
      → (m : ℕ) × (refill lz file (slice file.byte at n) (at + n)
          ≡ some (slice file.byte at m, at + m))
        × (0 < m)
        × (at + m ≤ file.size)
  unfolding slice
  refill-slice at zero before inside =
      let here : at + 0 ≡ at = omega arith in
      elim (Bool-cases (ltb file.size (at + io_buffer_size))) [
        | inl last ↦
            let m = file.size - at in
            let few : sub_u64 file.size at ≡ m = omega arith in
            (
              m,
              rw here (refill-read at m (omega arith) (omega arith) (rw last few)),
              omega arith,
              omega arith,
            )
        | inr more ↦
            let le = not-ltb→le file.size (at + io_buffer_size) more in
            (
              io_buffer_size,
              rw here (refill-read at io_buffer_size (omega arith) (omega arith) (rw more refl)),
              omega arith,
              omega arith,
            )
      ]
  refill-slice at (suc n) before inside =
      (suc n, refill-pending at (suc n) (omega arith), omega arith, inside)

  module _ (content : ℕ → ℕ) (start size : ℕ) (d : DecodesBlock lz file content start size) where
    -- The loop ends with the whole block, each turn having read or written something.
    pub decode_loop-slice :
        (fuel : ℕ) (stream : lz.Stream) (at n k room : ℕ)
        → d.Progress stream at k
        → at + n ≤ file.size
        → size ≤ k + room
        → (file.size - at) + (size - k) < fuel
        → decode_loop lz file fuel size stream
            (slice file.byte at n)
            (at + n)
            room
            (slice content start k)
          ≡ ok (some (lzma_stream_end, slice content start size))
    unfolding decode_loop
    decode_loop-slice zero stream at n k room p inside wide enough = absurd (omega arith)
    decode_loop-slice (suc fuel) stream at n k room p inside wide enough =
        let before = d.before_end stream at k p in
        let (m, filled, some_byte, inside') = refill-slice at n before inside in
        let (few, bytes, fits, next) = d.code_step stream at k m room p some_byte inside' wide in
        let c = lz.code stream (slice file.byte at m) room in
        let o = length c.out in
        let joined : slice content start k ++ c.out ≡ slice content start (k + o) =
          ap (λ b. slice content start k ++ b) bytes
          ∙ slice-append content start k o (k + o) refl in
        let roomy = le→leb (k + o) size fits in
        let moved : at + m ≡ at + c.used + (m - c.used) = omega arith in
        elim next [
          | inl (end, all) ↦
              rw (decode_loop, filled, length-slice content start k, roomy, end, joined, all, end)
                refl
          | inr (go, some_progress, p') ↦
              rw
                (
                  decode_loop,
                  filled,
                  length-slice content start k,
                  roomy,
                  go,
                  joined,
                  drop-slice file.byte at m c.used,
                )
                (rw (moved) (
                  decode_loop-slice fuel c.stream (at + c.used) (m - c.used) (k + o) (room - o) p'
                    (omega arith) (omega arith) (omega arith)))
        ]

module _ (lz : Lzma) (file : File) (index : lz.Index) (content : ℕ → ℕ) (total : ℕ)
    (small : file.size < 2 ^ 63) (xz : IsXz lz file index content total) (offset : ℕ)
    (inside : offset < total) where
  abbrev start : ℕ
  start = (xz.info offset).uncompressed_file_offset

  abbrev size : ℕ
  size = (xz.info offset).uncompressed_size

  abbrev at : ℕ
  at = (xz.info offset).compressed_file_offset

  abbrev header_size : ℕ
  header_size = lz.block_header_size_decode (file.byte at)

  abbrev pub block_at : Block
  block_at = record { offset = start; size = size; bytes = slice content start size }

  decode_block-slice :
      decode_block lz file (xz.info offset) (at + header_size) (xz.header offset)
      ≡ ok (got block_at)
  unfolding decode_block slice block_reply
  decode_block-slice =
      let (d, p) = xz.decodes offset inside in
      let none_left : at + header_size ≡ at + header_size + 0 = omega arith in
      let done =
        decode_loop-slice lz file small content start size d (file.size + size + 1)
          (xz.stream offset) (at + header_size) 0 0
          (lz.header_uncompressed_size (xz.checked offset)) p
          (omega (arith, xz.header_inside offset inside)) (omega (arith, xz.room offset inside))
          (omega arith) in
      rw (xz.size_matches offset inside, xz.decoder offset inside, none_left, done) refl

  first_byte : pread_file file 1 at ≡ file.byte at ∷ []
  unfolding slice
  first_byte =
      pread_file-slice file 1 at
        (omega (arith, xz.some_header offset inside, xz.header_inside offset inside))

  header_bytes :
      file.byte at ∷ slice file.byte (at + 1) (header_size - 1) ≡ slice file.byte at header_size
  unfolding slice
  header_bytes =
      slice-append file.byte at 1 (header_size - 1) header_size
        (omega (arith, xz.some_header offset inside))

  -- On a file below 2^63 bytes that liblzma understands, `read_block` ends for every offset inside
  -- the content, its fuel being enough, and returns the block that the index names for the offset,
  -- with its start, its size and its bytes of the content.
  pub read_block-slice : read_block lz file index offset ≡ ok (got block_at)
  unfolding read_block
  read_block-slice =
      let h = header_size in
      let some_byte = xz.some_header offset inside in
      let bound = xz.header_bound offset inside in
      let fits = xz.header_inside offset inside in
      let less : sub_u32 h 1 ≡ h - 1 = omega arith in
      let behind : at + 1 + (h - 1) ≡ at + h = omega arith in
      rw
        (
          read_block,
          xz.located offset inside,
          first_byte,
          ne→not-== (file.byte at) 0 (xz.size_byte offset inside),
          less,
          pread_file-slice file (h - 1) (at + 1) (omega arith),
          length-slice file.byte (at + 1) (h - 1),
          eq→== (h - 1) (h - 1) refl,
          header_bytes,
          xz.header_decoded offset inside,
          behind,
        )
        decode_block-slice
