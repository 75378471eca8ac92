-- ===== src/Compression/Xz/Read/Turn.antt =====
-- One turn of `xz_read` on a file that liblzma understands.
use spotlight.Base.{
  ℕ, suc, ◌+◌, ◌-◌, ◌^◌, ◌≡◌, ◌≤◌, ◌<◌, leb, min, true, inl, inr, Option-cases, none, some, List,
  ◌++◌, length, take, drop, sub_u64, arith, refl, le→leb, lt→ltb, le→not-ltb,
}
use spotlight.Base.Int.{ℤ, pos, ◌+ℤ◌}
use spotlight.Base.Result.{ok}
use spotlight.Base.Bytes.{slice, slice_at, length-slice, take-slice, drop-slice}
use spotlight.Compression.File.{File}
use spotlight.Compression.Xz.Lzma.{Lzma, IsXz}
use spotlight.Compression.Xz.Cache.{Block, holds}
use spotlight.Compression.Xz.Block.{read_block}
use spotlight.Compression.Xz.Block.Decode.{block_at, read_block-slice}
use spotlight.Compression.Xz.Read.{XzReader, bytes_of_block, block_of_offset, xz_read_from}
use spotlight.Compression.Xz.Read.Valid.{
  IsBlock, IsValid, get_cache_block-IsValid, add_new_block-IsValid,
}

module _ (lz : Lzma) (file : File) (index : lz.Index) (content : ℕ → ℕ) (total : ℕ)
    (small : file.size < 2 ^ 63) (narrow : total < 2 ^ 63)
    (xz : IsXz lz file index content total) where
  holds_bounds :
      (b : Block) (offset : ℕ)
      → holds b offset ≡ true
      → (b.offset ≤ offset) × (offset < b.offset + b.size)
  holds_bounds b offset h = ground arith

  -- Inside the content, the block of an offset is one of the content that holds it.
  block_of_offset-IsBlock :
      (r : XzReader) (offset : ℕ)
      → IsValid content total r
      → offset < total
      → (b : Block) × (r' : XzReader) × (block_of_offset lz file index r offset ≡ ok (some b, r'))
        × IsValid content total r'
        × IsBlock content total b
        × (b.offset ≤ offset)
        × (offset < b.offset + b.size)
  unfolding block_of_offset
  block_of_offset-IsBlock r offset v inside =
      let (hit, g, cache', done, v', found) = get_cache_block-IsValid content total r offset v in
      elim (Option-cases hit) [
        | inr (b, e) ↦
            let (this, here) = found b e in
            let (low, high) = holds_bounds b offset here in
            (b, record r { heap = g; cache = cache' }, rw (done, e) refl, v', this, low, high)
        | inl e ↦
            let b = block_at lz file index content total small xz offset inside in
            let this : IsBlock content total b = record {
              bytes = refl;
              inside = xz.inside offset inside;
            } in
            let (g', cache'', added, v'') =
              add_new_block-IsValid content total (record r { heap = g; cache = cache' }) b v'
                this in
            (
              b,
              record { heap = g'; fresh = r.fresh + 1; cache = cache'' },
              rw
                  (
                    done,
                    e,
                    read_block-slice lz file index content total small xz offset inside,
                    added,
                  )
                  refl,
              v'',
              this,
              xz.from offset inside,
              xz.before offset inside,
            )
      ]

  pub block_of_offset-past_end :
      (r : XzReader) (offset : ℕ)
      → IsValid content total r
      → total ≤ offset
      → (r' : XzReader) × (block_of_offset lz file index r offset ≡ ok (none, r'))
        × IsValid content total r'
  unfolding block_of_offset read_block
  block_of_offset-past_end r offset v past =
      let (hit, g, cache', done, v', found) = get_cache_block-IsValid content total r offset v in
      elim (Option-cases hit) [
        | inr (b, e) ↦
            let (this, here) = found b e in
            let (low, high) = holds_bounds b offset here in absurd (omega (arith, this.inside))
        | inl e ↦ (
          record r { heap = g; cache = cache' },
          rw (done, e, read_block, xz.past_end offset past) refl,
          v',
        )
      ]

  -- The bytes that one turn copies out of a block.
  copied :
      (b : Block) (offset n : ℕ)
      → IsBlock content total b
      → b.offset ≤ offset
      → offset + n ≤ b.offset + b.size
      → (take n (drop (offset - b.offset) b.bytes) ≡ slice content offset n)
        × (leb (offset - b.offset + n) (length b.bytes) ≡ true)
  copied b offset n this low high =
      let o = offset - b.offset in
      (
        rw
            (
              this.bytes,
              drop-slice content b.offset b.size o,
              take-slice content (b.offset + o) (b.size - o) n,
            )
            (slice_at content _ _ _ _ (omega arith) (omega arith)),
        rw (this.bytes, length-slice content b.offset b.size) (le→leb (o + n) b.size (omega arith)),
      )

  some_of_block :
      (b : Block) (offset count : ℕ)
      → b.offset ≤ offset
      → offset < b.offset + b.size
      → IsBlock content total b
      → bytes_of_block b offset count ≡ min (b.offset + b.size - offset) count
  unfolding bytes_of_block
  some_of_block b offset count low high this =
      let left = b.offset + b.size - offset in
      let small_left : sub_u64 (b.offset + b.size) offset ≡ left = omega (arith, this.inside) in
      rw small_left (ground arith)

  -- One turn: a block's worth of bytes, then the rest.
  pub record Turn (fuel : ℕ) (r : XzReader) (offset count : ℕ) : Type 0 where
    pub n : ℕ
    pub r' : XzReader
    pub valid : IsValid content total r'
    pub some_byte : 0 < count → 0 < n
    pub enough : n ≤ count
    pub inside : offset + n ≤ total
    pub last :
        n ≡ count
        → xz_read_from lz file index (suc fuel) r offset count
          ≡ ok (pos n, slice content offset n, r')
    pub more :
        n < count
        → (ret : ℤ) (rest : List ℕ) (r'' : XzReader)
        → xz_read_from lz file index fuel r' (offset + n) (count - n) ≡ ok (ret, rest, r'')
        → xz_read_from lz file index (suc fuel) r offset count
          ≡ ok (pos n +ℤ ret, slice content offset n ++ rest, r'')

  pub turn :
      (fuel : ℕ) (r : XzReader) (offset count : ℕ)
      → IsValid content total r
      → offset < total
      → Turn fuel r offset count
  unfolding xz_read_from
  turn fuel r offset count v inside =
      let (b, r', done, v', this, low, high) = block_of_offset-IsBlock r offset v inside in
      let left = b.offset + b.size - offset in
      let n = min left count in
      let (bytes, fits) = copied b offset n this low (omega arith) in
      let chosen : bytes_of_block b offset count ≡ n = some_of_block b offset count low high this in
      record {
        n = n;
        r' = r';
        valid = v';
        some_byte = λ some_byte. omega arith;
        enough = omega arith;
        inside = omega (arith, this.inside);
        last = λ e.
            rw
              (
                xz_read_from,
                done,
                chosen,
                fits,
                le→not-ltb 0 (count - n) (omega arith),
                chosen,
                bytes,
              )
              refl;
        more = λ lt ret rest r'' e.
            rw
              (
                xz_read_from,
                done,
                chosen,
                fits,
                lt→ltb 0 (count - n) (omega arith),
                chosen,
                bytes,
                e,
              )
              refl;
      }
