-- ===== src/Ext4/Read/First.antt =====
-- `first_read`: the bytes up to the first block boundary.
use native.Mathlib.Nat.{div-add-mod', mod-lt}
use native.Mathlib.Decide.{dec_le, ℕ_discrete}
use spotlight.Base.{
  ℕ, ◌+◌, ◌-◌, ◌*◌, ◌/◌, ◌%◌, ◌^◌, ◌==◌, ◌≡◌, ◌≢◌, ◌≤◌, ◌<◌, if◌then◌else◌, min, arith, ap, ◌∙◌,
  refl, sym, inl, inr, u32, u64, sub_u64, ne→not-==, eq→==,
}
use spotlight.Base.Blocks.{div_of_parts, mod_of_parts, le-div, le-mul_left}
use spotlight.Base.Result.{ok}
use spotlight.Base.Bytes.{slice, slice_at}
use spotlight.Ext4.Disk.{Image}
use spotlight.Ext4.Disk.Laws.{disk_read-slice}
use spotlight.Ext4.Super.{SuperBlock, block_size, blocks2bytes, align_to}
use spotlight.Ext4.Inode.{Inode, inode_get_size}
use spotlight.Ext4.BlockMap.{inode_get_data_pblock}
use spotlight.Ext4.Read.{first_read}
use spotlight.Ext4.Read.Content.{file_byte, IsRun, IsMapped, CanStart, slice-run}
use spotlight.Ext4.Read.Loop.{lt-bytes2blocks}

-- How far `first_read` goes.
abbrev pub head_size : ℕ → ℕ → ℕ → ℕ
head_size width size offset = if offset % width == 0 then 0 else min size (width - offset % width)

pub align_to-up : (n w : ℕ) → n % w ≢ 0 → align_to n w ≡ n % 2 ^ 32 / w * w + w
unfolding align_to
align_to-up n w ne = rw (ne→not-== (n % w) 0 ne) refl

-- Rounding up a position inside a block of the first 4 GiB.
align_to-boundary :
    (w q r offset : ℕ)
    → offset ≡ q * w + r
    → 0 < r
    → r < w
    → offset < 2 ^ 32
    → align_to offset w ≡ q * w + w
unfolding align_to
align_to-boundary w q r offset e some h low =
    let rem = mod_of_parts w q r e h in
    let quot = div_of_parts w q r e h in
    let same : offset % 2 ^ 32 ≡ offset = omega arith in
    rw (ne→not-== (offset % w) 0 (omega arith), same, quot) refl

block_size-lt : (s : SuperBlock) → block_size s < 2 ^ 32
unfolding block_size
block_size-lt s = omega arith

module _ (w size offset : ℕ) (pos : 0 < w) (some : 0 < size) where
  -- The last byte lies in the block of the first exactly when the read ends before the boundary.
  last-short : offset % w + size ≤ w → (offset + (size - 1)) / w ≡ offset / w
  last-short h =
      let parts = div-add-mod' offset w in
      div_of_parts w (offset / w) (offset % w + (size - 1)) (omega arith) (omega arith)

  pub last-long : w < offset % w + size → offset / w < (offset + (size - 1)) / w
  last-long h =
      let parts = div-add-mod' offset w in
      omega (arith, le-div w (offset / w + 1) (offset + (size - 1)) (omega arith) pos)

module _ (image : Image) (s : SuperBlock) (inode : Inode) (pos : 0 < block_size s)
    (small : image.size < 2 ^ 63) (size offset : ℕ) (some : 0 < size) (narrow : size < 2 ^ 31)
    (low : offset < 2 ^ 32) where
  abbrev w : ℕ
  w = block_size s

  abbrev q : ℕ
  q = offset / w

  abbrev r : ℕ
  r = offset % w

  abbrev last : ℕ
  last = (offset + (size - 1)) / w

  -- Behind the start of a block, `first_read` takes the rest of the physical block that the map
  -- gives, whatever that is.
  pub first_read-block :
      (pblock len : ℕ)
      → inode_get_data_pblock image s inode q ≡ ok (pblock, len)
      → last < 2 ^ 32
      → pblock * w + w ≤ image.size
      → r ≢ 0
      → first_read image s inode size offset
        ≡ ok (slice image.byte (pblock * w + r) (min size (w - r)))
  unfolding first_read blocks2bytes
  first_read-block pblock len e far disk ne =
      let parts = div-add-mod' offset w in
      let rem = mod-lt offset pos in
      let wide = block_size-lt s in
      let end : u64 (offset + sub_u64 size 1) ≡ offset + (size - 1) = omega arith in
      let quot : u32 q ≡ q = omega arith in
      let rest : u32 r ≡ r = omega arith in
      let end32 : u32 last ≡ last = omega arith in
      let where_ : u64 (u64 (pblock * w) + r) ≡ pblock * w + r = omega arith in
      let up = align_to-boundary w q r offset (omega arith) (omega arith) rem low in
      elim (dec_le (r + size) w) [
        | yes short ↦
            rw
              (
                ne→not-== size 0 (omega arith),
                end,
                quot,
                rest,
                end32,
                ne→not-== r 0 ne,
                e,
                where_,
                eq→== q last (omega (arith, last-short w size offset pos some short)),
                disk_read-slice image (pblock * w + r) size (omega arith) narrow,
              )
              (ap ok (slice_at _ _ _ _ _ refl (omega arith)))
        | no long ↦
            let span : sub_u64 (align_to offset w) offset ≡ w - r = omega (arith, up) in
            let inside : u64 (offset + (w - r)) ≡ offset + (w - r) = omega arith in
            let whole = mod_of_parts w (q + 1) 0 {n = offset + (w - r)} (omega arith) pos in
            rw
              (
                ne→not-== size 0 (omega arith),
                end,
                quot,
                rest,
                end32,
                ne→not-== r 0 ne,
                e,
                where_,
                ne→not-== q last (omega (arith, last-long w size offset pos some (omega arith))),
                span,
                inside,
                whole,
                disk_read-slice image (pblock * w + r) (w - r) (omega arith) (omega arith),
              )
              (ap ok (slice_at _ _ _ _ _ refl (omega arith)))
      ]

module _ (image : Image) (s : SuperBlock) (inode : Inode) (data_block : ℕ → ℕ)
    (pos : 0 < block_size s) (small : image.size < 2 ^ 63)
    (mapped : IsMapped image s inode data_block) (size offset : ℕ) (narrow : size < 2 ^ 31) where
  first_read-run :
      0 < size
      → offset < 2 ^ 32
      → data_block (offset / block_size s) ≢ 0
      → offset % block_size s ≢ 0
      → (pblock len : ℕ)
      → inode_get_data_pblock image s inode (offset / block_size s) ≡ ok (pblock, len)
      → IsRun image (block_size s) data_block (offset / block_size s) pblock len
      → (offset + (size - 1)) / block_size s < 2 ^ 32
      → first_read image s inode size offset
        ≡ ok (
            slice
              (file_byte image (block_size s) data_block)
              offset
              (min size (block_size s - offset % block_size s)))
  first_read-run some low there ne pblock len e run far =
      let w = block_size s in
      let q = offset / w in
      let r = offset % w in
      let parts = div-add-mod' offset w in
      let rem = mod-lt offset pos in
      let ne' : pblock ≢ 0 = λ z. there (run.mapped ∙ z) in
      let disk = run.on_disk ne' in
      let one : w ≤ len * w = le-mul_left len w run.some_block in
      let bytes = slice-run image w data_block q pos run r (min size (w - r)) ne' (omega arith) in
      first_read-block image s inode pos small size offset some narrow low pblock len e far
        (omega arith) ne
      ∙ ap ok (sym bytes ∙ slice_at _ _ _ _ _ parts refl)

  first_read-mapped :
      0 < size
      → offset + size ≤ inode_get_size inode
      → offset < 2 ^ 32
      → data_block (offset / block_size s) ≢ 0
      → offset % block_size s ≢ 0
      → first_read image s inode size offset
        ≡ ok (
            slice
              (file_byte image (block_size s) data_block)
              offset
              (min size (block_size s - offset % block_size s)))
  first_read-mapped some inside low there ne =
      let w = block_size s in
      let q = offset / w in
      let last = (offset + (size - 1)) / w in
      let parts = div-add-mod' offset w in
      let rem = mod-lt offset pos in
      let last_parts = div-add-mod' (offset + (size - 1)) w in
      let last_rem = mod-lt (offset + (size - 1)) pos in
      let (pblock, len, e, run) = mapped q (lt-bytes2blocks s _ q (offset % w) rem (omega arith)) in
      let (_, _, _, end) =
        mapped last (lt-bytes2blocks s _ last ((offset + (size - 1)) % w) last_rem (omega arith)) in
      first_read-run some low there ne pblock len e run (omega (arith, end.narrow, end.some_block))

  -- If the block map of the inode is `data_block`, `first_read` delivers the bytes of the file
  -- from the offset up to the first block boundary or to the end of what is asked for, and none at
  -- a boundary. The read is of less than 2 GiB and ends inside the file; the offset is a multiple
  -- of the block size, or lies below 4 GiB in a block that is no hole.
  pub first_read-content :
      CanStart (block_size s) data_block offset
      → offset + size ≤ inode_get_size inode
      → first_read image s inode size offset
        ≡ ok (
            slice
              (file_byte image (block_size s) data_block)
              offset
              (head_size (block_size s) size offset))
  unfolding first_read slice
  first_read-content start inside =
      let r = offset % block_size s in
      elim (ℕ_discrete r 0) [
        | yes z ↦ let z' : u32 r ≡ 0 = omega arith in rw (z', z) (ground arith)
        | no ne ↦ elim (ℕ_discrete size 0) [
          | yes none ↦
              rw (none, ne→not-== r 0 ne) (ap ok (slice_at _ offset offset 0 _ refl (omega arith)))
          | no some ↦ elim start [
            | inl z ↦ absurd (ne z)
            | inr (low, there) ↦
                rw (ne→not-== r 0 ne) (first_read-mapped (omega arith) inside low there ne)
          ]
        ]
      ]
