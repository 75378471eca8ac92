-- ===== src/Ext4/Read/Content.antt =====
-- What a file holds: the blocks that its map names, zeros where it names none.
use spotlight.Base.{
  ℕ, ◌+◌, ◌*◌, ◌/◌, ◌%◌, ◌^◌, ◌==◌, ◌≡◌, ◌≢◌, ◌≤◌, ◌<◌, if◌then◌else◌, replicate, arith, ap, ◌∙◌,
  ◌⊎◌, ne→not-==, eq→==,
}
use native.Mathlib.Nat.{
  mul-add-div_right, mul-add-mod_self_right, div-lt_iff_lt-mul, div-eq_of_lt, div-add-mod',
  add-zero,
}
use spotlight.Base.Result.{ok}
use spotlight.Base.Bytes.{slice, slice-congr, slice-zeros}
use spotlight.Ext4.Disk.{Image}
use spotlight.Ext4.Super.{SuperBlock, block_size, bytes2blocks}
use spotlight.Ext4.Inode.{Inode, inode_get_size}
use spotlight.Ext4.BlockMap.{inode_get_data_pblock}

-- Byte `i` of a file over blocks of `width` bytes; `data_block` maps a hole to 0.
unfoldable pub file_byte : Image → ℕ → (ℕ → ℕ) → ℕ → ℕ
file_byte image width data_block i =
    if data_block (i / width) == 0
    then 0
    else image.byte (data_block (i / width) * width + i % width)

-- `len` blocks from `pblock` on hold the blocks of the file from `lblock` on.
pub record IsRun (image : Image) (width : ℕ) (data_block : ℕ → ℕ) (lblock pblock len : ℕ)
    : Type 0 where
  pub mapped : data_block lblock ≡ pblock
  pub some_block : 0 < len
  pub hole : pblock ≡ 0 → len ≡ 1
  pub consecutive : pblock ≢ 0 → (k : ℕ) → k < len → data_block (lblock + k) ≡ pblock + k
  pub on_disk : pblock ≢ 0 → (pblock + len) * width ≤ image.size
  pub narrow : lblock + len < 2 ^ 32

-- The code's map of the inode is `data_block`, for each block of the file.
abbrev pub IsMapped : Image → SuperBlock → Inode → (ℕ → ℕ) → Type 0
IsMapped image s inode data_block =
    (lblock : ℕ)
    → lblock < bytes2blocks s (inode_get_size inode)
    → (pblock : ℕ) × (len : ℕ) × (inode_get_data_pblock image s inode lblock ≡ ok (pblock, len))
      × IsRun image (block_size s) data_block lblock pblock len

-- Where a read may start: at a block boundary, or inside a mapped block of the first 4 GiB.
abbrev pub CanStart : ℕ → (ℕ → ℕ) → ℕ → Type 0
CanStart width data_block offset =
    (offset % width ≡ 0) ⊎ ((offset < 2 ^ 32) × (data_block (offset / width) ≢ 0))

module _ (image : Image) (width : ℕ) (data_block : ℕ → ℕ) (lblock : ℕ) {pblock len : ℕ}
    (pos : 0 < width) (run : IsRun image width data_block lblock pblock len) where
  file_byte-run :
      (r : ℕ)
      → pblock ≢ 0
      → r < len * width
      → file_byte image width data_block (lblock * width + r) ≡ image.byte (pblock * width + r)
  unfolding file_byte
  file_byte-run r ne h =
      let small : r / width < len = (div-lt_iff_lt-mul pos).1 h in
      let here = run.consecutive ne (r / width) small in
      rw
        (
          mul-add-div_right pos lblock r,
          mul-add-mod_self_right lblock width r,
          here,
          ne→not-== (pblock + r / width) 0 (omega arith),
        )
        (ap image.byte (omega (arith, div-add-mod' r width)))

  file_byte-hole :
      (r : ℕ) → pblock ≡ 0 → r < width → file_byte image width data_block (lblock * width + r) ≡ 0
  unfolding file_byte
  file_byte-hole r e h =
      rw (mul-add-div_right pos lblock r, div-eq_of_lt h, add-zero, run.mapped, eq→== pblock 0 e)

  -- Bytes of mapped blocks are those of the disk.
  pub slice-run :
      (o n : ℕ)
      → pblock ≢ 0
      → o + n ≤ len * width
      → slice (file_byte image width data_block) (lblock * width + o) n
        ≡ slice image.byte (pblock * width + o) n
  slice-run o n ne h = slice-congr _ _ _ _ n λ i l.
      ap (file_byte image width data_block) (omega arith)
      ∙ file_byte-run (o + i) ne (omega arith)
      ∙ ap image.byte (omega arith)

  -- Bytes of a hole are zeros.
  pub slice-hole :
      (o n : ℕ)
      → pblock ≡ 0
      → o + n ≤ width
      → slice (file_byte image width data_block) (lblock * width + o) n ≡ replicate n 0
  slice-hole o n e h = slice-zeros _ _ n λ i l.
      ap (file_byte image width data_block) (omega arith) ∙ file_byte-hole (o + i) e (omega arith)
