-- ===== src/Ext4/Disk/Blocks.antt =====
-- fs/ext4/disk.c: `pread_wrapper` where the system only reads aligned, whole blocks.
use spotlight.Base.{
  ℕ, ◌+◌, ◌-◌, ◌*◌, ◌/◌, ◌%◌, ◌^◌, ◌≡◌, ◌≤◌, ◌<◌, ◌==◌, ltb, min, true, false, Bool-cases, inl, inr,
  List, ◌++◌, length, take, drop, int_to_size, arith, ap, ◌∙◌, eq→==, lt→ltb,
}
use spotlight.Base.Result.{Result, ok, ◌>>=◌, ◌>>◌, check}
use spotlight.Base.Bytes.{slice, slice_at, length-slice, take-slice, drop-slice, slice-append}
use spotlight.Ext4.Disk.{Image, pread}
use spotlight.Ext4.Disk.Laws.{pread-slice}

-- PREAD_BLOCK_SIZE
abbrev pub pread_block_size : ℕ
pread_block_size = 1024

-- The last read of `pread_wrapper`, for less than a block.
unfoldable pub pread_last : Image → ℕ → ℕ → Result (List ℕ)
pread_last image where_ size = do
  check (ltb size pread_block_size)
  let block = pread image where_ pread_block_size
  check (length block == pread_block_size)
  ok (take size block)

-- The middle read, for whole blocks, and the last one.
unfoldable pub pread_blocks : Image → ℕ → ℕ → Result (List ℕ)
pread_blocks image where_ size =
    let mid_read_size = size / pread_block_size * pread_block_size in
    check (where_ % pread_block_size == 0) >> elim (mid_read_size == 0) [
      | true ↦ pread_last image where_ size
      | false ↦
          let bytes = pread image where_ mid_read_size in
          check (int_to_size (length bytes) == mid_read_size) >> elim (size - mid_read_size == 0) [
            | true ↦ ok bytes
            | false ↦ do
              rest ← pread_last image (where_ + mid_read_size) (size - mid_read_size)
              ok (bytes ++ rest)
          ]
    ]

-- `pread_wrapper`
unfoldable pub pread_wrapper : Image → ℕ → ℕ → Result (List ℕ)
pread_wrapper image where_ size =
    let first_offset = where_ % pread_block_size in
    elim (first_offset == 0) [
      | true ↦ pread_blocks image where_ size
      | false ↦
          let block = pread image (where_ - first_offset) pread_block_size in
          let first_size = min size (pread_block_size - first_offset) in
          let bytes = take first_size (drop first_offset block) in
          check (length block == pread_block_size) >> elim (size - first_size == 0) [
            | true ↦ ok bytes
            | false ↦ do
              rest ← pread_blocks image (where_ + first_size) (size - first_size)
              ok (bytes ++ rest)
          ]
    ]

module _ (image : Image) (whole : image.size % pread_block_size ≡ 0) where
  pread_last-slice :
      (where_ size : ℕ)
      → where_ % pread_block_size ≡ 0
      → where_ + size ≤ image.size
      → 0 < size
      → size < pread_block_size
      → pread_last image where_ size ≡ ok (slice image.byte where_ size)
  unfolding pread_last
  pread_last-slice where_ size aligned inside some_byte part =
      rw
        (
          pread_last,
          lt→ltb size pread_block_size part,
          pread-slice image where_ pread_block_size (omega (arith, whole)),
          length-slice image.byte where_ pread_block_size,
          take-slice image.byte where_ pread_block_size size,
        )
        (ap (λ n. ok (slice image.byte where_ n)) (omega arith))

  zero_left : (n : ℕ) → (n == 0) ≡ true → n ≡ 0
  zero_left n h = ground arith

  some_left : (n : ℕ) → (n == 0) ≡ false → 0 < n
  some_left n h = ground arith

  int_to_size_same : (n : ℕ) → n < 2 ^ 31 → (int_to_size n == n) ≡ true
  int_to_size_same n h = ground arith

  pread_blocks-slice :
      (where_ size : ℕ)
      → where_ % pread_block_size ≡ 0
      → where_ + size ≤ image.size
      → 0 < size
      → size < 2 ^ 31
      → pread_blocks image where_ size ≡ ok (slice image.byte where_ size)
  unfolding pread_blocks
  pread_blocks-slice where_ size aligned inside some_byte small =
      let mid = size / pread_block_size * pread_block_size in
      let aligned' = eq→== (where_ % pread_block_size) 0 aligned in
      elim (Bool-cases (mid == 0)) [
        | inl none_mid ↦
            rw (pread_blocks, aligned', none_mid)
              (pread_last-slice where_ size aligned inside some_byte
                (omega (arith, zero_left mid none_mid)))
        | inr some_mid ↦ elim (Bool-cases (size - mid == 0)) [
          | inl all ↦
              rw
                (
                  pread_blocks,
                  aligned',
                  some_mid,
                  pread-slice image where_ mid (omega arith),
                  length-slice image.byte where_ mid,
                  int_to_size_same mid (omega arith),
                  all,
                  pread-slice image where_ mid (omega arith),
                )
                (ap (λ n. ok (slice image.byte where_ n))
                  (omega (arith, zero_left (size - mid) all)))
          | inr more ↦
              rw
                (
                  pread_blocks,
                  aligned',
                  some_mid,
                  pread-slice image where_ mid (omega arith),
                  length-slice image.byte where_ mid,
                  int_to_size_same mid (omega arith),
                  more,
                  pread-slice image where_ mid (omega arith),
                  pread_last-slice (where_ + mid) (size - mid) (omega arith) (omega arith)
                      (some_left (size - mid) more) (omega arith),
                )
                (ap ok (slice-append image.byte where_ mid (size - mid) size (omega arith)))
        ]
      ]

  -- On an image of whole blocks, the wrapper that only reads aligned blocks delivers what one read
  -- of the same bytes delivers, for a read of 1 to 2^31 - 1 bytes inside the image.
  pub pread_wrapper-pread :
      (where_ size : ℕ)
      → where_ + size ≤ image.size
      → 0 < size
      → size < 2 ^ 31
      → pread_wrapper image where_ size ≡ ok (pread image where_ size)
  unfolding pread_wrapper
  pread_wrapper-pread where_ size inside some_byte small =
      let o = where_ % pread_block_size in
      let n = min size (pread_block_size - o) in
      let all = pread-slice image where_ size inside in
      elim (Bool-cases (o == 0)) [
        | inl aligned ↦
            rw (pread_wrapper, aligned, all)
              (pread_blocks-slice where_ size (zero_left o aligned) inside some_byte small)
        | inr split ↦
            let block = pread-slice image (where_ - o) pread_block_size (omega (arith, whole)) in
            let bytes : take n (slice image.byte (where_ - o + o) (pread_block_size - o))
                ≡ slice image.byte where_ n =
              take-slice image.byte (where_ - o + o) (pread_block_size - o) n
              ∙ slice_at image.byte _ _ _ _ (omega arith) (omega arith) in
            elim (Bool-cases (size - n == 0)) [
              | inl last ↦
                  rw
                    (
                      pread_wrapper,
                      split,
                      block,
                      length-slice image.byte (where_ - o) pread_block_size,
                      last,
                      block,
                      drop-slice image.byte (where_ - o) pread_block_size o,
                      bytes,
                      all,
                    )
                    (ap (λ n. ok (slice image.byte where_ n))
                      (omega (arith, zero_left (size - n) last)))
              | inr more ↦
                  rw
                    (
                      pread_wrapper,
                      split,
                      block,
                      length-slice image.byte (where_ - o) pread_block_size,
                      more,
                      block,
                      drop-slice image.byte (where_ - o) pread_block_size o,
                      bytes,
                      pread_blocks-slice (where_ + n) (size - n)
                          (omega (arith, some_left (size - n) more)) (omega arith)
                          (some_left (size - n) more) (omega arith),
                      all,
                    )
                    (ap ok (slice-append image.byte where_ n (size - n) size (omega arith)))
            ]
      ]
