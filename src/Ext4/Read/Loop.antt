-- ===== src/Ext4/Read/Loop.antt =====
-- The loop of `op_read`, block run by block run.
use native.Mathlib.Nat.{mul-add-div_right, div-add-mod', mod-lt}
use spotlight.Base.{
  ℕ, zero, suc, ◌+◌, ◌-◌, ◌*◌, ◌/◌, ◌%◌, ◌^◌, ◌==◌, ◌≡◌, ◌≤◌, ◌<◌, ltb, min, List, ◌++◌, replicate,
  arith, ap, ◌∙◌, refl, sym, Bool-cases, inl, inr, u32, ne→not-==, ==→eq, not-==→ne, ltb→lt,
  not-ltb→le,
}
use spotlight.Base.Blocks.{div-lt, mul_pos}
use spotlight.Base.Result.{ok}
use spotlight.Base.Bytes.{slice, slice_at, length-slice, slice-append}
use spotlight.Ext4.Disk.{Image, disk_ctx_create, DiskCtx}
use spotlight.Ext4.Disk.Laws.{disk_ctx_read-slice}
use spotlight.Ext4.Super.{SuperBlock, block_size, blocks2bytes, bytes2blocks}
use spotlight.Ext4.Inode.{Inode, inode_get_size}
use spotlight.Ext4.BlockMap.{inode_get_data_pblock}
use spotlight.Ext4.Read.{read_extent, read_loop}
use spotlight.Ext4.Read.Content.{file_byte, IsRun, IsMapped, slice-run, slice-hole}

-- A position inside the file lies in one of its blocks.
pub lt-bytes2blocks :
    (s : SuperBlock) (bytes lblock r : ℕ)
    → r < block_size s
    → lblock * block_size s + r < bytes
    → lblock < bytes2blocks s bytes
unfolding bytes2blocks
lt-bytes2blocks s bytes lblock r h l =
    let w = block_size s in
    let q = bytes / w in
    let pos : 0 < w = omega arith in
    let whole = div-add-mod' bytes w in
    let here = mul-add-div_right pos lblock r in
    let rem = mod-lt bytes pos in
    elim (Bool-cases (bytes % w == 0)) [
      | inl e ↦
          let rest = ==→eq _ _ e in
          rw e (omega (arith, here, div-lt w q (lblock * w + r) (omega arith) pos))
      | inr e ↦ rw e (omega (arith, here, div-lt w (q + 1) (lblock * w + r) (omega arith) pos))
    ]

-- A context over mapped blocks starts at their first byte, and nothing wraps.
disk_ctx_create-ok :
    (s : SuperBlock) (pblock len : ℕ)
    → 0 < block_size s
    → 0 < len
    → (pblock + len) * block_size s < 2 ^ 63
    → disk_ctx_create (blocks2bytes s pblock) (block_size s) len
      ≡ ok (record { cur = pblock * block_size s; size = len * block_size s })
unfolding disk_ctx_create blocks2bytes
disk_ctx_create-ok s pblock len pos some h =
    rw (ne→not-== (block_size s) 0 (omega arith)) (ground arith)

module _ (image : Image) (s : SuperBlock) (inode : Inode) (data_block : ℕ → ℕ)
    (pos : 0 < block_size s) (small : image.size < 2 ^ 63)
    (mapped : IsMapped image s inode data_block) where
  abbrev content : ℕ → ℕ → List ℕ
  content = slice (file_byte image (block_size s) data_block)

  abbrev Extends : ℕ → ℕ → ℕ → Type 0
  Extends lblock wanted len =
      (0 < len)
      × (lblock + len < 2 ^ 32)
      × (read_extent image s inode lblock wanted
          ≡ ok (content (lblock * block_size s) (min wanted (len * block_size s)), len))

  read_extent-run :
      (lblock wanted pblock len : ℕ)
      → 0 < wanted
      → wanted < 2 ^ 31
      → inode_get_data_pblock image s inode lblock ≡ ok (pblock, len)
      → IsRun image (block_size s) data_block lblock pblock len
      → Extends lblock wanted len
  unfolding read_extent disk_ctx_create blocks2bytes
  read_extent-run lblock wanted pblock len w h e run =
      let width = block_size s in
      let n = min wanted (len * width) in
      elim (Bool-cases (pblock == 0)) [
        | inl z ↦
            let here =
              slice-hole image width data_block lblock pos run 0 (min wanted width) (==→eq _ _ z)
                (omega arith) in
            (
              run.some_block,
              run.narrow,
              rw (e, z)
                  (ap (λ b. ok (b, len))
                    (ap (λ k. replicate k 0) (ground arith)
                      ∙ sym here
                      ∙ slice_at _ _ _ _ _ (omega arith) (
                          omega (
                            arith,
                            run.hole (==→eq _ _ z),
                            ap (λ (k : ℕ). k * width) (run.hole (==→eq _ _ z)),
                          )))),
            )
        | inr nz ↦
            let ne = not-==→ne _ _ nz in
            let there = run.on_disk ne in
            let ctx : DiskCtx = record { cur = pblock * width; size = len * width } in
            let wide = mul_pos len width run.some_block pos in
            let here = slice-run image width data_block lblock pos run 0 n ne (omega arith) in
            (
              run.some_block,
              run.narrow,
              rw
                  (
                    e,
                    nz,
                    disk_ctx_create-ok s pblock len pos run.some_block (omega arith),
                    disk_ctx_read-slice image ctx wanted n (omega (arith, wide)) refl (omega arith)
                        (omega arith),
                  )
                  (ap (λ b. ok (b, len))
                    (slice_at _ _ _ _ _ (omega arith) refl
                      ∙ sym here
                      ∙ slice_at _ _ _ _ _ (omega arith) refl)),
            )
      ]

  read_extent-mapped :
      (lblock wanted : ℕ)
      → 0 < wanted
      → wanted < 2 ^ 31
      → lblock * block_size s < inode_get_size inode
      → (len : ℕ) × Extends lblock wanted len
  read_extent-mapped lblock wanted w h inside =
      let (pblock, len, e, run) = mapped lblock (lt-bytes2blocks s _ lblock 0 pos (omega arith)) in
      (len, read_extent-run lblock wanted pblock len w h e run)

  -- From a block boundary, or with nothing left to read, the loop completes the buffer.
  pub read_loop-content :
      (fuel size offset lblock r : ℕ)
      → r ≤ size
      → size - r < fuel
      → size < 2 ^ 31
      → offset + size ≤ inode_get_size inode
      → (r < size → offset + r ≡ lblock * block_size s)
      → read_loop image s inode fuel size lblock (content offset r) ≡ ok (content offset size)
  unfolding read_loop
  read_loop-content zero size offset lblock r le f small' inside at = absurd (omega arith)
  read_loop-content (suc fuel) size offset lblock r le f small' inside at =
      let f_ = file_byte image (block_size s) data_block in
      let known = length-slice f_ offset r in
      elim (Bool-cases (ltb r size)) [
        | inl more ↦
            let lt = ltb→lt _ _ more in
            let (len, (some, narrow, e)) =
              read_extent-mapped lblock (size - r) (omega arith) (omega arith)
                (omega (arith, at lt)) in
            let n = min (size - r) (len * block_size s) in
            let wide = mul_pos len (block_size s) some pos in
            let joined : content offset r ++ content (lblock * block_size s) n
                ≡ content offset (r + n) =
              ap (λ b. content offset r ++ b) (slice_at f_ _ _ _ _ (sym (at lt)) refl)
              ∙ slice-append f_ offset r n (r + n) refl in
            let next : u32 (lblock + len) ≡ lblock + len = omega arith in
            rw (known, more, read_loop, known, e, next, joined)
              (read_loop-content fuel size offset (lblock + len) (r + n) (omega arith) (omega arith)
                small' inside (λ go. omega (arith, at lt)))
        | inr done ↦
            rw (known, done, read_loop)
              (ap ok (slice_at _ _ _ _ _ refl (omega (arith, not-ltb→le _ _ done))))
      ]
