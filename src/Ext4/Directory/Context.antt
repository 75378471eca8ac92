-- ===== src/Ext4/Directory/Context.antt =====
-- The directory context with the block that it holds, and an entry found through it.
use native.Mathlib.Nat.{div-add-mod', mod-lt}
use spotlight.Base.{
  ℕ, ◌*◌, ◌/◌, ◌%◌, ◌^◌, ◌==◌, ◌≡◌, ◌≢◌, ◌≤◌, ◌<◌, inl, inr, some, arith, ◌∙◌, refl, sym,
  Bool-cases, u32, u64, ==→eq, ne→not-==, eq→==, le→leb,
}
use spotlight.Base.Blocks.{le-mul_left}
use spotlight.Base.Result.{ok}
use spotlight.Base.Bytes.{slice, slice_at}
use spotlight.Ext4.Disk.{Image}
use spotlight.Ext4.Disk.Laws.{disk_read-slice}
use spotlight.Ext4.Super.{SuperBlock, block_size, blocks2bytes}
use spotlight.Ext4.Inode.{Inode, inode_get_size}
use spotlight.Ext4.BlockMap.{inode_get_data_pblock}
use spotlight.Ext4.Read.Content.{file_byte, IsRun, IsMapped, slice-run}
use spotlight.Ext4.Read.Loop.{lt-bytes2blocks}
use spotlight.Ext4.Directory.{DirCtx, dir_ctx_update, inode_dentry_get, dentry_fuel}

module _ (image : Image) (s : SuperBlock) (inode : Inode) (data_block : ℕ → ℕ) where
  -- The buffer holds the block of the directory.
  abbrev pub IsFresh : DirCtx → Type 0
  IsFresh ctx =
      ctx.buf
      ≡ slice (file_byte image (block_size s) data_block) (ctx.lblock * block_size s) (block_size s)

  -- A directory has no holes.
  abbrev pub NoHole : Type 0
  NoHole = (offset : ℕ) → offset < inode_get_size inode → data_block (offset / block_size s) ≢ 0

module _ (image : Image) (s : SuperBlock) (inode : Inode) (data_block : ℕ → ℕ)
    (pos : 0 < block_size s) (narrow : block_size s < 2 ^ 31) (small : image.size < 2 ^ 63)
    (mapped : IsMapped image s inode data_block) (no_hole : NoHole image s inode data_block) where
  dir_ctx_update-run :
      (lblock pblock len : ℕ)
      → inode_get_data_pblock image s inode lblock ≡ ok (pblock, len)
      → IsRun image (block_size s) data_block lblock pblock len
      → pblock ≢ 0
      → (ctx : DirCtx) × (dir_ctx_update image s inode lblock ≡ ok ctx)
        × IsFresh image s inode data_block ctx
        × (ctx.lblock ≡ lblock)
  unfolding dir_ctx_update blocks2bytes
  dir_ctx_update-run lblock pblock len e run ne =
      let w = block_size s in
      let disk = run.on_disk ne in
      let one : w ≤ len * w = le-mul_left len w run.some_block in
      let where_ : u64 (pblock * w) ≡ pblock * w = omega arith in
      let bytes = slice-run image w data_block lblock pos run 0 w ne (omega arith) in
      (
        record { lblock = lblock; buf = slice image.byte (pblock * w) w },
        rw (e, where_, disk_read-slice image (pblock * w) w (omega arith) narrow) refl,
        slice_at image.byte _ _ _ _ (omega arith) refl
            ∙ sym bytes
            ∙ slice_at (file_byte image w data_block) _ _ _ _ (omega arith) refl,
        refl,
      )

  -- Any block inside the directory can be put into the context.
  pub dir_ctx_update-IsFresh :
      (offset : ℕ)
      → offset < inode_get_size inode
      → (offset / block_size s < 2 ^ 32)
        × (ctx : DirCtx) × (dir_ctx_update image s inode (offset / block_size s) ≡ ok ctx)
        × IsFresh image s inode data_block ctx
        × (ctx.lblock ≡ offset / block_size s)
  dir_ctx_update-IsFresh offset inside =
      let w = block_size s in
      let q = offset / w in
      let parts = div-add-mod' offset w in
      let rem = mod-lt offset pos in
      let (pblock, len, e, run) = mapped q (lt-bytes2blocks s _ q (offset % w) rem (omega arith)) in
      let (ctx, update, fresh, at) =
        dir_ctx_update-run q pblock len e run (λ z. no_hole offset inside (run.mapped ∙ z)) in
      (omega (arith, run.narrow, run.some_block), ctx, update, fresh, at)

  -- In a directory without holes (its block map is `data_block`, the block size lies between 1 and
  -- 2^31 - 1, the image below 2^63 bytes), a context whose buffer holds the block that it names
  -- leads for every offset inside the directory to the position of the offset in its block and to
  -- a context that names that block and holds it; two turns are enough.
  pub inode_dentry_get-IsFresh :
      (offset : ℕ) (ctx : DirCtx)
      → offset < inode_get_size inode
      → IsFresh image s inode data_block ctx
      → (ctx' : DirCtx) × (inode_dentry_get image s inode dentry_fuel offset ctx
          ≡ ok (some (offset % block_size s), ctx'))
        × IsFresh image s inode data_block ctx'
        × (ctx'.lblock ≡ offset / block_size s)
  unfolding inode_dentry_get
  inode_dentry_get-IsFresh offset ctx inside fresh =
      let w = block_size s in
      let q = offset / w in
      let rem = mod-lt offset pos in
      let (low, ctx', update, fresh', at) = dir_ctx_update-IsFresh offset inside in
      let quot : u32 q ≡ q = omega arith in
      let rest : u32 (offset % w) ≡ offset % w = omega arith in
      let there = le→leb offset (inode_get_size inode) (omega arith) in
      let not_end = ne→not-== (inode_get_size inode) offset (omega arith) in
      elim (Bool-cases (q == ctx.lblock)) [
        | inl here ↦ (ctx, rw (there, not_end, quot, here, rest) refl, fresh, sym (==→eq _ _ here))
        | inr other ↦ (
          ctx',
          rw
              (
                there,
                not_end,
                quot,
                other,
                quot,
                update,
                inode_dentry_get,
                there,
                not_end,
                quot,
                eq→== q ctx'.lblock (sym at),
                rest,
              )
              refl,
          fresh',
          at,
        )
      ]
