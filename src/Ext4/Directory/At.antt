-- ===== src/Ext4/Directory/At.antt =====
-- The entry that a directory context leads to at an offset.
use native.Mathlib.Nat.{div-add-mod'}
use spotlight.Base.{
  ℕ, ◌+◌, ◌*◌, ◌%◌, ◌^◌, ◌≡◌, ◌≤◌, ◌<◌, some, none, arith, ap, ◌∙◌, refl, eq→==, le→leb,
}
use spotlight.Base.Result.{ok}
use spotlight.Base.Bytes.{slice}
use spotlight.Ext4.Disk.{Image}
use spotlight.Ext4.Super.{SuperBlock, block_size}
use spotlight.Ext4.Inode.{Inode, inode_get_size}
use spotlight.Ext4.Read.Content.{file_byte, IsMapped}
use spotlight.Ext4.Directory.{
  DirCtx, dentry_at, dentry_header_sizeof, name_buf_size, get_printable_name, inode_dentry_get,
  dentry_fuel,
}
use spotlight.Ext4.Directory.Entries.{entry_at, name_at}
use spotlight.Ext4.Directory.Context.{IsFresh, NoHole, inode_dentry_get-IsFresh}
use spotlight.Ext4.Directory.Fields.{dentry_at-entry_at, printable_name-name_at}

module _ (image : Image) (s : SuperBlock) (inode : Inode) (data_block : ℕ → ℕ)
    (pos : 0 < block_size s) (narrow : block_size s < 2 ^ 31) (small : image.size < 2 ^ 63)
    (mapped : IsMapped image s inode data_block) (no_hole : NoHole image s inode data_block) where
  abbrev pub f : ℕ → ℕ
  f = file_byte image (block_size s) data_block

  pub inode_dentry_get-end :
      (ctx : DirCtx)
      → inode_dentry_get image s inode dentry_fuel (inode_get_size inode) ctx ≡ ok (none, ctx)
  unfolding inode_dentry_get
  inode_dentry_get-end ctx =
      let n = inode_get_size inode in rw (le→leb n n (omega arith), eq→== n n refl) refl

  -- What the loop finds at an offset, before it looks at the entry.
  pub record At (offset : ℕ) (ctx : DirCtx) : Type 0 where
    pub next : DirCtx
    pub got :
        inode_dentry_get image s inode dentry_fuel offset ctx
        ≡ ok (some (offset % block_size s), next)
    pub fresh : IsFresh image s inode data_block next
    pub base : next.lblock * block_size s + offset % block_size s ≡ offset
    pub entry : dentry_at next.buf (offset % block_size s) ≡ ok (entry_at f offset)
    pub name :
        get_printable_name next.buf (offset % block_size s) (entry_at f offset).name_len
        ≡ ok (name_at f offset)

  pub find-At :
      (offset : ℕ) (ctx : DirCtx)
      → offset < inode_get_size inode
      → IsFresh image s inode data_block ctx
      → offset % block_size s + dentry_header_sizeof + (entry_at f offset).name_len ≤ block_size s
      → (entry_at f offset).name_len < name_buf_size
      → At offset ctx
  find-At offset ctx inside fresh fits short =
      let w = block_size s in
      let r = offset % w in
      let parts = div-add-mod' offset w in
      let (ctx', got, fresh', at) =
        inode_dentry_get-IsFresh image s inode data_block pos narrow small mapped no_hole offset ctx
          inside fresh in
      let here : ctx'.lblock * w + r ≡ offset = rw at parts in
      record {
        next = ctx';
        got = got;
        fresh = fresh';
        base = here;
        entry = rw fresh' (
            dentry_at-entry_at f (ctx'.lblock * w) w r (omega arith)
            ∙ ap (λ o. ok (entry_at f o)) here);
        name = rw fresh' (
            printable_name-name_at f (ctx'.lblock * w) w r _ fits short
            ∙ ap (λ o. ok (slice f (o + 8) (entry_at f offset).name_len)) here);
      }
