-- ===== src/Ext4/Directory/Listing.antt =====
-- `op_readdir` over a chain of entries.
use native.Mathlib.Nat.{zero-div}
use spotlight.Base.{
  ℕ, zero, suc, ◌+◌, ◌^◌, ◌==◌, ◌≡◌, ◌<◌, inl, inr, Bool, true, false, List, [], ◌∷◌, length, arith,
  refl, subst, Bool-cases,
}
use spotlight.Base.Result.{ok, ◌>>=◌}
use spotlight.Ext4.Disk.{Image}
use spotlight.Ext4.Super.{SuperBlock, block_size}
use spotlight.Ext4.Inode.{Inode, inode_get_size}
use spotlight.Ext4.Read.Content.{file_byte, IsMapped}
use spotlight.Ext4.Directory.{
  DirCtx, printable, dir_ctx_update, inode_dir_ctx_reset, readdir_loop, readdir_inode,
}
use spotlight.Ext4.Directory.Entries.{entry_at, name_at, IsChain, list_entries}
use spotlight.Ext4.Directory.Context.{IsFresh, NoHole, dir_ctx_update-IsFresh}
use spotlight.Ext4.Directory.At.{find-At, inode_dentry_get-end}

module _ {ℓ} {Buffer : Type ℓ} (filler : Buffer → List ℕ → ℕ → Bool × Buffer) (image : Image)
    (s : SuperBlock) (inode : Inode) (data_block : ℕ → ℕ) (pos : 0 < block_size s)
    (narrow : block_size s < 2 ^ 31) (small : image.size < 2 ^ 63)
    (mapped : IsMapped image s inode data_block) (no_hole : NoHole image s inode data_block) where
  abbrev f : ℕ → ℕ
  f = file_byte image (block_size s) data_block

  list-none : (buf : Buffer) → list_entries filler f [] buf ≡ buf
  unfolding list_entries
  list-none buf = refl

  -- One entry of the list.
  module _ (o : ℕ) (os : List ℕ) (buf : Buffer) where
    abbrev given : Bool × Buffer
    given = filler buf (name_at f o) (o + (entry_at f o).rec_len)

    list-unused :
        (entry_at f o).inode == 0 ≡ true
        → list_entries filler f (o ∷ os) buf ≡ list_entries filler f os buf
    unfolding list_entries
    list-unused e = rw e refl

    list-empty :
        (entry_at f o).inode == 0 ≡ false
        → printable (name_at f o) ≡ false
        → list_entries filler f (o ∷ os) buf ≡ list_entries filler f os buf
    unfolding list_entries
    list-empty e n = rw (e, n) refl

    list-full :
        (entry_at f o).inode == 0 ≡ false
        → printable (name_at f o) ≡ true
        → given.0 ≡ true
        → list_entries filler f (o ∷ os) buf ≡ given.1
    unfolding list_entries
    list-full e n g = rw (e, n, g) refl

    list-next :
        (entry_at f o).inode == 0 ≡ false
        → printable (name_at f o) ≡ true
        → given.0 ≡ false
        → list_entries filler f (o ∷ os) buf ≡ list_entries filler f os given.1
    unfolding list_entries
    list-next e n g = rw (e, n, g) refl

  readdir_loop-entries :
      (fuel offset : ℕ) (os : List ℕ) (ctx : DirCtx) (buf : Buffer)
      → IsChain f (block_size s) (inode_get_size inode) offset os
      → IsFresh image s inode data_block ctx
      → length os < fuel
      → readdir_loop filler image s inode fuel offset ctx buf ≡ ok (list_entries filler f os buf)
  unfolding readdir_loop
  readdir_loop-entries zero offset os ctx buf chain fresh h = absurd (omega arith)
  readdir_loop-entries (suc fuel) offset [] ctx buf chain fresh h =
      rw
        (
          list-none buf,
          readdir_loop,
          chain,
          inode_dentry_get-end image s inode data_block pos narrow small mapped no_hole ctx,
        )
        refl
  readdir_loop-entries (suc fuel) offset (o ∷ os) ctx buf chain fresh h =
      let a =
        find-At image s inode data_block pos narrow small mapped no_hole o ctx chain.1 fresh chain.2
          chain.3 in
      let rest = λ (b : Buffer).
        readdir_loop-entries fuel (o + (entry_at f o).rec_len) os a.next b chain.4 a.fresh
          (omega arith) in
      subst
        (λ n.
          readdir_loop filler image s inode (suc fuel) n ctx buf
          ≡ ok (list_entries filler f (o ∷ os) buf))
        chain.0
        (elim (Bool-cases ((entry_at f o).inode == 0)) [
          | inl unused ↦
              rw (list-unused o os buf unused, readdir_loop, a.got, a.entry, ◌>>=◌, unused)
                (rest buf)
          | inr used ↦ elim (Bool-cases (printable (name_at f o))) [
            | inr empty ↦
                rw
                  (
                    list-empty o os buf used empty,
                    readdir_loop,
                    a.got,
                    a.entry,
                    ◌>>=◌,
                    used,
                    a.name,
                    ◌>>=◌,
                    empty,
                  )
                  (rest buf)
            | inl named ↦ elim (Bool-cases (given o os buf).0) [
              | inl stop ↦
                  rw
                    (
                      list-full o os buf used named stop,
                      readdir_loop,
                      a.got,
                      a.entry,
                      ◌>>=◌,
                      used,
                      a.name,
                      ◌>>=◌,
                      named,
                      stop,
                    )
                    refl
              | inr go ↦
                  rw
                    (
                      list-next o os buf used named go,
                      readdir_loop,
                      a.got,
                      a.entry,
                      ◌>>=◌,
                      used,
                      a.name,
                      ◌>>=◌,
                      named,
                      go,
                    )
                    (rest (given o os buf).1)
            ]
          ]
        ])

  -- For a directory that is not empty and has no holes (its block map is `data_block`, the block
  -- size lies between 1 and 2^31 - 1, the image below 2^63 bytes), whose bytes from the offset on
  -- are a chain of entries that ends at its size, none of them across a block boundary and no name
  -- of 255 bytes, the listing ends without a fault: the printable names of the entries in use go
  -- to `filler` in order, each with the offset behind its entry, until it says that it is full.
  -- Fuel above the number of entries is enough.
  pub readdir_inode-entries :
      (fuel offset : ℕ) (os : List ℕ) (buf : Buffer)
      → 0 < inode_get_size inode
      → IsChain f (block_size s) (inode_get_size inode) offset os
      → length os < fuel
      → readdir_inode filler image s inode fuel offset buf ≡ ok (list_entries filler f os buf)
  unfolding readdir_inode inode_dir_ctx_reset
  readdir_inode-entries fuel offset os buf some_byte chain enough =
      let (low, ctx, update, fresh, at) =
        dir_ctx_update-IsFresh image s inode data_block pos narrow small mapped no_hole 0
          some_byte in
      rw (subst (λ l. dir_ctx_update image s inode l ≡ ok ctx) (zero-div (block_size s)) update)
        (readdir_loop-entries fuel offset os ctx buf chain fresh enough)
