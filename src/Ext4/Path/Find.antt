-- ===== src/Ext4/Path/Find.antt =====
-- The search of a name in a directory by `inode_get_idx_by_path`.
use spotlight.Base.{
  ℕ, zero, suc, ◌+◌, ◌-◌, ◌*◌, ◌%◌, ◌^◌, ◌==◌, ◌≡◌, ◌≤◌, ◌<◌, leb, inl, inr, true, false, some,
  none, List, [], ◌∷◌, length, take, drop, u32, length-take, arith, ap, ap₂, ◌∙◌, refl, sym, subst,
  Bool-cases, ==→eq, le→leb,
}
use spotlight.Base.Result.{ok, ◌>>=◌}
use spotlight.Base.Bytes.{slice, slice_at, length-slice, take-slice, drop-slice}
use spotlight.Ext4.Disk.{Image}
use spotlight.Ext4.Super.{Super, SuperBlock, block_size}
use spotlight.Ext4.Inode.{Inode, inode_get_size}
use spotlight.Ext4.Read.Content.{file_byte, IsMapped}
use spotlight.Ext4.Directory.{DirCtx, dentry_header_sizeof}
use spotlight.Ext4.Directory.Entries.{entry_at, name_at, IsChain}
use spotlight.Ext4.Directory.Context.{IsFresh, NoHole}
use spotlight.Ext4.Directory.At.{At, find-At, inode_dentry_get-end}
use spotlight.Ext4.Path.{same_bytes, find_dentry}
use spotlight.Ext4.Path.Names.{
  same_name, lookup_name, used_entries, same_name-length, same_bytes-same_name,
}

IsChain-le :
    (f : ℕ → ℕ) (w size offset : ℕ) (os : List ℕ) → IsChain f w size offset os → offset ≤ size
IsChain-le f w size offset [] chain = omega (arith, chain)
IsChain-le f w size offset (o ∷ os) chain = omega (arith, chain.0, chain.1)

module _ (image : Image) (fs : Super) (inode : Inode) (data_block : ℕ → ℕ)
    (pos : 0 < block_size fs.super) (narrow : block_size fs.super < 2 ^ 31)
    (small : image.size < 2 ^ 63) (mapped : IsMapped image fs.super inode data_block)
    (no_hole : NoHole image fs.super inode data_block) (path : List ℕ) (path_len : ℕ)
    (inside : path_len ≤ length path) where
  abbrev s : SuperBlock
  s = fs.super

  abbrev f : ℕ → ℕ
  f = file_byte image (block_size s) data_block

  name : List ℕ
  name = take path_len path

  -- The comparison of a name of the same length in the buffer.
  compare :
      (o : ℕ) (ctx : DirCtx) (a : At image s inode data_block pos narrow small mapped no_hole o ctx)
      → o % block_size s + dentry_header_sizeof + (entry_at f o).name_len ≤ block_size s
      → path_len ≡ (entry_at f o).name_len
      → (leb (o % block_size s + dentry_header_sizeof + (entry_at f o).name_len) (length a.next.buf)
          ≡ true)
        × (same_bytes
              (entry_at f o).name_len
              path
              (drop (o % block_size s + dentry_header_sizeof) a.next.buf)
            ≡ same_name name (name_at f o))
  unfolding name
  compare o ctx a fits e =
      let w = block_size s in
      let r = o % w + dentry_header_sizeof in
      let n = (entry_at f o).name_len in
      let b = a.next.lblock * w in
      let size : length a.next.buf ≡ w = ap length a.fresh ∙ length-slice f b w in
      let rest : drop r a.next.buf ≡ slice f (b + r) (w - r) =
        ap (drop r) a.fresh ∙ drop-slice f b w r in
      (
        le→leb (r + n) (length a.next.buf) (omega (arith, size)),
        ap (same_bytes n path) rest
            ∙ same_bytes-same_name n path (slice f (b + r) (w - r)) (omega arith)
                (omega (arith, length-slice f (b + r) (w - r)))
            ∙ ap₂ same_name (ap (λ k. take k path) (sym e)) (
                take-slice f (b + r) (w - r) n
                ∙ slice_at f _ _ _ _ (omega (arith, a.base)) (omega arith)),
      )

  -- One entry of the list.
  module _ (o : ℕ) (os : List ℕ) where
    abbrev n : ℕ
    n = (entry_at f o).inode

    lookup-unused :
        (n == 0) ≡ true
        → lookup_name name (used_entries f (o ∷ os)) ≡ lookup_name name (used_entries f os)
    unfolding used_entries
    lookup-unused e = rw e refl

    lookup-other :
        (n == 0) ≡ false
        → same_name name (name_at f o) ≡ false
        → lookup_name name (used_entries f (o ∷ os)) ≡ lookup_name name (used_entries f os)
    unfolding used_entries lookup_name
    lookup-other e d = rw (e, d) refl

    lookup-here :
        (n == 0) ≡ false
        → same_name name (name_at f o) ≡ true
        → lookup_name name (used_entries f (o ∷ os)) ≡ some n
    unfolding used_entries lookup_name
    lookup-here e d = rw (e, d) refl

  name-length : length name ≡ path_len
  unfolding name
  name-length = omega (arith, length-take path_len path)

  lookup_name-none : lookup_name name (used_entries f []) ≡ none
  unfolding used_entries lookup_name
  lookup_name-none = refl

  -- In a directory of fewer than 4 GiB without holes (its block map is `data_block`, the block
  -- size lies between 1 and 2^31 - 1, the image below 2^63 bytes), whose bytes from the offset on
  -- are a chain of entries that ends at its size, none of them across a block boundary and no name
  -- of 255 bytes, the search of the first `path_len` bytes of a path of at least that length, from
  -- a context that holds its block, returns the inode of the first entry in use with that name, or
  -- none. Fuel above the number of entries is enough.
  pub find_dentry-lookup_name :
      (fuel offset : ℕ) (os : List ℕ) (ctx : DirCtx)
      → inode_get_size inode < 2 ^ 32
      → IsChain f (block_size s) (inode_get_size inode) offset os
      → IsFresh image s inode data_block ctx
      → length os < fuel
      → find_dentry image fs fuel inode offset ctx path path_len
        ≡ ok (lookup_name (take path_len path) (used_entries f os))
  unfolding find_dentry name
  find_dentry-lookup_name zero offset os ctx low chain fresh h = absurd (omega arith)
  find_dentry-lookup_name (suc fuel) offset [] ctx low chain fresh h =
      rw
        (
          lookup_name-none,
          find_dentry,
          chain,
          inode_dentry_get-end image s inode data_block pos narrow small mapped no_hole ctx,
        )
        refl
  find_dentry-lookup_name (suc fuel) offset (o ∷ os) ctx low chain fresh h =
      let a =
        find-At image s inode data_block pos narrow small mapped no_hole o ctx chain.1 fresh chain.2
          chain.3 in
      let next = o + (entry_at f o).rec_len in
      let inside = IsChain-le f (block_size s) (inode_get_size inode) next os chain.4 in
      let wide : u32 next ≡ next = omega arith in
      let rest =
        ap (λ k. find_dentry image fs fuel inode k a.next path path_len) wide
        ∙ find_dentry-lookup_name fuel next os a.next low chain.4 a.fresh (omega arith) in
      subst
        (λ k.
          find_dentry image fs (suc fuel) inode k ctx path path_len
          ≡ ok (lookup_name name (used_entries f (o ∷ os))))
        chain.0
        (elim (Bool-cases ((entry_at f o).inode == 0)) [
          | inl unused ↦
              rw (lookup-unused o os unused, find_dentry, a.got, a.entry, ◌>>=◌, unused) rest
          | inr used ↦ elim (Bool-cases (path_len == (entry_at f o).name_len)) [
            | inr other ↦
                let differs =
                  same_name-length name (name_at f o) (
                    ap₂ ◌==◌ name-length (length-slice f (o + 8) (entry_at f o).name_len)
                    ∙ other) in
                rw (lookup-other o os used differs, find_dentry, a.got, a.entry, ◌>>=◌, used, other)
                  rest
            | inl same ↦
                let (fits, names) = compare o ctx a chain.2 (==→eq _ _ same) in
                elim (Bool-cases (same_name name (name_at f o))) [
                  | inl here ↦
                      rw
                        (
                          lookup-here o os used here,
                          find_dentry,
                          a.got,
                          a.entry,
                          ◌>>=◌,
                          used,
                          same,
                          fits,
                          names,
                          here,
                        )
                        refl
                  | inr there ↦
                      rw
                        (
                          lookup-other o os used there,
                          find_dentry,
                          a.got,
                          a.entry,
                          ◌>>=◌,
                          used,
                          same,
                          fits,
                          names,
                          there,
                        )
                        rest
                ]
          ]
        ])
