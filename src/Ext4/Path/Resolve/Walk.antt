-- ===== src/Ext4/Path/Resolve/Walk.antt =====
-- fs/ext4/inode.c: the search of the components that the cache does not know, and
-- `inode_get_idx_by_path` as a whole.
use native.Mathlib.Nat.{zero-div}
use spotlight.Base.{
  ℕ, zero, suc, ◌+◌, ◌^◌, ◌≡◌, ◌<◌, ◌⊎◌, Option, some, none, List, [], ◌∷◌, length, take, get_or,
  arith, refl, sym, ap, ap₂, ◌∙◌, inl, inr, eq→==, ne→not-==, subst,
}
use spotlight.Base.Result.{Result, ok, ◌>>=◌}
use spotlight.Ext4.Disk.{Image}
use spotlight.Ext4.Super.{Super, block_size}
use spotlight.Ext4.Directory.{DirCtx, dir_ctx_update, inode_dir_ctx_reset}
use spotlight.Ext4.Directory.Context.{dir_ctx_update-IsFresh}
use spotlight.Ext4.Dcache.{root, or_root, no_entry, Dcache, dcache_get_inode}
use spotlight.Ext4.Dcache.Rings.{Tree, entry_of}
use spotlight.Ext4.Dcache.Rings.Rotate.{or_root-pos}
use spotlight.Ext4.Dcache.Rings.Insert.{dcache_insert-IsCache}
use spotlight.Ext4.Path.{
  slash, root_inode_n, skip_trailing_backslash, find_dentry, walk, get_cached_inode_num,
  inode_get_idx_by_path,
}
use spotlight.Ext4.Path.Names.{Entry, lookup_name}
use spotlight.Ext4.Path.Find.{find_dentry-lookup_name}
use spotlight.Ext4.Path.Components.{
  first_token, later, keep, components, NoZero, Fits, components-cases, components-skip,
  NoZero-skip, length-skip, NoZero-take, take-token, length-token, skip-end, find_slash-components,
}
use spotlight.Ext4.Path.Resolve.{Directories, resolve_in, resolve, IsNamed, IsDirectory, Fits-first}
use spotlight.Ext4.Path.Resolve.Cached.{IsPath, token_len, IsCoherent, cached_from-IsPrefix}
use spotlight.Ext4.Path.Resolve.Turn.{run-end, run-missing, run-last, run-next}

or_zero : Option ℕ → ℕ
or_zero none = 0
or_zero (some n) = n

some_same : (a b : ℕ) → some a ≡ some b → a ≡ b
unfolding or_zero
some_same a b e = ap or_zero e

not_none : (b : ℕ) → ◌≡◌ {A = Option ℕ} none (some b) → ◌≡◌ {A = ℕ} 0 1
not_none b e = ap (λ (o : Option ℕ). elim o [ none ↦ 0 | some x ↦ 1 ]) e

option-cases {ℓ} : {A : Type ℓ} (o : Option A) → (o ≡ none) ⊎ ((a : A) × (o ≡ some a))
option-cases none = inl refl
option-cases (some a) = inr (a, refl)

module _ (image : Image) (fs : Super) (turns : ℕ) (entries : Directories) where
  module _ (pos : 0 < block_size fs.super) (narrow : block_size fs.super < 2 ^ 31)
      (small : image.size < 2 ^ 63)
      (directories : (n : ℕ) (es : List Entry)
        → entries n ≡ some es
        → IsDirectory image fs turns n es) where
    -- The search of one name.
    search :
        (n : ℕ) (es : List Entry) (d : IsDirectory image fs turns n es) (path : List ℕ)
        → (ctx : DirCtx) × (inode_dir_ctx_reset image fs.super d.inode ≡ ok ctx)
          × (find_dentry image fs turns d.inode 0 ctx path (length (first_token path))
              ≡ ok (lookup_name (first_token path) es))
    unfolding inode_dir_ctx_reset
    search n es d path =
        let (low, ctx, update, fresh, at) =
          dir_ctx_update-IsFresh image fs.super d.inode d.data_block pos narrow small d.mapped
            d.no_hole 0 d.some_byte in
        (
          ctx,
          subst (λ l. dir_ctx_update image fs.super d.inode l ≡ ok ctx)
              (zero-div (block_size fs.super)) update,
          find_dentry-lookup_name image fs d.inode d.data_block pos narrow small d.mapped d.no_hole
                path (length (first_token path)) (length-token path) turns 0 d.os ctx d.low d.chain
                fresh d.enough
              ∙ ap ok (ap₂ lookup_name (take-token path) d.listed),
        )

    -- What the search comes to: the inode, and a cache that stands for a tree again.
    pub IsResolved : Tree → Result (ℕ × Dcache) → ℕ → Type 0
    IsResolved t run m =
        (dc' : Dcache) × (t' : Tree) × (run ≡ ok (m, dc'))
        × IsCoherent entries dc' t'
        × (t'.inode root ≡ t.inode root)

    resolve-cons :
        (n m : ℕ) (name : List ℕ) (names : List (List ℕ))
        → resolve entries n (name ∷ names) ≡ some m
        → (es : List Entry) × (entries n ≡ some es)
          × (((lookup_name name es ≡ none) × (0 ≡ m))
              ⊎ ((k : ℕ) × (lookup_name name es ≡ some k) × (resolve entries k names ≡ some m)))
    unfolding resolve resolve_in
    resolve-cons n m name names e = elim (option-cases (entries n)) [
      | inl nothing ↦
          let none_there : resolve entries n (name ∷ names) ≡ none = rw nothing refl in
          absurd (omega (arith, not_none m (sym none_there ∙ e)))
      | inr (es, listed) ↦ (
        es,
        listed,
        elim (option-cases (lookup_name name es)) [
          | inl missing ↦
              let zero_there : resolve entries n (name ∷ names) ≡ some 0 =
                rw (listed, resolve_in, missing) refl in
              inl (missing, some_same 0 m (sym zero_there ∙ e))
          | inr (k, found) ↦
              let next : resolve entries n (name ∷ names) ≡ resolve entries k names =
                rw (listed, resolve_in, found) refl in
              inr (k, found, sym next ∙ e)
        ],
      )
    ]

    resolve-nil :
        (n m : ℕ) (names : List (List ℕ)) → names ≡ [] → resolve entries n names ≡ some m → n ≡ m
    unfolding resolve
    resolve-nil n m names e r = some_same n m (ap (resolve entries n) (sym e) ∙ r)

    components-nil : components [] ≡ []
    unfolding components keep first_token later
    components-nil = refl

    walk-IsResolved :
        (fuel : ℕ) (dc : Dcache) (t : Tree) (dc_entry idx m : ℕ) (path : List ℕ)
        → IsCoherent entries dc t
        → or_root dc_entry < dc.fresh
        → 0 < t.inode root
        → t.inode (or_root dc_entry) ≡ idx
        → IsPath path
        → length path < fuel
        → resolve entries idx (components path) ≡ some m
        → IsResolved t (walk image fs turns fuel dc dc_entry idx path) m
    unfolding IsResolved
    walk-IsResolved zero dc t dc_entry idx m path v low set at w h r = absurd (omega arith)
    walk-IsResolved (suc fuel) dc t dc_entry idx m path v low set at w h r =
        let p = skip_trailing_backslash path in
        let same = components-skip path in
        let w' : IsPath p = record {
          zeros = NoZero-skip path w.zeros;
          fits = subst Fits (sym same) w.fits;
        } in
        let n = length (first_token p) in
        let len = token_len p w' in
        elim (components-cases p) [
          | inl (empty, e) ↦ (
            dc,
            t,
            run-end image fs turns fuel dc dc_entry idx n path len (eq→== n 0 empty)
                ∙ ap (λ k. ok (k, dc))
                    (resolve-nil idx m (components path)
                      (sym same ∙ ap components (skip-end path empty) ∙ components-nil) r),
            v,
            refl,
          )
          | inr (more, e) ↦
              let some_token = ne→not-== n 0 (omega arith) in
              let (es, listed, answer) =
                resolve-cons idx m (first_token p) (later p)
                  (ap (resolve entries idx) (sym e ∙ same) ∙ r) in
              let d = directories idx es listed in
              let (ctx, reset, found) = search idx es d p in
              elim answer [
                | inl (missing, zero_m) ↦ (
                  dc,
                  t,
                  run-missing image fs turns fuel dc dc_entry idx n path len some_token d.inode ctx
                        d.got reset (found ∙ ap ok missing)
                      ∙ ap (λ k. ok (k, dc)) zero_m,
                  v,
                  refl,
                )
                | inr (k, there, deeper) ↦
                    let known : IsNamed entries (t.inode (or_root dc_entry)) (take n p) k = record {
                      zeros = NoZero-take n p w'.zeros;
                      es = es;
                      listed = ap entries at ∙ listed;
                      leads =
                          subst (λ name. lookup_name name es ≡ some k) (sym (take-token p)) there;
                    } in
                    let (fits, later_fits) = Fits-first p w'.fits in
                    let (dc₁, t₁, insert, v₁, next, new, old) =
                      dcache_insert-IsCache (IsNamed entries) dc t dc_entry p n k v low fits set
                        known in
                    elim (find_slash-components p w'.zeros) [
                      | inl (last, nothing) ↦ (
                        dc₁,
                        t₁,
                        run-last image fs turns fuel dc dc_entry idx n path len some_token d.inode
                              ctx d.got reset k (found ∙ ap ok there) d.dir dc.fresh dc₁ insert last
                            ∙ ap (λ k. ok (k, dc₁)) (resolve-nil k m (later p) nothing deeper),
                        v₁,
                        old root v.some_entry,
                      )
                      | inr (rest, at_slash, behind, zeros, shorter) ↦
                          let at_new : or_root dc.fresh ≡ dc.fresh =
                            rw (ne→not-== dc.fresh 0 (omega (arith, v.some_entry))) refl in
                          let root_same = old root v.some_entry in
                          let (dc', t', run, v', same_root) =
                            walk-IsResolved fuel dc₁ t₁ dc.fresh k m rest v₁
                              (omega (arith, at_new, next)) (omega (arith, root_same))
                              (ap t₁.inode at_new ∙ new)
                              (record { zeros = zeros; fits = subst Fits (sym behind) later_fits })
                              (omega (arith, shorter, length-skip path))
                              (ap (resolve entries k) behind ∙ deeper) in
                          (
                            dc',
                            t',
                            run-next image fs turns fuel dc dc_entry idx n path len some_token
                                  d.inode ctx d.got reset k (found ∙ ap ok there) d.dir dc.fresh dc₁
                                  insert rest at_slash
                                ∙ run,
                            v',
                            same_root ∙ root_same,
                          )
                    ]
              ]
        ]

    entry-inode :
        (dc : Dcache) (t : Tree) (next : ℕ)
        → IsCoherent entries dc t
        → or_root next < dc.fresh
        → dcache_get_inode dc next ≡ ok (t.inode (or_root next))
    unfolding dcache_get_inode entry_of
    entry-inode dc t next v low =
        rw (dcache_get_inode, v.entry (or_root next) (or_root-pos next) low) refl

    -- With a cache that stands for a tree of names of the directories on the disk and whose root
    -- is inode 2, the search of a path ends and returns the inode that its names lead to, 0 for a
    -- name that is missing, whichever part of the path the cache knows; the cache that is left
    -- stands for such a tree again. The path starts with a slash, has no zero byte and no name of
    -- 40 bytes or more, and searches names in directories only; each directory has entries, none
    -- of them across a block boundary and no name of 255 bytes, no holes and fewer than 4 GiB, and
    -- `turns` exceeds the number of its entries. Blocks have fewer than 2^31 bytes, the image
    -- fewer than 2^63.
    pub inode_get_idx_by_path-resolve :
        (dc : Dcache) (t : Tree) (path : List ℕ) (m : ℕ)
        → IsCoherent entries dc t
        → t.inode root ≡ root_inode_n
        → get_or path 0 0 ≡ slash
        → NoZero path
        → Fits (components path)
        → resolve entries root_inode_n (components path) ≡ some m
        → (dc' : Dcache) × (t' : Tree) × (inode_get_idx_by_path image fs turns dc path
            ≡ ok (m, dc'))
          × IsCoherent entries dc' t'
          × (t'.inode root ≡ root_inode_n)
    unfolding inode_get_idx_by_path get_cached_inode_num IsResolved
    inode_get_idx_by_path-resolve dc t path m v at_root absolute zeros fits r =
        let (next, rest, dc₁, t₁, cached, prefix) =
          cached_from-IsPrefix entries (length path + 1) dc t no_entry path v v.some_entry
            (record { zeros = zeros; fits = fits }) (omega arith) in
        let same_root = ap (λ f. f root) prefix.inodes ∙ at_root in
        let (dc', t', run, v', kept) =
          walk-IsResolved (length path + 1) dc₁ t₁ next (t₁.inode (or_root next)) m rest
            prefix.cache prefix.low (omega (arith, same_root)) refl prefix.rest
            (omega (arith, prefix.short))
            (prefix.leads ∙ ap (λ n. resolve entries n (components path)) at_root ∙ r) in
        (
          dc',
          t',
          rw
              (
                inode_get_idx_by_path,
                eq→== (get_or path 0 0) slash absolute,
                ◌>>=◌,
                cached,
                ◌>>=◌,
                entry-inode dc₁ t₁ next prefix.cache prefix.low,
              )
              run,
          v',
          kept ∙ same_root,
        )
