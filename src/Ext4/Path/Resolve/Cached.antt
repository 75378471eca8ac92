-- ===== src/Ext4/Path/Resolve/Cached.antt =====
-- fs/ext4/inode.c: `get_cached_inode_num` on the abstract tree.
use spotlight.Base.{
  ℕ, zero, suc, ◌==◌, ◌≡◌, ◌≤◌, ◌<◌, if◌then◌else◌, List, [], ◌∷◌, length, drop, get_or,
  length-drop, arith, refl, sym, ap, ap₂, ◌∙◌, true, false, inl, inr, Bool-cases, eq→==, ne→not-==,
  subst,
}
use spotlight.Base.Result.{ok, ◌>>=◌}
use spotlight.Ext4.Dcache.{or_root, no_entry, Dcache, dcache_lookup}
use spotlight.Ext4.Dcache.Rings.{Tree, count, IsCache}
use spotlight.Ext4.Dcache.Rings.Rotate.{has_name, dcache_lookup-kids}
use spotlight.Ext4.Path.{slash, get_path_token_len, cached_from}
use spotlight.Ext4.Path.Components.{
  first_token, later, components, NoZero, Fits, components-cases, components-slash,
  components-behind, NoZero-drop, take-token, length-token, get_path_token_len-token,
  same_string-first, both-true,
}
use spotlight.Ext4.Path.Resolve.{Directories, resolve, IsNamed, resolve-IsNamed, Fits-first}

-- A path that the searches can go on with.
pub record IsPath (path : List ℕ) : Type 0 where
  pub zeros : NoZero path
  pub fits : Fits (components path)

past_slash : List ℕ → List ℕ
past_slash path = if get_or path 0 0 == slash then drop 1 path else path

past_slash-IsPath :
    (path : List ℕ)
    → IsPath path
    → IsPath (past_slash path)
      × (components (past_slash path) ≡ components path)
      × (length (past_slash path) ≤ length path)
unfolding past_slash
past_slash-IsPath [] v = (v, refl, omega arith)
past_slash-IsPath (c ∷ path) v = elim (Bool-cases (c == slash)) [
  | inl here ↦
      let e = components-slash c path here in
      (
        rw here (record { zeros = NoZero-drop 1 (c ∷ path) v.zeros; fits = subst Fits e v.fits }),
        rw here (sym e),
        rw here (omega arith),
      )
  | inr other ↦ (rw other v, rw other refl, rw other (omega arith))
]

-- Behind the first token.
pub behind-IsPath : (path : List ℕ) → IsPath path → IsPath (drop (length (first_token path)) path)
behind-IsPath path v = record {
  zeros = NoZero-drop (length (first_token path)) path v.zeros;
  fits = subst Fits (sym (components-behind path)) (Fits-first path v.fits).1;
}

pub token_len :
    (path : List ℕ) → IsPath path → get_path_token_len path ≡ ok (length (first_token path))
token_len path v = get_path_token_len-token path v.zeros (omega (arith, (Fits-first path v.fits).0))

module _ (entries : Directories) where
  -- The cache stands for a tree whose names lead where the directories say.
  abbrev pub IsCoherent : Dcache → Tree → Type 0
  IsCoherent = IsCache (IsNamed entries)

  -- What the loop comes to: the rest of the path leads from the entry where the whole path leads.
  pub record IsPrefix (dc : Dcache) (t : Tree) (next : ℕ) (path : List ℕ) (dc' : Dcache) (t' : Tree)
      (next' : ℕ) (path' : List ℕ) : Type 0 where
    pub cache : IsCoherent dc' t'
    pub low : or_root next' < dc'.fresh
    pub inodes : t'.inode ≡ t.inode
    pub rest : IsPath path'
    pub short : length path' ≤ length path
    pub leads :
        resolve entries (t'.inode (or_root next')) (components path')
        ≡ resolve entries (t.inode (or_root next)) (components path)

  module _ (fuel : ℕ) (dc : Dcache) (next : ℕ) (path : List ℕ) (n : ℕ)
      (len : get_path_token_len (past_slash path) ≡ ok n) where
    run-end : (n == 0) ≡ true → cached_from (suc fuel) dc next path ≡ ok (next, past_slash path, dc)
    unfolding cached_from past_slash
    run-end e = rw (cached_from, len, ◌>>=◌, e) refl

    run-miss :
        (n == 0) ≡ false
        → dcache_lookup dc next (past_slash path) n ≡ ok (no_entry, dc)
        → cached_from (suc fuel) dc next path ≡ ok (next, past_slash path, dc)
    unfolding cached_from past_slash
    run-miss e miss = rw (cached_from, len, ◌>>=◌, e, miss) refl

    run-hit :
        (n == 0) ≡ false
        → (k : ℕ) (dc' : Dcache) → dcache_lookup dc next (past_slash path) n ≡ ok (k, dc')
        → (k == no_entry) ≡ false
        → cached_from (suc fuel) dc next path ≡ cached_from fuel dc' k (drop n (past_slash path))
    unfolding cached_from past_slash
    run-hit e k dc' hit found = rw (cached_from, len, ◌>>=◌, e, hit, found) refl

  stays :
      (dc : Dcache) (t : Tree) (next : ℕ) (path : List ℕ)
      → IsCoherent dc t
      → or_root next < dc.fresh
      → IsPath path
      → IsPrefix dc t next path dc t next (past_slash path)
  stays dc t next path v low w =
      let (w', same, short) = past_slash-IsPath path w in
      record {
        cache = v;
        low = low;
        inodes = refl;
        rest = w';
        short = short;
        leads = ap (resolve entries (t.inode (or_root next))) same;
      }

  -- The name of an entry that a lookup finds is the first token.
  found-IsNamed :
      (dc : Dcache) (t : Tree) (q k : ℕ) (path : List ℕ)
      → IsCoherent dc t
      → NoZero path
      → 0 < count k (t.kids q)
      → has_name t path (length (first_token path)) k ≡ true
      → IsNamed entries (t.inode q) (first_token path) (t.inode k)
  unfolding has_name
  found-IsNamed dc t q k path v zeros mem found =
      let child = v.child k q mem in
      let (same, end) = both-true _ _ found in
      subst (λ name. IsNamed entries (t.inode q) name (t.inode k))
        (same_string-first (length (first_token path)) (t.name k) path child.zeros zeros
            (length-token path) same end
          ∙ take-token path)
        child

  pub cached_from-IsPrefix :
      (fuel : ℕ) (dc : Dcache) (t : Tree) (next : ℕ) (path : List ℕ)
      → IsCoherent dc t
      → or_root next < dc.fresh
      → IsPath path
      → length path < fuel
      → (next' : ℕ) × (path' : List ℕ) × (dc' : Dcache) × (t' : Tree) × (cached_from fuel dc next
            path
          ≡ ok (next', path', dc'))
        × IsPrefix dc t next path dc' t' next' path'
  cached_from-IsPrefix zero dc t next path v low w h = absurd (omega arith)
  cached_from-IsPrefix (suc fuel) dc t next path v low w h =
      let p = past_slash path in
      let (w', same, short) = past_slash-IsPath path w in
      let n = length (first_token p) in
      let len = token_len p w' in
      let q = or_root next in
      elim (components-cases p) [
        | inl (empty, e) ↦ (
          next,
          p,
          dc,
          t,
          run-end fuel dc next path n len (eq→== n 0 empty),
          stays dc t next path v low w,
        )
        | inr (more, e) ↦
            let some_token = ne→not-== n 0 (omega arith) in
            elim (dcache_lookup-kids (IsNamed entries) dc t next p n v low) [
              | inl (miss, none_has) ↦ (
                next,
                p,
                dc,
                t,
                run-miss fuel dc next path n len some_token miss,
                stays dc t next path v low w,
              )
              | inr
                    (
                      k, dc₁, t₁, hit, mem, found, v₁, same_fresh, same_inodes, same_names, front,
                      counts,
                    ) ↦
                  let some_k = ne→not-== k 0 (omega (arith, v.older k q mem)) in
                  let at_k : or_root k ≡ k = rw some_k refl in
                  let (next', path', dc', t', run, r) =
                    cached_from-IsPrefix fuel dc₁ t₁ k (drop n p) v₁
                      (omega (arith, at_k, v.old k q mem)) (behind-IsPath p w')
                      (omega (arith, length-drop n p, length-token p)) in
                  let child = found-IsNamed dc t q k p v w'.zeros mem found in
                  (
                    next',
                    path',
                    dc',
                    t',
                    run-hit fuel dc next path n len some_token k dc₁ hit some_k ∙ run,
                    record {
                      cache = r.cache;
                      low = r.low;
                      inodes = r.inodes ∙ same_inodes;
                      rest = r.rest;
                      short = omega (arith, r.short, length-drop n p);
                      leads =
                          r.leads
                          ∙ ap₂ (λ i. resolve entries i)
                              (ap t₁.inode at_k ∙ ap (λ f. f k) same_inodes) (components-behind p)
                          ∙ sym (
                              resolve-IsNamed entries (t.inode q) (first_token p) (t.inode k)
                                (later p) child)
                          ∙ ap (resolve entries (t.inode q)) (sym e ∙ same);
                    },
                  )
            ]
      ]
