-- ===== src/Ext4/Dcache/Lookup.antt =====
-- fs/ext4/dcache.c: what a lookup finds behind an insertion.
use spotlight.Base.{
  ℕ, zero, suc, ◌+◌, ◌-◌, if◌then◌else◌, Bool, ◌≡◌, ◌≤◌, ◌<◌, ◌⊎◌, ◌==◌, not, true, false,
  Bool-cases, inl, inr, some, List, [], ◌∷◌, get_or, take, arith, refl, ◌∙◌, eq→==, le→not-ltb,
}
use spotlight.Base.Result.{ok}
use spotlight.Ext4.Dcache.{
  dcache_entry_name_len, no_entry, root, or_root, DcacheEntry, Dcache, store, same_string,
  dcache_insert, lookup_from, dcache_lookup, dcache_get_inode,
}

lt→not-== : (a b : ℕ) → a < b → (a == b) ≡ false
lt→not-== a b h = ground arith

gt→not-== : (a b : ℕ) → b < a → (a == b) ≡ false
gt→not-== a b h = ground arith

same_string-take : (n : ℕ) (name : List ℕ) → same_string n (take n name) name ≡ true
unfolding same_string
same_string-take zero name = refl
same_string-take (suc n) [] = refl
same_string-take (suc n) (x ∷ name) = elim (Bool-cases (x == 0)) [
  | inl end ↦ rw (same_string, eq→== x x refl, end) refl
  | inr further ↦ rw (same_string, eq→== x x refl, further) (same_string-take n name)
]

get_or-take : (n : ℕ) (name : List ℕ) → get_or (take n name) n 0 ≡ 0
get_or-take zero name = refl
get_or-take (suc n) [] = refl
get_or-take (suc n) (x ∷ name) = get_or-take n name

-- A lookup of the name of the first child.
first_child-lookup :
    (dc : Dcache) (parent namelen iter : ℕ) (name : List ℕ) (p c : DcacheEntry)
    → dc.entry (or_root parent) ≡ some p
    → p.childs ≡ iter
    → 0 < iter
    → dc.entry iter ≡ some c
    → c.name ≡ take namelen name
    → 0 < dc.fresh
    → dcache_lookup dc parent name namelen
      ≡ ok (iter, store dc (or_root parent) (record p { childs = iter }))
unfolding dcache_lookup lookup_from
first_child-lookup dc parent namelen iter name p c p_there first some_iter c_there named fuel =
    let whole : dc.fresh ≡ suc (dc.fresh - 1) = omega arith in
    rw
      (
        dcache_lookup,
        p_there,
        first,
        gt→not-== iter 0 some_iter,
        whole,
        lookup_from,
        c_there,
        p_there,
        named,
        same_string-take namelen name,
        get_or-take namelen name,
      )
      refl

-- An entry that an insertion can go to: what its fields point to exists, and `calloc` returns
-- none of it again.
pub record IsParent (dc : Dcache) (parent : ℕ) : Type 0 where
  pub p : DcacheEntry
  pub p_there : dc.entry (or_root parent) ≡ some p
  pub p_old : or_root parent < dc.fresh
  pub r : DcacheEntry
  pub r_there : dc.entry root ≡ some r
  pub r_set : (r.inode == 0) ≡ false
  pub childs :
      (p.childs ≡ no_entry)
      ⊎ ((c : DcacheEntry) × (dc.entry p.childs ≡ some c) × (0 < p.childs) × (p.childs < dc.fresh))

store_same : (dc : Dcache) (q : ℕ) (e : DcacheEntry) → (store dc q e).entry q ≡ some e
unfolding store
store_same dc q e = rw (eq→== q q refl) refl

store_other :
    (dc : Dcache) (q p : ℕ) (e : DcacheEntry)
    → (q == p) ≡ false
    → (store dc p e).entry q ≡ dc.entry q
unfolding store
store_other dc q p e other = rw other refl

root_check : (b c : Bool) → c ≡ false → (if b then not c else true) ≡ true
root_check true c e = rw e refl
root_check false c e = refl

-- The entry that `dcache_insert` makes, and where it stands.
insert-first_child :
    (dc : Dcache) (parent namelen n : ℕ) (name : List ℕ) (v : IsParent dc parent)
    → namelen + 1 ≤ dcache_entry_name_len
    → (dc' : Dcache) × (c : DcacheEntry) × (dcache_insert dc parent name namelen n
        ≡ ok (dc.fresh, dc'))
      × (dc'.entry (or_root parent) ≡ some (record (v.p) { childs = dc.fresh }))
      × (dc'.entry dc.fresh ≡ some c)
      × (c.name ≡ take namelen name)
      × (c.inode ≡ n)
      × (dc'.fresh ≡ dc.fresh + 1)
unfolding dcache_insert store
insert-first_child dc parent namelen n name v fits =
    let q = or_root parent in
    let short = le→not-ltb dcache_entry_name_len (namelen + 1) fits in
    let checked = root_check (parent == no_entry) (v.r.inode == 0) v.r_set in
    elim v.childs [
      | inl childless ↦
          let c : DcacheEntry = record {
            childs = no_entry;
            siblings = dc.fresh;
            inode = n;
            name = take namelen name;
          } in
          let dc' = store (store dc dc.fresh c) q (record (v.p) { childs = dc.fresh }) in
          (
            record dc' { fresh = dc.fresh + 1 },
            c,
            rw (dcache_insert, short, v.r_there, checked, v.p_there, childless) refl,
            store_same (store dc dc.fresh c) q (record (v.p) { childs = dc.fresh }),
            store_other (store dc dc.fresh c) dc.fresh q (record (v.p) { childs = dc.fresh })
                  (gt→not-== dc.fresh q v.p_old)
                ∙ store_same dc dc.fresh c,
            refl,
            refl,
            refl,
          )
      | inr (d, d_there, d_some, d_old) ↦
          let c : DcacheEntry = record {
            childs = no_entry;
            siblings = d.siblings;
            inode = n;
            name = take namelen name;
          } in
          let dc₁ = store (store dc dc.fresh c) v.p.childs (record d { siblings = dc.fresh }) in
          let dc' = store dc₁ q (record (v.p) { childs = dc.fresh }) in
          (
            record dc' { fresh = dc.fresh + 1 },
            c,
            rw
                (
                  dcache_insert,
                  short,
                  v.r_there,
                  checked,
                  v.p_there,
                  gt→not-== v.p.childs 0 d_some,
                  d_there,
                )
                refl,
            store_same dc₁ q (record (v.p) { childs = dc.fresh }),
            store_other dc₁ dc.fresh q (record (v.p) { childs = dc.fresh })
                  (gt→not-== dc.fresh q v.p_old)
                ∙ store_other (store dc dc.fresh c) dc.fresh v.p.childs
                    (record d { siblings = dc.fresh }) (gt→not-== dc.fresh v.p.childs d_old)
                ∙ store_same dc dc.fresh c,
            refl,
            refl,
            refl,
          )
    ]

or_root-some : (q : ℕ) → 0 < q → or_root q ≡ q
or_root-some q h = rw (gt→not-== q 0 h) refl

-- When the root has an inode, the parent and its first child exist, and their addresses are not
-- handed out again, a name of up to 39 bytes that is inserted is found by the next lookup under
-- the same parent: it returns the new entry, and the entry has the inode that was inserted.
pub lookup-insert :
    (dc : Dcache) (parent namelen n : ℕ) (name : List ℕ)
    → IsParent dc parent
    → namelen + 1 ≤ dcache_entry_name_len
    → (dc' : Dcache) × (dc'' : Dcache) × (dcache_insert dc parent name namelen n
        ≡ ok (dc.fresh, dc'))
      × (dcache_lookup dc' parent name namelen ≡ ok (dc.fresh, dc''))
      × (dcache_get_inode dc'' dc.fresh ≡ ok n)
unfolding dcache_get_inode
lookup-insert dc parent namelen n name v fits =
    let q = or_root parent in
    let (dc', c, run, p_there, c_there, named, numbered, next) =
      insert-first_child dc parent namelen n name v fits in
    let p' : DcacheEntry = record (v.p) { childs = dc.fresh } in
    let kept = store_other dc' dc.fresh q p' (gt→not-== dc.fresh q v.p_old) ∙ c_there in
    (
      dc',
      store dc' q p',
      run,
      first_child-lookup dc' parent namelen dc.fresh name p' c p_there refl (omega (arith, v.p_old))
          c_there named (omega (arith, next)),
      rw (dcache_get_inode, or_root-some dc.fresh (omega (arith, v.p_old)), kept, numbered) refl,
    )
