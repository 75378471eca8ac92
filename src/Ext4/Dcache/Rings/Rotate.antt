-- ===== src/Ext4/Dcache/Rings/Rotate.antt =====
-- fs/ext4/dcache.c: `dcache_lookup` on the tree. What it finds becomes the first child of its parent.
use spotlight.Base.{
  ℕ, zero, suc, ◌==◌, ◌≡◌, ◌≤◌, ◌<◌, ◌⊎◌, ◌&&◌, if◌then◌else◌, Bool, true, false, Bool-cases, inl,
  inr, some, List, [], ◌∷◌, ◌++◌, length, get_or, length-append, arith, refl, sym, subst, ap, ◌∙◌,
  eq→==, ==→eq,
}
use mathlib.Core.List.{append_assoc}
use spotlight.Base.Result.{Result, ok, ◌>>=◌}
use spotlight.Ext4.Dcache.{
  no_entry, or_root, Dcache, store, same_string, lookup_from, dcache_lookup,
}
use spotlight.Ext4.Dcache.Rings.{
  Tree, first_of, count, IsLinked, IsRing, entry_of, IsCache, count-append, count-here,
  IsLinked-split, IsRing-rotate,
}

-- The tree with another order of the children of `q`.
unfoldable pub with_kids : Tree → ℕ → List ℕ → Tree
with_kids t q ks = record t { kids = λ r. if r == q then ks else t.kids r }

-- The entry of a name, as `dcache_lookup` compares it.
unfoldable pub has_name : Tree → List ℕ → ℕ → ℕ → Bool
has_name t name namelen k =
    same_string namelen (t.name k) name && (get_or (t.name k) namelen 0 == 0)

-- The first of a list cannot come again behind the second.
twice :
    (pre : List ℕ) (i k : ℕ) (post : List ℕ)
    → first_of (pre ++ (i ∷ (k ∷ post))) ≡ k
    → 2 ≤ count k (pre ++ (i ∷ (k ∷ post)))
unfolding first_of count
twice [] i k post e = rw (eq→== k i (sym e), eq→== k k refl) (omega arith)
twice (x ∷ pre) i k post e =
    let rest = count-append k pre (i ∷ (k ∷ post)) in
    let again = count-here k post in rw (eq→== k x (sym e)) (omega (arith, rest, again))

count-none : (x : ℕ) → count x [] ≡ 0
unfolding count
count-none x = refl

module _ (IsChild : ℕ → List ℕ → ℕ → Type 0) (dc : Dcache) (t : Tree) (v : IsCache IsChild dc t)
    (q : ℕ) (pos : 0 < q) (low : q < dc.fresh) where
  module _ (pre : List ℕ) (k : ℕ) (post : List ℕ) (all : t.kids q ≡ pre ++ (k ∷ post)) where
    abbrev t' : Tree
    t' = with_kids t q ((k ∷ post) ++ pre)

    kids-same : (x : ℕ) → count x ((k ∷ post) ++ pre) ≡ count x (t.kids q)
    kids-same x =
        count-append x (k ∷ post) pre
        ∙ sym (ap (count x) all ∙ count-append x pre (k ∷ post) ∙ omega arith)

    count-same : (x r : ℕ) → count x (t'.kids r) ≡ count x (t.kids r)
    unfolding with_kids
    count-same x r = elim (Bool-cases (r == q)) [
      | inl here ↦ rw here (kids-same x ∙ ap (λ p. count x (t.kids p)) (sym (==→eq r q here)))
      | inr other ↦ rw other refl
    ]

    length-same : (r : ℕ) → length (t'.kids r) ≡ length (t.kids r)
    unfolding with_kids
    length-same r = elim (Bool-cases (r == q)) [
      | inl here ↦ rw here (
          length-append (k ∷ post) pre
          ∙ omega arith
          ∙ sym (
              ap (λ p. length (t.kids p)) (==→eq r q here)
              ∙ ap length all
              ∙ length-append pre (k ∷ post)))
      | inr other ↦ rw other refl
    ]

    IsRing-same : (r : ℕ) → IsRing t.sibling (t'.kids r)
    unfolding with_kids
    IsRing-same r = elim (Bool-cases (r == q)) [
      | inl here ↦
          rw here (IsRing-rotate t.sibling pre k post (subst (IsRing t.sibling) all (v.ring q)))
      | inr other ↦ rw other (v.ring r)
    ]

    entry-same :
        (r : ℕ)
        → 0 < r
        → r < dc.fresh
        → (store dc q (record (entry_of t q) { childs = k })).entry r ≡ some (entry_of t' r)
    unfolding store with_kids entry_of first_of
    entry-same r h l = elim (Bool-cases (r == q)) [
      | inl here ↦ rw (here, ==→eq r q here) refl
      | inr other ↦ rw other (v.entry r h l)
    ]

    with_kids-IsCache : IsCache IsChild (store dc q (record (entry_of t q) { childs = k })) t'
    unfolding store with_kids
    with_kids-IsCache = record {
      some_entry = v.some_entry;
      entry = entry-same;
      ring = IsRing-same;
      once = λ x r. omega (arith, count-same x r, v.once x r);
      owned = λ x a b h h'.
          v.owned x a b (omega (arith, count-same x a)) (omega (arith, count-same x b));
      parent = λ x r h. v.parent x r (omega (arith, count-same x r));
      older = λ x r h. v.older x r (omega (arith, count-same x r));
      old = λ x r h. v.old x r (omega (arith, count-same x r));
      few = λ r. omega (arith, length-same r, v.few r);
      child = λ x r h. v.child x r (omega (arith, count-same x r));
    }

  in_kids :
      (pre : List ℕ) (i : ℕ) (post : List ℕ) → t.kids q ≡ pre ++ (i ∷ post) → 0 < count i (t.kids q)
  in_kids pre i post all =
      let sum = ap (count i) all ∙ count-append i pre (i ∷ post) in
      omega (arith, sum, count-here i post)

  link_of :
      (pre : List ℕ) (i : ℕ) (post : List ℕ)
      → t.kids q ≡ pre ++ (i ∷ post)
      → IsLinked t.sibling i post (first_of (t.kids q))
  unfolding IsRing first_of
  link_of [] i post all = rw all (subst (IsRing t.sibling) all (v.ring q))
  link_of (a ∷ xs) i post all =
      rw all (IsLinked-split t.sibling a xs i post a (subst (IsRing t.sibling) all (v.ring q))).1

  entry_at :
      (pre : List ℕ) (i : ℕ) (post : List ℕ)
      → t.kids q ≡ pre ++ (i ∷ post)
      → dc.entry i ≡ some (entry_of t i)
  entry_at pre i post all =
      let mem = in_kids pre i post all in v.entry i (omega (arith, v.older i q mem)) (v.old i q mem)

  module _ (name : List ℕ) (namelen : ℕ) where
    -- What the loop comes to: no child has the name, or one that has it is put first.
    pub IsAnswer : Result (ℕ × Dcache) → Type 0
    IsAnswer run =
        ((run ≡ ok (no_entry, dc))
          × ((x : ℕ) → 0 < count x (t.kids q) → has_name t name namelen x ≡ false))
        ⊎ ((pre : List ℕ) × (k : ℕ) × (post : List ℕ) × (t.kids q ≡ pre ++ (k ∷ post))
            × (has_name t name namelen k ≡ true)
            × (run ≡ ok (k, store dc q (record (entry_of t q) { childs = k }))))

    misses_more :
        (pre : List ℕ) (i : ℕ)
        → ((x : ℕ) → 0 < count x pre → has_name t name namelen x ≡ false)
        → has_name t name namelen i ≡ false
        → (x : ℕ) → 0 < count x (pre ++ (i ∷ []))
        → has_name t name namelen x ≡ false
    unfolding count
    misses_more pre i miss here x h = elim (Bool-cases (x == i)) [
      | inl same ↦ rw (==→eq x i same) here
      | inr other ↦
          let none_more : count x (i ∷ []) ≡ 0 = rw other refl in
          miss x (omega (arith, count-append x pre (i ∷ []), none_more))
    ]

    module _ (fuel i : ℕ) (at : dc.entry i ≡ some (entry_of t i)) where
      run-found :
          has_name t name namelen i ≡ true
          → lookup_from (suc fuel) dc q i name namelen
            ≡ ok (i, store dc q (record (entry_of t q) { childs = i }))
      unfolding lookup_from has_name entry_of
      run-found found = rw (lookup_from, at, v.entry q pos low, found) refl

      run-end :
          has_name t name namelen i ≡ false
          → (t.sibling i == first_of (t.kids q)) ≡ true
          → lookup_from (suc fuel) dc q i name namelen ≡ ok (no_entry, dc)
      unfolding lookup_from has_name entry_of
      run-end other end = rw (lookup_from, at, v.entry q pos low, other, ◌>>=◌, end) refl

      run-next :
          has_name t name namelen i ≡ false
          → (t.sibling i == first_of (t.kids q)) ≡ false
          → lookup_from (suc fuel) dc q i name namelen
            ≡ lookup_from fuel dc q (t.sibling i) name namelen
      unfolding lookup_from has_name entry_of
      run-next other more = rw (lookup_from, at, v.entry q pos low, other, ◌>>=◌, more) refl

    lookup_from-IsAnswer :
        (fuel : ℕ) (pre : List ℕ) (i : ℕ) (post : List ℕ)
        → t.kids q ≡ pre ++ (i ∷ post)
        → ((x : ℕ) → 0 < count x pre → has_name t name namelen x ≡ false)
        → length post < fuel
        → IsAnswer (lookup_from fuel dc q i name namelen)
    unfolding IsAnswer IsLinked
    lookup_from-IsAnswer zero pre i post all miss enough = absurd (omega arith)
    lookup_from-IsAnswer (suc fuel) pre i [] all miss enough =
        let at = entry_at pre i [] all in
        elim (Bool-cases (has_name t name namelen i)) [
          | inl found ↦ inr (pre, i, [], all, found, run-found fuel i at found)
          | inr other ↦
              let link = link_of pre i [] all in
              inl (
                run-end fuel i at other (eq→== (t.sibling i) (first_of (t.kids q)) link),
                λ x h. misses_more pre i miss other x (subst (λ ks. 0 < count x ks) all h),
              )
        ]
    lookup_from-IsAnswer (suc fuel) pre i (k ∷ post) all miss enough =
        let at = entry_at pre i (k ∷ post) all in
        let (next, ks) = link_of pre i (k ∷ post) all in
        elim (Bool-cases (has_name t name namelen i)) [
          | inl found ↦ inr (pre, i, k ∷ post, all, found, run-found fuel i at found)
          | inr other ↦ elim (Bool-cases (t.sibling i == first_of (t.kids q))) [
            | inl end ↦
                let e : first_of (pre ++ (i ∷ (k ∷ post))) ≡ k =
                  ap first_of (sym all)
                  ∙ sym (==→eq (t.sibling i) (first_of (t.kids q)) end)
                  ∙ next in
                absurd (omega (arith, twice pre i k post e, v.once k q, ap (count k) all))
            | inr more ↦
                subst IsAnswer
                  (sym (
                    run-next fuel i at other more
                    ∙ ap (λ j. lookup_from fuel dc q j name namelen) next))
                  (lookup_from-IsAnswer fuel (pre ++ (i ∷ [])) k post
                    (all ∙ sym (append_assoc pre (i ∷ []) (k ∷ post)))
                    (misses_more pre i miss other) (omega arith))
          ]
        ]

pub kids-cases : (l : List ℕ) → (l ≡ []) ⊎ ((k : ℕ) × (ks : List ℕ) × (l ≡ k ∷ ks))
kids-cases [] = inl refl
kids-cases (k ∷ ks) = inr (k, ks, refl)

pub or_root-pos : (parent : ℕ) → 0 < or_root parent
or_root-pos parent = ground arith

some→not-== : (n : ℕ) → 0 < n → (n == 0) ≡ false
some→not-== n h = ground arith

-- On a cache that stands for a tree, with a parent that exists, a lookup ends: it returns no
-- entry, leaves the cache as it is and no child of the parent has the name; or it returns a child
-- that has the name, which is then the first, and the cache stands for a tree with the same inodes
-- and names, in which every entry has the same children as before.
pub dcache_lookup-kids :
    (IsChild : ℕ → List ℕ → ℕ → Type 0) (dc : Dcache) (t : Tree) (parent : ℕ) (name : List ℕ)
    (namelen : ℕ)
    → IsCache IsChild dc t
    → or_root parent < dc.fresh
    → ((dcache_lookup dc parent name namelen ≡ ok (no_entry, dc))
        × ((x : ℕ) → 0 < count x (t.kids (or_root parent)) → has_name t name namelen x ≡ false))
      ⊎ ((k : ℕ) × (dc' : Dcache) × (t' : Tree) × (dcache_lookup dc parent name namelen
            ≡ ok (k, dc'))
          × (0 < count k (t.kids (or_root parent)))
          × (has_name t name namelen k ≡ true)
          × IsCache IsChild dc' t'
          × (dc'.fresh ≡ dc.fresh)
          × (t'.inode ≡ t.inode)
          × (t'.name ≡ t.name)
          × (first_of (t'.kids (or_root parent)) ≡ k)
          × ((x r : ℕ) → count x (t'.kids r) ≡ count x (t.kids r)))
unfolding dcache_lookup IsAnswer entry_of store with_kids first_of
dcache_lookup-kids IsChild dc t parent name namelen v low =
    let q = or_root parent in
    let pos : 0 < q = or_root-pos parent in
    elim (kids-cases (t.kids q)) [
      | inl nobody ↦
          let no_first : (first_of (t.kids q) == 0) ≡ true =
            eq→== (first_of (t.kids q)) 0 (ap first_of nobody) in
          inl (
            rw (dcache_lookup, v.entry q pos low, no_first) refl,
            λ x h. absurd (omega (arith, ap (count x) nobody, count-none x)),
          )
      | inr (i, ks, all) ↦
          let mem = in_kids IsChild dc t v q pos low [] i ks all in
          let first = ap first_of all in
          let some_first : (first_of (t.kids q) == 0) ≡ false =
            ap (λ n. n == 0) first ∙ some→not-== i (omega (arith, v.older i q mem)) in
          let run : dcache_lookup dc parent name namelen
              ≡ lookup_from dc.fresh dc q i name namelen =
            rw (dcache_lookup, v.entry q pos low, some_first)
              (ap (λ j. lookup_from dc.fresh dc q j name namelen) first) in
          elim (lookup_from-IsAnswer IsChild dc t v q pos low name namelen dc.fresh [] i ks all
            (λ x h. absurd (omega (arith, count-none x))) (omega (arith, v.few q, ap length all))) [
              | inl (miss, none_has) ↦ inl (run ∙ miss, none_has)
              | inr (pre, k, post, parts, found, hit) ↦ inr (
                k,
                store dc q (record (entry_of t q) { childs = k }),
                with_kids t q ((k ∷ post) ++ pre),
                run ∙ hit,
                in_kids IsChild dc t v q pos low pre k post parts,
                found,
                with_kids-IsCache IsChild dc t v q pos low pre k post parts,
                refl,
                refl,
                refl,
                rw (eq→== q q refl) refl,
                count-same IsChild dc t v q pos low pre k post parts,
              )
            ]
    ]
