-- ===== src/Ext4/Dcache/Rings/Insert.antt =====
-- fs/ext4/dcache.c: `dcache_insert` on the tree. The new entry becomes the first child.
use spotlight.Base.{
  ℕ, ◌+◌, ◌==◌, ◌≡◌, ◌≤◌, ◌<◌, not, if◌then◌else◌, Bool, true, false, Bool-cases, inl, inr, some,
  List, [], ◌∷◌, length, take, arith, refl, sym, ap, ◌∙◌, eq→==, ==→eq, ne→not-==, not-==→ne,
  le→not-ltb, ltb, ltb→lt, not-ltb→le, Option, ◌⊎◌, not-==→ne,
}
use spotlight.Base.Result.{ok}
use spotlight.Ext4.Dcache.{
  dcache_entry_name_len, no_entry, root, or_root, DcacheEntry, Dcache, store, dcache_insert,
}
use spotlight.Ext4.Dcache.Rings.{Tree, first_of, count, IsRing, entry_of, IsCache, count-here}
use spotlight.Ext4.Dcache.Rings.Rotate.{or_root-pos, kids-cases}
use spotlight.Ext4.Dcache.Rings.Links.{
  at_, at_same, at_other, behind_new, linked_in, count-behind_new, length-behind_new,
  linked_in-ring, IsRing-agree, linked_in-away,
}

unfoldable pub with_new : Tree → ℕ → ℕ → List ℕ → ℕ → Tree
with_new t q new name n = record {
  kids = at_ q (new ∷ behind_new (t.kids q)) t.kids;
  sibling = linked_in (t.kids q) new t.sibling;
  inode = at_ new n t.inode;
  name = at_ new name t.name;
}

module _ (IsChild : ℕ → List ℕ → ℕ → Type 0) (dc : Dcache) (t : Tree) (v : IsCache IsChild dc t)
    (q : ℕ) (pos : 0 < q) (low : q < dc.fresh) (name : List ℕ) (n : ℕ) where
  abbrev new : ℕ
  new = dc.fresh

  abbrev t' : Tree
  t' = with_new t q new name n

  -- An entry that is there already.
  old-other : (x r : ℕ) → 0 < count x (t.kids r) → (x == new) ≡ false
  old-other x r h = ne→not-== x new (omega (arith, v.old x r h))

  not_new : (r : ℕ) → count new (t.kids r) ≡ 0
  not_new r = elim (Bool-cases (ltb 0 (count new (t.kids r)))) [
    | inl some_new ↦ absurd (omega (arith, v.old new r (ltb→lt 0 (count new (t.kids r)) some_new)))
    | inr none_new ↦ omega (arith, not-ltb→le 0 (count new (t.kids r)) none_new)
  ]

  count-with_new : (x r : ℕ) → (x == new) ≡ false → count x (t'.kids r) ≡ count x (t.kids r)
  unfolding with_new count at_
  count-with_new x r other = elim (Bool-cases (r == q)) [
    | inl here ↦
        rw (here, other)
          (omega
            (arith, count-behind_new x (t.kids q), ap (λ p. count x (t.kids p)) (==→eq r q here)))
    | inr away ↦ rw away refl
  ]

  count-new : (r : ℕ) → count new (t'.kids r) ≡ (if r == q then 1 else 0)
  unfolding with_new count at_
  count-new r = elim (Bool-cases (r == q)) [
    | inl here ↦
        rw (here, eq→== new new refl) (omega (arith, count-behind_new new (t.kids q), not_new q))
    | inr away ↦ rw away (not_new r)
  ]

  kids_new : t.kids new ≡ []
  kids_new = elim (kids-cases (t.kids new)) [
    | inl nobody ↦ nobody
    | inr (k, ks, all) ↦
        let mem : 0 < count k (t.kids new) = omega (arith, ap (count k) all, count-here k ks) in
        absurd (omega (arith, v.older k new mem, v.old k new mem))
  ]

  away_zero : (x r : ℕ) → (r == q) ≡ false → 0 < count x (t.kids r) → count x (t.kids q) ≡ 0
  away_zero x r away h = elim (Bool-cases (ltb 0 (count x (t.kids q)))) [
    | inl some_x ↦
        absurd (not-==→ne r q away (v.owned x r q h (ltb→lt 0 (count x (t.kids q)) some_x)))
    | inr none_x ↦ omega (arith, not-ltb→le 0 (count x (t.kids q)) none_x)
  ]

  IsRing-new : (r : ℕ) → IsRing t'.sibling (t'.kids r)
  unfolding with_new at_ IsRing
  IsRing-new r = elim (Bool-cases (r == q)) [
    | inl here ↦ rw here (
        linked_in-ring t.sibling new (t.kids q) (v.ring q) (λ x h. old-other x q h)
          (λ x. v.once x q))
    | inr away ↦ rw away (
        IsRing-agree t.sibling (linked_in (t.kids q) new t.sibling) (t.kids r)
          (λ x h.
            linked_in-away t.sibling new x (t.kids q) (old-other x r h) (away_zero x r away h))
          (v.ring r))
  ]

  q_not_new : (x : ℕ) → (x == q) ≡ true → (x == new) ≡ false
  q_not_new x here = ne→not-== x new (omega (arith, ==→eq x q here))

  module _ (siblings : ℕ) where
    abbrev new_entry : DcacheEntry
    new_entry = record { childs = no_entry; siblings = siblings; inode = n; name = name }

  entry-childless :
      t.kids q ≡ []
      → (x : ℕ) → 0 < x
      → x < new + 1
      → (store (store dc new (new_entry new)) q (record (entry_of t q) { childs = new })).entry x
        ≡ some (entry_of t' x)
  unfolding store with_new at_ linked_in entry_of first_of
  entry-childless all x h l = elim (Bool-cases (x == q)) [
    | inl here ↦ rw (all, here, q_not_new x here, ==→eq x q here) refl
    | inr away ↦ elim (Bool-cases (x == new)) [
      | inl same ↦ rw (all, away, same, ap (λ y. t.kids y) (==→eq x new same) ∙ kids_new) refl
      | inr other ↦ rw (all, away, other, v.entry x h (omega (arith, not-==→ne x new other))) refl
    ]
  ]

  module _ (first : ℕ) (ks : List ℕ) (all : t.kids q ≡ first ∷ ks) where
    is_kid : 0 < count first (t.kids q)
    is_kid = omega (arith, ap (count first) all, count-here first ks)

    q_not_first : (x : ℕ) → (x == q) ≡ true → (x == first) ≡ false
    q_not_first x here = ne→not-== x first (omega (arith, ==→eq x q here, v.older first q is_kid))

    new_not_first : (x : ℕ) → (x == new) ≡ true → (x == first) ≡ false
    new_not_first x here = ne→not-== x first (omega (arith, ==→eq x new here, v.old first q is_kid))

    first_not_new : (x : ℕ) → (x == first) ≡ true → (x == new) ≡ false
    first_not_new x here = ne→not-== x new (omega (arith, ==→eq x first here, v.old first q is_kid))

    entry-before :
        (x : ℕ)
        → 0 < x
        → x < new + 1
        → (store
              (store
                (store dc new (new_entry (t.sibling first)))
                first
                (record (entry_of t first) { siblings = new }))
              q
              (record (entry_of t q) { childs = new })).entry
            x
          ≡ some (entry_of t' x)
    unfolding store with_new at_ linked_in entry_of first_of
    entry-before x h l = elim (Bool-cases (x == q)) [
      | inl here ↦ rw (all, here, q_not_first x here, q_not_new x here, ==→eq x q here) refl
      | inr away ↦ elim (Bool-cases (x == first)) [
        | inl same ↦ rw (all, away, same, first_not_new x same, ==→eq x first same) refl
        | inr behind ↦ elim (Bool-cases (x == new)) [
          | inl same ↦
              rw (all, away, behind, same, ap (λ y. t.kids y) (==→eq x new same) ∙ kids_new) refl
          | inr other ↦
              rw (all, away, behind, other, v.entry x h (omega (arith, not-==→ne x new other))) refl
        ]
      ]
    ]

  -- A child of the new tree is the new entry, or a child of the old tree.
  child-cases :
      (x r : ℕ)
      → 0 < count x (t'.kids r)
      → ((x ≡ new) × (r ≡ q)) ⊎ (((x == new) ≡ false) × (0 < count x (t.kids r)))
  child-cases x r h = elim (Bool-cases (x == new)) [
    | inr other ↦ inr (other, omega (arith, count-with_new x r other))
    | inl same ↦
        let e = ==→eq x new same in
        inl (
          e,
          elim (Bool-cases (r == q)) [
            | inl here ↦ ==→eq r q here
            | inr away ↦
                let none_there : ◌≡◌ {A = ℕ} (if r == q then 1 else 0) 0 = rw away refl in
                absurd (omega (arith, count-new r, none_there, ap (λ y. count y (t'.kids r)) e))
          ],
        )
  ]

  once-new : (x r : ℕ) → count x (t'.kids r) ≤ 1
  once-new x r = elim (Bool-cases (x == new)) [
    | inr other ↦ omega (arith, count-with_new x r other, v.once x r)
    | inl same ↦ ground (arith, count-new r, ap (λ y. count y (t'.kids r)) (==→eq x new same))
  ]

  few-new : (r : ℕ) → length (t'.kids r) + 2 ≤ new + 1
  unfolding with_new at_
  few-new r = elim (Bool-cases (r == q)) [
    | inl here ↦ rw here (omega (arith, length-behind_new (t.kids q), v.few q))
    | inr away ↦ rw away (omega (arith, v.few r))
  ]

  child-new :
      IsChild (t.inode q) name n
      → (x r : ℕ) → 0 < count x (t'.kids r)
      → IsChild (t'.inode r) (t'.name x) (t'.inode x)
  unfolding with_new at_
  child-new known x r h = elim (child-cases x r h) [
    | inl (e, here) ↦
        let at_q : (r == new) ≡ false = ne→not-== r new (omega arith) in
        rw (at_q, eq→== x new e, here) known
    | inr (other, mem) ↦
        let at_r : (r == new) ≡ false =
          ne→not-== r new (omega (arith, v.older x r mem, v.old x r mem)) in
        rw (at_r, other) (v.child x r mem)
  ]

  owned-new : (x a b : ℕ) → 0 < count x (t'.kids a) → 0 < count x (t'.kids b) → a ≡ b
  owned-new x a b h k = elim (child-cases x a h) [
    | inl (e, here) ↦ elim (child-cases x b k) [
      | inl (d, there) ↦ here ∙ sym there
      | inr (other, mem) ↦ absurd (not-==→ne x new other e)
    ]
    | inr (other, mem) ↦ elim (child-cases x b k) [
      | inl (d, there) ↦ absurd (not-==→ne x new other d)
      | inr (other', mem') ↦ v.owned x a b mem mem'
    ]
  ]

  module _ (entry : ℕ → Option DcacheEntry)
      (entries : (x : ℕ) → 0 < x → x < new + 1 → entry x ≡ some (entry_of t' x))
      (known : IsChild (t.inode q) name n) where
    with_new-IsCache : IsCache IsChild (record { entry = entry; fresh = new + 1 }) t'
    with_new-IsCache = record {
      some_entry = omega (arith, v.some_entry);
      entry = entries;
      ring = IsRing-new;
      once = once-new;
      owned = owned-new;
      parent = λ x r h. elim (child-cases x r h) [
        | inl (e, here) ↦ omega arith
        | inr (other, mem) ↦ v.parent x r mem
      ];
      older = λ x r h. elim (child-cases x r h) [
        | inl (e, here) ↦ omega arith
        | inr (other, mem) ↦ v.older x r mem
      ];
      old = λ x r h. elim (child-cases x r h) [
        | inl (e, here) ↦ omega arith
        | inr (other, mem) ↦ omega (arith, v.old x r mem)
      ];
      few = few-new;
      child = child-new known;
    }

  inode-new : t'.inode new ≡ n
  unfolding with_new
  inode-new = at_same new n t.inode

  inode-old : (x : ℕ) → x < new → t'.inode x ≡ t.inode x
  unfolding with_new
  inode-old x h = at_other new n t.inode x (ne→not-== x new (omega arith))

root_check : (b c : Bool) → c ≡ false → (if b then not c else true) ≡ true
root_check true c e = rw e refl
root_check false c e = refl

-- An insertion
pub dcache_insert-IsCache :
    (IsChild : ℕ → List ℕ → ℕ → Type 0) (dc : Dcache) (t : Tree) (parent : ℕ) (name : List ℕ)
    (namelen n : ℕ)
    → IsCache IsChild dc t
    → or_root parent < dc.fresh
    → namelen + 1 ≤ dcache_entry_name_len
    → 0 < t.inode root
    → IsChild (t.inode (or_root parent)) (take namelen name) n
    → (dc' : Dcache) × (t' : Tree) × (dcache_insert dc parent name namelen n ≡ ok (dc.fresh, dc'))
      × IsCache IsChild dc' t'
      × (dc'.fresh ≡ dc.fresh + 1)
      × (t'.inode dc.fresh ≡ n)
      × ((x : ℕ) → x < dc.fresh → t'.inode x ≡ t.inode x)
unfolding dcache_insert entry_of first_of store
dcache_insert-IsCache IsChild dc t parent name namelen n v low fits set known =
    let q = or_root parent in
    let pos : 0 < q = or_root-pos parent in
    let word = take namelen name in
    let short = le→not-ltb dcache_entry_name_len (namelen + 1) fits in
    let checked =
      root_check (parent == no_entry) (t.inode root == 0)
        (ne→not-== (t.inode root) 0 (omega arith)) in
    let at_root = v.entry root (omega arith) v.some_entry in
    let at_parent = v.entry q pos low in
    elim (kids-cases (t.kids q)) [
      | inl nobody ↦ (
        _,
        with_new t q dc.fresh word n,
        rw (dcache_insert, short, at_root, checked, at_parent, nobody) refl,
        with_new-IsCache IsChild dc t v q pos low word n _
            (entry-childless IsChild dc t v q pos low word n nobody) known,
        refl,
        inode-new IsChild dc t v q pos low word n,
        inode-old IsChild dc t v q pos low word n,
      )
      | inr (first, ks, all) ↦
          let mem = is_kid IsChild dc t v q pos low word n first ks all in
          let some_first : (first == 0) ≡ false =
            ne→not-== first 0 (omega (arith, v.older first q mem)) in
          let at_first = v.entry first (omega (arith, v.older first q mem)) (v.old first q mem) in
          (
            _,
            with_new t q dc.fresh word n,
            rw (dcache_insert, short, at_root, checked, at_parent, all, some_first, at_first) refl,
            with_new-IsCache IsChild dc t v q pos low word n _
                (entry-before IsChild dc t v q pos low word n first ks all) known,
            refl,
            inode-new IsChild dc t v q pos low word n,
            inode-old IsChild dc t v q pos low word n,
          )
    ]
