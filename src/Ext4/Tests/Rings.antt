-- ===== src/Ext4/Tests/Rings.antt =====
-- A lookup in the tree of a cache.
use spotlight.Base.{
  ℕ, zero, suc, ◌+◌, ◌==◌, ◌≡◌, ◌≤◌, ◌<◌, ◌⊎◌, if◌then◌else◌, Bool-cases, true, false, inl, inr,
  some, none, List, [], ◌∷◌, length, arith, refl, sym, subst, ◌∙◌, ==→eq,
}
use spotlight.Base.Result.{ok}
use spotlight.Ext4.Dcache.{Dcache, no_entry, dcache_lookup}
use spotlight.Ext4.Dcache.Rings.{Tree, first_of, count, IsLinked, IsRing, entry_of, IsCache}
use spotlight.Ext4.Dcache.Rings.Rotate.{has_name, dcache_lookup-kids}

-- The root with one child, `h`.
abbrev tree : Tree
tree = record {
  kids = λ q. if q == 1 then 2 ∷ [] else [];
  sibling = λ q. if q == 2 then 2 else 0;
  inode = λ q. if q == 1 then 2 else 11;
  name = λ q. if q == 1 then [] else 104 ∷ [];
}

abbrev dcache : Dcache
dcache = record {
  entry = λ q.
      if q == 1 then some (entry_of tree 1) else if q == 2 then some (entry_of tree 2) else none;
  fresh = 3;
}

abbrev AnyChild : ℕ → List ℕ → ℕ → Type 0
AnyChild n name m = n ≡ 2

only : (x q : ℕ) → 0 < count x (tree.kids q) → (x ≡ 2) × (q ≡ 1)
unfolding count
only x q h = elim (Bool-cases (q == 1)) [
  | inr other ↦ let e : count x (tree.kids q) ≡ 0 = rw other refl in absurd (omega (arith, e))
  | inl here ↦ elim (Bool-cases (x == 2)) [
    | inl same ↦ (==→eq x 2 same, ==→eq q 1 here)
    | inr other ↦
        let e : count x (tree.kids q) ≡ 0 = rw (here, other) refl in absurd (omega (arith, e))
  ]
]

dcache-entry : (q : ℕ) → 0 < q → q < 3 → dcache.entry q ≡ some (entry_of tree q)
dcache-entry zero pos low = absurd (omega arith)
dcache-entry (suc zero) pos low = refl
dcache-entry (suc (suc zero)) pos low = refl
dcache-entry (suc (suc (suc q))) pos low = absurd (omega arith)

tree-IsRing : (q : ℕ) → IsRing tree.sibling (tree.kids q)
unfolding IsRing IsLinked
tree-IsRing q = elim (Bool-cases (q == 1)) [ inl here ↦ rw here refl | inr other ↦ rw other tt ]

tree-once : (x q : ℕ) → count x (tree.kids q) ≤ 1
unfolding count
tree-once x q = ground arith

tree-few : (q : ℕ) → length (tree.kids q) + 2 ≤ 3
tree-few q = elim (Bool-cases (q == 1)) [
  | inl here ↦ rw here (omega arith)
  | inr other ↦ rw other (omega arith)
]

dcache-IsCache : IsCache AnyChild dcache tree
dcache-IsCache = record {
  some_entry = omega arith;
  entry = dcache-entry;
  ring = tree-IsRing;
  once = tree-once;
  owned = λ x q r h k. (only x q h).1 ∙ sym (only x r k).1;
  parent = λ x q h. omega (arith, (only x q h).1);
  older = λ x q h. omega (arith, (only x q h).0, (only x q h).1);
  old = λ x q h. omega (arith, (only x q h).0);
  few = tree-few;
  child = λ x q h. subst (λ q. tree.inode q ≡ 2) (sym (only x q h).1) refl;
}

-- The name `h` in front of a slash.
dcache_lookup-kids_example :
    ((dcache_lookup dcache 0 (104 ∷ 47 ∷ []) 1 ≡ ok (no_entry, dcache))
      × ((x : ℕ) → 0 < count x (tree.kids 1) → has_name tree (104 ∷ 47 ∷ []) 1 x ≡ false))
    ⊎ ((k : ℕ) × (dc' : Dcache) × (t' : Tree) × (dcache_lookup dcache 0 (104 ∷ 47 ∷ []) 1
          ≡ ok (k, dc'))
        × (0 < count k (tree.kids 1))
        × (has_name tree (104 ∷ 47 ∷ []) 1 k ≡ true)
        × IsCache AnyChild dc' t'
        × (dc'.fresh ≡ 3)
        × (t'.inode ≡ tree.inode)
        × (t'.name ≡ tree.name)
        × (first_of (t'.kids 1) ≡ k)
        × ((x r : ℕ) → count x (t'.kids r) ≡ count x (tree.kids r)))
dcache_lookup-kids_example =
    dcache_lookup-kids AnyChild dcache tree 0 (104 ∷ 47 ∷ []) 1 dcache-IsCache (omega arith)
