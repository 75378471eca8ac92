-- ===== src/Ext4/Dcache/Rings.antt =====
-- fs/ext4/dcache.c: the tree of entries that the cache stands for. The children of an entry are a
-- list, which the pointers to siblings close to a ring.
pub mod Rotate
pub mod Links
pub mod Insert
use mathlib.Core.List.{append-nil}
use spotlight.Base.{
  ℕ, zero, suc, ◌+◌, ◌==◌, ◌≡◌, ◌≤◌, ◌<◌, if◌then◌else◌, some, List, [], ◌∷◌, ◌++◌, length, arith,
  refl, sym, subst, ap, ◌∙◌, eq→==,
}
use spotlight.Ext4.Dcache.{DcacheEntry, Dcache}

-- What the heap of entries holds, by address.
pub record Tree : Type 0 where
  pub kids : ℕ → List ℕ
  pub sibling : ℕ → ℕ
  pub inode : ℕ → ℕ
  pub name : ℕ → List ℕ

unfoldable pub first_of : List ℕ → ℕ
first_of [] = 0
first_of (k ∷ ks) = k

unfoldable pub count : ℕ → List ℕ → ℕ
count x [] = 0
count x (k ∷ ks) = (if x == k then 1 else 0) + count x ks

-- From `a`, the siblings are the list, and then `b`.
unfoldable pub IsLinked : (ℕ → ℕ) → ℕ → List ℕ → ℕ → Type 0
IsLinked sibling a [] b = sibling a ≡ b
IsLinked sibling a (k ∷ ks) b = (sibling a ≡ k) × IsLinked sibling k ks b

unfoldable pub IsRing : (ℕ → ℕ) → List ℕ → Type 0
IsRing sibling [] = Unit
IsRing sibling (k ∷ ks) = IsLinked sibling k ks k

unfoldable pub entry_of : Tree → ℕ → DcacheEntry
entry_of t q = record {
  childs = first_of (t.kids q);
  siblings = t.sibling q;
  inode = t.inode q;
  name = t.name q;
}

-- The cache stands for the tree: its entries are below `fresh`, each is the child of one entry at
-- most, which is older, and a child has a name and an inode as `IsChild` asks, from the inode of its
-- parent.
pub record IsCache (IsChild : ℕ → List ℕ → ℕ → Type 0) (dc : Dcache) (t : Tree) : Type 0 where
  pub some_entry : 1 < dc.fresh
  pub entry : (q : ℕ) → 0 < q → q < dc.fresh → dc.entry q ≡ some (entry_of t q)
  pub ring : (q : ℕ) → IsRing t.sibling (t.kids q)
  pub once : (x q : ℕ) → count x (t.kids q) ≤ 1
  pub owned : (x q r : ℕ) → 0 < count x (t.kids q) → 0 < count x (t.kids r) → q ≡ r
  pub parent : (x q : ℕ) → 0 < count x (t.kids q) → 0 < q
  pub older : (x q : ℕ) → 0 < count x (t.kids q) → q < x
  pub old : (x q : ℕ) → 0 < count x (t.kids q) → x < dc.fresh
  pub few : (q : ℕ) → length (t.kids q) + 2 ≤ dc.fresh
  pub child : (x q : ℕ) → 0 < count x (t.kids q) → IsChild (t.inode q) (t.name x) (t.inode x)

pub count-append : (x : ℕ) (a b : List ℕ) → count x (a ++ b) ≡ count x a + count x b
unfolding count
count-append x [] b = omega arith
count-append x (k ∷ a) b = omega (arith, count-append x a b)

pub count-here : (x : ℕ) (ks : List ℕ) → 0 < count x (x ∷ ks)
unfolding count
count-here x ks = rw (eq→== x x refl) (omega arith)

-- A link read with other pointers that agree with the first ones.
pub IsLinked-agree :
    (sib sib' : ℕ → ℕ) (a a' : ℕ) (ks : List ℕ) (b : ℕ)
    → sib' a' ≡ sib a
    → ((x : ℕ) → 0 < count x ks → sib' x ≡ sib x)
    → IsLinked sib a ks b
    → IsLinked sib' a' ks b
unfolding IsLinked count
IsLinked-agree sib sib' a a' [] b e agree l = e ∙ l
IsLinked-agree sib sib' a a' (k ∷ ks) b e agree (l, ls) = (
  e ∙ l,
  IsLinked-agree sib sib' k k ks b (agree k (count-here k ks)) (λ x h. agree x (omega arith)) ls,
)

pub IsLinked-split :
    (sib : ℕ → ℕ) (a : ℕ) (xs : List ℕ) (k : ℕ) (ys : List ℕ) (b : ℕ)
    → IsLinked sib a (xs ++ (k ∷ ys)) b
    → IsLinked sib a xs k × IsLinked sib k ys b
unfolding IsLinked
IsLinked-split sib a [] k ys b (l, ls) = (l, ls)
IsLinked-split sib a (x ∷ xs) k ys b (l, ls) =
    let (front, back) = IsLinked-split sib x xs k ys b ls in ((l, front), back)

pub IsLinked-join :
    (sib : ℕ → ℕ) (a : ℕ) (xs : List ℕ) (k : ℕ) (ys : List ℕ) (b : ℕ)
    → IsLinked sib a xs k
    → IsLinked sib k ys b
    → IsLinked sib a (xs ++ (k ∷ ys)) b
unfolding IsLinked
IsLinked-join sib a [] k ys b l ls = (l, ls)
IsLinked-join sib a (x ∷ xs) k ys b (l, front) ls = (l, IsLinked-join sib x xs k ys b front ls)

-- Any part of a ring can stand first.
pub IsRing-rotate :
    (sib : ℕ → ℕ) (pre : List ℕ) (k : ℕ) (post : List ℕ)
    → IsRing sib (pre ++ (k ∷ post))
    → IsRing sib ((k ∷ post) ++ pre)
unfolding IsRing
IsRing-rotate sib [] k post ring = subst (IsRing sib) (sym (append-nil (k ∷ post))) ring
IsRing-rotate sib (a ∷ xs) k post ring =
    let (front, back) = IsLinked-split sib a xs k post a ring in
    IsLinked-join sib k post a xs k back front
