-- ===== src/Ext4/Dcache/Rings/Links.antt =====
-- fs/ext4/dcache.c: the pointers to siblings when a new entry comes in front of a ring.
use spotlight.Base.{
  ℕ, ◌==◌, ◌≡◌, ◌≤◌, ◌<◌, if◌then◌else◌, false, Bool-cases, inl, inr, List, [], ◌∷◌, ◌++◌, length,
  length-append, arith, refl, sym, ap, ◌∙◌, eq→==, ==→eq, ne→not-==, not-==→ne, not-==→ne,
}
use spotlight.Ext4.Dcache.Rings.{
  count, IsLinked, IsRing, count-append, count-here, IsLinked-agree, IsLinked-join,
}

-- A function changed at one place.
unfoldable pub at_ {ℓ} : {A : Type ℓ} → ℕ → A → (ℕ → A) → ℕ → A
at_ p a f x = if x == p then a else f x

pub at_same {ℓ} : {A : Type ℓ} (p : ℕ) (a : A) (f : ℕ → A) → at_ p a f p ≡ a
unfolding at_
at_same p a f = rw (eq→== p p refl) refl

pub at_other {ℓ} :
    {A : Type ℓ} (p : ℕ) (a : A) (f : ℕ → A) (x : ℕ) → (x == p) ≡ false → at_ p a f x ≡ f x
unfolding at_
at_other p a f x e = rw e refl

-- The children behind the new one.
unfoldable pub behind_new : List ℕ → List ℕ
behind_new [] = []
behind_new (first ∷ ks) = ks ++ (first ∷ [])

-- The pointers to siblings with the new entry put in.
unfoldable pub linked_in : List ℕ → ℕ → (ℕ → ℕ) → ℕ → ℕ
linked_in [] new sibling = at_ new new sibling
linked_in (first ∷ ks) new sibling = at_ first new (at_ new (sibling first) sibling)

pub count-behind_new : (x : ℕ) (l : List ℕ) → count x (behind_new l) ≡ count x l
unfolding behind_new count
count-behind_new x [] = refl
count-behind_new x (k ∷ ks) = count-append x ks (k ∷ []) ∙ omega arith

pub length-behind_new : (l : List ℕ) → length (behind_new l) ≡ length l
unfolding behind_new
length-behind_new [] = refl
length-behind_new (k ∷ ks) = length-append ks (k ∷ []) ∙ omega arith

once_only :
    (x first : ℕ) (ks : List ℕ)
    → count first (first ∷ ks) ≤ 1
    → 0 < count x ks
    → (x == first) ≡ false
unfolding count
once_only x first ks once h = elim (Bool-cases (x == first)) [
  | inr other ↦ other
  | inl same ↦
      let e = ap (λ y. count y ks) (==→eq x first same) in
      let one : ◌≡◌ {A = ℕ} (if first == first then 1 else 0) 1 =
        rw (eq→== first first refl) refl in
      absurd (omega (arith, once, one, e))
]

pub linked_in-ring :
    (sib : ℕ → ℕ) (new : ℕ) (l : List ℕ)
    → IsRing sib l
    → ((x : ℕ) → 0 < count x l → (x == new) ≡ false)
    → ((x : ℕ) → count x l ≤ 1)
    → IsLinked (linked_in l new sib) new (behind_new l) new
unfolding IsRing IsLinked linked_in behind_new count
linked_in-ring sib new [] ring others once = at_same new new sib
linked_in-ring sib new (first ∷ ks) ring others once =
    let sib' = at_ first new (at_ new (sib first) sib) in
    let apart : (new == first) ≡ false =
      ne→not-== new first λ e. not-==→ne first new (others first (count-here first ks)) (sym e) in
    let e : sib' new ≡ sib first =
      at_other first new (at_ new (sib first) sib) new apart ∙ at_same new (sib first) sib in
    IsLinked-join sib' new ks first [] new
      (IsLinked-agree sib sib' first new ks first e
        (λ x h.
          at_other first new (at_ new (sib first) sib) x (once_only x first ks (once first) h)
          ∙ at_other new (sib first) sib x (others x (omega arith)))
        ring)
      (at_same first new (at_ new (sib first) sib))

pub IsRing-agree :
    (sib sib' : ℕ → ℕ) (l : List ℕ)
    → ((x : ℕ) → 0 < count x l → sib' x ≡ sib x)
    → IsRing sib l
    → IsRing sib' l
unfolding IsRing count
IsRing-agree sib sib' [] agree ring = tt
IsRing-agree sib sib' (k ∷ ks) agree ring =
    IsLinked-agree sib sib' k k ks k (agree k (count-here k ks)) (λ x h. agree x (omega arith)) ring

not_first : (x first : ℕ) (ks : List ℕ) → count x (first ∷ ks) ≡ 0 → (x == first) ≡ false
unfolding count
not_first x first ks none_there = elim (Bool-cases (x == first)) [
  | inr other ↦ other
  | inl same ↦
      let one : ◌≡◌ {A = ℕ} (if x == first then 1 else 0) 1 = rw same refl in
      absurd (omega (arith, one, none_there))
]

pub linked_in-away :
    (sib : ℕ → ℕ) (new x : ℕ) (l : List ℕ)
    → (x == new) ≡ false
    → (count x l ≡ 0)
    → linked_in l new sib x ≡ sib x
unfolding linked_in count
linked_in-away sib new x [] other none_there = at_other new new sib x other
linked_in-away sib new x (first ∷ ks) other none_there =
    at_other first new (at_ new (sib first) sib) x (not_first x first ks none_there)
    ∙ at_other new (sib first) sib x other
