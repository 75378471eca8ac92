-- ===== src/Compression/Gzip/Points/Release.antt =====
-- compression/gzip/gzip_reader.c: the list of access points grows as a list does, and its release
-- leaves none of its entries.
use spotlight.Base.{
  ℕ, zero, suc, ◌+◌, ◌^◌, ◌==◌, ◌||◌, ◌≡◌, ◌<◌, if◌then◌else◌, Bool, Bool-cases, inl, inr, true,
  false, Option, none, some, [], ◌∷◌, length, u64, arith, refl, sym, ap, ◌∙◌, eq→==, ==→eq,
}
use spotlight.Base.Result.{ok, fault, ◌>>=◌, ◌>>◌}
use spotlight.Compression.Gzip.{AccessPoint}
use spotlight.Compression.Gzip.Points.{
  PointEntry, PointHeap, PointList, write_point, load_point, link_prev, free_access_point_entry,
  free_last, free_loop, free_access_point_list, Cells, has, first_of, last_of, IsLinked,
  IsPointList,
}

pub load_point-some :
    (h : PointHeap) (p : ℕ) (e : PointEntry)
    → (p == 0) ≡ false
    → h p ≡ some e
    → load_point h p ≡ ok e
unfolding load_point
load_point-some h p e pos at = rw (pos, at) refl

pub write_point-same : (h : PointHeap) (p : ℕ) (e : Option PointEntry) → write_point h p e p ≡ e
unfolding write_point
write_point-same h p e = rw (eq→== p p refl) refl

pub write_point-other :
    (h : PointHeap) (p : ℕ) (e : Option PointEntry) (q : ℕ)
    → (q == p) ≡ false
    → write_point h p e q ≡ h q
unfolding write_point
write_point-other h p e q other = rw other refl

pub or-false : (a b : Bool) → (a || b) ≡ false → (a ≡ false) × (b ≡ false)
or-false true b e = absurd (omega (arith, ap {B = ℕ} (λ b. if b then 1 else 0) e))
or-false false b e = (refl, e)

pub not_there : (p q : ℕ) (xs : Cells) → has p xs ≡ false → has q xs ≡ true → (q == p) ≡ false
not_there p q xs out there = elim (Bool-cases (q == p)) [
  | inr other ↦ other
  | inl same ↦
      let e : has q xs ≡ has p xs = ap (λ r. has r xs) (==→eq q p same) in
      absurd (omega (arith, ap {B = ℕ} (λ b. if b then 1 else 0) (sym there ∙ e ∙ out)))
]

-- Links survive a change elsewhere.
pub or_true : (b : Bool) → (b || true) ≡ true
or_true true = refl
or_true false = refl

pub IsLinked-agree :
    (h g : PointHeap) (prev : ℕ) (xs : Cells)
    → ((q : ℕ) → has q xs ≡ true → g q ≡ h q)
    → IsLinked h prev xs
    → IsLinked g prev xs
unfolding IsLinked
IsLinked-agree h g prev [] agree l = tt
IsLinked-agree h g prev ((p, a) ∷ xs) agree (pos, once, at, ls) = (
  pos,
  once,
  agree p (rw (eq→== p p refl) refl) ∙ at,
  IsLinked-agree h g p xs (λ q there. agree q (rw there (or_true (q == p)))) ls,
)

-- Without its neighbour in front, an entry that goes leaves the rest linked.
free_entry-first :
    (h : PointHeap) (p : ℕ) (a : AccessPoint) (q : ℕ) (b : AccessPoint) (xs : Cells)
    → IsLinked h 0 ((p, a) ∷ ((q, b) ∷ xs))
    → (g : PointHeap) × (free_access_point_entry h p ≡ ok g)
      × IsLinked g 0 ((q, b) ∷ xs)
      × ((r : ℕ) → has r ((q, b) ∷ xs) ≡ false → g r ≡ (if r == p then none else h r))
unfolding IsLinked free_access_point_entry link_prev
free_entry-first h p a q b xs (pos, once, at, (pos', once', at', ls)) =
    let new : PointEntry = record { point = b; next = first_of xs; prev = 0 } in
    let h' = write_point h q (some new) in
    let (apart, below) = or-false (p == q) (has p xs) once in
    let moved : (r : ℕ) → (r == p) ≡ false → write_point h' p none r ≡ h' r =
      λ r other. write_point-other h' p none r other in
    let q_not_p : (q == p) ≡ false = not_there p q ((q, b) ∷ xs) once (rw (eq→== q q refl) refl) in
    (
      write_point h' p none,
      rw
          (
            free_access_point_entry,
            load_point-some h p _ pos at,
            ◌>>=◌,
            pos',
            load_point-some h q _ pos' at',
          )
          refl,
      (
        pos',
        once',
        moved q q_not_p ∙ write_point-same h q (some new),
        IsLinked-agree h (write_point h' p none) q xs
            (λ r there.
              moved r (not_there p r xs below there)
              ∙ write_point-other h q (some new) r (not_there q r xs once' there))
            ls,
      ),
      λ r out. elim (Bool-cases (r == p)) [
        | inl same ↦ rw (same, ==→eq r p same) (write_point-same h' p none)
        | inr other ↦ rw other (
            moved r other ∙ write_point-other h q (some new) r (or-false (r == q) (has r xs) out).0)
      ],
    )

-- The entries of the list are gone, and nothing else.
pub IsReleased : PointHeap → Cells → PointHeap → Type 0
IsReleased h xs g = (r : ℕ) → g r ≡ (if has r xs then none else h r)

free_last-IsReleased :
    (h : PointHeap) (list : PointList) (p : ℕ) (a : AccessPoint) (freed : ℕ)
    → IsLinked h 0 ((p, a) ∷ [])
    → list.last ≡ p
    → list.length_ ≡ freed + 1
    → list.length_ < 2 ^ 64
    → (g : PointHeap) × (free_last h list p freed ≡ ok g) × IsReleased h ((p, a) ∷ []) g
unfolding IsLinked free_last free_access_point_entry IsReleased
free_last-IsReleased h list p a freed (pos, once, at, ls) at_last counted narrow =
    let wide : u64 (freed + 1) ≡ list.length_ = omega arith in
    (
      write_point h p none,
      rw
          (
            free_last,
            pos,
            eq→== p list.last (sym at_last),
            ◌>>◌,
            free_access_point_entry,
            load_point-some h p _ pos at,
            wide,
            eq→== list.length_ list.length_ refl,
          )
          refl,
      λ r. elim (Bool-cases (r == p)) [
        | inl same ↦ rw (same, ==→eq r p same) (write_point-same h p none)
        | inr other ↦ rw other (write_point-other h p none r other)
      ],
    )

both_gone :
    (here there : Bool) (x y z : Option PointEntry)
    → x ≡ (if there then none else y)
    → (there ≡ false → y ≡ (if here then none else z))
    → x ≡ (if here || there then none else z)
both_gone true true x y z e k = e
both_gone true false x y z e k = e ∙ k refl
both_gone false true x y z e k = e
both_gone false false x y z e k = e ∙ k refl

first-at :
    (h : PointHeap) (q : ℕ) (b : AccessPoint) (xs : Cells)
    → IsLinked h 0 ((q, b) ∷ xs)
    → h q ≡ some (record { point = b; next = first_of xs; prev = 0 })
unfolding IsLinked
first-at h q b xs (pos, once, at, ls) = at

head-load_point :
    (h : PointHeap) (q : ℕ) (b : AccessPoint) (xs : Cells)
    → IsLinked h 0 ((q, b) ∷ xs)
    → load_point h q ≡ ok (record { point = b; next = first_of xs; prev = 0 })
unfolding IsLinked
head-load_point h q b xs (pos, once, at, ls) = load_point-some h q _ pos at

second-at :
    (h : PointHeap) (p : ℕ) (a : AccessPoint) (q : ℕ) (b : AccessPoint) (xs : Cells)
    → IsLinked h 0 ((p, a) ∷ ((q, b) ∷ xs))
    → h q ≡ some (record { point = b; next = first_of xs; prev = p })
unfolding IsLinked
second-at h p a q b xs (pos, once, at, (pos', once', at', ls)) = at'

second-pos :
    (h : PointHeap) (p : ℕ) (a : AccessPoint) (q : ℕ) (b : AccessPoint) (xs : Cells)
    → IsLinked h 0 ((p, a) ∷ ((q, b) ∷ xs))
    → (q == 0) ≡ false
unfolding IsLinked
second-pos h p a q b xs (pos, once, at, (pos', once', at', ls)) = pos'

free_loop-step :
    (fuel : ℕ) (h h' : PointHeap) (list : PointList) (p q freed : ℕ) (e e' : PointEntry)
    → (q == 0) ≡ false
    → load_point h q ≡ ok e
    → e.prev ≡ p
    → free_access_point_entry h p ≡ ok h'
    → load_point h' q ≡ ok e'
    → free_loop (suc fuel) h list p q freed ≡ free_loop fuel h' list q e'.next (u64 (freed + 1))
unfolding free_loop
free_loop-step fuel h h' list p q freed e e' pos there behind step later =
    rw (free_loop, pos, there, ◌>>=◌, eq→== e.prev p behind, ◌>>◌, step, ◌>>=◌, later) refl

free_loop-IsReleased :
    (fuel : ℕ) (h : PointHeap) (list : PointList) (p : ℕ) (a : AccessPoint) (xs : Cells) (freed : ℕ)
    → IsLinked h 0 ((p, a) ∷ xs)
    → list.last ≡ last_of p xs
    → list.length_ ≡ freed + suc (length xs)
    → list.length_ < 2 ^ 64
    → length xs < fuel
    → (g : PointHeap) × (free_loop fuel h list p (first_of xs) freed ≡ ok g)
      × IsReleased h ((p, a) ∷ xs) g
unfolding free_loop IsReleased
free_loop-IsReleased zero h list p a xs freed l at_last counted narrow enough = absurd (omega arith)
free_loop-IsReleased (suc fuel) h list p a [] freed l at_last counted narrow enough =
    let (g, run, gone) = free_last-IsReleased h list p a freed l at_last counted narrow in
    (g, run, gone)
free_loop-IsReleased (suc fuel) h list p a ((q, b) ∷ xs) freed l at_last counted narrow enough =
    let (h', step, rest, kept) = free_entry-first h p a q b xs l in
    let wide : u64 (freed + 1) ≡ freed + 1 = omega arith in
    let (g, run, gone) =
      free_loop-IsReleased fuel h' list q b xs (freed + 1) rest at_last (omega arith) narrow
        (omega arith) in
    (
      g,
      free_loop-step fuel h h' list p q freed _ _ (second-pos h p a q b xs l)
            (load_point-some h q _ (second-pos h p a q b xs l) (second-at h p a q b xs l)) refl step
            (load_point-some h' q _ (second-pos h p a q b xs l) (first-at h' q b xs rest))
          ∙ ap (free_loop fuel h' list q (first_of xs)) wide
          ∙ run,
      λ r. both_gone (r == p) (has r ((q, b) ∷ xs)) (g r) (h' r) (h r) (gone r) (kept r),
    )

free_list-run :
    (h : PointHeap) (list : PointList) (p : ℕ) (e : PointEntry)
    → list.first ≡ p
    → load_point h p ≡ ok e
    → free_access_point_list h list ≡ free_loop (list.length_ + 1) h list p e.next 0
unfolding free_access_point_list
free_list-run h list p e at_first there =
    rw (free_access_point_list, ap (load_point h) at_first ∙ there)
      (ap (λ q. free_loop (list.length_ + 1) h list q e.next 0) at_first)

-- The release of a list of access points that has an entry, and whose entries are linked in both
-- directions and counted, ends without a fault: no assertion fails, no entry is used once it is
-- released, and behind it each entry of the list is gone and all else on the heap is as before.
-- The count is below 2^64.
pub free_access_point_list-IsReleased :
    (h : PointHeap) (list : PointList) (xs : Cells)
    → IsPointList h list xs
    → 0 < length xs
    → list.length_ < 2 ^ 64
    → (g : PointHeap) × (free_access_point_list h list ≡ ok g) × IsReleased h xs g
unfolding free_access_point_list
free_access_point_list-IsReleased h list [] v some_entry narrow = absurd (omega arith)
free_access_point_list-IsReleased h list ((p, a) ∷ xs) v some_entry narrow =
    let (g, run, gone) =
      free_loop-IsReleased (list.length_ + 1) h list p a xs 0 v.linked v.at_last
        (omega (arith, v.counted)) narrow (omega (arith, v.counted)) in
    (g, free_list-run h list p _ v.at_first (head-load_point h p a xs v.linked) ∙ run, gone)

free_access_point_list-empty :
    (h : PointHeap) (list : PointList)
    → IsPointList h list []
    → free_access_point_list h list ≡ fault
unfolding free_access_point_list load_point
free_access_point_list-empty h list v = rw (v.at_first) refl
