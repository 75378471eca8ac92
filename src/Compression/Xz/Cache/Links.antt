-- ===== src/Compression/Xz/Cache/Links.antt =====
-- Segments of the cache's list: from `prev` in front to `next` behind, through the given entries.
use spotlight.Base.{
  suc, length, map, ap, ◌≡◌, ◌≢◌, Bool, false, ◌||◌, some, List, [], ◌∷◌, ◌++◌, ◌==◌, arith, refl,
  ◌∙◌,
}
use spotlight.Base.Result.{ok}
use spotlight.Compression.Xz.Cache.{
  Ptr, null, Block, Entry, entry, Heap, write, load, set_next, set_prev,
}

abbrev pub Cells : Type 0
Cells = List (Ptr × Block)

abbrev pub has : Ptr → Cells → Bool
has a [] = false
has a ((p, _) ∷ xs) = (a == p) || has a xs

abbrev pub head_or : Cells → Ptr → Ptr
head_or [] next = next
head_or ((p, _) ∷ xs) next = p

abbrev pub last_or : Ptr → Cells → Ptr
last_or prev [] = prev
last_or prev ((p, _) ∷ xs) = last_or p xs

abbrev pub Seg : Heap → Ptr → Cells → Ptr → Type 0
Seg h prev [] next = Unit {0}
Seg h prev ((p, b) ∷ xs) next =
    (p ≢ null)
    × (has p xs ≡ false)
    × (h p ≡ some (entry b (head_or xs next) prev))
    × Seg h p xs next

abbrev pub Apart : Cells → Cells → Type 0
Apart [] ys = Unit {0}
Apart ((p, _) ∷ xs) ys = (has p ys ≡ false) × Apart xs ys

-- `g` differs from `h` at most at `p`.
abbrev pub SameBut : Ptr → Heap → Heap → Type 0
SameBut p h g = (a : Ptr) → a ≢ p → g a ≡ h a

pub ne_of_has : (a q : Ptr) (b : Block) (xs : Cells) → has a ((q, b) ∷ xs) ≡ false → a ≢ q
ne_of_has a q b xs out = ground arith

pub has-append : (a : Ptr) (xs ys : Cells) → has a (xs ++ ys) ≡ (has a xs || has a ys)
has-append a [] ys = refl
has-append a (x ∷ xs) ys = ground (arith, has-append a xs ys)

pub head_or-append : (xs ys : Cells) (n : Ptr) → head_or (xs ++ ys) n ≡ head_or xs (head_or ys n)
head_or-append [] ys n = refl
head_or-append (x ∷ xs) ys n = refl

pub last_or-append : (p : Ptr) (xs ys : Cells) → last_or p (xs ++ ys) ≡ last_or (last_or p xs) ys
last_or-append p [] ys = refl
last_or-append p ((q, _) ∷ xs) ys = last_or-append q xs ys

pub Seg-split :
    (h : Heap) (p : Ptr) (xs ys : Cells) (n : Ptr)
    → Seg h p (xs ++ ys) n
    → Seg h p xs (head_or ys n) × Seg h (last_or p xs) ys n × Apart xs ys
Seg-split h p [] ys n s = (tt, s, tt)
Seg-split h p ((q, b) ∷ xs) ys n s =
    let (front, back, apart) = Seg-split h q xs ys n s.3 in
    (
      (s.0, ground (arith, has-append q xs ys), rw (← head_or-append xs ys n) s.2, front),
      back,
      (ground (arith, has-append q xs ys), apart),
    )

pub Seg-join :
    (h : Heap) (p : Ptr) (xs ys : Cells) (n : Ptr)
    → Seg h p xs (head_or ys n)
    → Seg h (last_or p xs) ys n
    → Apart xs ys
    → Seg h p (xs ++ ys) n
Seg-join h p [] ys n s t apart = t
Seg-join h p ((q, b) ∷ xs) ys n s t apart = (
  s.0,
  ground (arith, has-append q xs ys),
  rw (head_or-append xs ys n) s.2,
  Seg-join h q xs ys n s.3 t apart.1,
)

-- A segment survives a change elsewhere.
pub frame :
    (h g : Heap) (q p : Ptr) (xs : Cells) (n : Ptr)
    → Seg h p xs n
    → has q xs ≡ false
    → SameBut q h g
    → Seg g p xs n
frame h g q p [] n s out same = tt
frame h g q p ((a, b) ∷ xs) n s out same =
    (s.0, s.1, ground (arith, same a), frame h g q a xs n s.3 (ground arith) same)

pub load-ok : (h : Heap) (p : Ptr) {e : Entry} → p ≢ null → h p ≡ some e → load h p ≡ ok e
unfolding load
load-ok h p ne e = rw (e, load) (ground arith)

pub SameBut-write : (h : Heap) (p : Ptr) (e : Entry) → SameBut p h (write h p (some e))
unfolding write
SameBut-write h p e a ne = ground arith

pub write_self : (h : Heap) (p : Ptr) (e : Entry) → write h p (some e) p ≡ some e
unfolding write
write_self h p e = ground arith

-- An entry outside a segment is not its last one.
pub ne-last :
    (a p : Ptr) (c : Ptr × Block) (xs : Cells) → has a (c ∷ xs) ≡ false → a ≢ last_or p (c ∷ xs)
ne-last a p (q, b) [] out = ground arith
ne-last a p (q, b) (x ∷ xs) out = ne-last a q x xs (ground arith)

-- A new neighbour behind the last entry.
pub set_next-last :
    (h : Heap) (p : Ptr) (c : Ptr × Block) (xs : Cells) (n n' : Ptr)
    → Seg h p (c ∷ xs) n
    → let last = last_or p (c ∷ xs) in
      (g : Heap) × (set_next h last n' ≡ ok g) × Seg g p (c ∷ xs) n' × SameBut last h g
unfolding set_next
set_next-last h p (a, b) [] n n' s =
    let new = entry b n' p in
    (
      write h a (some new),
      rw (load-ok h a s.0 s.2) refl,
      (s.0, refl, write_self h a new, tt),
      SameBut-write h a new,
    )
set_next-last h p (a, b) ((q, c) ∷ ys) n n' s =
    let (g, done, t, same) = set_next-last h a (q, c) ys n n' s.3 in
    (g, done, (s.0, s.1, same a (ne-last a a (q, c) ys s.1) ∙ s.2, t), same)

-- A new neighbour in front of the first entry.
pub set_prev-first :
    (h : Heap) (p p' a : Ptr) (b : Block) (xs : Cells) (n : Ptr)
    → Seg h p ((a, b) ∷ xs) n
    → (g : Heap) × (set_prev h a p' ≡ ok g) × Seg g p' ((a, b) ∷ xs) n × SameBut a h g
unfolding set_prev
set_prev-first h p p' a b xs n s =
    let new = entry b (head_or xs n) p' in
    let g = write h a (some new) in
    (
      g,
      rw (load-ok h a s.0 s.2) refl,
      (s.0, s.1, write_self h a new, frame h g a a xs n s.3 s.1 (SameBut-write h a new)),
      SameBut-write h a new,
    )

-- What the entries of a segment cache.
abbrev pub blocks : Cells → List Block
blocks = map (λ c. c.1)

pub blocks-append_nil : (xs : Cells) → blocks (xs ++ []) ≡ blocks xs
blocks-append_nil [] = refl
blocks-append_nil (x ∷ xs) = ap (◌∷◌ x.1) (blocks-append_nil xs)

pub blocks-append : (xs ys : Cells) → blocks (xs ++ ys) ≡ blocks xs ++ blocks ys
blocks-append [] ys = refl
blocks-append (x ∷ xs) ys = ap (◌∷◌ x.1) (blocks-append xs ys)

pub length-blocks : (xs : Cells) → length (blocks xs) ≡ length xs
length-blocks [] = refl
length-blocks (x ∷ xs) = ap suc (length-blocks xs)
