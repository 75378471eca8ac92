-- ===== src/Compression/Xz/Cache/Get.antt =====
-- `get_cache_block` against a lookup of the LRU list.
use spotlight.Base.{
  ℕ, zero, suc, ◌+◌, ◌≡◌, ◌<◌, false, Option, none, some, List, [], ◌∷◌, ◌++◌, arith, refl, ◌∙◌,
  sym, length, ne→not-==, ap, Bool-cases, inl, inr,
}
use spotlight.Base.Result.{ok}
use spotlight.Compression.Xz.Cache.{
  Ptr, null, Block, Heap, Cache, holds, find_entry, get_cache_block,
}
use spotlight.Compression.Xz.Cache.Links.{Cells, blocks, has, has-append, head_or, Seg, load-ok}
use spotlight.Compression.Xz.Cache.Move.{IsList, move_to_cache_head-IsList}
use spotlight.Compression.Xz.Cache.Lru
use spotlight.Compression.Xz.Cache.Lru.{find_block, without}

-- The entry that the loop finds, with the entries in front of it and behind it.
record Hit (xs : Cells) (offset : ℕ) (a : Ptr) (b : Block) : Type 0 where
  front : Cells
  back : Cells
  split : xs ≡ front ++ ((a, b) ∷ back)
  rest : blocks (front ++ back) ≡ without (blocks xs) offset
  found : find_block (blocks xs) offset ≡ some b

data Search (xs : Cells) (offset : ℕ) (r : Option (Ptr × Block)) : Type 0 where
  hit : (a : Ptr) (b : Block) → r ≡ some (a, b) → Hit xs offset a b → Search xs offset r
  miss : r ≡ none → find_block (blocks xs) offset ≡ none → Search xs offset r

Search-cons :
    (a : Ptr) (b : Block) (xs : Cells) (offset : ℕ) (r : Option (Ptr × Block))
    → holds b offset ≡ false
    → Search xs offset r
    → Search ((a, b) ∷ xs) offset r
unfolding find_block without
Search-cons a b xs offset r out (hit p d e h) = hit p d e (record {
  front = (a, b) ∷ h.front;
  back = h.back;
  split = ap (◌∷◌ (a, b)) h.split;
  rest = rw out (ap (◌∷◌ b) h.rest);
  found = rw out h.found;
})
Search-cons a b xs offset r out (miss e h) = miss e (rw out h)

find_entry-Search :
    (fuel : ℕ) (h : Heap) (prev : Ptr) (xs : Cells) (offset : ℕ)
    → Seg h prev xs null
    → length xs < fuel
    → (r : Option (Ptr × Block)) × (find_entry fuel h (head_or xs null) offset ≡ ok r)
      × Search xs offset r
unfolding find_entry find_block without
find_entry-Search zero h prev xs offset s f = absurd (omega arith)
find_entry-Search (suc fuel) h prev [] offset s f = (none, refl, miss refl refl)
find_entry-Search (suc fuel) h prev ((a, b) ∷ xs) offset s f = elim (Bool-cases (holds b offset)) [
  | inl here ↦ (
    some (a, b),
    rw (find_entry, ne→not-== a null s.0, load-ok h a s.0 s.2, here) refl,
    hit a b refl
        (record { front = []; back = xs; split = refl; rest = rw here refl; found = rw here refl }),
  )
  | inr out ↦
      let (r, e, found) = find_entry-Search fuel h a xs offset s.3 (omega arith) in
      (
        r,
        rw (find_entry, ne→not-== a null s.0, load-ok h a s.0 s.2, e, out) refl,
        Search-cons a b xs offset r out found,
      )
]

get-found :
    (bs : List Block) (offset : ℕ) (b : Block)
    → find_block bs offset ≡ some b
    → Lru.get bs offset ≡ (some b, b ∷ without bs offset)
unfolding Lru.get
get-found bs offset b e = rw (Lru.get, e) refl

get-not_found :
    (bs : List Block) (offset : ℕ) → find_block bs offset ≡ none → Lru.get bs offset ≡ (none, bs)
unfolding Lru.get
get-not_found bs offset e = rw (Lru.get, e) refl

has-moved :
    (p : Ptr) (xs : Cells) (a : Ptr) (b : Block) (ys : Cells)
    → has p ((a, b) ∷ (xs ++ ys)) ≡ has p (xs ++ ((a, b) ∷ ys))
has-moved p xs a b ys = ground (arith, has-append p xs ys, has-append p xs ((a, b) ∷ ys))

-- A lookup against the LRU list; the entries keep their addresses.
pub get_cache_block-cells :
    (h : Heap) (cache : Cache) (xs : Cells) (offset : ℕ)
    → IsList h cache xs
    → (r : Option Block) × (g : Heap) × (cache' : Cache) × (ys : Cells) × (get_cache_block h cache
          offset
        ≡ ok (r, g, cache'))
      × IsList g cache' ys
      × ((r, blocks ys) ≡ Lru.get (blocks xs) offset)
      × ((p : Ptr) → has p ys ≡ has p xs)
unfolding get_cache_block Lru.get
get_cache_block-cells h cache xs offset is =
    let (r, e, found) =
      find_entry-Search (cache.num_blocks + 1) h null xs offset is.links
        (omega (arith, is.num_blocks)) in
    go r (rw is.first e) found
  where
    go :
        (r : Option (Ptr × Block))
        → find_entry (cache.num_blocks + 1) h cache.first offset ≡ ok r
        → Search xs offset r
        → (r' : Option Block) × (g : Heap) × (cache' : Cache) × (ys : Cells) × (get_cache_block h
              cache offset
            ≡ ok (r', g, cache'))
          × IsList g cache' ys
          × ((r', blocks ys) ≡ Lru.get (blocks xs) offset)
          × ((p : Ptr) → has p ys ≡ has p xs)
    go r e (miss z none_found) = (
      none,
      h,
      cache,
      xs,
      rw (e, z) refl,
      is,
      sym (get-not_found (blocks xs) offset none_found),
      λ p. refl,
    )
    go r e (hit a b z found) =
        let (g, cache', moved, is') =
          move_to_cache_head-IsList h cache found.front a b found.back (rw found.split at is) in
        (
          some b,
          g,
          cache',
          (a, b) ∷ (found.front ++ found.back),
          rw (e, z, moved) refl,
          is',
          ap (λ t. (some b, b ∷ t)) found.rest ∙ sym (get-found (blocks xs) offset b found.found),
          λ p. has-moved p found.front a b found.back ∙ ap (has p) (sym found.split),
        )

-- On a cache whose links form the list `xs`, a lookup ends, returns the block that the LRU list
-- returns for the offset or none, and leaves a well-formed list whose blocks are those of the LRU
-- list after the lookup.
pub get_cache_block-get :
    (h : Heap) (cache : Cache) (xs : Cells) (offset : ℕ)
    → IsList h cache xs
    → (r : Option Block) × (g : Heap) × (cache' : Cache) × (ys : Cells) × (get_cache_block h cache
          offset
        ≡ ok (r, g, cache'))
      × IsList g cache' ys
      × ((r, blocks ys) ≡ Lru.get (blocks xs) offset)
get_cache_block-get h cache xs offset is =
    let (r, g, cache', ys, done, is', same, _) = get_cache_block-cells h cache xs offset is in
    (r, g, cache', ys, done, is', same)
