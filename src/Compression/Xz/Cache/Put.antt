-- ===== src/Compression/Xz/Cache/Put.antt =====
-- `add_new_block` against an insertion into the LRU list.
use spotlight.Base.{
  ◌⊎◌, true, ltb, ltb→lt, not-ltb→le, le→not-ltb, lt→ltb, take_of_length-le, take, subst, ◌+◌, ◌-◌,
  ◌≡◌, ◌≢◌, ◌≤◌, ◌<◌, false, some, List, [], ◌∷◌, ◌++◌, arith, refl, ◌∙◌, sym, length,
  length-append, eq→==, ne→not-==, ap, Bool-cases, inl, inr,
}
use spotlight.Base.Result.{ok}
use spotlight.Compression.Xz.Cache.{
  Ptr, null, Block, entry, Heap, Cache, write, set_prev, set_block, add_new_block,
  move_to_cache_head, max_num_blocks_cache,
}
use spotlight.Compression.Xz.Cache.Links.{
  Cells, blocks, has-append, blocks-append_nil, blocks-append, length-blocks, has, ne_of_has,
  head_or, last_or, Seg, frame, load-ok, SameBut-write, write_self, set_prev-first,
}
use spotlight.Compression.Xz.Cache.Move.{IsList, move_to_cache_head-IsList}
use spotlight.Compression.Xz.Cache.Lru
use spotlight.Compression.Xz.Cache.Lru.{find_block, without}

take-all_but {ℓ} : {A : Type ℓ} → (xs : List A) (y : A) → take (length xs) (xs ++ (y ∷ [])) ≡ xs
take-all_but [] y = refl
take-all_but (x ∷ xs) y = ap (◌∷◌ x) (take-all_but xs y)

-- A list with its last entry set apart.
record Ending (xs : Cells) : Type 0 where
  front : Cells
  address : Ptr
  old : Block
  split : xs ≡ front ++ ((address, old) ∷ [])

ending : (c : Ptr × Block) (xs : Cells) → Ending (c ∷ xs)
ending (a, b) [] = record { front = []; address = a; old = b; split = refl }
ending c (d ∷ xs) =
    let e = ending d xs in
    record { front = c ∷ e.front; address = e.address; old = e.old; split = ap (◌∷◌ c) e.split }

last_or-ending : (p : Ptr) (xs : Cells) (a : Ptr) (b : Block) → last_or p (xs ++ ((a, b) ∷ [])) ≡ a
last_or-ending p [] a b = refl
last_or-ending p ((q, c) ∷ xs) a b = last_or-ending q xs a b

-- The block of the first entry is replaced, the links stay.
set_block-IsList :
    (h : Heap) (cache : Cache) (a : Ptr) (old b : Block) (xs : Cells)
    → IsList h cache ((a, old) ∷ xs)
    → (g : Heap) × (set_block h cache.first b ≡ ok g) × IsList g cache ((a, b) ∷ xs)
unfolding set_block
set_block-IsList h cache a old b xs is =
    let new = entry b (head_or xs null) null in
    let s = is.links in
    (
      write h a (some new),
      rw (is.first, load-ok h a s.0 s.2) refl,
      record {
        first = is.first;
        last = is.last;
        num_blocks = is.num_blocks;
        links = (
          s.0,
          s.1,
          write_self h a new,
          frame h (write h a (some new)) a a xs null s.3 s.1 (SameBut-write h a new),
        );
      },
    )

take-front :
    (xs : Cells) (e : Ending xs)
    → length xs ≡ max_num_blocks_cache
    → take (max_num_blocks_cache - 1) (blocks xs) ≡ blocks e.front
take-front xs e full =
    let n : length (blocks e.front) ≡ max_num_blocks_cache - 1 = omega (
      arith,
      full,
      ap length e.split,
      length-append e.front ((e.address, e.old) ∷ []),
      length-blocks e.front,
    ) in
    ap (λ ys. take (max_num_blocks_cache - 1) (blocks ys)) e.split
    ∙ ap (take (max_num_blocks_cache - 1)) (blocks-append e.front ((e.address, e.old) ∷ []))
    ∙ subst (λ k. take k (blocks e.front ++ (e.old ∷ [])) ≡ blocks e.front) n
        (take-all_but (blocks e.front) e.old)

has-replaced :
    (p : Ptr) (xs : Cells) (a : Ptr) (b old : Block)
    → has p ((a, b) ∷ (xs ++ [])) ≡ has p (xs ++ ((a, old) ∷ []))
has-replaced p xs a b old = ground (arith, has-append p xs [], has-append p xs ((a, old) ∷ []))

-- A full cache: the list, taken apart at its last entry, after `add_new_block`.
replace_last :
    (fresh : Ptr) (h : Heap) (cache : Cache) (xs : Cells) (b : Block)
    → IsList h cache xs
    → length xs ≡ max_num_blocks_cache
    → Ending xs
    → (g : Heap) × (cache' : Cache) × (ys : Cells) × (add_new_block fresh h cache b
        ≡ ok (g, cache'))
      × IsList g cache' ys
      × (blocks ys ≡ Lru.put (blocks xs) b)
      × ((p : Ptr) → has p ys ≡ has p xs)
unfolding add_new_block Lru.put
replace_last fresh h cache xs b is full e =
    let a = e.address in
    let (g, cache', moved, is') =
      move_to_cache_head-IsList h cache e.front a e.old [] (subst (IsList h cache) e.split is) in
    let (g', set, is'') = set_block-IsList g cache' a e.old b (e.front ++ []) is' in
    let last = is.last ∙ ap (last_or null) e.split ∙ last_or-ending null e.front a e.old in
    (
      g',
      cache',
      (a, b) ∷ (e.front ++ []),
      rw
          (
            le→not-ltb cache.num_blocks max_num_blocks_cache (omega (arith, is.num_blocks, full)),
            subst (λ p. move_to_cache_head h cache p ≡ ok (g, cache')) (sym last) moved,
            set,
          )
          refl,
      is'',
      ap (◌∷◌ b) (blocks-append_nil e.front ∙ sym (take-front xs e full)),
      λ p. has-replaced p e.front a b e.old ∙ ap (has p) (sym e.split),
    )

last_or-real :
    (h : Heap) (p : Ptr) (c : Ptr × Block) (xs : Cells) (n : Ptr)
    → Seg h p (c ∷ xs) n
    → last_or p (c ∷ xs) ≢ null
last_or-real h p (a, b) [] n s = s.0
last_or-real h p (a, b) (c ∷ xs) n s = last_or-real h a c xs n s.3

-- A cache with room: a new entry in front.
push_front :
    (fresh : Ptr) (h : Heap) (cache : Cache) (xs : Cells) (b : Block)
    → IsList h cache xs
    → length xs < max_num_blocks_cache
    → fresh ≢ null
    → has fresh xs ≡ false
    → (g : Heap) × (cache' : Cache) × (add_new_block fresh h cache b ≡ ok (g, cache'))
      × IsList g cache' ((fresh, b) ∷ xs)
unfolding add_new_block
push_front fresh h cache [] b is room real new =
    let h₁ = write h fresh (some (entry b cache.first null)) in
    (
      h₁,
      record { num_blocks = cache.num_blocks + 1; first = fresh; last = fresh },
      rw
          (
            lt→ltb cache.num_blocks max_num_blocks_cache (omega (arith, is.num_blocks)),
            ne→not-== fresh null real,
            eq→== cache.first null is.first,
            eq→== cache.last null is.last,
            eq→== cache.num_blocks 0 is.num_blocks,
          )
          refl,
      record {
        first = refl;
        last = refl;
        num_blocks = omega (arith, is.num_blocks);
        links = (
          real,
          refl,
          write_self h fresh (entry b cache.first null) ∙ ap (λ n. some (entry b n null)) is.first,
          tt,
        );
      },
    )
push_front fresh h cache ((p, d) ∷ xs) b is room real new =
    let fresh_entry = entry b cache.first null in
    let h₁ = write h fresh (some fresh_entry) in
    let same₁ = SameBut-write h fresh fresh_entry in
    let links₁ = frame h h₁ fresh null ((p, d) ∷ xs) null is.links new same₁ in
    let (h₂, set, links₂, same₂) = set_prev-first h₁ null fresh p d xs null links₁ in
    let at : h₁ fresh ≡ some (entry b p null) =
      write_self h fresh fresh_entry ∙ ap (λ n. some (entry b n null)) is.first in
    let real_first : cache.first ≢ null = λ e. is.links.0 (sym is.first ∙ e) in
    let real_last : cache.last ≢ null =
      λ e. last_or-real h null (p, d) xs null is.links (sym is.last ∙ e) in
    (
      h₂,
      record { num_blocks = cache.num_blocks + 1; first = fresh; last = cache.last },
      rw
          (
            lt→ltb cache.num_blocks max_num_blocks_cache (omega (arith, is.num_blocks)),
            ne→not-== fresh null real,
            ne→not-== cache.first null real_first,
            ne→not-== cache.last null real_last,
            subst (λ q. set_prev h₁ q fresh ≡ ok h₂) (sym is.first) set,
          )
          refl,
      record {
        first = refl;
        last = is.last;
        num_blocks = omega (arith, is.num_blocks);
        links = (real, new, same₂ fresh (ne_of_has fresh p d xs new) ∙ at, links₂);
      },
    )

-- An insertion against the LRU list; the only new address is the fresh one.
pub add_new_block-cells :
    (fresh : Ptr) (h : Heap) (cache : Cache) (xs : Cells) (b : Block)
    → IsList h cache xs
    → length xs ≤ max_num_blocks_cache
    → fresh ≢ null
    → has fresh xs ≡ false
    → (g : Heap) × (cache' : Cache) × (ys : Cells) × (add_new_block fresh h cache b
        ≡ ok (g, cache'))
      × IsList g cache' ys
      × (blocks ys ≡ Lru.put (blocks xs) b)
      × ((p : Ptr) → has p ys ≡ true → (p ≡ fresh) ⊎ (has p xs ≡ true))
unfolding Lru.put
add_new_block-cells fresh h cache xs b is bound real new =
    elim (Bool-cases (ltb (length xs) max_num_blocks_cache)) [
      | inl room ↦
          let lt = ltb→lt (length xs) max_num_blocks_cache room in
          let (g, cache', done, is') = push_front fresh h cache xs b is lt real new in
          (
            g,
            cache',
            (fresh, b) ∷ xs,
            done,
            is',
            ap (◌∷◌ b) (
                sym (
                  take_of_length-le (max_num_blocks_cache - 1) (blocks xs)
                    (omega (arith, length-blocks xs)))),
            λ p h. ground arith,
          )
      | inr filled ↦
          let full : length xs ≡ max_num_blocks_cache =
            omega (arith, not-ltb→le (length xs) max_num_blocks_cache filled) in
          let (g, cache', ys, done, is', same, kept) =
            replace_last fresh h cache xs b is full (ending_of xs full) in
          (g, cache', ys, done, is', same, λ p here. inr (sym (kept p) ∙ here))
    ]
  where
    ending_of : (xs : Cells) → length xs ≡ max_num_blocks_cache → Ending xs
    ending_of [] e = absurd (omega (arith, e))
    ending_of (c ∷ xs) e = ending c xs

-- On a cache whose links form the list `xs` of at most 32 entries, with a fresh address that is
-- not null and none of theirs, a new block is added without a fault and leaves a well-formed list:
-- the new block in front, and the block used longest ago dropped if the cache was full.
pub add_new_block-put :
    (fresh : Ptr) (h : Heap) (cache : Cache) (xs : Cells) (b : Block)
    → IsList h cache xs
    → length xs ≤ max_num_blocks_cache
    → fresh ≢ null
    → has fresh xs ≡ false
    → (g : Heap) × (cache' : Cache) × (ys : Cells) × (add_new_block fresh h cache b
        ≡ ok (g, cache'))
      × IsList g cache' ys
      × (blocks ys ≡ Lru.put (blocks xs) b)
add_new_block-put fresh h cache xs b is bound real new =
    let (g, cache', ys, done, is', same, _) =
      add_new_block-cells fresh h cache xs b is bound real new in
    (g, cache', ys, done, is', same)
