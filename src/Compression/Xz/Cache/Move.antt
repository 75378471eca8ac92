-- ===== src/Compression/Xz/Cache/Move.antt =====
-- `move_to_cache_head` on the lists of entries, and what it means that a cache holds a list.
use spotlight.Base.{
  ◌≡◌, ◌≢◌, false, some, [], ◌∷◌, ◌++◌, arith, refl, ◌∙◌, sym, length, length-append, eq→==,
  ne→not-==,
}
use spotlight.Base.Result.{ok}
use spotlight.Compression.Xz.Cache.{
  Ptr, null, Block, entry, Heap, Cache, write, set_next, set_prev, unlink_behind, link_first,
  move_to_cache_head,
}
use spotlight.Compression.Xz.Cache.Links.{
  Cells, has, head_or, last_or, Seg, Apart, has-append, ne_of_has, last_or-append, Seg-split,
  Seg-join, frame, load-ok, SameBut-write, write_self, ne-last, set_next-last, set_prev-first,
}

-- The cache's list holds exactly these entries, in this order.
pub record IsList (h : Heap) (cache : Cache) (xs : Cells) : Type 0 where
  pub first : cache.first ≡ head_or xs null
  pub last : cache.last ≡ last_or null xs
  pub num_blocks : cache.num_blocks ≡ length xs
  pub links : Seg h null xs null

Apart-last :
    (p : Ptr) (c : Ptr × Block) (xs ys : Cells)
    → Apart (c ∷ xs) ys
    → has (last_or p (c ∷ xs)) ys ≡ false
Apart-last p (q, b) [] ys apart = apart.0
Apart-last p (q, b) (x ∷ xs) ys apart = Apart-last q x xs ys apart.1

Apart-cons :
    (xs : Cells) (a : Ptr) (b : Block) (ys : Cells)
    → Apart xs ((a, b) ∷ ys)
    → (has a xs ≡ false) × Apart xs ys
Apart-cons [] a b ys apart = (refl, tt)
Apart-cons ((q, c) ∷ xs) a b ys apart =
    let (out, rest) = Apart-cons xs a b ys apart.1 in (ground arith, (ground arith, rest))

module _ (h : Heap) (cache : Cache) (c : Ptr × Block) (xs : Cells) (a : Ptr) (b : Block)
    (ys : Cells) where
  abbrev before : Ptr
  before = last_or null (c ∷ xs)

  -- After `unlink_behind`: what follows the entry has its predecessor in front.
  record Unlinked (g : Heap) (cache' : Cache) : Type 0 where
    done : unlink_behind h cache a ≡ ok (g, cache')
    front : Seg g null (c ∷ xs) a
    back : Seg g before ys null
    same : g a ≡ h a
    first : cache'.first ≡ cache.first
    num_blocks : cache'.num_blocks ≡ cache.num_blocks
    last : cache'.last ≡ last_or before ys

  abbrev Links : Type 0
  Links =
      Seg h null (c ∷ xs) a
      × Seg h before ((a, b) ∷ ys) null
      × Apart (c ∷ xs) ((a, b) ∷ ys)
      × (cache.last ≡ last_or a ys)

unlink_behind-Unlinked :
    (h : Heap) (cache : Cache) (c : Ptr × Block) (xs : Cells) (a : Ptr) (b : Block) (ys : Cells)
    → Links h cache c xs a b ys
    → (g : Heap) × (cache' : Cache) × Unlinked h cache c xs a b ys g cache'
unfolding unlink_behind
unlink_behind-Unlinked h cache c xs a b [] (front, back, apart, last) = (
  h,
  record cache { last = last_or null (c ∷ xs) },
  record {
    done = rw (load-ok h a back.0 back.2, eq→== a cache.last (sym last)) refl;
    front = front;
    back = tt;
    same = refl;
    first = refl;
    num_blocks = refl;
    last = refl;
  },
)
unlink_behind-Unlinked h cache c xs a b ((q, d) ∷ ys) (front, back, apart, last) =
    let prev = last_or null (c ∷ xs) in
    let (g, set, seg, same) = set_prev-first h a prev q d ys null back.3 in
    let rest = (Apart-cons (c ∷ xs) a b ((q, d) ∷ ys) apart).1 in
    (
      g,
      cache,
      record {
        done = rw (load-ok h a back.0 back.2, ne→not-== q null back.3.0, set) refl;
        front = frame h g q null (c ∷ xs) a front (Apart-cons (c ∷ xs) q d ys rest).0 same;
        back = seg;
        same = same a (ne_of_has a q d ys back.1);
        first = refl;
        num_blocks = refl;
        last = last;
      },
    )

-- `link_first` closes the gap and puts the entry in front.
link_first-Seg :
    (h : Heap) (cache : Cache) (p : Ptr) (d : Block) (xs : Cells) (a : Ptr) (b : Block) (ys : Cells)
    → a ≢ null
    → cache.first ≡ p
    → h a ≡ some (entry b (head_or ys null) (last_or null ((p, d) ∷ xs)))
    → Seg h null ((p, d) ∷ xs) a
    → Seg h (last_or null ((p, d) ∷ xs)) ys null
    → has a ((p, d) ∷ xs) ≡ false
    → has a ys ≡ false
    → Apart ((p, d) ∷ xs) ys
    → (g : Heap) × (link_first h cache a ≡ ok (g, record cache { first = a }))
      × Seg g null ((a, b) ∷ ((p, d) ∷ xs ++ ys)) null
unfolding link_first set_prev set_next
link_first-Seg h cache p d xs a b ys real first at front back out out' apart =
    let last = last_or null ((p, d) ∷ xs) in
    let next = head_or ys null in
    let (h₂, set, front₂, same₂) = set_next-last h null (p, d) xs a next front in
    let at₂ : h₂ a ≡ some (entry b next last) = same₂ a (ne-last a null (p, d) xs out) ∙ at in
    let back₂ = frame h h₂ last last ys null back (Apart-last null (p, d) xs ys apart) same₂ in
    let e₃ = entry b next null in
    let h₃ = write h₂ a (some e₃) in
    let e₄ = entry b p null in
    let h₄ = write h₃ a (some e₄) in
    let front₃ = frame h₂ h₃ a null ((p, d) ∷ xs) next front₂ out (SameBut-write h₂ a e₃) in
    let front₄ = frame h₃ h₄ a null ((p, d) ∷ xs) next front₃ out (SameBut-write h₃ a e₄) in
    let back₃ = frame h₂ h₃ a last ys null back₂ out' (SameBut-write h₂ a e₃) in
    let back₄ = frame h₃ h₄ a last ys null back₃ out' (SameBut-write h₃ a e₄) in
    let (h₅, set', front₅, same₅) = set_prev-first h₄ null a p d xs next front₄ in
    let back₅ = frame h₄ h₅ p last ys null back₄ apart.0 same₅ in
    (
      h₅,
      rw
          (
            load-ok h a real at,
            set,
            load-ok h₂ a real at₂,
            load-ok h₃ a real (write_self h₂ a e₃),
            first,
            load-ok h₄ a real (write_self h₃ a e₄),
            set',
          )
          refl,
      (
        real,
        ground (arith, has-append a ((p, d) ∷ xs) ys),
        same₅ a (ground arith) ∙ write_self h₃ a e₄,
        Seg-join h₅ a ((p, d) ∷ xs) ys null front₅ back₅ apart,
      ),
    )

-- On a cache whose links form a list, any entry of it is moved to the front without a fault; the
-- links form the list with that entry in front and the others in their order behind it.
pub move_to_cache_head-IsList :
    (h : Heap) (cache : Cache) (xs : Cells) (a : Ptr) (b : Block) (ys : Cells)
    → IsList h cache (xs ++ ((a, b) ∷ ys))
    → (g : Heap) × (cache' : Cache) × (move_to_cache_head h cache a ≡ ok (g, cache'))
      × IsList g cache' ((a, b) ∷ (xs ++ ys))
unfolding move_to_cache_head
move_to_cache_head-IsList h cache [] a b ys is = (h, cache, rw (eq→== _ _ is.first) refl, is)
move_to_cache_head-IsList h cache ((p, d) ∷ xs) a b ys is =
    let all = (p, d) ∷ xs in
    let (front, back, apart) = Seg-split h null all ((a, b) ∷ ys) null is.links in
    let (out, apart') = Apart-cons all a b ys apart in
    let ends = is.last ∙ last_or-append null all ((a, b) ∷ ys) in
    let (g, cache', u) =
      unlink_behind-Unlinked h cache (p, d) xs a b ys (front, back, apart, ends) in
    let (g', done, seg) =
      link_first-Seg g cache' p d xs a b ys back.0 (u.first ∙ is.first) (u.same ∙ back.2) u.front
        u.back out back.1 apart' in
    (
      g',
      record cache' { first = a },
      rw (ne→not-== cache.first a (λ e. ne_of_has a p d xs out (sym e ∙ is.first)), u.done, done)
          refl,
      record {
        first = refl;
        last = u.last ∙ sym (last_or-append null all ys);
        num_blocks = omega (
          arith,
          u.num_blocks,
          is.num_blocks,
          length-append xs ys,
          length-append xs ((a, b) ∷ ys),
        );
        links = seg;
      },
    )
