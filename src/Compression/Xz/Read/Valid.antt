-- ===== src/Compression/Xz/Read/Valid.antt =====
-- The invariant of an xz reader: its cache is a list of blocks of the content.
use spotlight.Base.{
  ℕ, zero, suc, ◌+◌, ◌-◌, ◌≡◌, ◌≢◌, ◌≤◌, ◌<◌, Bool, true, false, Bool-cases, inl, inr, Option,
  Option-cases, none, some, List, [], ◌∷◌, length, take, length-take, arith, refl, ap, ◌∙◌, sym,
  subst,
}
use spotlight.Base.Result.{ok}
use spotlight.Base.Bytes.{slice}
use spotlight.Compression.Xz.Cache.{
  Ptr, Block, Heap, Cache, holds, get_cache_block, add_new_block, max_num_blocks_cache,
}
use spotlight.Compression.Xz.Cache.Links.{Cells, blocks, has, length-blocks}
use spotlight.Compression.Xz.Cache.Move.{IsList}
use spotlight.Compression.Xz.Cache.Lru
use spotlight.Compression.Xz.Cache.Lru.{find_block, without}
use spotlight.Compression.Xz.Cache.Get.{get_cache_block-cells}
use spotlight.Compression.Xz.Cache.Put.{add_new_block-cells}
use spotlight.Compression.Xz.Read.{XzReader, empty_reader}

-- A block of the content.
pub record IsBlock (content : ℕ → ℕ) (total : ℕ) (b : Block) : Type 0 where
  pub bytes : b.bytes ≡ slice content b.offset b.size
  pub inside : b.offset + b.size ≤ total

module _ (content : ℕ → ℕ) (total : ℕ) where
  abbrev pub AllBlocks : List Block → Type 0
  AllBlocks [] = Unit {0}
  AllBlocks (b ∷ bs) = IsBlock content total b × AllBlocks bs

  -- The entries stand below the next address.
  pub record IsValid (r : XzReader) : Type 0 where
    pub cells : Cells
    pub is_list : IsList r.heap r.cache cells
    pub bound : length cells ≤ max_num_blocks_cache
    pub all_blocks : AllBlocks (blocks cells)
    pub below : (p : Ptr) → has p cells ≡ true → p < r.fresh
    pub real : 0 < r.fresh

  find_block-IsBlock :
      (bs : List Block) (offset : ℕ) {b : Block}
      → AllBlocks bs
      → find_block bs offset ≡ some b
      → IsBlock content total b × (holds b offset ≡ true)
  unfolding find_block
  find_block-IsBlock [] offset all e = cc
  find_block-IsBlock (c ∷ bs) offset {b} all e = elim (Bool-cases (holds c offset)) [
    | inl here ↦
        let same : some c ≡ some b = rw here at e in
        let eq : c ≡ b = cc in
        subst (λ x. IsBlock content total x × (holds x offset ≡ true)) eq (all.0, here)
    | inr out ↦ find_block-IsBlock bs offset all.1 (rw out at e)
  ]

  without-AllBlocks : (bs : List Block) (offset : ℕ) → AllBlocks bs → AllBlocks (without bs offset)
  unfolding without
  without-AllBlocks [] offset all = tt
  without-AllBlocks (c ∷ bs) offset all = elim (Bool-cases (holds c offset)) [
    | inl here ↦ rw here all.1
    | inr out ↦ rw out (all.0, without-AllBlocks bs offset all.1)
  ]

  length-without :
      (bs : List Block) (offset : ℕ) {b : Block}
      → find_block bs offset ≡ some b
      → suc (length (without bs offset)) ≡ length bs
  unfolding find_block without
  length-without [] offset e = absurd (none-ne e)
    where
      none-ne : {b : Block} → none ≢ some b
      none-ne e = cc
  length-without (c ∷ bs) offset e = elim (Bool-cases (holds c offset)) [
    | inl here ↦ rw here refl
    | inr out ↦ rw out (ap suc (length-without bs offset (rw out at e)))
  ]

  -- What a lookup and an insertion leave are blocks of the content, no more than before or than fit.
  get-AllBlocks :
      (bs : List Block) (offset : ℕ)
      → AllBlocks bs
      → AllBlocks (Lru.get bs offset).1 × (length (Lru.get bs offset).1 ≡ length bs)
  unfolding Lru.get
  get-AllBlocks bs offset all = elim (Option-cases (find_block bs offset)) [
    | inl e ↦ rw (Lru.get, e) (all, refl)
    | inr (b, e) ↦
        let (this, here) = find_block-IsBlock bs offset all e in
        rw (Lru.get, e) ((this, without-AllBlocks bs offset all), length-without bs offset e)
  ]

  take-AllBlocks : (n : ℕ) (bs : List Block) → AllBlocks bs → AllBlocks (take n bs)
  take-AllBlocks zero bs all = tt
  take-AllBlocks (suc n) [] all = tt
  take-AllBlocks (suc n) (b ∷ bs) all = (all.0, take-AllBlocks n bs all.1)

  put-AllBlocks :
      (bs : List Block) (b : Block)
      → AllBlocks bs
      → IsBlock content total b
      → AllBlocks (Lru.put bs b) × (length (Lru.put bs b) ≤ max_num_blocks_cache)
  unfolding Lru.put
  put-AllBlocks bs b all this = (
    (this, take-AllBlocks (max_num_blocks_cache - 1) bs all),
    omega (arith, length-take (max_num_blocks_cache - 1) bs),
  )

  pub empty_reader-IsValid : IsValid empty_reader
  empty_reader-IsValid = record {
    cells = [];
    is_list = record { first = refl; last = refl; num_blocks = refl; links = tt };
    bound = omega arith;
    all_blocks = tt;
    below = λ p e. absurd (false-ne e);
    real = omega arith;
  }
    where
      false-ne : ◌≢◌ {A = Bool} false true
      false-ne e = cc

  get-find_block : (bs : List Block) (offset : ℕ) → (Lru.get bs offset).0 ≡ find_block bs offset
  unfolding Lru.get
  get-find_block bs offset = elim (Option-cases (find_block bs offset)) [
    | inl e ↦ rw (Lru.get, e) refl
    | inr (b, e) ↦ rw (Lru.get, e) refl
  ]

  -- A lookup keeps the invariant; what it finds is a block of the content that holds the offset.
  pub get_cache_block-IsValid :
      (r : XzReader) (offset : ℕ)
      → IsValid r
      → (hit : Option Block) × (g : Heap) × (cache' : Cache) × (get_cache_block r.heap r.cache
            offset
          ≡ ok (hit, g, cache'))
        × IsValid (record r { heap = g; cache = cache' })
        × ((b : Block) → hit ≡ some b → IsBlock content total b × (holds b offset ≡ true))
  get_cache_block-IsValid r offset v =
      let (hit, g, cache', ys, done, is', same, kept) =
        get_cache_block-cells r.heap r.cache v.cells offset v.is_list in
      let (all, len) = get-AllBlocks (blocks v.cells) offset v.all_blocks in
      let left : blocks ys ≡ (Lru.get (blocks v.cells) offset).1 = ap (λ t. t.1) same in
      let first : hit ≡ find_block (blocks v.cells) offset =
        ap (λ t. t.0) same ∙ get-find_block (blocks v.cells) offset in
      (
        hit,
        g,
        cache',
        done,
        record {
          cells = ys;
          is_list = is';
          bound =
              omega (arith, v.bound, len, ap length left, length-blocks ys, length-blocks v.cells);
          all_blocks = rw left all;
          below = λ p e. v.below p (sym (kept p) ∙ e);
          real = v.real;
        },
        λ b e. find_block-IsBlock (blocks v.cells) offset v.all_blocks (sym first ∙ e),
      )

  -- An insertion of a block of the content keeps it.
  pub add_new_block-IsValid :
      (r : XzReader) (b : Block)
      → IsValid r
      → IsBlock content total b
      → (g : Heap) × (cache' : Cache) × (add_new_block r.fresh r.heap r.cache b ≡ ok (g, cache'))
        × IsValid (record { heap = g; fresh = r.fresh + 1; cache = cache' })
  add_new_block-IsValid r b v this =
      let (g, cache', ys, done, is', same, new) =
        add_new_block-cells r.fresh r.heap r.cache v.cells b v.is_list v.bound
          (λ e. omega (arith, e, v.real)) (absent r v) in
      let (all, len) = put-AllBlocks (blocks v.cells) b v.all_blocks this in
      (
        g,
        cache',
        done,
        record {
          cells = ys;
          is_list = is';
          bound = omega (arith, len, ap length same, length-blocks ys);
          all_blocks = rw same all;
          below = λ p e. elim (new p e) [
            | inl z ↦ omega (arith, z)
            | inr old ↦ omega (arith, v.below p old)
          ];
          real = omega arith;
        },
      )
    where
      absent : (r : XzReader) (v : IsValid r) → has r.fresh v.cells ≡ false
      absent r v = elim (Bool-cases (has r.fresh v.cells)) [
        | inl here ↦ absurd (omega (arith, v.below r.fresh here))
        | inr out ↦ out
      ]
