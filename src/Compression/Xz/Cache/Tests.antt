-- ===== src/Compression/Xz/Cache/Tests.antt =====
-- Runs of the cache with two blocks.
use spotlight.Base.{◌==◌, ◌≡◌, if◌then◌else◌, Option, none, some, [], ◌∷◌, refl, arith}
use spotlight.Base.Result.{ok}
use spotlight.Compression.Xz.Cache.{
  null, Block, entry, Heap, Cache, get_cache_block, add_new_block, move_to_cache_head,
}
use spotlight.Compression.Xz.Cache.Links.{Cells, blocks}
use spotlight.Compression.Xz.Cache.Move.{IsList, move_to_cache_head-IsList}
use spotlight.Compression.Xz.Cache.Get.{get_cache_block-get}
use spotlight.Compression.Xz.Cache.Put.{add_new_block-put}
use spotlight.Compression.Xz.Cache.Lru

abbrev low_block : Block
low_block = record { offset = 0; size = 2; bytes = 7 ∷ 8 ∷ [] }

abbrev high_block : Block
high_block = record { offset = 2; size = 1; bytes = 9 ∷ [] }

abbrev next_block : Block
next_block = record { offset = 3; size = 1; bytes = 4 ∷ [] }

abbrev heap : Heap
heap p =
    if p == 1
    then some (entry low_block 2 null)
    else (if p == 2 then some (entry high_block null 1) else none)

abbrev cache : Cache
cache = record { num_blocks = 2; first = 1; last = 2 }

abbrev cells : Cells
cells = (1, low_block) ∷ (2, high_block) ∷ []

cells-IsList : IsList heap cache cells
cells-IsList = record {
  first = refl;
  last = refl;
  num_blocks = refl;
  links = ((λ e. omega (arith, e)), refl, refl, ((λ e. omega (arith, e)), refl, refl, tt));
}

move_to_cache_head-IsList_example :
    (g : Heap) × (cache' : Cache) × (move_to_cache_head heap cache 2 ≡ ok (g, cache'))
    × IsList g cache' ((2, high_block) ∷ (1, low_block) ∷ [])
move_to_cache_head-IsList_example =
    move_to_cache_head-IsList heap cache ((1, low_block) ∷ []) 2 high_block [] cells-IsList

get_cache_block-get_example :
    (r : Option Block) × (g : Heap) × (cache' : Cache) × (ys : Cells) × (get_cache_block heap cache
        2
      ≡ ok (r, g, cache'))
    × IsList g cache' ys
    × ((r, blocks ys) ≡ Lru.get (blocks cells) 2)
get_cache_block-get_example = get_cache_block-get heap cache cells 2 cells-IsList

add_new_block-put_example :
    (g : Heap) × (cache' : Cache) × (ys : Cells) × (add_new_block 3 heap cache next_block
      ≡ ok (g, cache'))
    × IsList g cache' ys
    × (blocks ys ≡ Lru.put (blocks cells) next_block)
add_new_block-put_example =
    add_new_block-put 3 heap cache cells next_block cells-IsList (omega arith)
      (λ e. omega (arith, e)) refl
