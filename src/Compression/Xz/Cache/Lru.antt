-- ===== src/Compression/Xz/Cache/Lru.antt =====
-- What the cache promises: a list of at most `max_num_blocks_cache` blocks, the one used last first.
use spotlight.Base.{ℕ, ◌-◌, Option, none, some, List, [], ◌∷◌, if◌then◌else◌, take}
use spotlight.Compression.Xz.Cache.{Block, holds, max_num_blocks_cache}

-- The first block that holds the offset, and the list without it.
unfoldable pub find_block : List Block → ℕ → Option Block
find_block [] offset = none
find_block (b ∷ bs) offset = if holds b offset then some b else find_block bs offset

unfoldable pub without : List Block → ℕ → List Block
without [] offset = []
without (b ∷ bs) offset = if holds b offset then bs else b ∷ without bs offset

-- A lookup moves what it finds to the front.
unfoldable pub get : List Block → ℕ → Option Block × List Block
get bs offset = elim (find_block bs offset) [
  | none ↦ (none, bs)
  | some b ↦ (some b, b ∷ without bs offset)
]

-- A new block goes to the front, and what no longer fits falls off the end.
unfoldable pub put : List Block → Block → List Block
put bs b = b ∷ take (max_num_blocks_cache - 1) bs
