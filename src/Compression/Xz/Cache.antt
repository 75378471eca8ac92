-- ===== src/Compression/Xz/Cache.antt =====
-- compression/xz/xz_reader.c and xz_reader.h: the cache of blocks, a doubly linked list with the
-- block that was used last in front. Entries stand at addresses of a heap. A block's bytes are owned
-- by its entry alone, so they stand in the entry.
pub mod Links
pub mod Move
pub mod Lru
pub mod Get
pub mod Put
mod Tests
use spotlight.Base.{
  ℕ, zero, suc, ◌+◌, Bool, ◌==◌, leb, ltb, ◌&&◌, if◌then◌else◌, not, true, false, Option, none,
  some, List, u64,
}
use spotlight.Base.Result.{Result, ok, fault, out_of_fuel, ◌>>=◌, ◌>>◌, check}

abbrev pub Ptr : Type 0
Ptr = ℕ

abbrev pub null : Ptr
null = 0

-- What an `XzBlockCacheEntry` caches: a block of the decompressed stream.
pub record Block : Type 0 where
  pub offset : ℕ
  pub size : ℕ
  pub bytes : List ℕ

-- `XzBlockCacheEntry`
pub record Entry : Type 0 where
  pub block : Block
  pub next : Ptr
  pub prev : Ptr

abbrev pub entry : Block → Ptr → Ptr → Entry
entry b n p = record { block = b; next = n; prev = p }

abbrev pub Heap : Type 0
Heap = Ptr → Option Entry

unfoldable pub write : Heap → Ptr → Option Entry → Heap
write h p c a = if a == p then c else h a

-- `XzBlockCache`
pub record Cache : Type 0 where
  pub num_blocks : ℕ
  pub first : Ptr
  pub last : Ptr

abbrev pub max_num_blocks_cache : ℕ
max_num_blocks_cache = 32

-- `*p`
unfoldable pub load : Heap → Ptr → Result Entry
load h p = elim (h p) [ none ↦ fault | some e ↦ if p == null then fault else ok e ]

-- `p->next = q` and `p->prev = q`
unfoldable pub set_next : Heap → Ptr → Ptr → Result Heap
set_next h p q = do e ← load h p; ok (write h p (some (record e { next = q })))

unfoldable pub set_prev : Heap → Ptr → Ptr → Result Heap
set_prev h p q = do e ← load h p; ok (write h p (some (record e { prev = q })))

unfoldable pub set_block : Heap → Ptr → Block → Result Heap
set_block h p b = do e ← load h p; ok (write h p (some (record e { block = b })))

-- The first `if` of `move_to_cache_head`: the neighbour behind the entry, or the cache, is told of
-- the one in front.
unfoldable pub unlink_behind : Heap → Cache → Ptr → Result (Heap × Cache)
unlink_behind h cache p = do
  e ← load h p
  if e.next == null
      then (do check (p == cache.last); ok (h, record cache { last = e.prev }))
      else (do h ← set_prev h e.next e.prev; ok (h, cache))

-- The rest of it: the neighbour in front is linked past the entry, and the entry to the front.
unfoldable pub link_first : Heap → Cache → Ptr → Result (Heap × Cache)
link_first h cache p = do
  e ← load h p
  h ← set_next h e.prev e.next
  h ← set_prev h p null
  h ← set_next h p cache.first
  e ← load h p
  h ← set_prev h e.next p
  ok (h, record cache { first = p })

-- `move_to_cache_head`
unfoldable pub move_to_cache_head : Heap → Cache → Ptr → Result (Heap × Cache)
move_to_cache_head h cache p =
    if cache.first == p
    then ok (h, cache)
    else do (h, cache) ← unlink_behind h cache p; link_first h cache p

-- The test of `get_cache_block`.
abbrev pub holds : Block → ℕ → Bool
holds b offset = leb b.offset offset && ltb offset (b.offset + b.size)

-- The loop of `get_cache_block`, from the entry `p` on. The fuel bounds the entries that are left.
unfoldable pub find_entry : ℕ → Heap → Ptr → ℕ → Result (Option (Ptr × Block))
find_entry zero h p offset = out_of_fuel
find_entry (suc fuel) h p offset = elim (p == null) [
  | true ↦ ok none
  | false ↦ do
    e ← load h p
    let rest = find_entry fuel h e.next offset
    if holds e.block offset then ok (some (p, e.block)) else rest
]

-- `get_cache_block`: the block that holds the offset, moved to the front of the list.
unfoldable pub get_cache_block : Heap → Cache → ℕ → Result (Option Block × Heap × Cache)
get_cache_block h cache offset = do
  hit ← find_entry (cache.num_blocks + 1) h cache.first offset
  elim hit [
    | none ↦ ok (none, h, cache)
    | some (p, b) ↦ do (h, cache) ← move_to_cache_head h cache p; ok (some b, h, cache)
  ]

-- `add_new_block`; `fresh` is the address that `malloc` returns. A full cache gives up its last
-- entry, whose bytes are freed.
unfoldable pub add_new_block : Ptr → Heap → Cache → Block → Result (Heap × Cache)
add_new_block fresh h cache b =
    if ltb cache.num_blocks max_num_blocks_cache
    then (do
      check (not (fresh == null))
      let h = write h fresh (some (entry b cache.first null))
      h ← if cache.first == null then ok h else set_prev h cache.first fresh
      last ←
          if cache.last == null then (do check (cache.num_blocks == 0); ok fresh) else ok cache.last
      ok (h, record { num_blocks = cache.num_blocks + 1; first = fresh; last = last }))
    else do
      (h, cache) ← move_to_cache_head h cache cache.last
      h ← set_block h cache.first b
      ok (h, cache)

-- The loop of `free_cache_entries`: the heap without the entries, and how many there were.
unfoldable pub free_entries : ℕ → Heap → Ptr → ℕ → Result (Heap × ℕ)
free_entries zero h p count = out_of_fuel
free_entries (suc fuel) h p count = elim (p == null) [
  | true ↦ ok (h, count)
  | false ↦ do
    e ← load h p
    check_prev ← if e.next == null then ok tt else (do f ← load h e.next; check (p == f.prev))
    free_entries fuel (write h p none) e.next (count + 1)
]

-- `free_cache_entries`
unfoldable pub free_cache_entries : Heap → Cache → Result (Heap × Cache)
free_cache_entries h cache = do
  ends ← if cache.first == null then ok tt else (do
    e ← load h cache.first
    f ← load h cache.last
    check (e.prev == null)
    check (f.next == null))
  (h, count) ← free_entries (cache.num_blocks + 1) h cache.first 0
  check (count == cache.num_blocks)
  ok (h, record { num_blocks = 0; first = null; last = null })
