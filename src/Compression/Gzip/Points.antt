-- ===== src/Compression/Gzip/Points.antt =====
-- compression/gzip/gzip_reader.c and gzip_reader.h: the linked list of access points on a heap of
-- entries, and its release.
pub mod Release
pub mod Append
pub mod Find
mod Tests
use spotlight.Base.{
  ℕ, zero, suc, ◌+◌, ◌==◌, ltb, ◌≡◌, ◌||◌, if◌then◌else◌, not, Bool, true, false, Option, none,
  some, List, [], ◌∷◌, length, u64,
}
use spotlight.Base.Result.{Result, ok, out_of_fuel, ◌>>=◌, ◌>>◌, check, deref}
use spotlight.Compression.Gzip.{AccessPoint}

-- `GzipAccessPointEntry` with its links, at an address; 0 is NULL.
pub record PointEntry : Type 0 where
  pub point : AccessPoint
  pub next : ℕ
  pub prev : ℕ

abbrev pub PointHeap : Type 0
PointHeap = ℕ → Option PointEntry

-- `GzipAccessPointList`
pub record PointList : Type 0 where
  pub length_ : ℕ
  pub first : ℕ
  pub last : ℕ

unfoldable pub write_point : PointHeap → ℕ → Option PointEntry → PointHeap
write_point h p e q = if q == p then e else h q

-- `*p`
unfoldable pub load_point : PointHeap → ℕ → Result PointEntry
load_point h p = do check (not (p == 0)); deref (h p)

unfoldable pub link_next : PointHeap → ℕ → ℕ → Result PointHeap
link_next h p q = do e ← load_point h p; ok (write_point h p (some (record e { next = q })))

unfoldable pub link_prev : PointHeap → ℕ → ℕ → Result PointHeap
link_prev h p q = do e ← load_point h p; ok (write_point h p (some (record e { prev = q })))

-- `create_access_point_list`
abbrev pub create_access_point_list : PointList
create_access_point_list = record { length_ = 0; first = 0; last = 0 }

-- `append_access_point_list` on the links
unfoldable pub append_linked : PointHeap → PointList → ℕ → Result (PointHeap × PointList)
append_linked h list entry = do
  h ← link_prev h entry list.last
  h ← link_next h entry 0
  if list.first == 0
      then ok (h, record { length_ = u64 (list.length_ + 1); first = entry; last = entry })
      else (do
        h ← link_next h list.last entry
        ok (h, record { length_ = u64 (list.length_ + 1); first = list.first; last = entry }))

-- `free_access_point_entry`: the neighbours are linked past the entry, which is then gone.
unfoldable pub free_access_point_entry : PointHeap → ℕ → Result PointHeap
free_access_point_entry h entry = do
  e ← load_point h entry
  h ← if e.next == 0 then ok h else link_prev h e.next e.prev
  h ← if e.prev == 0 then ok h else link_next h e.prev e.next
  ok (write_point h entry none)

-- Behind the loop of `free_access_point_list`.
unfoldable pub free_last : PointHeap → PointList → ℕ → ℕ → Result PointHeap
free_last h list current freed_count =
    if current == 0 then (do check (list.length_ == freed_count); ok h) else (do
      check (current == list.last)
      h ← free_access_point_entry h current
      check (list.length_ == u64 (freed_count + 1))
      ok h)

-- The loop of `free_access_point_list`, and what follows it.
unfoldable pub free_loop : ℕ → PointHeap → PointList → ℕ → ℕ → ℕ → Result PointHeap
free_loop zero h list current next freed_count = out_of_fuel
free_loop (suc fuel) h list current next freed_count = elim (next == 0) [
  | true ↦ free_last h list current freed_count
  | false ↦ do
    n ← load_point h next
    check (n.prev == current)
    h ← free_access_point_entry h current
    n ← load_point h next
    free_loop fuel h list next n.next (u64 (freed_count + 1))
]

-- `free_access_point_list`; the loop runs once for each entry but the last.
unfoldable pub free_access_point_list : PointHeap → PointList → Result PointHeap
free_access_point_list h list = do
  current ← load_point h list.first
  free_loop (list.length_ + 1) h list list.first current.next 0

-- `gzip_reader_free`, which then releases the reader itself.
unfoldable pub gzip_reader_free : PointHeap → PointList → Result PointHeap
gzip_reader_free h list = free_access_point_list h list

-- The search of `_gzip_read` along the links.
unfoldable pub find_linked : ℕ → PointHeap → ℕ → ℕ → Result ℕ
find_linked zero h current offset = out_of_fuel
find_linked (suc fuel) h current offset = do
  e ← load_point h current
  elim (e.next == 0) [
    | true ↦ ok current
    | false ↦ do
      n ← load_point h e.next
      elim (ltb n.point.raw_byte_address offset) [
        | true ↦ find_linked fuel h e.next offset
        | false ↦ ok current
      ]
  ]

-- Access points with the addresses of their entries.
abbrev pub Cells : Type 0
Cells = List (ℕ × AccessPoint)

abbrev pub has : ℕ → Cells → Bool
has q [] = false
has q ((p, a) ∷ xs) = (q == p) || has q xs

abbrev pub first_of : Cells → ℕ
first_of [] = 0
first_of ((p, a) ∷ xs) = p

abbrev pub last_of : ℕ → Cells → ℕ
last_of prev [] = prev
last_of prev ((p, a) ∷ xs) = last_of p xs

-- The entries are linked in that order, `prev` in front of the first.
unfoldable pub IsLinked : PointHeap → ℕ → Cells → Type 0
IsLinked h prev [] = Unit
IsLinked h prev ((p, a) ∷ xs) =
    ((p == 0) ≡ false)
    × (has p xs ≡ false)
    × (h p ≡ some (record { point = a; next = first_of xs; prev = prev }))
    × IsLinked h p xs

pub record IsPointList (h : PointHeap) (list : PointList) (xs : Cells) : Type 0 where
  pub linked : IsLinked h 0 xs
  pub counted : list.length_ ≡ length xs
  pub at_first : list.first ≡ first_of xs
  pub at_last : list.last ≡ last_of 0 xs
