-- ===== src/Compression/Gzip/Points/Tests.antt =====
-- A list of two access points, and a third entry.
use spotlight.Base.{ℕ, ◌==◌, ◌≡◌, if◌then◌else◌, none, some, [], ◌∷◌, arith, refl}
use spotlight.Base.Result.{ok}
use spotlight.Compression.Gzip.{AccessPoint}
use spotlight.Compression.Gzip.Access.{find_access_point}
use spotlight.Compression.Gzip.Points.{
  PointEntry, PointHeap, PointList, free_access_point_list, find_linked, Cells, IsLinked,
  IsPointList,
}
use spotlight.Compression.Gzip.Points.Release.{IsReleased, free_access_point_list-IsReleased}
use spotlight.Compression.Gzip.Points.Find.{points, find_linked-find_access_point}

module _ (raw_byte_address : ℕ) where
  abbrev point : AccessPoint
  point = record {
    raw_byte_address = raw_byte_address;
    compressed_byte_address = 10;
    bits = 0;
    context = [];
  }

abbrev added : PointEntry
added = record { point = point 3000000; next = 0; prev = 0 }

abbrev heap : PointHeap
heap q =
    if q == 8
    then some (record { point = point 0; next = 16; prev = 0 })
    else (if q == 16
        then some (record { point = point 2000000; next = 0; prev = 8 })
        else (if q == 24 then some added else none))

abbrev list : PointList
list = record { length_ = 2; first = 8; last = 16 }

abbrev cells : Cells
cells = (8, point 0) ∷ ((16, point 2000000) ∷ [])

cells-IsLinked : IsLinked heap 0 cells
unfolding IsLinked
cells-IsLinked = (refl, refl, refl, (refl, refl, refl, tt))

list-IsPointList : IsPointList heap list cells
list-IsPointList = record {
  linked = cells-IsLinked;
  counted = refl;
  at_first = refl;
  at_last = refl;
}

free_access_point_list-IsReleased_example :
    (g : PointHeap) × (free_access_point_list heap list ≡ ok g) × IsReleased heap cells g
free_access_point_list-IsReleased_example =
    free_access_point_list-IsReleased heap list cells list-IsPointList (omega arith) (omega arith)

find_linked-find_access_point_example :
    (q : ℕ) × (e : PointEntry) × (find_linked 2 heap 8 2500000 ≡ ok q)
    × (heap q ≡ some e)
    × (e.point ≡ find_access_point (point 0) (points ((16, point 2000000) ∷ [])) 2500000)
find_linked-find_access_point_example =
    find_linked-find_access_point 2 heap 0 8 (point 0) ((16, point 2000000) ∷ []) 2500000
      cells-IsLinked (omega arith)
