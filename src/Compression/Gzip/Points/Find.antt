-- ===== src/Compression/Gzip/Points/Find.antt =====
-- compression/gzip/gzip_reader.c: the search of an access point along the links is the one in the
-- list of access points.
use spotlight.Base.{
  ℕ, zero, suc, ◌==◌, ltb, ◌≡◌, ◌<◌, Bool-cases, inl, inr, true, false, some, List, [], ◌∷◌, length,
  map, arith, refl, ◌∙◌,
}
use spotlight.Base.Result.{ok, ◌>>=◌}
use spotlight.Compression.Gzip.{AccessPoint}
use spotlight.Compression.Gzip.Access.{find_access_point}
use spotlight.Compression.Gzip.Points.{
  PointEntry, PointHeap, load_point, find_linked, Cells, IsLinked,
}
use spotlight.Compression.Gzip.Points.Release.{load_point-some}

-- The access points in their order.
abbrev pub points : Cells → List AccessPoint
points = map (λ c. c.1)

module _ (fuel : ℕ) (h : PointHeap) (p offset : ℕ) (e : PointEntry)
    (there : load_point h p ≡ ok e) where
  find-end : e.next ≡ 0 → find_linked (suc fuel) h p offset ≡ ok p
  unfolding find_linked
  find-end last = rw (find_linked, there, ◌>>=◌, last) refl

  module _ (n : PointEntry) (more : (e.next == 0) ≡ false) (next : load_point h e.next ≡ ok n) where
    find-stop :
        ltb n.point.raw_byte_address offset ≡ false → find_linked (suc fuel) h p offset ≡ ok p
    unfolding find_linked
    find-stop behind = rw (find_linked, there, ◌>>=◌, more, next, behind) refl

    find-next :
        ltb n.point.raw_byte_address offset ≡ true
        → find_linked (suc fuel) h p offset ≡ find_linked fuel h e.next offset
    unfolding find_linked
    find-next before = rw (find_linked, there, ◌>>=◌, more, next, before) refl

-- On entries that are linked in the order of a list of access points, the search along the links
-- ends at the entry of the access point that the search in the list gives. Fuel above the number
-- of entries behind the first is enough.
pub find_linked-find_access_point :
    (fuel : ℕ) (h : PointHeap) (prev p : ℕ) (a : AccessPoint) (xs : Cells) (offset : ℕ)
    → IsLinked h prev ((p, a) ∷ xs)
    → length xs < fuel
    → (q : ℕ) × (e : PointEntry) × (find_linked fuel h p offset ≡ ok q)
      × (h q ≡ some e)
      × (e.point ≡ find_access_point a (points xs) offset)
unfolding IsLinked find_access_point
find_linked-find_access_point zero h prev p a xs offset l enough = absurd (omega arith)
find_linked-find_access_point (suc fuel) h prev p a [] offset (pos, once, at, ls) enough =
    (p, _, find-end fuel h p offset _ (load_point-some h p _ pos at) refl, at, refl)
find_linked-find_access_point (suc fuel) h prev p a ((q, b) ∷ xs) offset (pos, once, at, l) enough =
    let (pos', once', at', ls) = l in
    let here = load_point-some h p _ pos at in
    let next = load_point-some h q _ pos' at' in
    elim (Bool-cases (ltb b.raw_byte_address offset)) [
      | inr behind ↦ (p, _, find-stop fuel h p offset _ here _ pos' next behind, at, rw behind refl)
      | inl before ↦
          let (r, e, run, there, found) =
            find_linked-find_access_point fuel h p q b xs offset l (omega arith) in
          (r, e, find-next fuel h p offset _ here _ pos' next before ∙ run, there, rw before found)
    ]
