-- ===== src/Compression/Gzip/Points/Append.antt =====
-- compression/gzip/gzip_reader.c: the linked list of access points grows as a list does.
use spotlight.Base.{
  ℕ, ◌+◌, ◌^◌, ◌==◌, ◌||◌, ◌≡◌, ◌<◌, true, false, some, [], ◌∷◌, ◌++◌, u64, length-append, arith,
  refl, sym, ap, ap₂, ◌∙◌, eq→==, ne→not-==, not-==→ne,
}
use spotlight.Base.Result.{ok, ◌>>=◌}
use spotlight.Compression.Gzip.{AccessPoint}
use spotlight.Compression.Gzip.Points.{
  PointEntry, PointHeap, PointList, write_point, load_point, link_next, link_prev, append_linked,
  Cells, has, last_of, IsLinked, IsPointList,
}
use spotlight.Compression.Gzip.Points.Release.{
  or_true, load_point-some, write_point-same, write_point-other, or-false, not_there,
  IsLinked-agree,
}

other_way : (p q : ℕ) → (p == q) ≡ false → (q == p) ≡ false
other_way p q h = ne→not-== q p λ e. not-==→ne p q h (sym e)

has-append :
    (q : ℕ) (xs ys : Cells) → has q xs ≡ false → has q ys ≡ false → has q (xs ++ ys) ≡ false
has-append q [] ys h k = k
has-append q ((p, a) ∷ xs) ys h k =
    let (here, there) = or-false (q == p) (has q xs) h in ap₂ ◌||◌ here (has-append q xs ys there k)

last-there : (q : ℕ) (a : AccessPoint) (xs : Cells) → has (last_of q xs) ((q, a) ∷ xs) ≡ true
last-there q a [] = rw (eq→== q q refl) refl
last-there q a ((r, b) ∷ xs) = rw (last-there r b xs) (or_true (last_of r xs == q))

-- A new entry behind the last one.
append-IsLinked :
    (h : PointHeap) (prev q : ℕ) (a : AccessPoint) (xs : Cells) (p : ℕ) (b : AccessPoint)
    → IsLinked h prev ((q, a) ∷ xs)
    → (p == 0) ≡ false
    → has p ((q, a) ∷ xs) ≡ false
    → h p ≡ some (record { point = b; next = 0; prev = last_of q xs })
    → (g : PointHeap) × (link_next h (last_of q xs) p ≡ ok g)
      × IsLinked g prev (((q, a) ∷ xs) ++ ((p, b) ∷ []))
      × ((r : ℕ) → (r == last_of q xs) ≡ false → g r ≡ h r)
unfolding IsLinked link_next
append-IsLinked h prev q a [] p b (pos, once, at, ls) pos' out new =
    let apart : (p == q) ≡ false = (or-false (p == q) false out).0 in
    let e : PointEntry = record { point = a; next = p; prev = prev } in
    (
      write_point h q (some e),
      rw (link_next, load_point-some h q _ pos at) refl,
      (
        pos,
        rw (other_way p q apart) refl,
        write_point-same h q (some e),
        (pos', refl, write_point-other h q (some e) p apart ∙ new, tt),
      ),
      λ r other. write_point-other h q (some e) r other,
    )
append-IsLinked h prev q a ((r, c) ∷ xs) p b (pos, once, at, ls) pos' out new =
    let (apart, out') = or-false (p == q) (has p ((r, c) ∷ xs)) out in
    let (g, run, l, kept) = append-IsLinked h q r c xs p b ls pos' out' new in
    let last = last_of r xs in
    let before : (q == last) ≡ false =
      other_way last q (not_there q last ((r, c) ∷ xs) once (last-there r c xs)) in
    (
      g,
      run,
      (
        pos,
        has-append q ((r, c) ∷ xs) ((p, b) ∷ []) once (rw (other_way p q apart) refl),
        kept q before ∙ at,
        l,
      ),
      kept,
    )

last_of-append : (q p : ℕ) (xs : Cells) (b : AccessPoint) → last_of q (xs ++ ((p, b) ∷ [])) ≡ p
last_of-append q p [] b = refl
last_of-append q p ((r, a) ∷ xs) b = last_of-append r p xs b

-- The new entry with its links set.
abbrev placed : PointHeap → ℕ → PointEntry → ℕ → PointHeap
placed h p e last =
    write_point (write_point h p (some (record e { prev = last }))) p
      (some (record { point = e.point; next = 0; prev = last }))

placed-at :
    (h : PointHeap) (p : ℕ) (e : PointEntry) (last : ℕ)
    → placed h p e last p ≡ some (record { point = e.point; next = 0; prev = last })
placed-at h p e last = write_point-same (write_point h p (some (record e { prev = last }))) p _

placed-other :
    (h : PointHeap) (p : ℕ) (e : PointEntry) (last r : ℕ)
    → (r == p) ≡ false
    → placed h p e last r ≡ h r
placed-other h p e last r other =
    write_point-other (write_point h p (some (record e { prev = last }))) p _ r other
    ∙ write_point-other h p (some (record e { prev = last })) r other

module _ (h : PointHeap) (list : PointList) (p : ℕ) (e : PointEntry) (pos : (p == 0) ≡ false)
    (at : h p ≡ some e) where
  abbrev h' : PointHeap
  h' = placed h p e list.last

  abbrev n : ℕ
  n = u64 (list.length_ + 1)

  links-set :
      load_point (write_point h p (some (record e { prev = list.last }))) p
      ≡ ok (record e { prev = list.last })
  links-set = load_point-some _ p _ pos (write_point-same h p _)

  append-empty :
      (list.first == 0) ≡ true
      → append_linked h list p ≡ ok (h', record { length_ = n; first = p; last = p })
  unfolding append_linked link_prev link_next
  append-empty empty =
      rw (append_linked, load_point-some h p e pos at, ◌>>=◌, links-set, ◌>>=◌, empty) refl

  append-more :
      (g : PointHeap)
      → (list.first == 0) ≡ false
      → link_next h' list.last p ≡ ok g
      → append_linked h list p ≡ ok (g, record { length_ = n; first = list.first; last = p })
  unfolding append_linked link_prev link_next
  append-more g some_entry linked =
      rw (append_linked, load_point-some h p e pos at, ◌>>=◌, links-set, ◌>>=◌, some_entry, linked)
        refl

  -- On a list of access points whose entries are linked in both directions and counted, appending
  -- an entry that is not NULL and none of them gives such a list with the access point behind the
  -- others, if the count stays below 2^64.
  pub append_linked-IsPointList :
      (xs : Cells)
      → IsPointList h list xs
      → has p xs ≡ false
      → list.length_ + 1 < 2 ^ 64
      → (g : PointHeap) × (list' : PointList) × (append_linked h list p ≡ ok (g, list'))
        × IsPointList g list' (xs ++ ((p, e.point) ∷ []))
  unfolding IsLinked
  append_linked-IsPointList [] v out narrow = (
    h',
    record { length_ = n; first = p; last = p },
    append-empty (eq→== list.first 0 v.at_first),
    record {
      linked = (
        pos,
        refl,
        placed-at h p e list.last
            ∙ ap (λ l. some (record { point = e.point; next = 0; prev = l })) v.at_last,
        tt,
      );
      counted = omega (arith, v.counted);
      at_first = refl;
      at_last = refl;
    },
  )
  append_linked-IsPointList ((q, a) ∷ xs) v out narrow =
      let (q_pos, once, there, ls) = v.linked in
      let (g, run, l, kept) =
        append-IsLinked h' 0 q a xs p e.point
          (IsLinked-agree h h' 0 ((q, a) ∷ xs)
            (λ r in_list. placed-other h p e list.last r (not_there p r ((q, a) ∷ xs) out in_list))
            v.linked)
          pos out
          (placed-at h p e list.last
            ∙ ap (λ l. some (record { point = e.point; next = 0; prev = l })) v.at_last) in
      (
        g,
        record { length_ = n; first = list.first; last = p },
        append-more g (ap (λ f. f == 0) v.at_first ∙ q_pos)
            (ap (λ l. link_next h' l p) v.at_last ∙ run),
        record {
          linked = l;
          counted = omega (arith, v.counted, length-append ((q, a) ∷ xs) ((p, e.point) ∷ []));
          at_first = v.at_first;
          at_last = sym (last_of-append q p xs e.point);
        },
      )
