-- ===== src/Compression/Gzip/Index/Spacing.antt =====
-- gzip_reader.c: when the entries of an index are in order, and when another may be appended.
use spotlight.Base.{
  ℕ, ◌+◌, ◌≡◌, ◌<◌, ◌≤◌, ◌⊎◌, ltb, ◌==◌, Bool, true, false, Bool-cases, Option-cases, Option, inl,
  inr, none, some, List, [], ◌∷◌, ◌++◌, arith, ltb→lt,
}
use spotlight.Base.Result.{Result, ok, err, fault, out_of_fuel}
use spotlight.Compression.Gzip.{AccessPoint, append_access_point_list, last_access_point, span}
use spotlight.Compression.Gzip.Index.{is_due}

-- The first entry stands at the start, and each later one is more than the span behind the entry in
-- front of it, unless both stand at the start.
unfoldable pub StartsAtZero : List AccessPoint → Type 0
StartsAtZero [] = Unit
StartsAtZero (e ∷ list) = e.raw_byte_address ≡ 0

unfoldable pub AreSpaced : List AccessPoint → Type 0
AreSpaced [] = Unit
AreSpaced (e ∷ []) = Unit
AreSpaced (e ∷ (d ∷ list)) =
    (((e.raw_byte_address ≡ 0) × (d.raw_byte_address ≡ 0))
      ⊎ (e.raw_byte_address + span < d.raw_byte_address))
    × AreSpaced (d ∷ list)

unfoldable pub IsIndex : List AccessPoint → Type 0
IsIndex list = StartsAtZero list × AreSpaced list

-- Behind which entry an access point may stand.
unfoldable pub IsBehind : Option AccessPoint → ℕ → Type 0
IsBehind none raw = raw ≡ 0
IsBehind (some e) raw = ((e.raw_byte_address ≡ 0) × (raw ≡ 0)) ⊎ (e.raw_byte_address + span < raw)

-- The last entry does not stand behind what is decoded.
unfoldable pub IsReached : Option AccessPoint → ℕ → Type 0
IsReached none raw = Unit
IsReached (some e) raw = e.raw_byte_address ≤ raw

pub further-IsReached :
    (last : Option AccessPoint) (raw n : ℕ) → IsReached last raw → IsReached last (raw + n)
unfolding IsReached
further-IsReached none raw n h = tt
further-IsReached (some e) raw n h = omega (arith, h)

pub append-IsReached :
    (list : List AccessPoint) (p : AccessPoint)
    → IsReached (last_access_point (append_access_point_list list p)) p.raw_byte_address
unfolding IsReached last_access_point append_access_point_list
append-IsReached [] p = omega arith
append-IsReached (e ∷ []) p = omega arith
append-IsReached (e ∷ (d ∷ list)) p = append-IsReached (d ∷ list) p

append-AreSpaced :
    (d : AccessPoint) (list : List AccessPoint) (p : AccessPoint)
    → AreSpaced (d ∷ list)
    → IsBehind (last_access_point (d ∷ list)) p.raw_byte_address
    → AreSpaced (d ∷ (list ++ (p ∷ [])))
unfolding IsBehind AreSpaced last_access_point
append-AreSpaced d [] p spaced due = (due, tt)
append-AreSpaced d (c ∷ list) p (gap, spaced) due = (gap, append-AreSpaced c list p spaced due)

pub append-IsIndex :
    (list : List AccessPoint) (p : AccessPoint)
    → IsIndex list
    → IsBehind (last_access_point list) p.raw_byte_address
    → IsIndex (append_access_point_list list p)
unfolding IsIndex IsBehind StartsAtZero AreSpaced append_access_point_list last_access_point
append-IsIndex [] p i due = (due, tt)
append-IsIndex (e ∷ []) p (start, spaced) due = (start, (due, tt))
append-IsIndex (e ∷ (d ∷ list)) p (start, spaced) due =
    (start, (spaced.0, append-AreSpaced d list p spaced.1 due))

-- The answer `true` of `is_due` says that an entry may be appended.
unfoldable pub IsJust : Result Bool → List AccessPoint → ℕ → Type 0
IsJust (ok true) list raw = IsBehind (last_access_point list) raw
IsJust (ok false) list raw = Unit
IsJust (err e) list raw = Unit
IsJust fault list raw = Unit
IsJust out_of_fuel list raw = Unit

at_zero : (raw : ℕ) → (raw == 0) ≡ true → raw ≡ 0
at_zero raw h = ground arith

start_only : (a raw : ℕ) → (raw == 0) ≡ true → a ≤ raw → (a ≡ 0) × (raw ≡ 0)
start_only a raw e h = (omega (arith, at_zero raw e), at_zero raw e)

pub is_due-IsJust :
    (list : List AccessPoint) (raw : ℕ)
    → IsReached (last_access_point list) raw
    → IsJust (is_due list raw) list raw
unfolding is_due IsJust IsBehind IsReached
is_due-IsJust list raw reached = elim (Bool-cases (raw == 0)) [
  | inl start ↦ elim (Option-cases (last_access_point list)) [
    | inl e ↦ rw (is_due, start, IsJust, e) (at_zero raw start)
    | inr (d, e) ↦
        rw (is_due, start, IsJust, e)
          (inl (start_only d.raw_byte_address raw start (rw e at reached)))
  ]
  | inr further ↦ elim (Option-cases (last_access_point list)) [
    | inl e ↦ rw (is_due, further, e) tt
    | inr (d, e) ↦ elim (Bool-cases (ltb (d.raw_byte_address + span) raw)) [
      | inl far ↦
          rw (is_due, further, e, far, IsJust, e) (inr (ltb→lt (d.raw_byte_address + span) raw far))
      | inr near ↦ rw (is_due, further, e, near) tt
    ]
  ]
]
