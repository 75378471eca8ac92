-- ===== src/Ext4/Path/Components.antt =====
-- The components of a path: the pieces between its slashes that are not empty. How the functions
-- of fs/ext4/inode.c take a path apart.
use spotlight.Base.{
  ℕ, zero, suc, ◌+◌, ◌^◌, ◌==◌, ◌≡◌, ◌≤◌, ◌<◌, ◌&&◌, if◌then◌else◌, Bool, true, false, Bool-cases,
  inl, inr, none, some, List, [], ◌∷◌, length, take, drop, get_or, arith, refl, sym, ap, ap₂, ◌∙◌,
  ==→eq, not-==→ne, ◌⊎◌,
}
use spotlight.Base.Result.{ok}
use spotlight.Ext4.Dcache.{dcache_entry_name_len, same_string}
use spotlight.Ext4.Path.{slash, ends_token, get_path_token_len, skip_trailing_backslash, find_slash}
use spotlight.Ext4.Path.Token.{get_path_token_len-count}

unfoldable pub first_token : List ℕ → List ℕ
first_token [] = []
first_token (c ∷ path) = if c == slash then [] else c ∷ first_token path

unfoldable pub keep : List ℕ → List (List ℕ) → List (List ℕ)
keep [] tokens = tokens
keep (c ∷ token) tokens = (c ∷ token) ∷ tokens

-- The components behind the first slash.
unfoldable pub later : List ℕ → List (List ℕ)
later [] = []
later (c ∷ path) = if c == slash then keep (first_token path) (later path) else later path

unfoldable pub components : List ℕ → List (List ℕ)
components path = keep (first_token path) (later path)

unfoldable pub NoZero : List ℕ → Type 0
NoZero [] = Unit
NoZero (c ∷ path) = ((c == 0) ≡ false) × NoZero path

-- Each component fits the name of an entry of the cache.
unfoldable pub Fits : List (List ℕ) → Type 0
Fits [] = Unit
Fits (token ∷ tokens) = (length token + 1 ≤ dcache_entry_name_len) × Fits tokens

pub components-slash :
    (c : ℕ) (path : List ℕ) → (c == slash) ≡ true → components (c ∷ path) ≡ components path
unfolding components first_token later keep
components-slash c path e = rw e refl

pub components-skip : (path : List ℕ) → components (skip_trailing_backslash path) ≡ components path
unfolding skip_trailing_backslash
components-skip [] = refl
components-skip (c ∷ path) = elim (Bool-cases (c == slash)) [
  | inl here ↦ rw here (components-skip path ∙ sym (components-slash c path here))
  | inr other ↦ rw other refl
]

pub NoZero-skip : (path : List ℕ) → NoZero path → NoZero (skip_trailing_backslash path)
unfolding skip_trailing_backslash NoZero
NoZero-skip [] h = h
NoZero-skip (c ∷ path) (h, hs) = elim (Bool-cases (c == slash)) [
  | inl here ↦ rw here (NoZero-skip path hs)
  | inr other ↦ rw other (h, hs)
]

pub length-skip : (path : List ℕ) → length (skip_trailing_backslash path) ≤ length path
unfolding skip_trailing_backslash
length-skip [] = omega arith
length-skip (c ∷ path) = elim (Bool-cases (c == slash)) [
  | inl here ↦ rw here (omega (arith, length-skip path))
  | inr other ↦ rw other (omega arith)
]

pub NoZero-drop : (n : ℕ) (path : List ℕ) → NoZero path → NoZero (drop n path)
unfolding NoZero
NoZero-drop zero path h = h
NoZero-drop (suc n) [] h = h
NoZero-drop (suc n) (c ∷ path) (h, hs) = NoZero-drop n path hs

pub NoZero-take : (n : ℕ) (path : List ℕ) → NoZero path → NoZero (take n path)
unfolding NoZero
NoZero-take zero path h = tt
NoZero-take (suc n) [] h = h
NoZero-take (suc n) (c ∷ path) (h, hs) = (h, NoZero-take n path hs)

-- The first token is what the path begins with.
pub take-token : (path : List ℕ) → take (length (first_token path)) path ≡ first_token path
unfolding first_token
take-token [] = refl
take-token (c ∷ path) = elim (Bool-cases (c == slash)) [
  | inl here ↦ rw here refl
  | inr other ↦ rw other (ap (◌∷◌ c) (take-token path))
]

pub length-token : (path : List ℕ) → length (first_token path) ≤ length path
unfolding first_token
length-token [] = omega arith
length-token (c ∷ path) = elim (Bool-cases (c == slash)) [
  | inl here ↦ rw here (omega arith)
  | inr other ↦ rw other (omega (arith, length-token path))
]

-- Behind the first token stand the later components.
pub components-behind :
    (path : List ℕ) → components (drop (length (first_token path)) path) ≡ later path
unfolding first_token later components keep
components-behind [] = refl
components-behind (c ∷ path) = elim (Bool-cases (c == slash)) [
  | inl here ↦ rw (here, here) refl
  | inr other ↦ rw other (components-behind path)
]

token-inner :
    (path : List ℕ)
    → NoZero path
    → (i : ℕ) → i < length (first_token path)
    → ends_token (get_or path i 0) ≡ false
unfolding first_token NoZero
token-inner [] zeros i h = absurd (omega arith)
token-inner (c ∷ path) (z, zs) zero h = elim (Bool-cases (c == slash)) [
  | inl here ↦
      let e : length (first_token (c ∷ path)) ≡ 0 = rw here refl in absurd (omega (arith, e))
  | inr other ↦ rw (other, z) refl
]
token-inner (c ∷ path) (z, zs) (suc i) h = elim (Bool-cases (c == slash)) [
  | inl here ↦
      let e : length (first_token (c ∷ path)) ≡ 0 = rw here refl in absurd (omega (arith, e))
  | inr other ↦
      let e : length (first_token (c ∷ path)) ≡ suc (length (first_token path)) = rw other refl in
      token-inner path zs i (omega (arith, e))
]

token-outer : (path : List ℕ) → ends_token (get_or path (length (first_token path)) 0) ≡ true
unfolding first_token
token-outer [] = refl
token-outer (c ∷ path) = elim (Bool-cases (c == slash)) [
  | inl here ↦ rw (here, here) refl
  | inr other ↦ rw other (token-outer path)
]

pub get_path_token_len-token :
    (path : List ℕ)
    → NoZero path
    → length (first_token path) < 2 ^ 8
    → get_path_token_len path ≡ ok (length (first_token path))
get_path_token_len-token path zeros narrow =
    get_path_token_len-count path (length (first_token path)) (token-inner path zeros)
      (token-outer path) narrow

keep-cases :
    (token : List ℕ) (tokens : List (List ℕ))
    → ((token ≡ []) × (keep token tokens ≡ tokens))
      ⊎ ((0 < length token) × (keep token tokens ≡ token ∷ tokens))
unfolding keep
keep-cases [] tokens = inl (refl, refl)
keep-cases (c ∷ token) tokens = inr (omega arith, refl)

-- At the end of a path, or at a slash, or before a token, which is then the first component.
pub components-cases :
    (path : List ℕ)
    → ((length (first_token path) ≡ 0) × (components path ≡ later path))
      ⊎ ((0 < length (first_token path)) × (components path ≡ first_token path ∷ later path))
unfolding components
components-cases path = elim (keep-cases (first_token path) (later path)) [
  | inl (e, skip) ↦ inl (ap length e, skip)
  | inr more ↦ inr more
]

-- Without a token in front and not at a slash the path is at its end.
pub skip-end :
    (path : List ℕ)
    → length (first_token (skip_trailing_backslash path)) ≡ 0
    → skip_trailing_backslash path ≡ []
unfolding skip_trailing_backslash first_token
skip-end [] h = refl
skip-end (c ∷ path) h = elim (Bool-cases (c == slash)) [
  | inl here ↦
      let e : skip_trailing_backslash (c ∷ path) ≡ skip_trailing_backslash path = rw here refl in
      e ∙ skip-end path (ap (λ p. length (first_token p)) (sym e) ∙ h)
  | inr other ↦
      let e : length (first_token (skip_trailing_backslash (c ∷ path)))
          ≡ suc (length (first_token path)) =
        rw (other, other) refl in
      absurd (omega (arith, e))
]

-- What `strchr` finds has the later components.
pub find_slash-components :
    (path : List ℕ)
    → NoZero path
    → ((find_slash path ≡ none) × (later path ≡ []))
      ⊎ ((rest : List ℕ) × (find_slash path ≡ some rest)
          × (components rest ≡ later path)
          × NoZero rest
          × (length rest + length (first_token path) ≤ length path))
unfolding find_slash later NoZero first_token components keep
find_slash-components [] zeros = inl (refl, refl)
find_slash-components (c ∷ path) (z, zs) = elim (Bool-cases (c == slash)) [
  | inl here ↦ inr (c ∷ path, rw here refl, rw here refl, (z, zs), rw here (omega arith))
  | inr other ↦ elim (find_slash-components path zs) [
    | inl (found, nothing) ↦ inl (rw other found, rw other nothing)
    | inr (rest, found, same, zeros, short) ↦
        inr (rest, rw other found, rw other same, zeros, rw other (omega arith))
  ]
]

pub both-true : (a b : Bool) → (a && b) ≡ true → (a ≡ true) × (b ≡ true)
both-true true b e = (refl, e)
both-true false b e = absurd (not-==→ne 0 1 refl (ap (λ b. if b then 1 else 0) e))

first-true : (a b : Bool) → (if a then b else false) ≡ true → (a ≡ true) × (b ≡ true)
first-true true b e = (refl, e)
first-true false b e = absurd (not-==→ne 0 1 refl (ap (λ b. if b then 1 else 0) e))

second-true : (a b : Bool) → a ≡ false → (if a then true else b) ≡ true → b ≡ true
second-true true b e h = absurd (not-==→ne 1 0 refl (ap (λ b. if b then 1 else 0) e))
second-true false b e h = h

-- The name of an entry of the cache that matches.
pub same_string-first :
    (n : ℕ) (name path : List ℕ)
    → NoZero name
    → NoZero path
    → n ≤ length path
    → same_string n name path ≡ true
    → (get_or name n 0 == 0) ≡ true
    → name ≡ take n path
unfolding same_string NoZero
same_string-first zero [] path zeros zeros' h e end = refl
same_string-first zero (x ∷ name) path (z, zs) zeros' h e end =
    absurd (not-==→ne x 0 z (==→eq x 0 end))
same_string-first (suc n) name [] zeros zeros' h e end = absurd (omega arith)
same_string-first (suc n) [] (c ∷ path) zeros (z, zs) h e end =
    let (same, more) = first-true (0 == c) _ e in absurd (not-==→ne c 0 z (sym (==→eq 0 c same)))
same_string-first (suc n) (x ∷ name) (c ∷ path) (z, zs) (z', zs') h e end =
    let (same, more) = first-true (x == c) _ e in
    ap₂ ◌∷◌ (==→eq x c same)
      (same_string-first n name path zs zs' (omega arith) (second-true (x == 0) _ z more) end)
