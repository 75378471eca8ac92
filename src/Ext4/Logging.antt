-- ===== src/Ext4/Logging.antt =====
-- fs/ext4/logging.c and logging.h: the log. A message comes with its formatted text; what is written
-- is the list of the lines in the file. The lock makes one step of each message.
use spotlight.Base.{
  ℕ, zero, suc, ◌≡◌, ◌≤◌, ◌⊎◌, ltb, not-ltb→le, if◌then◌else◌, Bool, Bool-cases, inl, inr, true,
  false, Option, none, some, List, [], ◌∷◌, ◌++◌, get_elem?, arith, refl, sym, ap, ◌∙◌,
}
use mathlib.Core.List.{append_assoc, append-nil}
use spotlight.Base.Int.{ℤ, pos, negsuc}
use spotlight.Base.Result.{Result, ok, ◌>>=◌, deref}

-- LOG_EMERG to LOG_DEBUG, in the order of `loglevel_str`
pub data LogLevel : Type 0 where
  emerg alert crit log_err warning notice info debug : LogLevel

abbrev pub loglevel_str : List LogLevel
loglevel_str = emerg ∷ alert ∷ crit ∷ log_err ∷ warning ∷ notice ∷ info ∷ debug ∷ []

-- DEFAULT_LOG_LEVEL of the debug build
abbrev pub default_log_level : ℤ
default_log_level = pos 7

-- The arguments of `__LOG`, the text formatted.
pub record Message : Type 0 where
  pub level : ℤ
  pub func : List ℕ
  pub line : ℕ
  pub text : List ℕ

-- A line of the log.
pub record Logged : Type 0 where
  pub loglevel : LogLevel
  pub func : List ℕ
  pub line : ℕ
  pub text : List ℕ

-- The static variables.
pub record Logger : Type 0 where
  pub loglevel : ℤ
  pub logfile : Option (List Logged)

abbrev pub first_logger : Logger
first_logger = record { loglevel = default_log_level; logfile = none }

-- `level > loglevel`
unfoldable pub exceeds : ℕ → ℤ → Bool
exceeds level (pos n) = ltb n level
exceeds level (negsuc n) = true

unfoldable pub logged : Message → LogLevel → Logged
logged m level = record { loglevel = level; func = m.func; line = m.line; text = m.text }

-- `__LOG`
unfoldable pub log : Logger → Message → Result Logger
log st m = elim st.logfile [
  | none ↦ ok st
  | some file ↦ elim m.level [
    | negsuc n ↦ ok st
    | pos level ↦ if exceeds level st.loglevel then ok st else (do
      name ← deref (get_elem? loglevel_str level)
      ok (record st { logfile = some (file ++ (logged m name ∷ [])) }))
  ]
]

-- `logging_setlevel`
unfoldable pub logging_setlevel : Logger → ℤ → Logger
logging_setlevel st new_level = record st { loglevel = new_level }

-- `logging_open`; true for 0. `fopen` says whether the file can be opened.
unfoldable pub logging_open : (List ℕ → Bool) → Logger → Option (List ℕ) → Bool × Logger
logging_open fopen st path = elim path [
  | none ↦ (true, st)
  | some path ↦
      if fopen path
      then (true, record st { logfile = some [] })
      else (false, record st { logfile = none })
]

-- Messages one after the other.
unfoldable pub log_all : Logger → List Message → Result Logger
log_all st [] = ok st
log_all st (m ∷ ms) = do st ← log st m; log_all st ms

-- The line of a message at a level up to `bound`.
unfoldable pub line_of : ℕ → Message → List Logged
line_of bound m = elim m.level [
  | negsuc n ↦ []
  | pos level ↦ elim (get_elem? loglevel_str level) [
    | none ↦ []
    | some name ↦ if ltb bound level then [] else logged m name ∷ []
  ]
]

unfoldable pub lines_of : ℕ → List Message → List Logged
lines_of bound [] = []
lines_of bound (m ∷ ms) = line_of bound m ++ lines_of bound ms

level-named :
    (level : ℕ) → level ≤ 7 → (name : LogLevel) × (get_elem? loglevel_str level ≡ some name)
level-named zero h = (emerg, refl)
level-named (suc zero) h = (alert, refl)
level-named (suc (suc zero)) h = (crit, refl)
level-named (suc (suc (suc zero))) h = (log_err, refl)
level-named (suc (suc (suc (suc zero)))) h = (warning, refl)
level-named (suc (suc (suc (suc (suc zero))))) h = (notice, refl)
level-named (suc (suc (suc (suc (suc (suc zero)))))) h = (info, refl)
level-named (suc (suc (suc (suc (suc (suc (suc zero))))))) h = (debug, refl)
level-named (suc (suc (suc (suc (suc (suc (suc (suc n)))))))) h = absurd (omega arith)

level-cases : (level : ℤ) → ((n : ℕ) × (level ≡ negsuc n)) ⊎ ((n : ℕ) × (level ≡ pos n))
level-cases (negsuc n) = inl (n, refl)
level-cases (pos n) = inr (n, refl)

named-cases : (o : Option LogLevel) → (o ≡ none) ⊎ ((name : LogLevel) × (o ≡ some name))
named-cases none = inl refl
named-cases (some name) = inr (name, refl)

abbrev pub writing : ℕ → List Logged → Logger
writing bound file = record { loglevel = pos bound; logfile = some file }

module _ (bound : ℕ) (m : Message) where
  line-negative : (n : ℕ) → m.level ≡ negsuc n → line_of bound m ≡ []
  unfolding line_of
  line-negative n e = rw e refl

  line-above : (n : ℕ) → m.level ≡ pos n → ltb bound n ≡ true → line_of bound m ≡ []
  unfolding line_of
  line-above n e above = elim (named-cases (get_elem? loglevel_str n)) [
    | inl nothing ↦ rw (e, nothing) refl
    | inr (name, there) ↦ rw (e, there, above) refl
  ]

  line-there :
      (n : ℕ) (name : LogLevel)
      → m.level ≡ pos n
      → get_elem? loglevel_str n ≡ some name
      → ltb bound n ≡ false
      → line_of bound m ≡ logged m name ∷ []
  unfolding line_of
  line-there n name e there within = rw (e, there, within) refl

  log-line_of :
      (file : List Logged)
      → bound ≤ 7
      → log (writing bound file) m ≡ ok (writing bound (file ++ line_of bound m))
  unfolding log exceeds logged
  log-line_of file known = elim (level-cases m.level) [
    | inl (n, e) ↦ rw (line-negative n e, log, e, append-nil file) refl
    | inr (n, e) ↦ elim (Bool-cases (ltb bound n)) [
      | inl above ↦ rw (line-above n e above, log, e, above, append-nil file) refl
      | inr within ↦
          let (name, there) = level-named n (omega (arith, not-ltb→le bound n within)) in
          rw (line-there n name e there within, log, e, within, there) refl
    ]
  ]

-- While the log file is open and the level that is set is at most 7, a sequence of messages never
-- faults and adds to the file, in order, exactly the lines of the messages whose level is not
-- negative and at most the one that is set, each with the name of its level.
pub log_all-lines_of :
    (bound : ℕ) (file : List Logged) (ms : List Message)
    → bound ≤ 7
    → log_all (writing bound file) ms ≡ ok (writing bound (file ++ lines_of bound ms))
unfolding log_all lines_of
log_all-lines_of bound file [] known = ap (λ f. ok (writing bound f)) (sym (append-nil file))
log_all-lines_of bound file (m ∷ ms) known =
    rw (log_all, log-line_of bound m file known)
      (log_all-lines_of bound (file ++ line_of bound m) ms known
        ∙ ap (λ f. ok (writing bound f)) (append_assoc file (line_of bound m) (lines_of bound ms)))
