-- ===== src/Base/Result.antt =====
-- Results of fallible C code, and their chains.
use mathlib.Core.Bool.{Bool, true, false}
use mathlib.Core.Option.{Option, none, some}
use mathlib.Core.Path.{◌≡◌, refl}

-- The negative error numbers that a file system operation returns.
pub data Errno : Type 0 where
  enoent eacces einval : Errno

-- `fault` is a failed assertion, an abort or an access outside an object; `out_of_fuel` says that a
-- loop did not end within the rounds that the model gives it.
pub data Result {ℓ} (A : Type ℓ) : Type ℓ where
  ok : A → Result A
  err : Errno → Result A
  fault : Result A
  out_of_fuel : Result A

infixl 5 ◌>>=◌ ◌>>◌
abbrev pub ◌>>=◌ {ℓ κ} : {A : Type ℓ} {B : Type κ} → Result A → (A → Result B) → Result B
ok a >>= f = f a
err e >>= f = err e
fault >>= f = fault
out_of_fuel >>= f = out_of_fuel

abbrev pub ◌>>◌ {ℓ} : {B : Type ℓ} → Result (Unit {0}) → Result B → Result B
m >> k = m >>= λ _. k

-- `ASSERT(b)`
abbrev pub check : Bool → Result (Unit {0})
check true = ok tt
check false = fault

-- A dereferenced pointer or index: outside every object it is a fault.
abbrev pub deref {ℓ} : {A : Type ℓ} → Option A → Result A
deref none = fault
deref (some a) = ok a

pub check-fault {ℓ} : {B : Type ℓ} (b : Bool) → ◌>>◌ {B = B} (check b) fault ≡ fault
check-fault true = refl
check-fault false = refl
