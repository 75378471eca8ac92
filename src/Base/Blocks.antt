-- ===== src/Base/Blocks.antt =====
-- Positions in a row of blocks of one width: quotient and remainder.
use Prim.Native.Nat.{ℕ, ◌+◌, ◌*◌, ◌/◌, ◌%◌, ◌≤◌, ◌<◌}
use mathlib.Core.Path.{◌≡◌, ◌∙◌, ap}
use native.Mathlib.Nat.{
  mul-add-div_right, mul-add-mod_self_right, div-eq_of_lt, mod-eq_of_lt, div-lt_iff_lt-mul,
  le-div_iff_mul-le,
}
use native.Mathlib.Omega.{arith}

module _ (w q r : ℕ) {n : ℕ} (e : n ≡ q * w + r) where
  pub div_of_parts : r < w → n / w ≡ q
  div_of_parts h =
      ap (λ k. k / w) e ∙ omega (arith, mul-add-div_right {m = w} (omega arith) q r, div-eq_of_lt h)

  pub mod_of_parts : r < w → n % w ≡ r
  mod_of_parts h = ap (λ k. k % w) e ∙ omega (arith, mul-add-mod_self_right q w r, mod-eq_of_lt h)

pub le-div : (w q n : ℕ) → q * w ≤ n → 0 < w → q ≤ n / w
le-div w q n h pos = (le-div_iff_mul-le pos).1 h

pub div-lt : (w q n : ℕ) → n < q * w → 0 < w → n / w < q
div-lt w q n h pos = (div-lt_iff_lt-mul pos).1 h

pub mul_pos : (a b : ℕ) → 0 < a → 0 < b → 0 < a * b
mul_pos a b h k = grind arith

pub le-mul_left : (a b : ℕ) → 0 < a → b ≤ a * b
le-mul_left a b h = grind arith
