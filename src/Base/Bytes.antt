-- ===== src/Base/Bytes.antt =====
-- Bytes: runs of a byte function, and the little-endian fields of a buffer.
use Prim.Native.Nat.{ℕ, zero, suc, ◌+◌, ◌-◌, ◌*◌, ◌^◌, ◌<◌, min}
use mathlib.Core.Path.{◌≡◌, refl, ap, ap₂, ◌∙◌}
use mathlib.Core.List.{List, [], ◌∷◌, ◌++◌}
use native.Mathlib.Omega.{arith}
use spotlight.Base.Lists.{length, get_or, take, drop, replicate}

-- The `n` bytes of `f` from `o` on.
unfoldable pub slice : (ℕ → ℕ) → ℕ → ℕ → List ℕ
slice f o zero = []
slice f o (suc n) = f o ∷ slice f (o + 1) n

-- `uint16_t` and `uint32_t` fields of a buffer.
abbrev pub le16 : List ℕ → ℕ → ℕ
le16 b o = get_or b o 0 + 2 ^ 8 * get_or b (o + 1) 0

abbrev pub le32 : List ℕ → ℕ → ℕ
le32 b o = le16 b o + 2 ^ 16 * le16 b (o + 2)

module _ (f : ℕ → ℕ) where
  pub length-slice : (o n : ℕ) → length (slice f o n) ≡ n
  unfolding slice
  length-slice o zero = refl
  length-slice o (suc n) = ap suc (length-slice (o + 1) n)

  pub slice_at : (o p m n : ℕ) → o ≡ p → m ≡ n → slice f o m ≡ slice f p n
  slice_at o p m n e d = ap₂ (slice f) e d

  pub slice-append : (o m n k : ℕ) → m + n ≡ k → slice f o m ++ slice f (o + m) n ≡ slice f o k
  unfolding slice
  slice-append o zero n k e = slice_at (o + 0) o n k (omega arith) (omega arith)
  slice-append o (suc m) n zero e = absurd (omega arith)
  slice-append o (suc m) n (suc k) e = ap (◌∷◌ (f o)) (
      ap (λ a. slice f (o + 1) m ++ slice f a n) (omega arith)
      ∙ slice-append (o + 1) m n k (omega arith))

  pub get_or-slice : (o n i d : ℕ) → i < n → get_or (slice f o n) i d ≡ f (o + i)
  unfolding slice
  get_or-slice o zero i d h = absurd (omega arith)
  get_or-slice o (suc n) zero d h = ap f (omega arith)
  get_or-slice o (suc n) (suc i) d h = get_or-slice (o + 1) n i d (omega arith) ∙ ap f (omega arith)

  pub take-slice : (o n k : ℕ) → take k (slice f o n) ≡ slice f o (min k n)
  unfolding slice
  take-slice o n zero = slice_at o o 0 (min 0 n) refl (omega arith)
  take-slice o zero (suc k) = slice_at o o 0 (min (suc k) 0) refl (omega arith)
  take-slice o (suc n) (suc k) =
      ap (◌∷◌ (f o)) (take-slice (o + 1) n k)
      ∙ slice_at o o (suc (min k n)) (min (suc k) (suc n)) refl (omega arith)

  pub drop-slice : (o n k : ℕ) → drop k (slice f o n) ≡ slice f (o + k) (n - k)
  unfolding slice
  drop-slice o n zero = slice_at o (o + 0) n (n - 0) (omega arith) (omega arith)
  drop-slice o zero (suc k) = slice_at (o + suc k) (o + suc k) 0 (0 - suc k) refl (omega arith)
  drop-slice o (suc n) (suc k) =
      drop-slice (o + 1) n k
      ∙ slice_at (o + 1 + k) (o + suc k) (n - k) (suc n - suc k) (omega arith) (omega arith)

-- Equal bytes on a range give equal runs.
pub slice-congr :
    (f g : ℕ → ℕ) (o p n : ℕ)
    → ((i : ℕ) → i < n → f (o + i) ≡ g (p + i))
    → slice f o n ≡ slice g p n
unfolding slice
slice-congr f g o p zero h = refl
slice-congr f g o p (suc n) h =
    ap₂ ◌∷◌ (ap f (omega arith) ∙ h 0 (omega arith) ∙ ap g (omega arith)) (
      slice-congr f g (o + 1) (p + 1) n
        λ i l. ap f (omega arith) ∙ h (suc i) (omega arith) ∙ ap g (omega arith))

pub slice-zeros :
    (f : ℕ → ℕ) (o n : ℕ) → ((i : ℕ) → i < n → f (o + i) ≡ 0) → slice f o n ≡ replicate n 0
unfolding slice
slice-zeros f o zero h = refl
slice-zeros f o (suc n) h =
    ap₂ ◌∷◌ (ap f (omega arith) ∙ h 0 (omega arith))
      (slice-zeros f (o + 1) n λ i l. ap f (omega arith) ∙ h (suc i) (omega arith))
