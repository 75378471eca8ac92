-- ===== src/Ext4/Extents/Leaf.antt =====
-- `extent_get_block_from_ees` over a leaf whose extents are in order.
use spotlight.Base.{
  ℕ, zero, suc, ◌+◌, ◌-◌, ◌^◌, ◌≡◌, ◌≤◌, ◌<◌, inl, inr, some, none, List, [], ◌∷◌, length, arith,
  Bool-cases, refl,
}
use spotlight.Base.Result.{ok}
use spotlight.Ext4.Extents.{Extent, extent_at, block_from_ees}
use spotlight.Ext4.Extents.Tree.{covers, find_extent, IsNarrow, Ordered, ExtentsAt}

pub record Found (lo : ℕ) (e : Extent) (lblock hi : ℕ) : Type 0 where
  pub above : lo ≤ e.ee_block
  pub from : e.ee_block ≤ lblock
  pub before : lblock < e.ee_block + e.ee_len
  pub below : e.ee_block + e.ee_len ≤ hi
  pub narrow : IsNarrow e

pub Ordered-le : (lo : ℕ) (es : List Extent) (hi : ℕ) → Ordered lo es hi → lo ≤ hi
Ordered-le lo [] hi h = h
Ordered-le lo (e ∷ es) hi h = omega (arith, Ordered-le (e.ee_block + e.ee_len) es hi h.2)

pub find_extent-Found :
    (lo : ℕ) (es : List Extent) (hi lblock : ℕ) {x : Extent}
    → Ordered lo es hi
    → find_extent es lblock ≡ some x
    → Found lo x lblock hi
unfolding find_extent
find_extent-Found lo [] hi lblock h f = cc
find_extent-Found lo (e ∷ es) hi lblock {x} h f = ground (
  arith,
  Ordered-le (e.ee_block + e.ee_len) es hi h.2,
  find_extent-Found (e.ee_block + e.ee_len) es hi lblock {x = x} h.2,
)

module _ (b : List ℕ) (lblock : ℕ) where
  pub block_from_ees-find_extent :
      (n i lo : ℕ) (es : List Extent) (hi : ℕ) {x : Extent}
      → ExtentsAt b i es
      → Ordered lo es hi
      → n ≡ length es
      → find_extent es lblock ≡ some x
      → block_from_ees b n i lblock
        ≡ ok (x.ee_start_lo + (lblock - x.ee_block), some (x.ee_block + x.ee_len - lblock))
  unfolding find_extent block_from_ees
  block_from_ees-find_extent n i lo [] hi at h c f = cc
  block_from_ees-find_extent zero i lo (e ∷ es) hi at h c f = absurd (omega arith)
  block_from_ees-find_extent (suc n) i lo (e ∷ es) hi {x} at h c f =
      elim (Bool-cases (covers e lblock)) [
        | inl here ↦ rw at.0 (ground arith)
        | inr later ↦ rw at.0 (
            ground (
              arith,
              find_extent-Found (e.ee_block + e.ee_len) es hi lblock {x = x} h.2,
              block_from_ees-find_extent n (i + 1) (e.ee_block + e.ee_len) es hi {x = x} at.1 h.2,
            ))
      ]

  -- In a leaf whose extents are in order, a logical block at or behind the end of the last extent
  -- is reported as a hole, and the length is left alone.
  pub block_from_ees-past_end :
      (n i lo : ℕ) (es : List Extent) (hi : ℕ)
      → ExtentsAt b i es
      → Ordered lo es hi
      → n ≡ length es
      → hi ≤ lblock
      → block_from_ees b n i lblock ≡ ok (0, none)
  unfolding block_from_ees
  block_from_ees-past_end zero i lo es hi at h c f = refl
  block_from_ees-past_end (suc n) i lo [] hi at h c f = absurd (omega arith)
  block_from_ees-past_end (suc n) i lo (e ∷ es) hi at h c f = rw at.0 (
      ground (
        arith,
        Ordered-le (e.ee_block + e.ee_len) es hi h.2,
        block_from_ees-past_end n (i + 1) (e.ee_block + e.ee_len) es hi at.1 h.2,
      ))

-- A logical block in front of the first extent that the search looks at, by no more than that
-- extent's physical start, is not reported as a hole: it is mapped to as many blocks in front of
-- the extent's physical start, with a length that reaches to the end of the extent.
pub block_from_ees-gap :
    (b : List ℕ) (n i lblock : ℕ) (e : Extent)
    → extent_at b i ≡ some e
    → IsNarrow e
    → lblock < e.ee_block
    → e.ee_block - lblock ≤ e.ee_start_lo
    → e.ee_start_lo < 2 ^ 32
    → block_from_ees b (suc n) i lblock
      ≡ ok (e.ee_start_lo - (e.ee_block - lblock), some (e.ee_block + e.ee_len - lblock))
unfolding block_from_ees
block_from_ees-gap b n i lblock e at narrow gap near word = rw at (ground arith)
