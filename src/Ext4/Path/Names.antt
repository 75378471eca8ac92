-- ===== src/Ext4/Path/Names.antt =====
-- Names in a directory, as an abstract list, and the comparisons of names by their bytes.
use spotlight.Base.{
  ℕ, zero, suc, ◌==◌, ◌≡◌, ◌≤◌, ◌&&◌, if◌then◌else◌, Bool, true, false, Option, none, some, List,
  [], ◌∷◌, length, take, arith, refl, ap, ◌∙◌, not-==→ne,
}
use spotlight.Ext4.Directory.Entries.{entry_at, name_at}
use spotlight.Ext4.Path.{same_bytes}

-- A name with its inode.
abbrev pub Entry : Type 0
Entry = List ℕ × ℕ

unfoldable pub same_name : List ℕ → List ℕ → Bool
same_name [] [] = true
same_name [] (b ∷ bs) = false
same_name (a ∷ as_) [] = false
same_name (a ∷ as_) (b ∷ bs) = (a == b) && same_name as_ bs

-- The inode of the first entry of that name.
unfoldable pub lookup_name : List ℕ → List Entry → Option ℕ
lookup_name name [] = none
lookup_name name ((other, n) ∷ entries) =
    if same_name name other then some n else lookup_name name entries

-- The entries in use of a chain of directory entries.
unfoldable pub used_entries : (ℕ → ℕ) → List ℕ → List Entry
used_entries f [] = []
used_entries f (o ∷ os) =
    if (entry_at f o).inode == 0
    then used_entries f os
    else (name_at f o, (entry_at f o).inode) ∷ used_entries f os

and_false : (b : Bool) → (b && false) ≡ false
and_false true = refl
and_false false = refl

shorter : (m n : ℕ) → (suc m == suc n) ≡ false → (m == n) ≡ false
shorter m n h = ground arith

pub same_name-length : (a b : List ℕ) → (length a == length b) ≡ false → same_name a b ≡ false
unfolding same_name
same_name-length [] [] h = absurd (not-==→ne 0 0 h refl)
same_name-length [] (b ∷ bs) h = refl
same_name-length (a ∷ as_) [] h = refl
same_name-length (a ∷ as_) (b ∷ bs) h =
    ap (λ r. (a == b) && r) (same_name-length as_ bs (shorter (length as_) (length bs) h))
    ∙ and_false (a == b)

pub same_bytes-same_name :
    (n : ℕ) (a b : List ℕ)
    → n ≤ length a
    → n ≤ length b
    → same_bytes n a b ≡ same_name (take n a) (take n b)
unfolding same_bytes same_name
same_bytes-same_name zero a b h k = refl
same_bytes-same_name (suc n) [] b h k = absurd (omega arith)
same_bytes-same_name (suc n) (x ∷ a) [] h k = absurd (omega arith)
same_bytes-same_name (suc n) (x ∷ a) (y ∷ b) h k =
    ap (λ r. (x == y) && r) (same_bytes-same_name n a b (omega arith) (omega arith))
