-- ===== src/Ext4/Directory/Fields.antt =====
-- The fields of an entry, read from the buffer of a block.
use spotlight.Base.{ℕ, ◌+◌, ◌-◌, ◌≡◌, ◌≤◌, ◌<◌, take, get_or, arith, ap, ◌∙◌, sym, le→leb, lt→ltb}
use spotlight.Base.Result.{ok}
use spotlight.Base.Bytes.{slice, slice_at, length-slice, get_or-slice, take-slice, drop-slice}
use spotlight.Ext4.Directory.{dentry_at, dentry_header_sizeof, name_buf_size, get_printable_name}
use spotlight.Ext4.Directory.Entries.{entry_at}

-- A byte of a window onto `f` is the byte of another window there.
get_or-windows :
    (f : ℕ → ℕ) (b n o i m : ℕ)
    → o + i < n
    → i < m
    → get_or (slice f b n) (o + i) 0 ≡ get_or (slice f (b + o) m) i 0
get_or-windows f b n o i m h k =
    get_or-slice f b n (o + i) 0 h ∙ ap f (omega arith) ∙ sym (get_or-slice f (b + o) m i 0 k)

-- An entry in a block is the entry of the directory at that place.
pub dentry_at-entry_at :
    (f : ℕ → ℕ) (b n o : ℕ)
    → o + dentry_header_sizeof ≤ n
    → dentry_at (slice f b n) o ≡ ok (entry_at f (b + o))
unfolding dentry_at entry_at
dentry_at-entry_at f b n o h =
    let byte : (i : ℕ) → i < 8 → get_or (slice f b n) (o + i) 0 ≡ get_or (slice f (b + o) 8) i 0 =
      λ i l. get_or-windows f b n o i 8 (omega arith) l in
    rw (length-slice f b n, le→leb (o + 8) n h)
      (ground (arith, byte 0, byte 1, byte 2, byte 3, byte 4, byte 5, byte 6))

pub printable_name-name_at :
    (f : ℕ → ℕ) (b n o k : ℕ)
    → o + dentry_header_sizeof + k ≤ n
    → k < name_buf_size
    → get_printable_name (slice f b n) o k ≡ ok (slice f (b + o + dentry_header_sizeof) k)
unfolding get_printable_name
printable_name-name_at f b n o k h small =
    rw (length-slice f b n, le→leb (o + 8 + k) n h, lt→ltb k 255 small)
      (ap ok (
        ap (take k) (drop-slice f b n (o + 8))
        ∙ take-slice f (b + (o + 8)) (n - (o + 8)) k
        ∙ slice_at f _ _ _ _ (omega arith) (omega arith)))
