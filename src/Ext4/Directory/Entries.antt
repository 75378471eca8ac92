-- ===== src/Ext4/Directory/Entries.antt =====
-- What a directory holds: a chain of entries, and what listing them means.
use spotlight.Base.{ℕ, ◌+◌, ◌%◌, ◌==◌, ◌≡◌, ◌≤◌, ◌<◌, if◌then◌else◌, Bool, List, [], ◌∷◌}
use spotlight.Base.Bytes.{slice}
use spotlight.Ext4.Directory.{Dentry, dentry_of, dentry_header_sizeof, name_buf_size, printable}

-- The entry at an offset of the directory, and its name.
unfoldable pub entry_at : (ℕ → ℕ) → ℕ → Dentry
entry_at f offset = dentry_of (slice f offset dentry_header_sizeof) 0

abbrev pub name_at : (ℕ → ℕ) → ℕ → List ℕ
name_at f offset = slice f (offset + dentry_header_sizeof) (entry_at f offset).name_len

-- The offsets of the entries from `offset` up to the end of the directory. No entry crosses a block
-- boundary, and no name takes all of the 255 bytes.
abbrev pub IsChain : (ℕ → ℕ) → ℕ → ℕ → ℕ → List ℕ → Type 0
IsChain f width size offset [] = offset ≡ size
IsChain f width size offset (o ∷ os) =
    (o ≡ offset)
    × (o < size)
    × (o % width + dentry_header_sizeof + (entry_at f o).name_len ≤ width)
    × ((entry_at f o).name_len < name_buf_size)
    × IsChain f width size (o + (entry_at f o).rec_len) os

-- The names of the entries in use go to `filler` in order, until it is full.
unfoldable pub list_entries {ℓ} :
    {Buffer : Type ℓ} → (Buffer → List ℕ → ℕ → Bool × Buffer) → (ℕ → ℕ) → List ℕ → Buffer → Buffer
list_entries filler f [] buf = buf
list_entries filler f (o ∷ os) buf =
    if (entry_at f o).inode == 0
    then list_entries filler f os buf
    else (if printable (name_at f o)
        then (let (full, buf') = filler buf (name_at f o) (o + (entry_at f o).rec_len) in
            if full then buf' else list_entries filler f os buf')
        else list_entries filler f os buf)
