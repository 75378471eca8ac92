-- ===== src/Compression/Reader/Choice.antt =====
-- The reader that is chosen.
use spotlight.Base.{
  ◌≡◌, Option, none, some, List, [], ◌∷◌, if◌then◌else◌, Bool-cases, inl, inr, refl,
}
use spotlight.Compression.Reader.{CompressionReaderImpl, get_supported_comp_reader}

module _ {File Handle Answer : Type 0} where
  -- The first reader of the list that supports the file as it is when it has just been opened.
  unfoldable pub first_supported :
      List (CompressionReaderImpl File Handle Answer)
      → File
      → Option (CompressionReaderImpl File Handle Answer)
  first_supported [] file = none
  first_supported (r ∷ rs) file =
      if (r.is_supported file).0 then some r else first_supported rs file

  -- What a reader looks at to say whether it supports the file is undone by `rewind`.
  abbrev pub IsUndone :
      (File → File) → List (CompressionReaderImpl File Handle Answer) → File → Type 0
  IsUndone rewind [] file = Unit {0}
  IsUndone rewind (r ∷ rs) file = (rewind (r.is_supported file).1 ≡ file) × IsUndone rewind rs file

  -- If rewinding undoes what each reader of the list does to the freshly opened file when it is
  -- asked whether it supports it, the reader that is chosen is the first of the list that supports
  -- the freshly opened file, or none.
  pub get_supported_comp_reader-first_supported :
      (rewind : File → File) (rs : List (CompressionReaderImpl File Handle Answer)) (file : File)
      → IsUndone rewind rs file
      → (get_supported_comp_reader rewind rs file).0 ≡ first_supported rs file
  unfolding get_supported_comp_reader first_supported
  get_supported_comp_reader-first_supported rewind [] file back = refl
  get_supported_comp_reader-first_supported rewind (r ∷ rs) file back =
      elim (Bool-cases (r.is_supported file).0) [
        | inl supported ↦ rw supported refl
        | inr other ↦
            rw (other, back.0) (get_supported_comp_reader-first_supported rewind rs file back.1)
      ]
