-- ===== src/Compression/Reader/Tests.antt =====
-- A choice between a reader that looks at two bytes and the raw reader.
use spotlight.Base.{ℕ, ◌+◌, ◌≡◌, false, none, List, [], ◌∷◌, refl}
use spotlight.Base.Result.{ok}
use spotlight.Compression.Reader.{CompressionReaderImpl, get_supported_comp_reader, raw_read}
use spotlight.Compression.Reader.Choice.{first_supported, get_supported_comp_reader-first_supported}

-- A file is its position.
abbrev start : ℕ → ℕ
start position = 0

abbrev picky : CompressionReaderImpl ℕ ℕ ℕ
picky = record {
  is_supported = λ position. (false, position + 2);
  alloc = λ position. (none, position);
  read = λ handle offset length. (0, handle);
  free = λ handle. ok tt;
}

abbrev readers : List (CompressionReaderImpl ℕ ℕ ℕ)
readers = picky ∷ raw_read (λ file offset length. length) ∷ []

get_supported_comp_reader-first_supported_example :
    (get_supported_comp_reader start readers 0).0 ≡ first_supported readers 0
get_supported_comp_reader-first_supported_example =
    get_supported_comp_reader-first_supported start readers 0 (refl, (refl, tt))
