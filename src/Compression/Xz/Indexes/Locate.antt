-- ===== src/Compression/Xz/Indexes/Locate.antt =====
-- The search for the footer of a stream in `parse_block_indexes`.
use spotlight.Base.{
  ℕ, zero, suc, ◌+◌, ◌-◌, ◌*◌, ◌≡◌, ◌≤◌, ◌<◌, ◌==◌, ltb, true, false, Bool-cases, inl, inr, List,
  length, get_or, arith, refl, ap, ◌∙◌, min, eq→==, ==→eq, le→not-ltb, not-ltb→le,
}
use spotlight.Base.Result.{ok}
use spotlight.Base.Bytes.{slice, length-slice, get_or-slice}
use spotlight.Compression.File.{File, pread_file}
use spotlight.Compression.Xz.Lzma.{lzma_prog_error, lzma_data_error}
use spotlight.Compression.Xz.Indexes.{
  IndexLzma, Step, leaves, goes, Footer, zeros_back, locate_footer,
}

-- What the search may answer that starts at a position with some padding behind it: a footer that is
-- not behind it, whose third byte is not zero, with what it has passed as padding.
unfoldable pub IsLocated : File → ℕ → ℕ → ℕ → Step Footer → Type 0
IsLocated file h position stream_padding (leaves ret) = Unit
IsLocated file h position stream_padding (goes f) =
    (f.position ≤ position)
    × (f.buffer ≡ slice file.byte f.position h)
    × ((get_or f.buffer 2 0 == 0) ≡ false)
    × (f.stream_padding + f.position ≡ stream_padding + position)

-- A footer in front of a position by 4 bytes at least.
unfoldable pub IsBefore : ℕ → Step Footer → Type 0
IsBefore position (leaves ret) = Unit
IsBefore position (goes f) = f.position + 4 ≤ position

zeros_back-bounds : (buffer : List ℕ) → (1 ≤ zeros_back buffer) × (zeros_back buffer ≤ 3)
unfolding zeros_back
zeros_back-bounds buffer = elim (Bool-cases (get_or buffer 1 0 == 0)) [
  | inr one ↦ rw one (omega arith, omega arith)
  | inl more ↦ elim (Bool-cases (get_or buffer 0 0 == 0)) [
    | inr two ↦ rw (more, two) (omega arith, omega arith)
    | inl three ↦ rw (more, three) (omega arith, omega arith)
  ]
]

full_read :
    (file : File) (h position : ℕ)
    → (length (pread_file file h position) == h) ≡ true
    → pread_file file h position ≡ slice file.byte position h
unfolding pread_file
full_read file h position whole =
    let n = min h (file.size - position) in
    let read : length (slice file.byte position n) ≡ h = ==→eq _ h whole in
    ap (slice file.byte position) (omega (arith, read, length-slice file.byte position n))

inside_read :
    (file : File) (h position : ℕ)
    → position + h ≤ file.size
    → pread_file file h position ≡ slice file.byte position h
unfolding pread_file
inside_read file h position inside =
    ap (slice file.byte position) {x = min h (file.size - position)} (omega arith)

module _ (lz : IndexLzma) (file : File) (wide : 12 ≤ lz.stream_header_size) where
  moved_back :
      (position next stream_padding more : ℕ) (step : Step Footer)
      → next + more ≡ position
      → IsLocated file lz.stream_header_size next (stream_padding + more) step
      → IsLocated file lz.stream_header_size position stream_padding step
  unfolding IsLocated
  moved_back position next stream_padding more (leaves ret) e l = tt
  moved_back position next stream_padding more (goes f) e (low, bytes, some_byte, sum) =
      (omega arith, bytes, some_byte, omega arith)

  -- The search for a footer ends, on one turn more than the position it starts from, when headers
  -- and footers have 12 bytes or more. What it finds is not behind that position, has a third byte
  -- that is not zero, is read from the file, and the padding grows by as many bytes as the search
  -- has moved back.
  pub locate_footer-IsLocated :
      (fuel position stream_padding : ℕ)
      → position < fuel
      → (step : Step Footer) × (locate_footer lz file fuel position stream_padding ≡ ok step)
        × IsLocated file lz.stream_header_size position stream_padding step
  unfolding locate_footer IsLocated pread_file
  locate_footer-IsLocated zero position stream_padding enough = absurd (omega arith)
  locate_footer-IsLocated (suc fuel) position stream_padding enough =
      let h = lz.stream_header_size in
      let buffer = pread_file file h position in
      let k = zeros_back buffer in
      let (some_back, few_back) = zeros_back-bounds buffer in
      elim (Bool-cases (ltb position h)) [
        | inl short ↦ (leaves lzma_data_error, rw (locate_footer, short) refl, tt)
        | inr long ↦ elim (Bool-cases (length buffer == h)) [
          | inr cut ↦ (leaves lzma_prog_error, rw (locate_footer, long, cut) refl, tt)
          | inl whole ↦ elim (Bool-cases (get_or buffer 2 0 == 0)) [
            | inr found ↦ (
              goes (record {
                position = position;
                stream_padding = stream_padding;
                buffer = buffer;
              }),
              rw (locate_footer, long, whole, found) refl,
              (omega arith, full_read file h position whole, found, refl),
            )
            | inl zero_byte ↦
                let low = not-ltb→le position h long in
                let (step, run, l) =
                  locate_footer-IsLocated fuel (position - 4 * k) (stream_padding + 4 * k)
                    (omega arith) in
                (
                  step,
                  rw (locate_footer, long, whole, zero_byte) run,
                  moved_back position (position - 4 * k) stream_padding (4 * k) step (omega arith)
                      l,
                )
          ]
        ]
      ]

  behind :
      (position next stream_padding : ℕ) (step : Step Footer)
      → next + 4 ≤ position
      → IsLocated file lz.stream_header_size next stream_padding step
      → IsBefore position step
  unfolding IsLocated IsBefore
  behind position next stream_padding (leaves ret) h l = tt
  behind position next stream_padding (goes f) h (low, bytes, some_byte, sum) = omega arith

  -- When headers and footers have 12 bytes or more, a footer inside the file whose third byte is
  -- zero is never found: the search that starts at it goes on to a place 4 bytes or more in front
  -- of it, or to an error.
  pub locate_footer-zero_byte :
      (fuel position stream_padding : ℕ)
      → lz.stream_header_size ≤ position
      → position + lz.stream_header_size ≤ file.size
      → file.byte (position + 2) ≡ 0
      → position ≤ fuel
      → (step : Step Footer) × (locate_footer lz file (suc fuel) position stream_padding ≡ ok step)
        × IsBefore position step
  unfolding locate_footer
  locate_footer-zero_byte fuel position stream_padding low inside zero_byte enough =
      let h = lz.stream_header_size in
      let buffer = pread_file file h position in
      let k = zeros_back buffer in
      let (some_back, few_back) = zeros_back-bounds buffer in
      let read : buffer ≡ slice file.byte position h = inside_read file h position inside in
      let (step, run, l) =
        locate_footer-IsLocated fuel (position - 4 * k) (stream_padding + 4 * k) (omega arith) in
      (
        step,
        rw
            (
              locate_footer,
              le→not-ltb position h low,
              eq→== (length buffer) h (ap length read ∙ length-slice file.byte position h),
              eq→== (get_or buffer 2 0) 0 (
                  ap (λ b. get_or b 2 0) read
                  ∙ get_or-slice file.byte position h 2 0 (omega arith)
                  ∙ zero_byte),
            )
            run,
        behind position (position - 4 * k) (stream_padding + 4 * k) step (omega arith) l,
      )
