-- ===== src/Compression/Xz/Read/Content.antt =====
-- What `xz_read` delivers from a file that liblzma understands.
use spotlight.Base.{
  ℕ, zero, suc, ◌+◌, ◌-◌, ◌^◌, ◌≡◌, ◌≤◌, ◌<◌, ltb, Bool-cases, inl, inr, [], ◌++◌, arith, refl, ap,
  ◌∙◌, ltb→lt, not-ltb→le,
}
use spotlight.Base.Int.{pos, ◌+ℤ◌}
use spotlight.Base.Result.{ok}
use spotlight.Base.Bytes.{slice, slice-append}
use spotlight.Compression.File.{File}
use spotlight.Compression.Xz.Lzma.{Lzma, IsXz}
use spotlight.Compression.Xz.Read.{XzReader, reader_error, xz_read_from, xz_read}
use spotlight.Compression.Xz.Read.Valid.{IsValid}
use spotlight.Compression.Xz.Read.Turn.{turn, block_of_offset-past_end}

module _ (lz : Lzma) (file : File) (index : lz.Index) (content : ℕ → ℕ) (total : ℕ)
    (small : file.size < 2 ^ 63) (narrow : total < 2 ^ 63)
    (xz : IsXz lz file index content total) where
  xz_read_from-content :
      (fuel : ℕ) (r : XzReader) (offset count : ℕ)
      → IsValid content total r
      → offset < total
      → offset + count ≤ total
      → count < fuel
      → (r' : XzReader) × (xz_read_from lz file index fuel r offset count
          ≡ ok (pos count, slice content offset count, r'))
        × IsValid content total r'
  xz_read_from-content zero r offset count v inside fits enough = absurd (omega arith)
  xz_read_from-content (suc fuel) r offset count v inside fits enough =
      let t = turn lz file index content total small narrow xz fuel r offset count v inside in
      elim (Bool-cases (ltb t.n count)) [
        | inr all ↦
            let e : t.n ≡ count = omega (arith, not-ltb→le t.n count all, t.enough) in
            (t.r', t.last e ∙ ap (λ k. ok (pos k, slice content offset k, t.r')) e, t.valid)
        | inl part ↦
            let lt = ltb→lt t.n count part in
            let (r', done, v') =
              xz_read_from-content fuel t.r' (offset + t.n) (count - t.n) t.valid (omega arith)
                (omega arith) (omega (arith, t.some_byte (omega arith))) in
            let sum : t.n + (count - t.n) ≡ count = omega arith in
            (
              r',
              t.more lt (pos (count - t.n)) _ r' done
                  ∙ ap
                      (λ k. ok (
                        pos k,
                        slice content offset t.n ++ slice content (offset + t.n) (count - t.n),
                        r',
                      ))
                      sum
                  ∙ ap (λ bytes. ok (pos count, bytes, r'))
                      (slice-append content offset t.n (count - t.n) count sum),
              v',
            )
      ]

  xz_read_from-error :
      (fuel : ℕ) (r : XzReader) (offset count : ℕ)
      → IsValid content total r
      → total ≤ offset
      → 0 < fuel
      → (r' : XzReader) × (xz_read_from lz file index fuel r offset count
          ≡ ok (reader_error, [], r'))
        × IsValid content total r'
  unfolding xz_read_from
  xz_read_from-error zero r offset count v past enough = absurd (omega arith)
  xz_read_from-error (suc fuel) r offset count v past enough =
      let (r', none_there, v') =
        block_of_offset-past_end lz file index content total small narrow xz r offset v past in
      (r', rw none_there refl, v')

  pos-error : (n : ℕ) → 0 < n → pos n +ℤ reader_error ≡ pos (n - 1)
  pos-error n h = ground arith

  xz_read_from-past_end :
      (fuel : ℕ) (r : XzReader) (offset count : ℕ)
      → IsValid content total r
      → offset < total
      → total < offset + count
      → count < fuel
      → (r' : XzReader) × (xz_read_from lz file index fuel r offset count
          ≡ ok (pos (total - offset - 1), slice content offset (total - offset), r'))
        × IsValid content total r'
  unfolding slice
  xz_read_from-past_end zero r offset count v inside past enough = absurd (omega arith)
  xz_read_from-past_end (suc fuel) r offset count v inside past enough =
      let t = turn lz file index content total small narrow xz fuel r offset count v inside in
      let lt : t.n < count = omega (arith, t.inside) in
      elim (Bool-cases (ltb (offset + t.n) total)) [
        | inl before ↦
            let before' = ltb→lt (offset + t.n) total before in
            let left = total - (offset + t.n) in
            let (r', done, v') =
              xz_read_from-past_end fuel t.r' (offset + t.n) (count - t.n) t.valid before'
                (omega arith) (omega (arith, t.some_byte (omega arith))) in
            let sum : t.n + left ≡ total - offset = omega arith in
            let sum' : t.n + (left - 1) ≡ total - offset - 1 = omega arith in
            (
              r',
              t.more lt (pos (left - 1)) (slice content (offset + t.n) left) r' done
                  ∙ ap
                      (λ k.
                        ok (
                          pos k,
                          slice content offset t.n ++ slice content (offset + t.n) left,
                          r',
                        ))
                      sum'
                  ∙ ap (λ bytes. ok (pos (total - offset - 1), bytes, r'))
                      (slice-append content offset t.n left (total - offset) sum),
              v',
            )
        | inr end ↦
            let all : t.n ≡ total - offset =
              omega (arith, not-ltb→le (offset + t.n) total end, t.inside) in
            let (r', done, v') =
              xz_read_from-error fuel t.r' (offset + t.n) (count - t.n) t.valid
                (not-ltb→le (offset + t.n) total end) (omega (arith, t.some_byte (omega arith))) in
            (
              r',
              t.more lt reader_error [] r' done
                  ∙ ap (λ z. ok (z, slice content offset t.n ++ [], r'))
                      (pos-error t.n (t.some_byte (omega arith)))
                  ∙ ap (λ bytes. ok (pos (t.n - 1), bytes, r'))
                      (slice-append content offset t.n 0 t.n (omega arith))
                  ∙ ap (λ k. ok (pos (k - 1), slice content offset k, r')) all,
              v',
            )
      ]

  -- On a file below 2^63 bytes that liblzma understands, whose blocks hold a content below 2^63
  -- bytes, and with a valid reader (its cache is a well-formed list of at most 32 blocks of the
  -- content), a read inside the content that starts in front of its end ends, returns the number
  -- of bytes asked for, delivers the content there, and leaves a valid reader.
  pub xz_read-content :
      (r : XzReader) (offset count : ℕ)
      → IsValid content total r
      → offset < total
      → offset + count ≤ total
      → (r' : XzReader) × (xz_read lz file index r offset count
          ≡ ok (pos count, slice content offset count, r'))
        × IsValid content total r'
  unfolding xz_read
  xz_read-content r offset count v inside fits =
      xz_read_from-content (count + 1) r offset count v inside fits (omega arith)

  -- On a file of less than 2^63 bytes that liblzma understands, with a content of less than 2^63
  -- bytes, and with a valid reader, a read that starts inside the content and asks for more than
  -- it holds from there delivers the bytes up to the end of the content, but returns one less than
  -- their number; it leaves a valid reader.
  pub xz_read-past_end :
      (r : XzReader) (offset count : ℕ)
      → IsValid content total r
      → offset < total
      → total < offset + count
      → (r' : XzReader) × (xz_read lz file index r offset count
          ≡ ok (pos (total - offset - 1), slice content offset (total - offset), r'))
        × IsValid content total r'
  unfolding xz_read
  xz_read-past_end r offset count v inside past =
      xz_read_from-past_end (count + 1) r offset count v inside past (omega arith)

  -- On a file of less than 2^63 bytes that liblzma understands, with a content of less than 2^63
  -- bytes, and with a valid reader, a read that starts at or behind the end of the content returns
  -- READER_ERROR, writes nothing, and leaves a valid reader.
  pub xz_read-error :
      (r : XzReader) (offset count : ℕ)
      → IsValid content total r
      → total ≤ offset
      → (r' : XzReader) × (xz_read lz file index r offset count ≡ ok (reader_error, [], r'))
        × IsValid content total r'
  unfolding xz_read
  xz_read-error r offset count v past =
      xz_read_from-error (count + 1) r offset count v past (omega arith)
