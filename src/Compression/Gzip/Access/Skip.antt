-- ===== src/Compression/Gzip/Access/Skip.antt =====
-- The outer loop of `_gzip_read`: the skip to the offset and the read behind it.
use spotlight.Base.{
  ℕ, zero, suc, ◌+◌, ◌-◌, ◌%◌, ◌^◌, ◌≡◌, ◌≤◌, ◌<◌, ◌⊎◌, ltb, ◌==◌, if◌then◌else◌, min, true, false,
  Bool-cases, inl, inr, List, arith, refl, ap, ◌∙◌,
}
use spotlight.Base.Result.{ok, ◌>>=◌}
use spotlight.Base.Bytes.{slice, slice_at}
use spotlight.Compression.File.{File, seek}
use spotlight.Compression.Gzip.{window_size}
use spotlight.Compression.Gzip.Zlib.{ZRet, z_ok, z_stream_end, Zlib, Inflates}
use spotlight.Compression.Gzip.Access.{Inflating, fill, skip_then_fill}
use spotlight.Compression.Gzip.Access.Fill.{IsAt, IsFilled, fill-slice}

module _ (z : Zlib) (file : File) (content : ℕ → ℕ) (total : ℕ)
    (zlib : Inflates z file content total) where
  filled_all :
      (ret : ZRet) (st : Inflating z.Stream) (out n room start : ℕ)
      → out ≡ start
      → n ≤ room
      → out + n ≤ total
      → IsFilled z file content total zlib ret st out n room
      → n ≡ min room (total - start)
  unfolding IsFilled
  filled_all ret st out n room start e few inside (inl (end, all, p, on)) = omega arith
  filled_all ret st out n room start e few inside (inr (good, all, at, s)) = omega arith

  filled_done :
      (ret : ZRet) (st : Inflating z.Stream) (out n room : ℕ)
      → IsFilled z file content total zlib ret st out n room
      → ((ret ≡ z_ok) ⊎ (ret ≡ z_stream_end)) × (p : ℕ) × (st.file ≡ seek file p)
  unfolding IsFilled
  filled_done ret st out n room (inl (end, all, p, on)) = (inr end, p, on)
  filled_done ret st out n room (inr (good, all, at, s)) = (inl good, at + s.left, s.file_there)

  zero_offset : (offset out : ℕ) → (offset == 0) ≡ true → out ≡ out + offset
  zero_offset offset out h = ground arith

  some_offset : (offset : ℕ) → (offset == 0) ≡ false → 0 < min window_size offset
  some_offset offset h = ground arith

  window : (n : ℕ) → (if ltb window_size n then window_size else n) ≡ min window_size n
  window n = ground arith

  below : (n : ℕ) → n < 2 ^ 32 → n % 2 ^ 32 ≡ n
  below n h = omega arith

  skip_goes_on :
      (windows turns : ℕ) (st : Inflating z.Stream) (offset count : ℕ) (discarded : List ℕ)
      (st' : Inflating z.Stream)
      → (offset == 0) ≡ false
      → fill z turns st (min window_size offset) ≡ ok (z_ok, discarded, st')
      → skip_then_fill z (suc windows) turns st offset count
        ≡ skip_then_fill z windows turns st' (offset - min window_size offset) count
  unfolding skip_then_fill
  skip_goes_on windows turns st offset count discarded st' further run =
      rw (skip_then_fill, further, window offset, run, ◌>>=◌)
        (ap (λ n. skip_then_fill z windows turns st' (offset - n) count) (window offset))

  pub skip_then_fill-slice :
      (windows turns : ℕ) (st : Inflating z.Stream) (at out offset count : ℕ)
      → IsAt z file content total zlib st at out
      → out ≤ total
      → offset < windows
      → file.size + total < turns
      → 0 < count
      → count < 2 ^ 32
      → (ret : ZRet) × (st' : Inflating z.Stream) × (skip_then_fill z windows turns st offset count
          ≡ ok (ret, slice content (out + offset) (min count (total - (out + offset))), st'))
        × ((ret ≡ z_ok) ⊎ (ret ≡ z_stream_end))
        × (p : ℕ) × (st'.file ≡ seek file p)
  unfolding skip_then_fill IsFilled slice
  skip_then_fill-slice zero turns st at out offset count s inside far enough some_byte fits =
      absurd (omega arith)
  skip_then_fill-slice (suc windows) turns st at out offset count s inside far enough some_byte
        fits =
      elim (Bool-cases (offset == 0)) [
        | inl here ↦
            let (ret, n, st', run, few, inside', filled) =
              fill-slice z file content total zlib turns st at out count s some_byte inside
                (omega arith) in
            let (done, p, on) = filled_done ret st' out n count filled in
            (
              ret,
              st',
              rw (skip_then_fill, here, below count fits, run) refl
                  ∙ ap (λ bytes. ok (ret, bytes, st'))
                      (slice_at content out (out + offset) n _ (zero_offset offset out here) (
                        filled_all ret st' out n count (out + offset) (zero_offset offset out here)
                          few inside' filled)),
              done,
              p,
              on,
            )
        | inr further ↦
            let n = min window_size offset in
            let (ret, m, st', run, few, inside', filled) =
              fill-slice z file content total zlib turns st at out n s (some_offset offset further)
                inside (omega arith) in
            elim filled [
              | inl (e, all, p, on) ↦ (
                z_stream_end,
                st',
                rw (skip_then_fill, further, window offset, run, e) refl
                    ∙ ap (λ k. ok (z_stream_end, slice content (out + offset) k, st')) {x = 0}
                        (omega arith),
                inr refl,
                p,
                on,
              )
              | inr (e, all, at', s') ↦
                  let (ret', st'', run', done, p, on) =
                    skip_then_fill-slice windows turns st' at' (out + m) (offset - n) count s'
                      inside' (omega (arith, some_offset offset further)) enough some_byte fits in
                  (
                    ret',
                    st'',
                    skip_goes_on windows turns st offset count (slice content out m) st' further
                          (run ∙ ap (λ r. ok (r, slice content out m, st')) e)
                        ∙ run'
                        ∙ ap (λ o. ok (ret', slice content o (min count (total - o)), st''))
                            {x = out + m + (offset - n)} (omega arith),
                    done,
                    p,
                    on,
                  )
            ]
      ]
