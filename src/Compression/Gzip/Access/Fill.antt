-- ===== src/Compression/Gzip/Access/Fill.antt =====
-- The inner loop of `_gzip_read` over a stream that zlib understands.
use spotlight.Base.{
  ℕ, zero, suc, ◌+◌, ◌-◌, ◌≡◌, ◌≤◌, ◌<◌, ◌⊎◌, ltb, ◌==◌, ◌&&◌, Bool, subst, min, true, false,
  Bool-cases, inl, inr, List, ◌++◌, length, drop, arith, refl, ap, ◌∙◌, ltb→lt, not-ltb→le,
}
use spotlight.Base.Result.{ok}
use spotlight.Base.Bytes.{slice, length-slice, drop-slice, slice-append}
use spotlight.Compression.File.{File, pread_file, fread, seek}
use spotlight.Compression.Gzip.{chunk}
use spotlight.Compression.Gzip.Zlib.{ZRet, is_z_ok, z_ok, z_stream_end, Zlib, Inflates}
use spotlight.Compression.Gzip.Access.{Inflating, refill_input, read_next_chunk, fill}

module _ (z : Zlib) (file : File) (content : ℕ → ℕ) (total : ℕ)
    (zlib : Inflates z file content total) where
  -- The stream goes on at a position of the file, the input left is what stands from there up to the
  -- position of the file, and so many bytes of the content are out.
  pub record IsAt (st : Inflating z.Stream) (at out : ℕ) : Type 0 where
    pub progress : zlib.Progress st.stream at out
    pub left : ℕ
    pub input : st.input ≡ slice file.byte at left
    pub inside : at + left ≤ file.size
    pub file_there : st.file ≡ seek file (at + left)

  pub not_zero : (n : ℕ) → 0 < n → (n == 0) ≡ false
  not_zero n h = ground arith

  refill_input-IsAt :
      (st : Inflating z.Stream) (at out : ℕ)
      → IsAt st at out
      → (st' : Inflating z.Stream) × (refill_input z st ≡ st')
        × (s : IsAt st' at out) × (0 < s.left)
  unfolding refill_input fread pread_file seek slice
  refill_input-IsAt st at out s = elim (Bool-cases (ltb 0 s.left)) [
    | inl some_left ↦
        let some_left' = ltb→lt 0 s.left some_left in
        (
          st,
          rw (refill_input, s.input, length-slice file.byte at s.left, not_zero s.left some_left')
              refl,
          s,
          some_left',
        )
    | inr none_left ↦
        let nothing : s.left ≡ 0 = omega (arith, not-ltb→le 0 s.left none_left) in
        let before = zlib.before_end st.stream at out s.progress in
        let n = min chunk (file.size - at) in
        let there : st.file ≡ seek file at =
          s.file_there ∙ ap (λ p. seek file p) (omega (arith, nothing)) in
        (
          record { stream = st.stream; file = seek file (at + n); input = slice file.byte at n },
          rw (refill_input, s.input, nothing, there, length-slice file.byte at n) refl,
          record {
            progress = s.progress;
            left = n;
            input = refl;
            inside = omega arith;
            file_there = refl;
          },
          omega arith,
        )
  ]

  -- How a call of zlib leaves the stream: at the end of the content, or further on.
  pub HasMoved : ZRet → Inflating z.Stream → ℕ → ℕ → ℕ → Type 0
  HasMoved ret st at out n =
      ((ret ≡ z_stream_end) × (out + n ≡ total) × (p : ℕ) × (st.file ≡ seek file p))
      ⊎ ((ret ≡ z_ok) × (at' : ℕ) × IsAt st at' (out + n) × (at + out < at' + (out + n)))

  read_next_chunk-slice :
      (st : Inflating z.Stream) (at out room : ℕ)
      → IsAt st at out
      → 0 < room
      → (ret : ZRet) × (n : ℕ) × (st' : Inflating z.Stream) × (read_next_chunk z st room
          ≡ (ret, slice content out n, st'))
        × (n ≤ room)
        × (out + n ≤ total)
        × HasMoved ret st' at out n
  unfolding read_next_chunk HasMoved
  read_next_chunk-slice st at out room s some_room =
      let (full, filled, s, some_left) = refill_input-IsAt st at out s in
      let c = z.inflate full.stream (slice file.byte at s.left) room in
      let (few, bytes, fits, inside, moved) =
        zlib.inflate_step full.stream at out s.left room s.progress some_left s.inside some_room in
      let n = length c.out in
      let st' : Inflating z.Stream = record {
        stream = c.stream;
        file = full.file;
        input = drop c.used full.input;
      } in
      (
        c.ret,
        n,
        st',
        rw
              (
                read_next_chunk,
                filled,
                s.input,
                length-slice file.byte at s.left,
                not_zero s.left some_left,
              )
              refl
            ∙ ap (λ o. (c.ret, o, st')) bytes,
        fits,
        inside,
        elim moved [
          | inl (e, all) ↦ inl (e, all, at + s.left, s.file_there)
          | inr (e, further, progress) ↦ inr (
            e,
            at + c.used,
            record {
              progress = progress;
              left = s.left - c.used;
              input = ap (drop c.used) s.input ∙ drop-slice file.byte at s.left c.used;
              inside = omega (arith, s.inside);
              file_there = s.file_there ∙ ap (λ p. seek file p) (omega arith);
            },
            omega arith,
          )
        ],
      )

  and_false : (b : Bool) → (b && false) ≡ false
  and_false true = refl
  and_false false = refl

  -- What filling the room leaves: the room is full, or the content is at its end.
  unfoldable pub IsFilled : ZRet → Inflating z.Stream → ℕ → ℕ → ℕ → Type 0
  IsFilled ret st out n room =
      ((ret ≡ z_stream_end) × (out + n ≡ total) × (p : ℕ) × (st.file ≡ seek file p))
      ⊎ ((ret ≡ z_ok) × (n ≡ room) × (at : ℕ) × IsAt st at (out + n))

  fill_stops :
      (turns room : ℕ) (st : Inflating z.Stream) (ret : ZRet) (out : List ℕ)
      (st' : Inflating z.Stream)
      → read_next_chunk z st room ≡ (ret, out, st')
      → (ltb 0 (room - length out) && is_z_ok ret) ≡ false
      → fill z (suc turns) st room ≡ ok (ret, out, st')
  unfolding fill
  fill_stops turns room st ret out st' run stops = rw (fill, run, stops, run) refl

  fill_goes_on :
      (turns room : ℕ) (st : Inflating z.Stream) (ret : ZRet) (out : List ℕ)
      (st' : Inflating z.Stream) (ret' : ZRet) (more : List ℕ) (st'' : Inflating z.Stream)
      → read_next_chunk z st room ≡ (ret, out, st')
      → (ltb 0 (room - length out) && is_z_ok ret) ≡ true
      → fill z turns st' (room - length out) ≡ ok (ret', more, st'')
      → fill z (suc turns) st room ≡ ok (ret', out ++ more, st'')
  unfolding fill
  fill_goes_on turns room st ret out st' ret' more st'' run goes_on rest =
      rw (fill, run, goes_on, run, rest) refl

  moved_to : (st : Inflating z.Stream) (at : ℕ) {m n : ℕ} → IsAt st at m → m ≡ n → IsAt st at n
  moved_to st at s e = subst (IsAt st at) e s

  -- With a turn for each byte of the file and of the content that is left, the loop ends.
  pub fill-slice :
      (turns : ℕ) (st : Inflating z.Stream) (at out room : ℕ)
      → IsAt st at out
      → 0 < room
      → out ≤ total
      → file.size + total < at + out + turns
      → (ret : ZRet) × (n : ℕ) × (st' : Inflating z.Stream) × (fill z turns st room
          ≡ ok (ret, slice content out n, st'))
        × (n ≤ room)
        × (out + n ≤ total)
        × IsFilled ret st' out n room
  unfolding fill HasMoved IsFilled
  fill-slice zero st at out room s some_room inside enough =
      absurd (omega (arith, zlib.before_end st.stream at out s.progress))
  fill-slice (suc turns) st at out room s some_room inside enough =
      let (ret, n, st', run, fits, inside', moved) =
        read_next_chunk-slice st at out room s some_room in
      elim moved [
        | inl (e, all, p, on) ↦ (
          ret,
          n,
          st',
          fill_stops turns room st ret _ st' run
              (ap (λ r. ltb 0 (room - length (slice content out n)) && is_z_ok r) e ∙ and_false _),
          fits,
          inside',
          inl (e, all, p, on),
        )
        | inr (e, at', s', further) ↦ elim (Bool-cases (ltb 0 (room - n))) [
          | inr full ↦ (
            ret,
            n,
            st',
            fill_stops turns room st ret _ st' run (rw (length-slice content out n, full) refl),
            fits,
            inside',
            inr (e, omega (arith, not-ltb→le 0 (room - n) full), at', s'),
          )
          | inl more_room ↦
              let (ret', m, st'', run', fits', inside'', filled) =
                fill-slice turns st' at' (out + n) (room - n) s' (ltb→lt 0 (room - n) more_room)
                  inside' (omega arith) in
              (
                ret',
                n + m,
                st'',
                fill_goes_on turns room st ret _ st' ret' _ st'' run
                      (rw (length-slice content out n, more_room, e) refl)
                      (ap (λ k. fill z turns st' (room - k)) (length-slice content out n) ∙ run')
                    ∙ ap (λ bytes. ok (ret', bytes, st''))
                        (slice-append content out n m (n + m) refl),
                omega arith,
                omega arith,
                elim filled [
                  | inl (e', all, p, on) ↦ inl (e', omega arith, p, on)
                  | inr (e', all, at'', s'') ↦
                      inr (e', omega arith, at'', moved_to st'' at'' s'' (omega arith))
                ],
              )
        ]
      ]
