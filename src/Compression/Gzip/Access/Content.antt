-- ===== src/Compression/Gzip/Access/Content.antt =====
-- What `_gzip_read` and `gzip_read` deliver from a gzip file with an index of access points.
use spotlight.Base.{
  ℕ, suc, ◌+◌, ◌-◌, ◌/◌, ◌^◌, ◌≡◌, ◌≤◌, ◌<◌, ◌⊎◌, ltb, ◌==◌, if◌then◌else◌, min, true, Bool-cases,
  inl, inr, some, List, [], ◌∷◌, arith, refl, ap, le→leb, lt→ltb, ltb→lt,
}
use spotlight.Base.Int.{pos, to_int}
use spotlight.Base.Result.{ok, ◌>>=◌}
use spotlight.Base.Bytes.{slice}
use spotlight.Compression.File.{File, getc, seek}
use spotlight.Compression.Gzip.{AccessPoint, last_access_point, span, raw_inflate_bits}
use spotlight.Compression.Gzip.Zlib.{ZRet, z_ok, z_stream_end, Zlib, Inflates}
use spotlight.Compression.Gzip.Index.{resume, check_and_build_index}
use spotlight.Compression.Gzip.Access.{
  Inflating, find_access_point, is_done, gzip_read_indexed, gzip_read,
}
use spotlight.Compression.Gzip.Access.Fill.{not_zero}
use spotlight.Compression.Gzip.Access.Skip.{skip_then_fill-slice}

module _ (z : Zlib) (file : File) (content : ℕ → ℕ) (total : ℕ)
    (zlib : Inflates z file content total) where
  -- The stream that is set up at an access point.
  pub stream_at : z.Stream → AccessPoint → z.Stream
  stream_at stream e =
      z.inflate_set_dictionary
        (if e.bits == 0
          then stream
          else z.inflate_prime stream e.bits
              (file.byte (e.compressed_byte_address - 1) / 2 ^ (8 - e.bits)))
        e.context

  -- An access point that zlib can go on from.
  pub record IsPoint (stream : z.Stream) (e : AccessPoint) : Type 0 where
    pub behind_header : 0 < e.compressed_byte_address
    pub inside : e.raw_byte_address ≤ total
    pub progress : zlib.Progress (stream_at stream e) e.compressed_byte_address e.raw_byte_address

  unfoldable pub ArePoints : z.Stream → List AccessPoint → Type 0
  ArePoints stream [] = Unit
  ArePoints stream (e ∷ list) = IsPoint stream e × ArePoints stream list

  getc_at :
      (at next : ℕ)
      → next < file.size
      → getc (seek (seek file at) next) ≡ (some (file.byte next), seek file (suc next))
  unfolding getc seek
  getc_at at next h = rw (getc, lt→ltb next file.size h) refl

  resume-stream_at :
      (stream : z.Stream) (e : AccessPoint) (at : ℕ)
      → IsPoint stream e
      → resume z stream (seek file at) e
        ≡ some (stream_at stream e, seek file e.compressed_byte_address)
  unfolding resume seek stream_at
  resume-stream_at stream e at p =
      let before =
        zlib.before_end (stream_at stream e) e.compressed_byte_address e.raw_byte_address
          p.progress in
      let getc_there =
        getc_at at (e.compressed_byte_address - 1) (omega (arith, p.behind_header)) in
      let whole : suc (e.compressed_byte_address - 1) ≡ e.compressed_byte_address =
        omega (arith, p.behind_header) in
      elim (Bool-cases (e.bits == 0)) [
        | inl aligned ↦ rw (resume, aligned, stream_at) refl
        | inr split ↦
            rw (resume, split, getc_there, getc_there, stream_at)
              (ap
                (λ c. some (
                  z.inflate_set_dictionary
                      (z.inflate_prime stream e.bits
                        (file.byte (e.compressed_byte_address - 1) / 2 ^ (8 - e.bits)))
                      e.context,
                  seek file c,
                ))
                whole)
      ]

  -- The search ends at an entry of the index that does not stand behind the offset.
  find_access_point-IsPoint :
      (stream : z.Stream) (first : AccessPoint) (list : List AccessPoint) (offset : ℕ)
      → ArePoints stream (first ∷ list)
      → first.raw_byte_address ≤ offset
      → IsPoint stream (find_access_point first list offset)
        × ((find_access_point first list offset).raw_byte_address ≤ offset)
  unfolding find_access_point ArePoints
  find_access_point-IsPoint stream first [] offset (p, ps) h = (p, h)
  find_access_point-IsPoint stream first (next ∷ list) offset (p, ps) h =
      elim (Bool-cases (ltb next.raw_byte_address offset)) [
        | inl before ↦
            let before' = ltb→lt next.raw_byte_address offset before in
            rw before (find_access_point-IsPoint stream next list offset ps (omega arith))
        | inr behind ↦ rw behind (p, h)
      ]

  -- The read starts at a valid point, and the skip is the distance from it.
  pub gzip_read_indexed-content :
      (stream : z.Stream) (turns at : ℕ) (first : AccessPoint) (list : List AccessPoint)
      (offset count : ℕ)
      → z.inflate_init raw_inflate_bits ≡ (z_ok, stream)
      → ArePoints stream (first ∷ list)
      → first.raw_byte_address ≤ offset
      → file.size + total < turns
      → 0 < count
      → count < 2 ^ 32
      → (ret : ZRet) × (p : ℕ) × (gzip_read_indexed z turns
            (record { gzip_file = seek file at; list = first ∷ list })
            offset
            count
          ≡ ok (
            ret,
            slice content offset (min count (total - offset)),
            record { gzip_file = seek file p; list = first ∷ list },
          ))
        × ((ret ≡ z_ok) ⊎ (ret ≡ z_stream_end))
  unfolding gzip_read_indexed seek slice
  gzip_read_indexed-content stream turns at first list offset count init points start enough
        some_byte fits =
      let e = find_access_point first list offset in
      let (point, low) = find_access_point-IsPoint stream first list offset points start in
      let before =
        zlib.before_end (stream_at stream e) e.compressed_byte_address e.raw_byte_address
          point.progress in
      let inflating : Inflating z.Stream = record {
        stream = stream_at stream e;
        file = seek file e.compressed_byte_address;
        input = [];
      } in
      let (ret, st', run, done, p, there) =
        skip_then_fill-slice z file content total zlib (offset + 1) turns inflating
          e.compressed_byte_address e.raw_byte_address (offset - e.raw_byte_address) count
          (record {
            progress = point.progress;
            left = 0;
            input = refl;
            inside = omega (arith, before);
            file_there = ap (λ c. seek file c) (omega arith);
          })
          point.inside (omega arith) enough some_byte fits in
      (
        ret,
        p,
        rw
            (
              gzip_read_indexed,
              not_zero z file content total zlib count some_byte,
              init,
              init,
              resume-stream_at stream e at point,
              le→leb e.raw_byte_address offset low,
              run,
              there,
            )
            (ap
              (λ o. ok (
                ret,
                slice content o (min count (total - o)),
                record { gzip_file = seek file p; list = first ∷ list },
              ))
              {x = e.raw_byte_address + (offset - e.raw_byte_address)} (omega arith)),
        done,
      )

  done-is_done : (ret : ZRet) → (ret ≡ z_ok) ⊎ (ret ≡ z_stream_end) → is_done ret ≡ true
  done-is_done ret (inl e) = rw e refl
  done-is_done ret (inr e) = rw e refl

  to_int-pos : (n : ℕ) → n < 2 ^ 31 → to_int n ≡ pos n
  unfolding to_int
  to_int-pos n h = ground arith

  -- On a gzip file that zlib understands, with a list of access points from each of which zlib can
  -- go on, the first not behind the offset and the last less than the span in front of the end of
  -- the read, a read of 1 to 2^31 - 1 bytes returns the length asked for, and the buffer gets the
  -- content from the offset on, up to the end of the content and no more; the list stays. Turns
  -- for each byte of the file and of the content are enough.
  pub gzip_read-content :
      (stream : z.Stream) (turns at : ℕ) (stack : List ℕ) (first : AccessPoint)
      (list : List AccessPoint) (last : AccessPoint) (offset count : ℕ)
      → z.inflate_init raw_inflate_bits ≡ (z_ok, stream)
      → ArePoints stream (first ∷ list)
      → first.raw_byte_address ≤ offset
      → last_access_point (first ∷ list) ≡ some last
      → offset + count < last.raw_byte_address + span
      → file.size + total < turns
      → 0 < count
      → count < 2 ^ 31
      → (p : ℕ) × (gzip_read z turns stack
            (record { gzip_file = seek file at; list = first ∷ list })
            offset
            count
          ≡ ok (
            pos count,
            slice content offset (min count (total - offset)),
            record { gzip_file = seek file p; list = first ∷ list },
          ))
  unfolding gzip_read check_and_build_index
  gzip_read-content stream turns at stack first list last offset count init points start final built
        enough some_byte fits =
      let (ret, p, run, done) =
        gzip_read_indexed-content stream turns at first list offset count init points start enough
          some_byte (omega arith) in
      (
        p,
        rw
            (
              gzip_read,
              check_and_build_index,
              final,
              lt→ltb (offset + count) (last.raw_byte_address + span) built,
              ◌>>=◌,
              run,
              ◌>>=◌,
              done-is_done ret done,
              to_int-pos count fits,
            )
            refl,
      )
