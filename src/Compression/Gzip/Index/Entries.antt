-- ===== src/Compression/Gzip/Index/Entries.antt =====
-- gzip_reader.c: the order that building the index keeps among its entries.
use spotlight.Base.{
  ℕ, zero, suc, ◌+◌, ◌-◌, ◌%◌, ◌^◌, ◌≡◌, ◌≤◌, ◌⊎◌, ltb, ◌==◌, if◌then◌else◌, Bool, true, false,
  Bool-cases, Option-cases, inl, inr, List, length, drop, arith, refl,
}
use spotlight.Base.Result.{◌>>=◌, Result, ok, err, fault, out_of_fuel}
use spotlight.Compression.Gzip.{
  AccessPoint, GzipReader, create_access_point_entry, last_access_point, span, window_size, chunk,
  gzip_window_bits, raw_inflate_bits,
}
use spotlight.Compression.File.{fread}
use spotlight.Compression.Gzip.Zlib.{ZRet, is_z_ok, z_ok, Zlib}
use spotlight.Compression.Gzip.Index.{
  Indexing, Outcome, failed, ended, goes_on, outcome, ends_block, is_due, after_inflate,
  add_access_point, chunk_loop, index_next_chunk, build_loop, resume, build_index,
  check_and_build_index,
}
use spotlight.Compression.Gzip.Index.Spacing.{
  IsIndex, IsBehind, IsReached, IsJust, further-IsReached, append-IsReached, append-IsIndex,
  is_due-IsJust,
}

Outcome-cases : (o : Outcome) → (o ≡ failed) ⊎ ((o ≡ ended) ⊎ (o ≡ goes_on))
Outcome-cases failed = inl refl
Outcome-cases ended = inr (inl refl)
Outcome-cases goes_on = inr (inr refl)

same_le : (n : ℕ) → n ≤ n
same_le n = omega arith

module _ (z : Zlib) where
  -- An index in order, and the counter not in front of its last entry.
  InStep : Indexing z.Stream → Type 0
  InStep st =
      IsIndex st.reader.list × IsReached (last_access_point st.reader.list) st.raw_byte_counter

  -- A result whose index is in order.
  Keeps : Result (ZRet × Indexing z.Stream) → Type 0
  Keeps (ok (ret, st)) = InStep st
  Keeps (err e) = Unit
  Keeps fault = Unit
  Keeps out_of_fuel = Unit

  bind_due :
      (r : Result Bool) (list : List AccessPoint) (raw : ℕ)
      (f : Bool → Result (ZRet × Indexing z.Stream))
      → IsJust r list raw
      → (IsBehind (last_access_point list) raw → Keeps (f true))
      → Keeps (f false)
      → Keeps (r >>= f)
  unfolding IsJust Keeps
  bind_due (ok true) list raw f just t e = t just
  bind_due (ok false) list raw f just t e = e
  bind_due (err e') list raw f just t e = tt
  bind_due fault list raw f just t e = tt
  bind_due out_of_fuel list raw f just t e = tt

  chunk_loop-IsIndex :
      (turns max_byte_address : ℕ) (st : Indexing z.Stream) (input : List ℕ) (avail_out : ℕ)
      → InStep st
      → Keeps (chunk_loop z turns max_byte_address st input avail_out)
  unfolding chunk_loop Keeps InStep after_inflate add_access_point create_access_point_entry
  chunk_loop-IsIndex zero max_byte_address st input avail_out i = tt
  chunk_loop-IsIndex (suc turns) max_byte_address st input avail_out i =
      let room = if avail_out == 0 then window_size else avail_out in
      let c = z.inflate_block st.stream input room in
      let st' = after_inflate z st room c in
      let j : InStep st' = (
        i.0,
        further-IsReached (last_access_point st.reader.list) st.raw_byte_counter (length c.out) i.1,
      ) in
      let rest : (st : Indexing z.Stream)
          → InStep st
          → Keeps (elim (length (drop c.used input) == 0) [
            | true ↦ ok (z_ok, st)
            | false ↦
                chunk_loop z turns max_byte_address st (drop c.used input) (room - length c.out)
          ]) =
        λ st i. elim (Bool-cases (length (drop c.used input) == 0)) [
          | inl e ↦ rw e i
          | inr e ↦ rw e (
              chunk_loop-IsIndex turns max_byte_address st (drop c.used input) (room - length c.out)
                i)
        ] in
      elim (Outcome-cases (outcome c.ret)) [
        | inl e ↦ rw (chunk_loop, e) j
        | inr (inl e) ↦ rw (chunk_loop, e) j
        | inr (inr e) ↦ elim (Bool-cases (ends_block c.data_type)) [
          | inr inside ↦ rw (chunk_loop, e, inside) (rest st' j)
          | inl boundary ↦
              rw (chunk_loop, e, boundary)
                (bind_due (is_due st'.reader.list st'.raw_byte_counter) st'.reader.list
                  st'.raw_byte_counter _ (is_due-IsJust st'.reader.list st'.raw_byte_counter j.1)
                  (λ due.
                    let added = add_access_point z st' c.data_type (room - length c.out) in
                    let p =
                      create_access_point_entry st'.raw_byte_counter st'.compressed_byte_counter
                        (c.data_type % 2 ^ 3) (room - length c.out) st'.context in
                    let i' : InStep added = (
                      append-IsIndex st'.reader.list p j.0 due,
                      append-IsReached st'.reader.list p,
                    ) in
                    elim (Bool-cases (ltb max_byte_address (st'.raw_byte_counter + span))) [
                      | inl e ↦ rw e i'
                      | inr e ↦ rw e (rest added i')
                    ])
                  (rest st' j))
        ]
      ]

  index_next_chunk-IsIndex :
      (turns max_byte_address : ℕ) (st : Indexing z.Stream)
      → InStep st
      → Keeps (index_next_chunk z turns max_byte_address st)
  unfolding index_next_chunk Keeps InStep
  index_next_chunk-IsIndex turns max_byte_address st i =
      let (input, file) = fread st.reader.gzip_file chunk in
      let st' = record st { reader = record (st.reader) { gzip_file = file } } in
      elim (Bool-cases (length input == 0)) [
        | inl e ↦ rw (index_next_chunk, e) i
        | inr e ↦ rw (index_next_chunk, e) (chunk_loop-IsIndex turns max_byte_address st' input 0 i)
      ]

  bind_chunk :
      (r : Result (ZRet × Indexing z.Stream))
      (f : ZRet × Indexing z.Stream → Result (ZRet × Indexing z.Stream))
      → Keeps r
      → ((ret : ZRet) (st : Indexing z.Stream) → InStep st → Keeps (f (ret, st)))
      → Keeps (r >>= f)
  unfolding Keeps
  bind_chunk (ok (ret, st)) f i k = k ret st i
  bind_chunk (err e) f i k = tt
  bind_chunk fault f i k = tt
  bind_chunk out_of_fuel f i k = tt

  build_loop-IsIndex :
      (chunks turns max_byte_address : ℕ) (ret : ZRet) (st : Indexing z.Stream)
      → InStep st
      → Keeps (build_loop z chunks turns max_byte_address ret st)
  unfolding build_loop Keeps
  build_loop-IsIndex zero turns max_byte_address ret st i = tt
  build_loop-IsIndex (suc chunks) turns max_byte_address ret st i =
      elim (Bool-cases (is_z_ok ret)) [
        | inr e ↦ rw (build_loop, e) i
        | inl e ↦
            rw (build_loop, e)
              (bind_chunk (index_next_chunk z turns max_byte_address st) _
                (index_next_chunk-IsIndex turns max_byte_address st i)
                λ ret st i. elim (Bool-cases (ltb max_byte_address (st.raw_byte_counter + span))) [
                  | inl far ↦ rw far i
                  | inr near ↦ rw near (build_loop-IsIndex chunks turns max_byte_address ret st i)
                ])
      ]

  -- A reader whose index is in order.
  unfoldable pub KeepsReader : Result (ZRet × GzipReader) → Type 0
  KeepsReader (ok (ret, reader)) = IsIndex reader.list
  KeepsReader (err e) = Unit
  KeepsReader fault = Unit
  KeepsReader out_of_fuel = Unit

  bind_reader :
      (r : Result (ZRet × Indexing z.Stream))
      → Keeps r
      → KeepsReader (r >>= λ (ret, st). ok (ret, st.reader))
  unfolding Keeps KeepsReader InStep
  bind_reader (ok (ret, st)) i = i.0
  bind_reader (err e) i = tt
  bind_reader fault i = tt
  bind_reader out_of_fuel i = tt

  build_index-IsIndex :
      (turns : ℕ) (stack : List ℕ) (reader : GzipReader) (max_byte_address : ℕ)
      → IsIndex reader.list
      → KeepsReader (build_index z turns stack reader max_byte_address)
  unfolding build_index KeepsReader InStep IsReached
  build_index-IsIndex turns stack reader max_byte_address i =
      elim (Option-cases (last_access_point reader.list)) [
        | inl e ↦
            let (ret, stream) = z.inflate_init gzip_window_bits in
            rw (build_index, e)
              (bind_reader _ (build_loop-IsIndex turns turns max_byte_address ret _ (i, rw e tt)))
        | inr (d, e) ↦
            let (ret, stream) = z.inflate_init raw_inflate_bits in
            elim (Option-cases (resume z stream reader.gzip_file d)) [
              | inl out ↦ rw (build_index, e, out) i
              | inr ((stream, file), there) ↦
                  rw (build_index, e, there)
                    (bind_reader _ (
                      build_loop-IsIndex turns turns max_byte_address ret _
                        (i, rw e (same_le d.raw_byte_address))))
            ]
      ]

  -- Building the index keeps its order whenever it returns, whatever zlib does: the first access
  -- point stands at the start of the stream, and each later one more than the span behind the one
  -- in front of it, unless both of them stand at the start.
  pub check_and_build_index-IsIndex :
      (turns : ℕ) (stack : List ℕ) (reader : GzipReader) (max_byte_address : ℕ)
      → IsIndex reader.list
      → KeepsReader (check_and_build_index z turns stack reader max_byte_address)
  unfolding check_and_build_index KeepsReader
  check_and_build_index-IsIndex turns stack reader max_byte_address i =
      elim (Option-cases (last_access_point reader.list)) [
        | inl e ↦
            rw (check_and_build_index, e)
              (build_index-IsIndex turns stack reader max_byte_address i)
        | inr (d, e) ↦ elim (Bool-cases (ltb max_byte_address (d.raw_byte_address + span))) [
          | inl far ↦ rw (check_and_build_index, e, far) i
          | inr near ↦
              rw (check_and_build_index, e, near)
                (build_index-IsIndex turns stack reader max_byte_address i)
        ]
      ]
