-- ===== src/Compression/Gzip/Index.antt =====
-- gzip_reader.c: building the index of access points.
pub mod Spacing
pub mod Entries
pub mod Window
use spotlight.Base.{
  ℕ, zero, suc, ◌+◌, ◌-◌, ◌/◌, ◌%◌, ◌^◌, ltb, ◌==◌, ◌&&◌, if◌then◌else◌, Bool, true, false, Option,
  none, some, List, [], ◌∷◌, ◌++◌, length, take, drop,
}
use spotlight.Base.Int.{ℤ}
use spotlight.Base.Result.{Result, ok, fault, out_of_fuel, ◌>>=◌, ◌>>◌, check, deref}
use spotlight.Compression.File.{File, fread, getc, seek}
use spotlight.Compression.Gzip.{
  AccessPoint, GzipReader, create_access_point_entry, append_access_point_list, last_access_point,
  span, window_size, chunk, gzip_window_bits, raw_inflate_bits,
}
use spotlight.Compression.Gzip.Zlib.{
  ZRet, z_ok, z_stream_end, z_need_dict, z_errno, z_data_error, z_mem_error, z_other, is_z_ok,
  Inflated, Zlib,
}

-- What the loops over chunks change: the stream, the window, the two counters and the reader.
pub record Indexing (Stream : Type 0) : Type 0 where
  pub stream : Stream
  pub context : List ℕ
  pub raw_byte_counter : ℕ
  pub compressed_byte_counter : ℕ
  pub reader : GzipReader

-- A buffer after a write at a position.
unfoldable pub overwrite : List ℕ → ℕ → List ℕ → List ℕ
overwrite buffer at bytes = take at buffer ++ (bytes ++ drop (at + length bytes) buffer)

-- How a turn of the loop in `index_next_chunk` goes on behind `inflate`: it returns an error, or
-- leaves the loop at the end of the stream.
pub data Outcome : Type 0 where
  failed : Outcome
  ended : Outcome
  goes_on : Outcome

abbrev pub outcome : ZRet → Outcome
outcome z_ok = goes_on
outcome z_stream_end = ended
outcome z_need_dict = failed
outcome z_errno = goes_on
outcome z_data_error = failed
outcome z_mem_error = failed
outcome (z_other n) = goes_on

-- The end of a deflate block that is not the last one, by the bits 128 and 64 of `data_type`.
abbrev pub ends_block : ℕ → Bool
ends_block data_type = (data_type / 2 ^ 7 % 2 == 1) && (data_type / 2 ^ 6 % 2 == 0)

-- Whether an access point is due; an empty list is only asked for its last entry behind the start.
unfoldable pub is_due : List AccessPoint → ℕ → Result Bool
is_due list raw_byte_counter = if raw_byte_counter == 0 then ok true else do
  last ← deref (last_access_point list)
  ok (ltb (last.raw_byte_address + span) raw_byte_counter)

module _ (z : Zlib) where
  -- One turn of the loop: the counters and the window behind `inflate`.
  unfoldable pub after_inflate : Indexing z.Stream → ℕ → Inflated z.Stream → Indexing z.Stream
  after_inflate st avail_out c = record st {
    stream = c.stream;
    context = overwrite st.context (window_size - avail_out) c.out;
    raw_byte_counter = st.raw_byte_counter + length c.out;
    compressed_byte_counter = st.compressed_byte_counter + c.used;
  }

  unfoldable pub add_access_point : Indexing z.Stream → ℕ → ℕ → Indexing z.Stream
  add_access_point st data_type avail_out = record st {
    reader = record (st.reader) {
      list = append_access_point_list st.reader.list (
          create_access_point_entry st.raw_byte_counter st.compressed_byte_counter
            (data_type % 2 ^ 3) avail_out st.context);
    };
  }

  -- The loop of `index_next_chunk` over the input that is left. What `inflate` puts out for an input
  -- has no bound that the code knows, so the turns are given.
  unfoldable pub chunk_loop :
      ℕ → ℕ → Indexing z.Stream → List ℕ → ℕ → Result (ZRet × Indexing z.Stream)
  chunk_loop zero max_byte_address st input avail_out = out_of_fuel
  chunk_loop (suc turns) max_byte_address st input avail_out =
      let avail_out = if avail_out == 0 then window_size else avail_out in
      let c = z.inflate_block st.stream input avail_out in
      let st = after_inflate st avail_out c in
      let input = drop c.used input in
      let avail_out = avail_out - length c.out in
      let rest : Indexing z.Stream → Result (ZRet × Indexing z.Stream) = λ st.
        elim (length input == 0) [
          | true ↦ ok (z_ok, st)
          | false ↦ chunk_loop turns max_byte_address st input avail_out
        ] in
      elim (outcome c.ret) [
        | failed ↦ ok (c.ret, st)
        | ended ↦ ok (z_ok, st)
        | goes_on ↦ elim (ends_block c.data_type) [
          | false ↦ rest st
          | true ↦ do
            due ← is_due st.reader.list st.raw_byte_counter
            elim due [
              | false ↦ rest st
              | true ↦
                  let added = add_access_point st c.data_type avail_out in
                  elim (ltb max_byte_address (st.raw_byte_counter + span)) [
                    | true ↦ ok (z_ok, added)
                    | false ↦ rest added
                  ]
            ]
        ]
      ]

  -- `index_next_chunk`
  unfoldable pub index_next_chunk : ℕ → ℕ → Indexing z.Stream → Result (ZRet × Indexing z.Stream)
  index_next_chunk turns max_byte_address st =
      let (input, file) = fread st.reader.gzip_file chunk in
      let st = record st { reader = record (st.reader) { gzip_file = file } } in
      if length input == 0
      then ok (z_data_error, st)
      else chunk_loop turns max_byte_address st input 0

  -- The loop of `build_index`.
  unfoldable pub build_loop :
      ℕ → ℕ → ℕ → ZRet → Indexing z.Stream → Result (ZRet × Indexing z.Stream)
  build_loop zero turns max_byte_address ret st = out_of_fuel
  build_loop (suc chunks) turns max_byte_address ret st = elim (is_z_ok ret) [
    | false ↦ ok (ret, st)
    | true ↦ do
      (ret, st) ← index_next_chunk turns max_byte_address st
      elim (ltb max_byte_address (st.raw_byte_counter + span)) [
        | true ↦ ok (ret, st)
        | false ↦ build_loop chunks turns max_byte_address ret st
      ]
  ]

  -- The stream and the file at an access point; none if the file ends in front of it.
  unfoldable pub resume : z.Stream → File → AccessPoint → Option (z.Stream × File)
  resume stream file e =
      if e.bits == 0
      then some (z.inflate_set_dictionary stream e.context, seek file e.compressed_byte_address)
      else (let (next_char, file) = getc (seek file (e.compressed_byte_address - 1)) in
          elim next_char [
            | none ↦ none
            | some c ↦ some (
              z.inflate_set_dictionary (z.inflate_prime stream e.bits (c / 2 ^ (8 - e.bits)))
                  e.context,
              file,
            )
          ])

  -- `build_index`; `stack` is what its window holds before anything is written to it.
  unfoldable pub build_index : ℕ → List ℕ → GzipReader → ℕ → Result (ZRet × GzipReader)
  build_index turns stack reader max_byte_address = elim (last_access_point reader.list) [
    | none ↦
        let (ret, stream) = z.inflate_init gzip_window_bits in
        do
          (ret, st) ← build_loop turns turns max_byte_address ret (record {
            stream = stream;
            context = stack;
            raw_byte_counter = 0;
            compressed_byte_counter = 0;
            reader = reader;
          })
          ok (ret, st.reader)
    | some e ↦
        let (ret, stream) = z.inflate_init raw_inflate_bits in
        elim (resume stream reader.gzip_file e) [
          | none ↦ ok (z_data_error, reader)
          | some (stream, file) ↦ do
            (ret, st) ← build_loop turns turns max_byte_address ret (record {
              stream = stream;
              context = stack;
              raw_byte_counter = e.raw_byte_address;
              compressed_byte_counter = e.compressed_byte_address;
              reader = record reader { gzip_file = file };
            })
            ok (ret, st.reader)
        ]
  ]

  -- `check_and_build_index`
  unfoldable pub check_and_build_index : ℕ → List ℕ → GzipReader → ℕ → Result (ZRet × GzipReader)
  check_and_build_index turns stack reader max_byte_address = elim (last_access_point reader.list) [
    | none ↦ build_index turns stack reader max_byte_address
    | some e ↦
        if ltb max_byte_address (e.raw_byte_address + span)
        then ok (z_ok, reader)
        else build_index turns stack reader max_byte_address
  ]
