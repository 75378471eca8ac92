-- ===== src/Compression/Gzip/Index/Window.antt =====
-- gzip_reader.c: the circular window of `index_next_chunk`, and the context that an access point saves
-- of it.
use spotlight.Base.{
  ℕ, ◌+◌, ◌-◌, ◌≡◌, ◌≤◌, ltb, ◌==◌, if◌then◌else◌, true, Bool-cases, inl, inr, List, [], ◌++◌,
  length, take, drop, arith, refl, sym, ap, ap₂, ◌∙◌, take_of_length-le, drop_of_length-le,
  length-append, length-take, length-drop, take-append_left, drop-append_right, drop-append,
  drop-drop, not-ltb→le, subst,
}
use mathlib.Core.List.{append-nil, append_assoc}
use spotlight.Base.Bytes.{slice, slice_at, drop-slice, slice-append}
use spotlight.Compression.Gzip.{window_size, create_access_point_entry}
use spotlight.Compression.Gzip.Zlib.{Inflated, Zlib}
use spotlight.Compression.Gzip.Index.{Indexing, overwrite, after_inflate}

-- The window in the order of the stream, when the next byte goes to position `w`.
unfoldable pub unrolled : List ℕ → ℕ → List ℕ
unrolled context w = drop w context ++ take w context

-- The window holds the last bytes of the stream `f`, of which `raw` are out, with so much room left.
pub record IsWindow (f : ℕ → ℕ) (raw avail_out : ℕ) (context : List ℕ) : Type 0 where
  pub size : length context ≡ window_size
  pub room : avail_out ≤ window_size
  pub full : window_size ≤ raw
  pub bytes : unrolled context (window_size - avail_out) ≡ slice f (raw - window_size) window_size

older :
    (left : ℕ) (context : List ℕ)
    → length context ≡ window_size
    → left ≤ window_size
    → (if left == 0 then [] else take left (drop (window_size - left) context))
      ≡ drop (window_size - left) context
older left context size h =
    let n = length-drop (window_size - left) context in
    elim (Bool-cases (left == 0)) [
      | inl none_left ↦
          rw none_left
            (sym (drop_of_length-le (window_size - left) context (ground (arith, none_left))))
      | inr some_left ↦
          rw some_left
            (take_of_length-le left (drop (window_size - left) context) (omega (arith, n)))
    ]

newer :
    (left : ℕ) (context : List ℕ)
    → left ≤ window_size
    → (if ltb left window_size then take (window_size - left) context else [])
      ≡ take (window_size - left) context
newer left context h = elim (Bool-cases (ltb left window_size)) [
  | inl part ↦ rw part refl
  | inr whole ↦
      rw whole (ap (λ n. take n context) {x = 0} (omega (arith, not-ltb→le left window_size whole)))
]

-- The saved context is the window in the order of the stream.
create_access_point_entry-unrolled :
    (raw compressed bits left : ℕ) (context : List ℕ)
    → length context ≡ window_size
    → left ≤ window_size
    → (create_access_point_entry raw compressed bits left context).context
      ≡ unrolled context (window_size - left)
unfolding create_access_point_entry unrolled
create_access_point_entry-unrolled raw compressed bits left context size h =
    ap₂ ◌++◌ (older left context size h) (newer left context h)

-- A write at the position of the next byte moves the window on.
overwrite-unrolled :
    (context : List ℕ) (w : ℕ) (bytes : List ℕ)
    → w + length bytes ≤ length context
    → unrolled (overwrite context w bytes) (w + length bytes)
      ≡ drop (length bytes) (unrolled context w) ++ bytes
unfolding unrolled overwrite
overwrite-unrolled context w bytes h =
    let n = length bytes in
    let new = take w context ++ bytes in
    let whole : overwrite context w bytes ≡ new ++ drop (w + n) context =
      sym (append_assoc (take w context) bytes (drop (w + n) context)) in
    let size : w + n ≡ length new =
      omega (arith, length-append (take w context) bytes, length-take w context) in
    ap₂ ◌++◌ (ap (drop (w + n)) whole ∙ drop-append_right (w + n) new (drop (w + n) context) size)
      (ap (take (w + n)) whole ∙ take-append_left (w + n) new (drop (w + n) context) size)
    ∙ sym (append_assoc (drop (w + n) context) (take w context) bytes)
    ∙ ap (λ xs. xs ++ take w context ++ bytes) (sym (drop-drop w n context))
    ∙ ap (λ xs. xs ++ bytes)
        (sym
          (drop-append n (drop w context) (take w context) (omega (arith, length-drop w context))))

overwrite-size :
    (context : List ℕ) (w : ℕ) (bytes : List ℕ)
    → w + length bytes ≤ length context
    → length (overwrite context w bytes) ≡ length context
unfolding overwrite
overwrite-size context w bytes h =
    let n = length bytes in
    omega (
      arith,
      length-append (take w context) (bytes ++ drop (w + n) context),
      length-append bytes (drop (w + n) context),
      length-take w context,
      length-drop (w + n) context,
    )

-- A full buffer is written again from its start, and stays the window.
IsWindow-reset :
    (f : ℕ → ℕ) (raw : ℕ) (context : List ℕ)
    → IsWindow f raw 0 context
    → IsWindow f raw window_size context
unfolding unrolled
IsWindow-reset f raw context v = record {
  size = v.size;
  room = omega arith;
  full = v.full;
  bytes =
      append-nil context
      ∙ sym (
          ap₂ ◌++◌ (drop_of_length-le window_size context (omega (arith, v.size)))
            (take_of_length-le window_size context (omega (arith, v.size))))
      ∙ v.bytes;
}

at_zero : (n : ℕ) → (n == 0) ≡ true → n ≡ 0
at_zero n h = ground arith

reset-IsWindow :
    (f : ℕ → ℕ) (raw avail_out : ℕ) (context : List ℕ)
    → IsWindow f raw avail_out context
    → IsWindow f raw (if avail_out == 0 then window_size else avail_out) context
reset-IsWindow f raw avail_out context v = elim (Bool-cases (avail_out == 0)) [
  | inr some_room ↦ rw some_room v
  | inl no_room ↦ rw no_room (
      IsWindow-reset f raw context
        (subst (λ n. IsWindow f raw n context) (at_zero avail_out no_room) v))
]

module _ (z : Zlib) (f : ℕ → ℕ) where
  after_inflate-IsWindow :
      (st : Indexing z.Stream) (avail_out bits : ℕ) (c : Inflated z.Stream)
      → IsWindow f st.raw_byte_counter avail_out st.context
      → length c.out ≤ avail_out
      → c.out ≡ slice f st.raw_byte_counter (length c.out)
      → let st' = after_inflate z st avail_out c in
        let left = avail_out - length c.out in
        let e =
          create_access_point_entry st'.raw_byte_counter st'.compressed_byte_counter bits left
            st'.context in
        IsWindow f st'.raw_byte_counter left st'.context
        × (e.context ≡ slice f (e.raw_byte_address - window_size) window_size)
  unfolding after_inflate create_access_point_entry
  after_inflate-IsWindow st avail_out bits c v fits out =
      let n = length c.out in
      let raw = st.raw_byte_counter in
      let w = window_size - avail_out in
      let low = raw - window_size in
      let bytes : unrolled (overwrite st.context w c.out) (window_size - (avail_out - n))
          ≡ slice f (raw + n - window_size) window_size =
        ap (unrolled (overwrite st.context w c.out)) (omega (arith, v.room))
        ∙ overwrite-unrolled st.context w c.out (omega (arith, v.size, v.room))
        ∙ ap₂ (λ a b. drop n a ++ b) v.bytes out
        ∙ ap (λ a. a ++ slice f raw n) (drop-slice f low window_size n)
        ∙ ap (λ o. slice f (low + n) (window_size - n) ++ slice f o n)
            (omega (arith, v.full, v.room))
        ∙ slice-append f (low + n) (window_size - n) n window_size (omega (arith, v.room))
        ∙ slice_at f _ _ _ _ (omega (arith, v.full)) refl in
      (
        record {
          size = overwrite-size st.context w c.out (omega (arith, v.size, v.room)) ∙ v.size;
          room = omega (arith, v.room);
          full = omega (arith, v.full);
          bytes = bytes;
        },
        create_access_point_entry-unrolled (raw + n) 0 bits (avail_out - n) _
              (overwrite-size st.context w c.out (omega (arith, v.size, v.room)) ∙ v.size)
              (omega (arith, v.room))
            ∙ bytes,
      )

  -- If the circular buffer holds the last 32 KiB of the stream and a turn of the loop puts the
  -- next bytes of the stream into the room that it offers, a full buffer being written again from
  -- its start, then the buffer holds the last 32 KiB again, and an access point made behind the
  -- turn saves them in the order of the stream.
  pub turn-IsWindow :
      (st : Indexing z.Stream) (avail_out bits : ℕ) (c : Inflated z.Stream)
      → IsWindow f st.raw_byte_counter avail_out st.context
      → length c.out ≤ (if avail_out == 0 then window_size else avail_out)
      → c.out ≡ slice f st.raw_byte_counter (length c.out)
      → let room = if avail_out == 0 then window_size else avail_out in
        let st' = after_inflate z st room c in
        let left = room - length c.out in
        let e =
          create_access_point_entry st'.raw_byte_counter st'.compressed_byte_counter bits left
            st'.context in
        IsWindow f st'.raw_byte_counter left st'.context
        × (e.context ≡ slice f (e.raw_byte_address - window_size) window_size)
  turn-IsWindow st avail_out bits c v fits out =
      let room = if avail_out == 0 then window_size else avail_out in
      after_inflate-IsWindow st room bits c
        (reset-IsWindow f st.raw_byte_counter avail_out st.context v) fits out
