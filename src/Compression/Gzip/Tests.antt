-- ===== src/Compression/Gzip/Tests.antt =====
-- Runs of the gzip reader over a zlib that copies bytes up to a zero, and the theorems at concrete
-- inputs.
use spotlight.Base.{
  ℕ, zero, suc, ◌+◌, ◌-◌, ◌≡◌, ◌≤◌, ◌<◌, min, true, inl, inr, some, List, [], ◌∷◌, length, get_or,
  replicate, length-replicate, subst, if◌then◌else◌, ◌==◌, ◌⊎◌, arith, refl, sym, ◌∙◌,
}
use mathlib.Core.List.{append-nil}
use spotlight.Base.Int.{pos}
use spotlight.Base.Bytes.{slice, slice-zeros}
use spotlight.Base.Result.{ok}
use spotlight.Compression.File.{same_magic, File, fread, pread_file, seek}
use spotlight.Compression.Gzip.{
  AccessPoint, window_size, gzip_reader_alloc, last_access_point, append_access_point_list,
  create_access_point_entry,
}
use spotlight.Compression.Gzip.Zlib.{z_ok, z_stream_end, Inflated, Zlib, Inflates}
use spotlight.Compression.Gzip.Index.{
  Indexing, overwrite, after_inflate, add_access_point, is_due, chunk_loop, index_next_chunk,
  build_loop, build_index, check_and_build_index,
}
use spotlight.Compression.Gzip.Index.Spacing.{IsIndex, StartsAtZero, AreSpaced}
use spotlight.Compression.Gzip.Index.Entries.{KeepsReader, check_and_build_index-IsIndex}
use spotlight.Compression.Gzip.Index.Window.{IsWindow, unrolled, turn-IsWindow}
use spotlight.Compression.Gzip.Access.{gzip_is_supported, gzip_read}
use spotlight.Compression.Gzip.Access.Content.{IsPoint, ArePoints, gzip_read-content}

abbrev image : List ℕ
image = 31 ∷ 139 ∷ 5 ∷ 6 ∷ 7 ∷ 0 ∷ []

abbrev file : File
file = record { size = 6; byte = λ i. get_or image i 0; position = 0 }

abbrev content : ℕ → ℕ
content k = get_or image (k + 2) 0

-- One byte at a time: 31 starts the header of two bytes, 0 ends the stream.
abbrev one_byte : List ℕ → Inflated (Unit {0})
one_byte [] = record { ret = z_ok; stream = tt; used = 0; out = []; data_type = 0 }
one_byte (zero ∷ input) = record {
  ret = z_stream_end;
  stream = tt;
  used = 1;
  out = [];
  data_type = 0;
}
one_byte (suc n ∷ input) =
    if n == 30
    then record { ret = z_ok; stream = tt; used = 2; out = []; data_type = 128 }
    else record { ret = z_ok; stream = tt; used = 1; out = suc n ∷ []; data_type = 0 }

abbrev copying : Zlib
copying = record {
  Stream = Unit {0};
  inflate_init = λ bits. (z_ok, tt);
  inflate_prime = λ s bits value. s;
  inflate_set_dictionary = λ s context. s;
  inflate_block = λ s input room. one_byte input;
  inflate = λ s input room. one_byte input;
}

abbrev IsCopied : Unit {0} → ℕ → ℕ → Type 0
IsCopied s at k = (at ≡ k + 2) × (k ≤ 3)

-- What `inflate_step` asks of one call.
abbrev IsStep : ℕ → ℕ → ℕ → ℕ → Type 0
IsStep at k n room =
    let c = one_byte (slice file.byte at n) in
    (c.used ≤ n)
    × (c.out ≡ slice content k (length c.out))
    × (length c.out ≤ room)
    × (k + length c.out ≤ 3)
    × (((c.ret ≡ z_stream_end) × (k + length c.out ≡ 3))
        ⊎ ((c.ret ≡ z_ok)
            × (0 < c.used + length c.out)
            × IsCopied c.stream (at + c.used) (k + length c.out)))

one_byte-IsStep :
    (k n room : ℕ) → k ≤ 3 → 0 < n → k + 2 + n ≤ 6 → 0 < room → IsStep (k + 2) k n room
unfolding slice
one_byte-IsStep k zero room low some_input inside some_room = absurd (omega arith)
one_byte-IsStep zero (suc n) room low some_input inside some_room = (
  omega arith,
  refl,
  omega arith,
  omega arith,
  inr (refl, omega arith, (omega arith, omega arith)),
)
one_byte-IsStep (suc zero) (suc n) room low some_input inside some_room = (
  omega arith,
  refl,
  omega arith,
  omega arith,
  inr (refl, omega arith, (omega arith, omega arith)),
)
one_byte-IsStep (suc (suc zero)) (suc n) room low some_input inside some_room = (
  omega arith,
  refl,
  omega arith,
  omega arith,
  inr (refl, omega arith, (omega arith, omega arith)),
)
one_byte-IsStep (suc (suc (suc zero))) (suc n) room low some_input inside some_room =
    (omega arith, refl, omega arith, omega arith, inl (refl, omega arith))
one_byte-IsStep (suc (suc (suc (suc k)))) (suc n) room low some_input inside some_room =
    absurd (omega arith)

copying-Inflates : Inflates copying file content 3
copying-Inflates = record {
  Progress = IsCopied;
  before_end = λ s at k (e, h). omega arith;
  inflate_step = λ s at k n room (e, h) some_input inside some_room.
      subst (λ at. IsStep at k n room) (sym e)
        (one_byte-IsStep k n room h some_input (omega arith) some_room);
}

gzip_is_supported_test : gzip_is_supported file ≡ ok (true, seek file 2)
unfolding gzip_is_supported fread pread_file slice seek same_magic
gzip_is_supported_test = refl

abbrev point : AccessPoint
point = record { raw_byte_address = 0; compressed_byte_address = 2; bits = 0; context = [] }

point-IsPoint : IsPoint copying file content 3 copying-Inflates tt point
unfolding copying-Inflates
point-IsPoint = record {
  behind_header = omega arith;
  inside = omega arith;
  progress = (refl, omega arith);
}

points : ArePoints copying file content 3 copying-Inflates tt (point ∷ [])
unfolding ArePoints
points = (point-IsPoint, tt)

final : last_access_point (point ∷ []) ≡ some point
unfolding last_access_point
final = refl

-- Five bytes are asked for where the content has two left.
gzip_read-content_example :
    (p : ℕ) × (gzip_read copying 10 [] (record { gzip_file = seek file 0; list = point ∷ [] }) 1 5
      ≡ ok (
        pos 5,
        slice content 1 (min 5 (3 - 1)),
        record { gzip_file = seek file p; list = point ∷ [] },
      ))
gzip_read-content_example =
    gzip_read-content copying file content 3 copying-Inflates tt 10 0 [] point [] point 1 5 refl
      points (omega arith) final (omega arith) (omega arith) (omega arith) (omega arith)

empty-IsIndex : IsIndex (gzip_reader_alloc file).list
unfolding IsIndex StartsAtZero AreSpaced gzip_reader_alloc
empty-IsIndex = (tt, tt)

check_and_build_index-IsIndex_example :
    KeepsReader copying (check_and_build_index copying 10 [] (gzip_reader_alloc file) 3)
check_and_build_index-IsIndex_example =
    check_and_build_index-IsIndex copying 10 [] (gzip_reader_alloc file) 3 empty-IsIndex

check_and_build_index_test :
    check_and_build_index copying 10 [] (gzip_reader_alloc file) 3
    ≡ ok (
      z_ok,
      record {
        gzip_file = seek file 6;
        list =
            record { raw_byte_address = 0; compressed_byte_address = 2; bits = 0; context = [] }
            ∷ [];
      },
    )
unfolding check_and_build_index build_index build_loop index_next_chunk chunk_loop after_inflate
    overwrite add_access_point append_access_point_list create_access_point_entry is_due
    last_access_point gzip_reader_alloc fread pread_file slice seek
check_and_build_index_test = refl

abbrev zeros : ℕ → ℕ
zeros i = 0

abbrev indexing : Indexing (Unit {0})
indexing = record {
  stream = tt;
  context = replicate window_size 0;
  raw_byte_counter = window_size;
  compressed_byte_counter = 100;
  reader = record { gzip_file = file; list = [] };
}

abbrev zero_out : Inflated (Unit {0})
zero_out = record { ret = z_ok; stream = tt; used = 1; out = 0 ∷ []; data_type = 128 }

full_size : length (replicate {A = ℕ} window_size 0) ≤ window_size
full_size = omega (arith, length-replicate {A = ℕ} window_size 0)

zeros-IsWindow : IsWindow zeros window_size 0 (replicate window_size 0)
unfolding unrolled
zeros-IsWindow = record {
  size = length-replicate {A = ℕ} window_size 0;
  room = omega arith;
  full = omega arith;
  bytes = append-nil (replicate window_size 0) ∙ sym (slice-zeros zeros 0 window_size λ i h. refl);
}

turn-IsWindow_example :
    let room = if 0 == 0 then window_size else 0 in
    let st' = after_inflate copying indexing room zero_out in
    let left = room - length zero_out.out in
    let e =
      create_access_point_entry st'.raw_byte_counter st'.compressed_byte_counter 0 left
        st'.context in
    IsWindow zeros st'.raw_byte_counter left st'.context
    × (e.context ≡ slice zeros (e.raw_byte_address - window_size) window_size)
unfolding slice
turn-IsWindow_example =
    turn-IsWindow copying zeros indexing 0 0 zero_out zeros-IsWindow (omega arith) refl
