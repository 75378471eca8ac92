-- ===== src/Compression/Gzip/Zlib.antt =====
-- What gzip_reader.c calls of zlib, over its own stream type. Nothing of it is defined here: it is a
-- parameter, and what it documents is a record of laws.
use spotlight.Base.{ℕ, ◌+◌, ◌≡◌, ◌≤◌, ◌<◌, ◌⊎◌, Bool, true, false, List, length}
use spotlight.Base.Int.{ℤ}
use spotlight.Base.Bytes.{slice}
use spotlight.Compression.File.{File}

-- The return values that the code names.
pub data ZRet : Type 0 where
  z_ok z_stream_end z_need_dict z_errno z_data_error z_mem_error : ZRet
  z_other : ℕ → ZRet

abbrev pub is_z_ok : ZRet → Bool
is_z_ok z_ok = true
is_z_ok z_stream_end = false
is_z_ok z_need_dict = false
is_z_ok z_errno = false
is_z_ok z_data_error = false
is_z_ok z_mem_error = false
is_z_ok (z_other n) = false

-- What a call of `inflate` leaves: the bytes of the input that it used, those it put out, and
-- `data_type`.
pub record Inflated (Stream : Type 0) : Type 0 where
  pub ret : ZRet
  pub stream : Stream
  pub used : ℕ
  pub out : List ℕ
  pub data_type : ℕ

pub record Zlib : Type 1 where
  pub Stream : Type 0
  -- `inflateInit2`
  pub inflate_init : ℤ → ZRet × Stream
  -- `inflatePrime`, from the number of bits and their value
  pub inflate_prime : Stream → ℕ → ℕ → Stream
  -- `inflateSetDictionary`
  pub inflate_set_dictionary : Stream → List ℕ → Stream
  -- `inflate` with Z_BLOCK and with Z_NO_FLUSH, from the input and the room for output
  pub inflate_block : Stream → List ℕ → ℕ → Inflated Stream
  pub inflate : Stream → List ℕ → ℕ → Inflated Stream

-- Decompression of `content` from the position `at` of the file on, after `k` bytes of it, as a
-- predicate on streams that each call of `inflate` keeps.
pub record Inflates (z : Zlib) (file : File) (content : ℕ → ℕ) (total : ℕ) : Type 1 where
  pub Progress : z.Stream → ℕ → ℕ → Type 0
  -- The checksum stands behind the last byte of the compressed data.
  pub before_end : (s : z.Stream) (at k : ℕ) → Progress s at k → at < file.size
  -- Given input and room, `inflate` uses a part of the input and puts out bytes of the content, no
  -- more than there is room for. It ends with the last of them, and gets on before.
  pub inflate_step :
      (s : z.Stream) (at k n room : ℕ)
      → Progress s at k
      → 0 < n
      → at + n ≤ file.size
      → 0 < room
      → let c = z.inflate s (slice file.byte at n) room in
        (c.used ≤ n)
        × (c.out ≡ slice content k (length c.out))
        × (length c.out ≤ room)
        × (k + length c.out ≤ total)
        × (((c.ret ≡ z_stream_end) × (k + length c.out ≡ total))
            ⊎ ((c.ret ≡ z_ok)
                × (0 < c.used + length c.out)
                × Progress c.stream (at + c.used) (k + length c.out)))
