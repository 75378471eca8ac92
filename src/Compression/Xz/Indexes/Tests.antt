-- ===== src/Compression/Xz/Indexes/Tests.antt =====
-- Searches for a footer at concrete files, with 12 bytes of header and footer.
use spotlight.Base.{◌≡◌, ltb, ◌==◌, if◌then◌else◌, [], arith, refl}
use spotlight.Base.Bytes.{slice}
use spotlight.Base.Result.{ok}
use spotlight.Compression.File.{File, pread_file}
use spotlight.Compression.Xz.Lzma.{lzma_ok, lzma_stream_end}
use spotlight.Compression.Xz.Indexes.{IndexLzma, Step, goes, Footer, zeros_back, locate_footer}
use spotlight.Compression.Xz.Indexes.Locate.{
  IsLocated, IsBefore, locate_footer-IsLocated, locate_footer-zero_byte,
}

abbrev no_index : IndexLzma
no_index = record {
  Index = Unit {0};
  Stream = Unit {0};
  Flags = Unit {0};
  stream_header_size = 12;
  stream_footer_decode = λ bytes. (lzma_ok, tt);
  stream_header_decode = λ bytes. (lzma_ok, tt);
  version = λ flags. 0;
  backward_size = λ flags. 0;
  stream_flags_compare = λ a b. lzma_ok;
  index_decoder = (lzma_ok, tt);
  code = λ s bytes. record { ret = lzma_stream_end; stream = tt; used = 0; index = tt };
  index_total_size = λ index. 0;
  index_stream_flags = λ index flags. (lzma_ok, tt);
  index_stream_padding = λ index padding. (lzma_ok, tt);
  index_cat = λ index behind. (lzma_ok, tt);
  nonempty_blocks = λ index. [];
}

-- A footer at 12, and 12 bytes of padding behind it.
abbrev padded : File
padded = record { size = 36; byte = λ i. if ltb i 24 then 1 else 0; position = 0 }

locate_footer_test :
    locate_footer no_index padded 25 24 0
    ≡ ok (goes (record { position = 12; stream_padding = 12; buffer = slice padded.byte 12 12 }))
unfolding locate_footer zeros_back pread_file slice
locate_footer_test = refl

locate_footer-IsLocated_example :
    (step : Step Footer) × (locate_footer no_index padded 25 24 0 ≡ ok step)
    × IsLocated padded 12 24 0 step
locate_footer-IsLocated_example =
    locate_footer-IsLocated no_index padded (omega arith) 25 24 0 (omega arith)

-- A footer at 12 whose checksum has a zero in its third byte.
abbrev zero_sum : File
zero_sum = record { size = 24; byte = λ i. if i == 14 then 0 else 1; position = 0 }

locate_footer-zero_byte_example :
    (step : Step Footer) × (locate_footer no_index zero_sum 25 12 0 ≡ ok step) × IsBefore 12 step
locate_footer-zero_byte_example =
    locate_footer-zero_byte no_index zero_sum (omega arith) 24 12 0 (omega arith) (omega arith) refl
      (omega arith)
