-- ===== src/Examples/Ranges.antt =====
-- Byte ranges.
use fasthttp.Base.{Bytes, some, ◌≡◌, arith, codes, pos, inr}
use fasthttp.Ranges.{parse_byte_range, range_text}
use fasthttp.Ranges.Bounds.{IsWithin, parse_byte_range-IsWithin}
use fasthttp.Ranges.RoundTrip.{parse_byte_range-range_text}

parse_byte_range-IsWithin_example : IsWithin 10 (parse_byte_range (codes "bytes=3-70") 10)
parse_byte_range-IsWithin_example = parse_byte_range-IsWithin (codes "bytes=3-70") 10 (omega arith)

parse_byte_range-range_text_example :
    (text : Bytes) × (range_text (pos 3) (pos 7) ≡ some text)
    × (parse_byte_range text 10 ≡ inr (pos 3, pos 7))
parse_byte_range-range_text_example =
    parse_byte_range-range_text 10 (pos 3) (pos 7) (omega arith) (omega arith, omega arith)
