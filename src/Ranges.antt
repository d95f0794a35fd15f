-- ===== src/Ranges.antt =====
-- Byte ranges: ParseByteRange of fs_v3.go, SetByteRange of header.go. The length of
-- the content is not negative.
pub mod Bounds
pub mod RoundTrip
use fasthttp.Base.{
  ℕ, zero, suc, ◌+◌, ◌-◌, List, [], ◌∷◌, ◌++◌, Option, none, some, ◌≡◌, refl, Bool, true, false,
  ◌==◌, ltb, leb, if◌then◌else◌, ◌⊎◌, inl, inr, Bytes, codes, take, drop, index_byte, has_prefix, ℤ,
  pos, negsuc, int64_limit,
}
use fasthttp.Bytesconv.Decimal.{IntError, append_uint, parse_uint}
use fasthttp.Header.Request.{RequestHeader}
use fasthttp.Header.Request.Modify

pub data RangeError : Type 0 where
  unsupported_units missing_range missing_end start_too_large end_before_start : RangeError
  bad_number : IntError → RangeError

abbrev pub str_bytes : Bytes
str_bytes = codes "bytes"

-- `contentLength - 1`
abbrev pub before : ℕ → ℤ
before zero = negsuc 0
before (suc n) = pos n

abbrev pub at_least : ℤ → ℕ → Bool
at_least (pos v) n = leb n v
at_least (negsuc _) n = false

abbrev pub less : ℤ → ℤ → Bool
less (pos a) (pos b) = ltb a b
less (pos a) (negsuc b) = false
less (negsuc a) (pos b) = true
less (negsuc a) (negsuc b) = ltb b a

-- The range of the last bytes: `contentLength - v`, or 0 where that is negative.
unfoldable pub suffix : ℕ → ℤ × Option IntError → RangeError ⊎ (ℤ × ℤ)
suffix n (v, some e) = inl (bad_number e)
suffix n (pos v, none) = inr (pos (n - v), before n)
suffix n (negsuc v, none) = inr (pos (n + suc v), before n)

unfoldable pub clamped : ℕ → ℤ → ℤ
clamped n e = if at_least e n then before n else e

unfoldable pub until : ℕ → ℤ → ℤ × Option IntError → RangeError ⊎ (ℤ × ℤ)
unfolding clamped
until n start (e, some x) = inl (bad_number x)
until n start (e, none) =
    if less (clamped n e) start then inl end_before_start else inr (start, clamped n e)

unfoldable pub to_end : ℕ → ℤ → Bytes → RangeError ⊎ (ℤ × ℤ)
unfolding until parse_uint
to_end n start [] = inr (start, before n)
to_end n start (c ∷ b) = until n start (parse_uint (c ∷ b))

unfoldable pub from_start : ℕ → Bytes → ℤ × Option IntError → RangeError ⊎ (ℤ × ℤ)
unfolding to_end
from_start n rest (start, some e) = inl (bad_number e)
from_start n rest (start, none) =
    if at_least start n then inl start_too_large else to_end n start rest

unfoldable pub range_at : ℕ → Bytes → Option ℕ → RangeError ⊎ (ℤ × ℤ)
unfolding suffix from_start parse_uint
range_at n b none = inl missing_end
range_at n b (some zero) = suffix n (parse_uint (drop 1 b))
range_at n b (some (suc k)) = from_start n (drop (suc k + 1) b) (parse_uint (take (suc k) b))

unfoldable pub range_behind : ℕ → Bytes → RangeError ⊎ (ℤ × ℤ)
unfolding range_at index_byte
range_behind n [] = inl missing_range
range_behind n (c ∷ b) = if c == b'=' then range_at n b (index_byte b b'-') else inl missing_range

-- `ParseByteRange`
unfoldable pub parse_byte_range : Bytes → ℕ → RangeError ⊎ (ℤ × ℤ)
unfolding range_behind has_prefix
parse_byte_range byte_range n =
    if has_prefix byte_range str_bytes
    then range_behind n (drop 5 byte_range)
    else inl unsupported_units

-- `-startPos` for `startPos` = -(n + 1), which is itself for the least int64
unfoldable pub negated : ℕ → ℤ
negated n = if leb int64_limit (n + 1) then negsuc n else pos (n + 1)

-- The text behind "bytes=" of a range; `none` is a panic, of which there is none.
unfoldable pub end_text : ℤ → Bytes → Option Bytes
unfolding append_uint
end_text (pos e) dst = append_uint dst (pos e)
end_text (negsuc _) dst = some dst

unfoldable pub dashed : ℤ → Option Bytes → Option Bytes
unfolding end_text
dashed e none = none
dashed e (some dst) = end_text e (dst ++ b'-' ∷ [])

unfoldable pub range_text : ℤ → ℤ → Option Bytes
unfolding dashed negated append_uint
range_text (pos s) e = dashed e (append_uint (str_bytes ++ b'=' ∷ []) (pos s))
range_text (negsuc s) e = dashed (negated s) (some (str_bytes ++ b'=' ∷ []))

-- `SetByteRange`
unfoldable pub set_byte_range : RequestHeader → ℤ → ℤ → Option RequestHeader
unfolding range_text Modify.set_non_special
set_byte_range h s e = elim (range_text s e) [
  | none ↦ none
  | some value ↦ some (Modify.set_non_special h (codes "Range") value)
]

range_tests :
    (parse_byte_range (codes "bytes=3-7") 10 ≡ inr (pos 3, pos 7))
    × (parse_byte_range (codes "bytes=3-") 10 ≡ inr (pos 3, pos 9))
    × (parse_byte_range (codes "bytes=-4") 10 ≡ inr (pos 6, pos 9))
    × (parse_byte_range (codes "bytes=-0") 10 ≡ inr (pos 10, pos 9))
    × (parse_byte_range (codes "bytes=7-3") 10 ≡ inl end_before_start)
    × (range_text (pos 3) (pos 7) ≡ some (codes "bytes=3-7"))
    × (range_text (negsuc 3) (pos 7) ≡ some (codes "bytes=-4"))
unfolding parse_byte_range range_text parse_uint
range_tests = (refl, refl, refl, refl, refl, refl, refl)
