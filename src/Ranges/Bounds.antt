-- ===== src/Ranges/Bounds.antt =====
-- A range that is accepted lies within the content.
use fasthttp.Base.{
  ℕ, zero, suc, ◌+◌, ◌<◌, ◌≤◌, [], ◌∷◌, Option, none, some, arith, ◌==◌, ltb, leb, ◌⊎◌, inl, inr,
  Bool-cases, Bytes, take, drop, index_byte, has_prefix, ℤ, pos, negsuc,
}
use fasthttp.Bytesconv.Decimal.{IntError, parse_uint}
use fasthttp.Bytesconv.Decimal.Parse.{IsNatural, parse_uint-IsNatural}
use fasthttp.Ranges.{
  RangeError, clamped, suffix, until, to_end, from_start, range_at, range_behind, parse_byte_range,
  str_bytes,
}

-- A range of the content: the end is the last byte that it holds, and the empty range stands
-- anywhere in the content, and behind it.
abbrev pub IsWithin : ℕ → RangeError ⊎ (ℤ × ℤ) → Type 0
IsWithin n (inl e) = Unit
IsWithin n (inr (pos s, pos e)) = (e < n) × (s ≤ e + 1)
IsWithin n (inr (pos s, negsuc e)) = ⊥
IsWithin n (inr (negsuc s, e)) = ⊥

suffix-IsWithin : (n : ℕ) (p : ℤ × Option IntError) → 0 < n → IsNatural p → IsWithin n (suffix n p)
unfolding suffix
suffix-IsWithin n (v, some e) lt h = tt
suffix-IsWithin zero (v, none) lt h = absurd (omega arith)
suffix-IsWithin (suc n) (pos v, none) lt h = (omega arith, omega arith)
suffix-IsWithin (suc n) (negsuc v, none) lt h = elim h [ ]

until-IsWithin :
    (n s : ℕ) (p : ℤ × Option IntError) → s < n → IsNatural p → IsWithin n (until n (pos s) p)
unfolding until clamped
until-IsWithin n s (v, some e) lt h = tt
until-IsWithin zero s (v, none) lt h = absurd (omega arith)
until-IsWithin (suc n) s (pos v, none) lt h = elim (Bool-cases (leb (suc n) v)) [
  | inl large ↦ elim (Bool-cases (ltb n s)) [
    | inl bad ↦ rw large (rw bad tt)
    | inr good ↦ rw large (rw good (omega arith, omega arith))
  ]
  | inr small ↦ elim (Bool-cases (ltb v s)) [
    | inl bad ↦ rw small (rw bad tt)
    | inr good ↦ rw small (rw good (ground arith, ground arith))
  ]
]
until-IsWithin (suc n) s (negsuc v, none) lt h = elim h [ ]

to_end-IsWithin : (n s : ℕ) (b : Bytes) → s < n → IsWithin n (to_end n (pos s) b)
unfolding to_end
to_end-IsWithin zero s [] lt = absurd (omega arith)
to_end-IsWithin (suc n) s [] lt = (omega arith, omega arith)
to_end-IsWithin n s (c ∷ b) lt =
    until-IsWithin n s (parse_uint (c ∷ b)) lt (parse_uint-IsNatural (c ∷ b))

from_start-IsWithin :
    (n : ℕ) (rest : Bytes) (p : ℤ × Option IntError)
    → 0 < n
    → IsNatural p
    → IsWithin n (from_start n rest p)
unfolding from_start
from_start-IsWithin n rest (v, some e) lt h = tt
from_start-IsWithin n rest (pos s, none) lt h = elim (Bool-cases (leb n s)) [
  | inl large ↦ rw large tt
  | inr small ↦ rw small (to_end-IsWithin n s rest (ground arith))
]
from_start-IsWithin n rest (negsuc v, none) lt h = elim h [ ]

range_at-IsWithin : (n : ℕ) (b : Bytes) (o : Option ℕ) → 0 < n → IsWithin n (range_at n b o)
unfolding range_at
range_at-IsWithin n b none lt = tt
range_at-IsWithin n b (some zero) lt =
    suffix-IsWithin n (parse_uint (drop 1 b)) lt (parse_uint-IsNatural (drop 1 b))
range_at-IsWithin n b (some (suc k)) lt =
    from_start-IsWithin n (drop (suc k + 1) b) (parse_uint (take (suc k) b)) lt
      (parse_uint-IsNatural (take (suc k) b))

range_behind-IsWithin : (n : ℕ) (b : Bytes) → 0 < n → IsWithin n (range_behind n b)
unfolding range_behind
range_behind-IsWithin n [] lt = tt
range_behind-IsWithin n (c ∷ b) lt = elim (Bool-cases (c == b'=')) [
  | inl equals ↦ rw equals (range_at-IsWithin n b (index_byte b b'-') lt)
  | inr other ↦ rw other tt
]

-- A range that ParseByteRange accepts for content that is not empty ends within the content and does
-- not begin behind the byte after its end.
pub parse_byte_range-IsWithin :
    (byte_range : Bytes) (n : ℕ) → 0 < n → IsWithin n (parse_byte_range byte_range n)
unfolding parse_byte_range
parse_byte_range-IsWithin byte_range n lt = elim (Bool-cases (has_prefix byte_range str_bytes)) [
  | inl bytes ↦ rw bytes (range_behind-IsWithin n (drop 5 byte_range) lt)
  | inr units ↦ rw units tt
]
