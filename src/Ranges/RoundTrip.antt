-- ===== src/Ranges/RoundTrip.antt =====
-- ParseByteRange reads what SetByteRange writes.
use fasthttp.Base.{
  ℕ, ◌+◌, ◌-◌, ◌<◌, ◌≤◌, [], ◌∷◌, ◌++◌, append_assoc, none, some, ◌≡◌, refl, ap, ap₂, ◌∙◌, arith,
  false, ltb, leb, inr, Bytes, All, Lacks, index_byte, index_byte-first, take_front,
  drop_front_more, has_prefix, ℤ, pos, negsuc, int64_limit,
}
use fasthttp.Bytesconv.Decimal.{parse_uint, parse_uint_buf}
use fasthttp.Bytesconv.Decimal.Parse.{IsDigit, parse_uint_sound}
use fasthttp.Bytesconv.Decimal.Print.{parse_uint-append_uint}
use fasthttp.Ranges.{
  before, clamped, suffix, until, to_end, from_start, range_at, range_behind, parse_byte_range,
  str_bytes, negated, end_text, dashed, range_text,
}

digits-Lacks : (b : Bytes) → All IsDigit b → Lacks b'-' b
digits-Lacks [] h = tt
digits-Lacks (c ∷ b) ((low, high), h) = (λ e. omega (arith, e), digits-Lacks b h)

-- The text of a range.
abbrev text_of : Bytes → Bytes → Bytes
text_of a b = str_bytes ++ (b'=' ∷ (a ++ b'-' ∷ b))

parse_byte_range-start :
    (n : ℕ) (a b : Bytes) (s : ℕ)
    → All IsDigit a
    → parse_uint a ≡ (pos s, none)
    → parse_byte_range (text_of a b) n ≡ from_start n b (pos s, none)
unfolding parse_byte_range range_behind range_at has_prefix parse_uint parse_uint_buf
parse_byte_range-start n [] b s digits parsed = absurd ((parse_uint_sound [] s tt parsed).0 refl)
parse_byte_range-start n (c ∷ a) b s digits parsed =
    ap (range_at n ((c ∷ a) ++ b'-' ∷ b))
      (index_byte-first b'-' (c ∷ a) b (digits-Lacks (c ∷ a) digits))
    ∙ ap₂ (λ r t. from_start n r (parse_uint t)) (drop_front_more 1 (c ∷ a) (b'-' ∷ b))
        (take_front (c ∷ a) (b'-' ∷ b))
    ∙ ap (from_start n b) parsed

parse_byte_range-suffix :
    (n : ℕ) (b : Bytes) (v : ℕ)
    → parse_uint b ≡ (pos v, none)
    → parse_byte_range (text_of [] b) n ≡ inr (pos (n - v), before n)
unfolding parse_byte_range range_behind range_at has_prefix index_byte suffix
parse_byte_range-suffix n b v parsed = ap (suffix n) parsed

to_end-number :
    (n s e : ℕ) (b : Bytes)
    → s ≤ e
    → e < n
    → parse_uint b ≡ (pos e, none)
    → to_end n (pos s) b ≡ inr (pos s, pos e)
unfolding to_end until clamped parse_uint parse_uint_buf
to_end-number n s e [] le lt parsed = absurd ((parse_uint_sound [] e tt parsed).0 refl)
to_end-number n s e (c ∷ b) le lt parsed =
    let inside : leb n e ≡ false = ground arith in
    let order : ltb e s ≡ false = ground arith in
    ap (until n (pos s)) parsed ∙ rw inside (rw order refl)

from_start-inside :
    (n s : ℕ) (b : Bytes) → s < n → from_start n b (pos s, none) ≡ to_end n (pos s) b
unfolding from_start
from_start-inside n s b lt = let inside : leb n s ≡ false = ground arith in rw inside refl

-- The ranges that can be asked for.
abbrev pub IsRange : ℕ → ℤ → ℤ → Type 0
IsRange n (pos s) (pos e) = (s ≤ e) × (e < n)
IsRange n (pos s) (negsuc e) = s < n
IsRange n (negsuc s) e = s + 1 < int64_limit

-- The first and the last byte that they stand for.
abbrev pub bytes_of : ℕ → ℤ → ℤ → ℤ × ℤ
bytes_of n (pos s) (pos e) = (pos s, pos e)
bytes_of n (pos s) (negsuc e) = (pos s, before n)
bytes_of n (negsuc s) e = (pos (n - (s + 1)), before n)

-- A range that SetByteRange writes, one from a first to a last byte of the content, one from a byte of
-- it to its end, or one of the last bytes, is read by ParseByteRange as the bytes that it stands for.
pub parse_byte_range-range_text :
    (n : ℕ) (s e : ℤ)
    → n < int64_limit
    → IsRange n s e
    → (text : Bytes) × (range_text s e ≡ some text)
      × (parse_byte_range text n ≡ inr (bytes_of n s e))
unfolding range_text dashed end_text negated to_end
parse_byte_range-range_text n (pos s) (pos e) fits (le, lt) =
    let (a, a_text, a_parsed, a_digits) = parse_uint-append_uint s (omega arith) in
    let (b, b_text, b_parsed, _) = parse_uint-append_uint e (omega arith) in
    (
      text_of a b,
      ap (dashed (pos e)) (a_text (str_bytes ++ b'=' ∷ []))
          ∙ b_text ((str_bytes ++ b'=' ∷ a) ++ b'-' ∷ [])
          ∙ ap some (append_assoc (str_bytes ++ b'=' ∷ a) (b'-' ∷ []) b),
      parse_byte_range-start n a b s a_digits a_parsed
          ∙ from_start-inside n s b (omega arith)
          ∙ to_end-number n s e b le lt b_parsed,
    )
parse_byte_range-range_text n (pos s) (negsuc e) fits lt =
    let (a, a_text, a_parsed, a_digits) = parse_uint-append_uint s (omega arith) in
    (
      text_of a [],
      ap (dashed (negsuc e)) (a_text (str_bytes ++ b'=' ∷ [])),
      parse_byte_range-start n a [] s a_digits a_parsed ∙ from_start-inside n s [] lt,
    )
parse_byte_range-range_text n (negsuc s) e fits small =
    let (b, b_text, b_parsed, _) = parse_uint-append_uint (s + 1) small in
    let positive : leb int64_limit (s + 1) ≡ false = ground arith in
    (
      text_of [] b,
      rw positive (b_text (str_bytes ++ b'=' ∷ b'-' ∷ [])),
      parse_byte_range-suffix n b (s + 1) b_parsed,
    )
