-- ===== src/Bytesconv/Decimal.antt =====
-- `AppendUint`, `AppendUintInto`, `ParseUint` and `parseUintBuf` (bytesconv.go,
-- supplement_utils.go). An int64 that is not negative is its bit pattern.
pub mod Print
pub mod Parse
pub mod Wrap
use fasthttp.Base.{
  ℕ, zero, suc, ◌+◌, ◌-◌, ◌*◌, ◌/◌, ◌%◌, ◌^◌, List, [], ◌∷◌, ◌++◌, Option, none, some, ◌≡◌, refl,
  Bool, ◌||◌, true, false, ltb, ◌==◌, if◌then◌else◌, Bytes, codes, length, ℤ, pos, negsuc, byte,
  byte_sub, u64, int64_lt,
}

pub data IntError : Type 0 where
  empty_int unexpected_first_char unexpected_trailing_char too_long_int : IntError

-- The loop that fills a buffer from its end: `i` is the room left before the digits written so
-- far, and `none` is the panic of an index below the buffer.
pub fill : ℕ → ℕ → Bytes → Option Bytes
fill zero n written = none
fill (suc i) n written =
    let q = n / 10 in
    let rest = fill i q (byte (b'0' + byte (n - q * 10)) ∷ written) in
    if ltb n 10 then some (byte (b'0' + byte n) ∷ written) else rest

-- `none` is a panic.
unfoldable pub append_uint : Bytes → ℤ → Option Bytes
unfolding fill
append_uint dst (negsuc _) = none
append_uint dst (pos n) = elim (fill 20 n []) [ none ↦ none | some out ↦ some (dst ++ out) ]

-- The digits go to the end of `dst`, whose length is all that matters of it.
unfoldable pub append_uint_into : Bytes → ℤ → Option Bytes
unfolding fill
append_uint_into dst (negsuc _) = none
append_uint_into dst (pos n) = fill (length dst) n []

-- The loop of `parseUintBuf`, at position `i` with the value `v` so far.
pub scan : Bytes → ℕ → ℕ → ℤ × ℕ × Option IntError
scan [] i v = (pos v, i, none)
scan (c ∷ b) i v =
    let k = byte_sub c b'0' in
    let v_new = u64 (10 * v + k) in
    if ltb 9 k
    then (if i == 0 then (negsuc 0, i, some unexpected_first_char) else (pos v, i, none))
    else if int64_lt v_new v
    then (negsuc 0, i, some too_long_int)
    else scan b (i + 1) v_new

unfoldable pub parse_uint_buf : Bytes → ℤ × ℕ × Option IntError
unfolding scan
parse_uint_buf [] = (negsuc 0, 0, some empty_int)
parse_uint_buf (c ∷ b) = scan (c ∷ b) 0 0

unfoldable pub parse_uint : Bytes → ℤ × Option IntError
unfolding parse_uint_buf
parse_uint buf =
    let (v, n, err) = parse_uint_buf buf in
    if n == length buf then (v, err) else (negsuc 0, some unexpected_trailing_char)

decimal_tests :
    (append_uint [] (pos 9223372036854775807) ≡ some (codes "9223372036854775807"))
    × (parse_uint (codes "120") ≡ (pos 120, none))
    × (parse_uint (codes "12x") ≡ (negsuc 0, some unexpected_trailing_char))
    × (parse_uint (codes "25000000000000000000") ≡ (pos 6553255926290448384, none))
unfolding append_uint parse_uint
decimal_tests = (refl, refl, refl, refl)
