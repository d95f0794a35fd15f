-- ===== src/Bytesconv/Hex/RoundTrip.antt =====
-- A chunk size is read back, up to the number of digits that the reader takes.
use native.Mathlib.Nat.{pow-suc, one-le-pow, mul-le-mul_right}
use fasthttp.Base.{
  ℕ, zero, suc, ◌+◌, ◌*◌, ◌/◌, ◌%◌, ◌^◌, ◌≤◌, ◌<◌, [], ◌∷◌, ◌++◌, none, some, ◌≡◌, ◌≢◌, refl, arith,
  Bytes, length, ◌∙◌, Option-cases, inl, inr, pos, u64, bit_and, bit_or, bit_and_low4,
  bit_or_shifted, get_or, all_below, all_below_sound, ==_iff, ◌==◌, true, codes, All, ap,
}
use fasthttp.Bytesconv.Tables.{hex2int}
use fasthttp.Bytesconv.Hex.{
  IoError, eof, io_error, read_digits, read_hex_int, fill_hex, write_hex_int,
}

abbrev digit_of : ℕ → ℕ
digit_of d = get_or (codes "0123456789abcdef") d 0

digits_table : all_below 16 (λ d. hex2int (digit_of d) == d) ≡ true
unfolding all_below hex2int
digits_table = refl

hex2int-digit_of : (d : ℕ) → d < 16 → hex2int (digit_of d) ≡ d
hex2int-digit_of d h = (==_iff _ d).0 (all_below_sound 16 _ d digits_table h)

fill_hex_total : (i n : ℕ) (w : Bytes) → n < 16 ^ i → 0 < i → fill_hex i n w ≢ none
unfolding fill_hex
fill_hex_total zero n w h p = absurd (omega arith)
fill_hex_total (suc zero) n w h p = ground arith
fill_hex_total (suc (suc i)) n w h p =
    ground
      (arith, fill_hex_total (suc i) (n / 16) (digit_of (bit_and n 15) ∷ w), pow-suc 16 (suc i))

-- What the reader makes of the digits `s` behind `m`, with no limit on their number.
abbrev hex_value : ℕ → Bytes → ℕ
hex_value m [] = m
hex_value m (c ∷ s) = hex_value (m * 16 + hex2int c) s

abbrev IsHexDigit : ℕ → Type 0
IsHexDigit c = hex2int c < 16

fill_hex_value :
    (i n : ℕ) (w out : Bytes)
    → fill_hex i n w ≡ some out
    → All IsHexDigit w
    → (out ≢ []) × All IsHexDigit out × (hex_value 0 out ≡ hex_value n w)
unfolding fill_hex
fill_hex_value zero n w out h d = cc
fill_hex_value (suc i) n w out h d =
    let c = digit_of (bit_and n 15) in
    ground (arith, bit_and_low4 n, hex2int-digit_of (n % 16), fill_hex_value i (n / 16) (c ∷ w) out)

-- The loop takes digits as long as there are at most 15, with no overflow.
shift_in : (n k : ℕ) → n < 2 ^ 60 → k < 16 → bit_or (u64 (n * 16)) k ≡ n * 16 + k
shift_in n k hn hk = ground (arith, bit_or_shifted 4 n k)

le-hex_value : (s : Bytes) (n : ℕ) → n ≤ hex_value n s
le-hex_value [] n = omega arith
le-hex_value (c ∷ s) n = omega (arith, le-hex_value s (n * 16 + hex2int c))

read_digit :
    (e : IoError) (c : ℕ) (r : Bytes) (i n : ℕ)
    → IsHexDigit c
    → i < 15
    → n * 16 + hex2int c < 2 ^ 60
    → read_digits e (c ∷ r) i n ≡ read_digits e r (i + 1) (n * 16 + hex2int c)
unfolding read_digits
read_digit e c r i n hc hi hn = ground (arith, shift_in n (hex2int c))

read_digits_value :
    (e : IoError) (s rest : Bytes) (i n : ℕ)
    → All IsHexDigit s
    → i + length s ≤ 15
    → hex_value n s < 2 ^ 60
    → read_digits e (s ++ rest) i n ≡ read_digits e rest (i + length s) (hex_value n s)
read_digits_value e [] rest i n h fits hv = ap (λ j. read_digits e rest j n) (omega arith)
read_digits_value e (c ∷ s) rest i n (hc, h) fits hv =
    let m = n * 16 + hex2int c in
    read_digit e c (s ++ rest) i n hc (omega arith) (omega (arith, le-hex_value s m))
    ∙ read_digits_value e s rest (i + 1) m h (omega arith) hv
    ∙ ap (λ j. read_digits e rest j (hex_value m s)) (omega arith)

fill_hex-length :
    (i k n : ℕ) (w out : Bytes)
    → n < 16 ^ suc k
    → fill_hex i n w ≡ some out
    → (1 ≤ length out) × (length out ≤ suc k + length w)
unfolding fill_hex
fill_hex-length zero k n w out h e = cc
fill_hex-length (suc i) zero n w out h e = ground arith
fill_hex-length (suc i) (suc k) n w out h e =
    ground
      (arith, pow-suc 16 (suc k), fill_hex-length i k (n / 16) (digit_of (bit_and n 15) ∷ w) out)

-- What may follow a number in the reader: the end of the input, or a byte that is no hex digit.
abbrev pub Stops : IoError → Bytes → Type 0
Stops e [] = e ≡ eof
Stops e (c ∷ r) = hex2int c ≡ 16

read_digits_stop :
    (e : IoError) (rest : Bytes) (i n : ℕ)
    → Stops e rest
    → 0 < i
    → read_digits e rest i n ≡ (pos n, none, rest)
unfolding read_digits
read_digits_stop e [] i n h p = ground arith
read_digits_stop e (c ∷ r) i n h p = ground arith

-- A number below 16^15 is written, and read back from in front of whatever cannot be taken for
-- one more digit, which is left in the reader.
pub read_hex_int-write_hex_int :
    (e : IoError) (n : ℕ) (rest : Bytes)
    → n < 16 ^ 15
    → Stops e rest
    → (out : Bytes) × (write_hex_int (pos n) ≡ some out)
      × (read_hex_int e (out ++ rest) ≡ (pos n, none, rest))
read_hex_int-write_hex_int e n rest h stops = elim (Option-cases (fill_hex 16 n [])) [
  | inl no_room ↦ absurd (fill_hex_total 16 n [] (omega arith) (omega arith) no_room)
  | inr (out, written) ↦
      let (ne, digits, exact) = fill_hex_value 16 n [] out written tt in
      let (some_digit, few) = fill_hex-length 16 14 n [] out h written in
      let read = read_digits_value e out rest 0 0 digits (omega arith) (omega arith) in
      let stopped =
        read_digits_stop e rest (0 + length out) (hex_value 0 out) stops (omega arith) in
      (
        out,
        unfold write_hex_int in written,
        unfold read_hex_int in (read ∙ stopped ∙ ap (λ m. (pos m, none, rest)) exact),
      )
]

hex2int-le : (c : ℕ) → hex2int c ≤ 16
unfolding hex2int
hex2int-le c = ground arith

shift_fits :
    (n d k : ℕ) → d < 16 → (n + 1) * 16 ^ suc k ≤ 2 ^ 60 → (n * 16 + d + 1) * 16 ^ k ≤ 2 ^ 60
shift_fits n d k hd h = omega (
  arith,
  mul-le-mul_right {m = n * 16 + d + 1} {n = (n + 1) * 16} (16 ^ k) (omega arith),
  ap (λ (t : ℕ). (n + 1) * t) (pow-suc 16 k),
)

fits_lt : (n k : ℕ) → (n + 1) * 16 ^ k ≤ 2 ^ 60 → n < 2 ^ 60
fits_lt n k h = grind (arith, one-le-pow k 16)

read_digits_bound :
    (e : IoError) (s : Bytes) (i k n r : ℕ) (rest : Bytes)
    → i + k ≡ 15
    → (n + 1) * 16 ^ k ≤ 2 ^ 60
    → read_digits e s i n ≡ (pos r, none, rest)
    → r < 2 ^ 60
unfolding read_digits
read_digits_bound eof [] i k n r rest hi hn h = ground (arith, fits_lt n k hn)
read_digits_bound io_error [] i k n r rest hi hn h = cc
read_digits_bound e (c ∷ s) i zero n r rest hi hn h = ground (arith, fits_lt n zero hn)
read_digits_bound e (c ∷ s) i (suc k) n r rest hi hn h =
    let d = hex2int c in
    ground (
      arith,
      hex2int-le c,
      fits_lt n (suc k) hn,
      shift_in n d (fits_lt n (suc k) hn),
      shift_fits n d k,
      read_digits_bound e s (i + 1) k (n * 16 + d) r rest,
    )

-- A number that the reader accepts is below 16^15, so that no shift drops a bit.
pub read_hex_int-lt :
    (e : IoError) (s : Bytes) (r : ℕ) (rest : Bytes)
    → read_hex_int e s ≡ (pos r, none, rest)
    → r < 16 ^ 15
unfolding read_hex_int
read_hex_int-lt e s r rest h = read_digits_bound e s 0 15 0 r rest refl (omega arith) h
