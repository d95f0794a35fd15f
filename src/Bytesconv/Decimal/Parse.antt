-- ===== src/Bytesconv/Decimal/Parse.antt =====
-- What `ParseUint` accepts, and the number that it returns.
use fasthttp.Base.{
  ℕ, ◌+◌, ◌-◌, ◌*◌, ◌%◌, ◌^◌, ◌≤◌, ◌<◌, [], ◌∷◌, none, ◌≡◌, ◌≢◌, refl, arith, Bytes, AreBytes, All,
  length, ℤ, pos, negsuc, int64_limit, byte_sub, u64, int64_lt, ltb, ◌==◌, Bool-cases, inl, inr,
  some, Option,
}
use fasthttp.Bytesconv.Decimal.{IntError, scan, parse_uint_buf, parse_uint}

abbrev pub IsDigit : ℕ → Type 0
IsDigit c = (b'0' ≤ c) × (c ≤ b'9')

-- The number that digits spell behind `n`, with no bound.
abbrev pub value : ℕ → Bytes → ℕ
value n [] = n
value n (c ∷ s) = value (n * 10 + (c - b'0')) s

pub le-value : (digits : Bytes) (m : ℕ) → m ≤ value m digits
le-value [] m = omega arith
le-value (d ∷ digits) m = let rest = le-value digits (m * 10 + (d - b'0')) in omega (arith, rest)

value_mod :
    (s : Bytes) (v w : ℕ) → v % 2 ^ 64 ≡ w % 2 ^ 64 → value v s % 2 ^ 64 ≡ value w s % 2 ^ 64
value_mod [] v w h = h
value_mod (c ∷ s) v w h = value_mod s (v * 10 + (c - b'0')) (w * 10 + (c - b'0')) (omega arith)

scan_complete :
    (s : Bytes) (i v : ℕ)
    → All IsDigit s
    → value v s < int64_limit
    → scan s i v ≡ (pos (value v s), i + length s, none)
unfolding scan
scan_complete [] i v h fits = ground arith
scan_complete (c ∷ s) i v (hc, hs) fits =
    let m = v * 10 + (c - b'0') in ground (arith, scan_complete s (i + 1) m hs fits, le-value s m)

-- A text of one or more digits whose number is an int64 is parsed to that number, with no error.
pub parse_uint_complete :
    (s : Bytes)
    → s ≢ []
    → All IsDigit s
    → value 0 s < int64_limit
    → parse_uint s ≡ (pos (value 0 s), none)
unfolding parse_uint
parse_uint_complete [] ne h fits = absurd (ne refl)
parse_uint_complete (c ∷ s) ne h fits = ground (arith, scan_complete (c ∷ s) 0 0 h fits)

scan_sound :
    (s : Bytes) (i v r n : ℕ)
    → v < int64_limit
    → AreBytes s
    → scan s i v ≡ (pos r, n, none)
    → n ≡ i + length s
    → All IsDigit s × (r ≡ value v s % 2 ^ 64) × (r < int64_limit)
unfolding scan
scan_sound [] i v r n fits b h e = ground arith
scan_sound (c ∷ s) i v r n fits b h e =
    let w = (10 * v + (c + 256 - b'0') % 256) % 2 ^ 64 in
    ground (arith, scan_sound s (i + 1) w r n, value_mod s (v * 10 + (c - b'0')) w)

-- Whatever `ParseUint` accepts is one or more digits, and the result is the number that they
-- spell, reduced modulo 2^64, and is not negative.
pub parse_uint_sound :
    (s : Bytes) (r : ℕ)
    → AreBytes s
    → parse_uint s ≡ (pos r, none)
    → (s ≢ []) × All IsDigit s × (r ≡ value 0 s % 2 ^ 64) × (r < int64_limit)
unfolding parse_uint
parse_uint_sound [] r b h = ground arith
parse_uint_sound (c ∷ s) r b h =
    let p = scan (c ∷ s) 0 0 in ground (arith, scan_sound (c ∷ s) 0 0 r p.1)

-- A number without an error is not negative.
abbrev pub IsNatural : ℤ × Option IntError → Type 0
IsNatural (pos v, e) = Unit
IsNatural (negsuc v, none) = ⊥
IsNatural (negsuc v, some e) = Unit

scan-IsNatural : (b : Bytes) (i v : ℕ) → IsNatural ((scan b i v).0, (scan b i v).2)
unfolding scan
scan-IsNatural [] i v = tt
scan-IsNatural (c ∷ b) i v =
    let k = byte_sub c b'0' in
    elim (Bool-cases (ltb 9 k)) [
      | inl other ↦ elim (Bool-cases (i == 0)) [
        | inl start ↦ rw other (rw start tt)
        | inr behind ↦ rw other (rw behind tt)
      ]
      | inr digit ↦ elim (Bool-cases (int64_lt (u64 (10 * v + k)) v)) [
        | inl long ↦ rw digit (rw long tt)
        | inr fits ↦ rw digit (rw fits (scan-IsNatural b (i + 1) (u64 (10 * v + k))))
      ]
    ]

pub parse_uint-IsNatural : (b : Bytes) → IsNatural (parse_uint b)
unfolding parse_uint parse_uint_buf
parse_uint-IsNatural [] = tt
parse_uint-IsNatural (c ∷ b) = elim (Bool-cases ((scan (c ∷ b) 0 0).1 == length (c ∷ b))) [
  | inl whole ↦ rw whole (scan-IsNatural (c ∷ b) 0 0)
  | inr part ↦ rw part tt
]
