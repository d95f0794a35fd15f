-- ===== src/Bytesconv/Decimal/Wrap.antt =====
-- Where the overflow test of `parseUintBuf` lets a wrapped value through.
use fasthttp.Base.{
  ℕ, ◌+◌, ◌-◌, ◌*◌, ◌^◌, ◌≤◌, ◌<◌, [], ◌∷◌, ◌++◌, none, ◌≡◌, ◌≢◌, refl, arith, Bytes, All, length,
  pos, int64_limit, length-append,
}
use fasthttp.Bytesconv.Decimal.{scan, parse_uint}
use fasthttp.Bytesconv.Decimal.Parse.{IsDigit, value, le-value}

value-append : (p q : Bytes) (n : ℕ) → value n (p ++ q) ≡ value (value n p) q
value-append [] q n = refl
value-append (c ∷ p) q n = value-append p q (n * 10 + (c - b'0'))

scan-append :
    (p q : Bytes) (i v : ℕ)
    → All IsDigit p
    → value v p < int64_limit
    → scan (p ++ q) i v ≡ scan q (i + length p) (value v p)
unfolding scan
scan-append [] q i v h fits = ground arith
scan-append (c ∷ p) q i v (hc, h) fits =
    let m = v * 10 + (c - b'0') in ground (arith, scan-append p q (i + 1) m h fits, le-value p m)

scan_last :
    (c i v : ℕ)
    → IsDigit c
    → v < int64_limit
    → 2 ^ 64 + v ≤ v * 10 + (c - b'0')
    → v * 10 + (c - b'0') < 2 ^ 64 + 2 ^ 63
    → scan (c ∷ []) i v ≡ (pos (v * 10 + (c - b'0') - 2 ^ 64), i + 1, none)
unfolding scan
scan_last c i v h fits lo hi = ground arith

-- A number of at least 2^64 is accepted, with a wrapped value, where the last digit takes the
-- value into the range that the overflow test does not see.
pub parse_uint_wraps :
    (p : Bytes) (c : ℕ)
    → p ≢ []
    → All IsDigit p
    → IsDigit c
    → value 0 p < int64_limit
    → 2 ^ 64 + value 0 p ≤ value 0 (p ++ c ∷ [])
    → value 0 (p ++ c ∷ []) < 2 ^ 64 + 2 ^ 63
    → parse_uint (p ++ c ∷ []) ≡ (pos (value 0 (p ++ c ∷ []) - 2 ^ 64), none)
unfolding parse_uint
parse_uint_wraps [] c ne h hc fits lo hi = absurd (ne refl)
parse_uint_wraps (d ∷ p) c ne h hc fits lo hi = ground (
  arith,
  scan-append (d ∷ p) (c ∷ []) 0 0 h fits,
  value-append (d ∷ p) (c ∷ []) 0,
  length-append (d ∷ p) (c ∷ []),
  scan_last c (0 + length (d ∷ p)) (value 0 (d ∷ p)) hc fits,
)
