-- ===== src/Bytesconv/Decimal/Print.antt =====
-- The print of a number, and that it is read back.
use native.Mathlib.Nat.{pow-suc, one-le-pow}
use fasthttp.Base.{
  ℕ, zero, suc, ◌+◌, ◌/◌, ◌%◌, ◌^◌, ◌≤◌, ◌<◌, [], ◌∷◌, ◌++◌, none, some, ◌≡◌, ◌≢◌, refl, arith,
  Bytes, All, length, pos, int64_limit, Option-cases, ap, ◌↔◌, ◌∙◌, sym, dec_lt, inl, inr,
}
use fasthttp.Bytesconv.Decimal.{fill, append_uint, append_uint_into, parse_uint}
use fasthttp.Bytesconv.Decimal.Parse.{IsDigit, value, parse_uint_complete}

fill_total : (i n : ℕ) (w : Bytes) → n < 10 ^ i → 0 < i → fill i n w ≢ none
unfolding fill
fill_total zero n w h p = absurd (omega arith)
fill_total (suc zero) n w h p = ground arith
fill_total (suc (suc i)) n w h p =
    ground (arith, fill_total (suc i) (n / 10) ((48 + n % 10) ∷ w), pow-suc 10 (suc i))

fill_value :
    (i n : ℕ) (w out : Bytes)
    → fill i n w ≡ some out
    → All IsDigit w
    → (out ≢ []) × All IsDigit out × (value 0 out ≡ value n w)
unfolding fill
fill_value zero n w out h d = cc
fill_value (suc i) n w out h d = ground (arith, fill_value i (n / 10) ((48 + n % 10) ∷ w) out)

-- Every int64 that is not negative has a print: digits, which are appended to whatever `dst` is,
-- and which `ParseUint` reads back.
pub parse_uint-append_uint :
    (n : ℕ)
    → n < int64_limit
    → (out : Bytes) × ((dst : Bytes) → append_uint dst (pos n) ≡ some (dst ++ out))
      × (parse_uint out ≡ (pos n, none))
      × All IsDigit out
parse_uint-append_uint n h = elim (Option-cases (fill 20 n [])) [
  | inl e ↦ absurd (fill_total 20 n [] (omega arith) (omega arith) e)
  | inr (out, e) ↦
      let (ne, digits, exact) = fill_value 20 n [] out e tt in
      (
        out,
        λ dst. unfold append_uint in rw (e, append_uint),
        rw (parse_uint_complete out ne digits (omega arith)) (ap (λ m. (pos m, none)) exact),
        digits,
      )
]

fill_room : (i j n : ℕ) (w out : Bytes) → i ≤ j → fill i n w ≡ some out → fill j n w ≡ some out
unfolding fill
fill_room zero j n w out le h = cc
fill_room (suc i) zero n w out le h = absurd (omega arith)
fill_room (suc i) (suc j) n w out le h =
    ground (arith, fill_room i j (n / 10) ((48 + n % 10) ∷ w) out)

fill-none : (i n : ℕ) (w : Bytes) → 10 ^ i ≤ n → fill i n w ≡ none
unfolding fill
fill-none zero n w h = refl
fill-none (suc i) n w h =
    ground (arith, pow-suc 10 i, one-le-pow i 10, fill-none i (n / 10) ((48 + n % 10) ∷ w))

-- In a buffer of at least one byte `AppendUintInto` panics exactly where the number has more
-- digits than the buffer has bytes.
pub append_uint_into-ne-none :
    (dst : Bytes) (n : ℕ) → dst ≢ [] → (append_uint_into dst (pos n) ≢ none) ↔ (n < 10 ^ length dst)
append_uint_into-ne-none dst n h =
    unfold append_uint_into in
    (
      (λ some_out. elim (dec_lt n (10 ^ length dst)) [
        | yes fits ↦ fits
        | no long ↦ absurd (some_out (fill-none (length dst) n [] (omega arith)))
      ]),
      (λ fits. fill_total (length dst) n [] fits (positive dst h)),
    )
  where
    positive : (s : Bytes) → s ≢ [] → 0 < length s
    positive [] e = absurd (e refl)
    positive (c ∷ s) e = omega arith

-- In a buffer of at least 20 bytes the two functions give the same digits.
pub append_uint_into-append_uint :
    (dst : Bytes) (n : ℕ)
    → 20 ≤ length dst
    → n < int64_limit
    → append_uint_into dst (pos n) ≡ append_uint [] (pos n)
append_uint_into-append_uint dst n room h = elim (Option-cases (fill 20 n [])) [
  | inl e ↦ absurd (fill_total 20 n [] (omega arith) (omega arith) e)
  | inr (out, e) ↦
      unfold append_uint_into append_uint in
      (fill_room 20 (length dst) n [] out room e ∙ sym (rw (e, append_uint)))
]
