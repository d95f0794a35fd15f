-- ===== src/Base/Bits.antt =====
-- `&` and `|` at variables: the low bits of a number, and numbers that share no bit.
use Prim.Native.Nat.{
  ℕ, zero, suc, ◌+◌, ◌*◌, ◌/◌, ◌%◌, ◌^◌, ◌≤◌, ◌<◌, min, max, bit_and, bit_or, digits,
  bit_and-bitwise, bit_or-bitwise,
}
use mathlib.Core.Path.{◌≡◌, refl, ap}
use native.Mathlib.Omega.{arith}
use native.Mathlib.Nat.{pow-suc}

-- The fuel of `digits` does not show, as long as it is enough.
same_digits :
    (f : ℕ → ℕ) (op : ℕ → ℕ → ℕ) (x y i j : ℕ)
    → x ≤ i
    → x ≤ j
    → digits f op i x y ≡ digits f op j x y
same_digits f op zero y zero zero hi hj = refl
same_digits f op zero y zero (suc j) hi hj = refl
same_digits f op zero y (suc i) zero hi hj = refl
same_digits f op zero y (suc i) (suc j) hi hj = refl
same_digits f op (suc x) y zero j hi hj = absurd (omega arith)
same_digits f op (suc x) y (suc i) zero hi hj = absurd (omega arith)
same_digits f op (suc x) y (suc i) (suc j) hi hj =
    omega (arith, same_digits f op (suc x / 2) (y / 2) i j (omega arith) (omega arith))

-- The lowest digit apart from the others.
bit_or_halves : (x y : ℕ) → bit_or x y ≡ max (x % 2) (y % 2) + 2 * bit_or (x / 2) (y / 2)
bit_or_halves zero y = omega (arith, bit_or-bitwise 0 y, bit_or-bitwise 0 (y / 2))
bit_or_halves (suc x) y =
    let fuel =
      same_digits (λ d. d) max (suc x / 2) (y / 2) x (suc x / 2) (omega arith) (omega arith) in
    omega (arith, fuel, bit_or-bitwise (suc x) y, bit_or-bitwise (suc x / 2) (y / 2))

bit_or_nothing : (fuel x : ℕ) → x ≤ fuel → bit_or x 0 ≡ x
bit_or_nothing fuel zero h = bit_or-bitwise 0 0
bit_or_nothing zero (suc x) h = absurd (omega arith)
bit_or_nothing (suc fuel) (suc x) h =
    let half = bit_or_nothing fuel (suc x / 2) (omega arith) in
    omega (arith, half, bit_or_halves (suc x) 0)

-- A number below 2^k fills the k bits that a shift to the left by k leaves empty.
pub bit_or_shifted : (k h l : ℕ) → l < 2 ^ k → bit_or (h * 2 ^ k) l ≡ h * 2 ^ k + l
bit_or_shifted zero h l lt =
    let e : l ≡ 0 = omega arith in
    rw e (omega (arith, bit_or_nothing (h * 1) (h * 1) (omega arith)))
bit_or_shifted (suc k) h l lt =
    let doubled : h * 2 ^ suc k ≡ 2 * (h * 2 ^ k) =
      omega (arith, ap (λ (t : ℕ). h * t) (pow-suc 2 k)) in
    ground (
      arith,
      doubled,
      bit_or_halves (h * 2 ^ suc k) l,
      bit_or_shifted k h (l / 2) (omega (arith, pow-suc 2 k)),
    )

bit_and_halves : (x y : ℕ) → bit_and x y ≡ min (x % 2) (y % 2) + 2 * bit_and (x / 2) (y / 2)
bit_and_halves zero y = omega (arith, bit_and-bitwise 0 y, bit_and-bitwise 0 (y / 2))
bit_and_halves (suc x) y =
    let fuel =
      same_digits (λ d. zero) min (suc x / 2) (y / 2) x (suc x / 2) (omega arith) (omega arith) in
    omega (arith, fuel, bit_and-bitwise (suc x) y, bit_and-bitwise (suc x / 2) (y / 2))

bit_and_nothing : (fuel x : ℕ) → x ≤ fuel → bit_and x 0 ≡ 0
bit_and_nothing fuel zero h = bit_and-bitwise 0 0
bit_and_nothing zero (suc x) h = absurd (omega arith)
bit_and_nothing (suc fuel) (suc x) h =
    let half = bit_and_nothing fuel (suc x / 2) (omega arith) in
    omega (arith, half, bit_and_halves (suc x) 0)

-- `a & 0xf`
pub bit_and_low4 : (a : ℕ) → bit_and a 15 ≡ a % 16
bit_and_low4 a = omega (
  arith,
  bit_and_halves a 15,
  bit_and_halves (a / 2) 7,
  bit_and_halves (a / 2 / 2) 3,
  bit_and_halves (a / 2 / 2 / 2) 1,
  bit_and_nothing (a / 2 / 2 / 2 / 2) (a / 2 / 2 / 2 / 2) (omega arith),
)
