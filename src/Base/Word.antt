-- ===== src/Base/Word.antt =====
-- Machine integers as bit patterns, and the signed integers that they stand for.
use Prim.Native.Nat.{ℕ, ◌+◌, ◌-◌, ◌%◌, ◌^◌}
use mathlib.Core.Bool.{Bool, true, false}
use fasthttp.Base.Tests.{ltb, leb, if◌then◌else◌}

-- `negsuc n` is -(n + 1).
pub data ℤ : Type 0 where
  pos : ℕ → ℤ
  negsuc : ℕ → ℤ

-- `byte(x)`, `uint32(x)` and `uint64(x)`.
abbrev pub byte : ℕ → ℕ
byte x = x % 256

abbrev pub u32 : ℕ → ℕ
u32 x = x % 2 ^ 32

abbrev pub u64 : ℕ → ℕ
u64 x = x % 2 ^ 64

-- `c - k` on bytes.
abbrev pub byte_sub : ℕ → ℕ → ℕ
byte_sub c k = (c + 256 - k) % 256

-- The values of an int64 that are not negative are the patterns below this bound.
abbrev pub int64_limit : ℕ
int64_limit = 2 ^ 63

-- `a < b` on int64, on the patterns of 64 bits.
abbrev pub int64_lt : ℕ → ℕ → Bool
int64_lt a b =
    if leb int64_limit a
    then (if leb int64_limit b then ltb a b else true)
    else (if leb int64_limit b then false else ltb a b)
