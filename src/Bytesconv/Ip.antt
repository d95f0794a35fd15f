-- ===== src/Bytesconv/Ip.antt =====
-- `AppendIPv4`, `ParseIPv4` (bytesconv.go), `ip2uint32` and `uint322ip` (peripconn.go). A
-- `net.IP` is its bytes.
pub mod RoundTrip
use fasthttp.Base.{
  ℕ, zero, suc, ◌+◌, ◌*◌, ◌/◌, ◌^◌, List, [], ◌∷◌, ◌++◌, Option, none, some, ◌≡◌, refl, Bool, true,
  false, ltb, ◌==◌, ◌&&◌, if◌then◌else◌, Bytes, codes, take, drop, index_byte, equal, byte, u32,
  bit_or, length, ℤ, pos, negsuc, set,
}
use fasthttp.Bytesconv.Decimal.{IntError, append_uint, parse_uint}

pub data IpError : Type 0 where
  empty_ip_str cannot_find_dot : IpError
  bad_part : IntError → IpError
  part_too_large : ℕ → IpError

-- The bytes of `net.v4InV6Prefix`.
abbrev v4_in_v6_prefix : Bytes
v4_in_v6_prefix = 0 ∷ 0 ∷ 0 ∷ 0 ∷ 0 ∷ 0 ∷ 0 ∷ 0 ∷ 0 ∷ 0 ∷ 255 ∷ 255 ∷ []

-- `net.IP.To4`, `none` for nil.
pub to4 : Bytes → Option Bytes
to4 ip =
    if length ip == 4
    then some ip
    else if length ip == 16 && equal (take 12 ip) v4_in_v6_prefix
    then some (drop 12 ip)
    else none

-- `none` is a panic.
pub append_parts : Bytes → Bytes → Option Bytes
append_parts dst [] = some dst
append_parts dst (c ∷ ip) = elim (append_uint (dst ++ b'.' ∷ []) (pos c)) [
  | none ↦ none
  | some out ↦ append_parts out ip
]

pub append_v4 : Bytes → Option Bytes → Option Bytes
append_v4 dst none = some (dst ++ codes "non-v4 ip passed to AppendIPv4")
append_v4 dst (some []) = none
append_v4 dst (some (c ∷ ip)) = elim (append_uint dst (pos c)) [
  | none ↦ none
  | some out ↦ append_parts out ip
]

unfoldable pub append_ipv4 : Bytes → Bytes → Option Bytes
unfolding append_v4 append_parts to4
append_ipv4 dst ip = append_v4 dst (to4 ip)

-- `dst[i] = byte(v)` where the part is a number of one byte.
pub store_part : ℕ → Bytes → ℤ × Option IntError → Bytes × Option IpError
store_part i dst (v, some err) = (dst, some (bad_part err))
store_part i dst (negsuc _, none) = (dst, none)
store_part i dst (pos v, none) =
    if ltb 255 v then (dst, some (part_too_large v)) else (set dst i (byte v), none)

-- The rounds left of the loop over the first three parts, then the last part; `i` is the position
-- of the next part.
pub parse_parts : ℕ → ℕ → Bytes → Bytes → Bytes × Option IpError
unfolding store_part
parse_parts zero i dst b = store_part i dst (parse_uint b)
parse_parts (suc rounds) i dst b = elim (index_byte b b'.') [
  | none ↦ (dst, some cannot_find_dot)
  | some n ↦
      let p = store_part i dst (parse_uint (take n b)) in
      elim p.1 [
        | some err ↦ (p.0, some err)
        | none ↦ parse_parts rounds (i + 1) p.0 (drop (suc n) b)
      ]
]

-- The destination, which is returned with the error too.
unfoldable pub parse_ipv4 : Bytes → Bytes → Bytes × Option IpError
unfolding parse_parts
parse_ipv4 dst [] = (dst, some empty_ip_str)
parse_ipv4 dst (c ∷ s) = parse_parts 3 0 (0 ∷ 0 ∷ 0 ∷ 0 ∷ []) (c ∷ s)

unfoldable pub ip2uint32 : Bytes → ℕ
ip2uint32 (a ∷ b ∷ c ∷ d ∷ []) =
    bit_or (bit_or (bit_or (u32 (a * 2 ^ 24)) (u32 (b * 2 ^ 16))) (u32 (c * 2 ^ 8))) d
ip2uint32 _ = 0

unfoldable pub uint322ip : ℕ → Bytes
uint322ip ip = byte (ip / 2 ^ 24) ∷ byte (ip / 2 ^ 16) ∷ byte (ip / 2 ^ 8) ∷ byte ip ∷ []

ip_tests :
    (parse_ipv4 [] (codes "10.0.200.7") ≡ (10 ∷ 0 ∷ 200 ∷ 7 ∷ [], none))
    × (parse_ipv4 [] (codes "1.256.0.0") ≡ (1 ∷ 0 ∷ 0 ∷ 0 ∷ [], some (part_too_large 256)))
    × (append_ipv4 [] (10 ∷ 0 ∷ 200 ∷ 7 ∷ []) ≡ some (codes "10.0.200.7"))
unfolding parse_ipv4 append_ipv4 append_uint parse_uint index_byte
ip_tests = (refl, refl, refl)
