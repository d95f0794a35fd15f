-- ===== src/Bytesconv/Ip/RoundTrip.antt =====
-- Addresses in text and as 32-bit numbers.
use fasthttp.Base.{
  ℕ, zero, suc, ◌+◌, ◌*◌, ◌/◌, ◌%◌, ◌^◌, ◌<◌, [], ◌∷◌, ◌++◌, append_assoc, none, some, ◌≡◌, ◌≢◌,
  refl, ap, ◌∙◌, arith, Bytes, AreBytes, take, drop, index_byte, length, All, bit_or_shifted, pos,
  set,
}
use fasthttp.Bytesconv.Decimal.{append_uint, parse_uint}
use fasthttp.Bytesconv.Decimal.Parse.{IsDigit}
use fasthttp.Bytesconv.Decimal.Print.{parse_uint-append_uint}
use fasthttp.Bytesconv.Ip.{
  append_ipv4, append_parts, parse_ipv4, parse_parts, store_part, ip2uint32, uint322ip,
}

ip2uint32-sum :
    (a b c d : ℕ)
    → AreBytes (a ∷ b ∷ c ∷ d ∷ [])
    → ip2uint32 (a ∷ b ∷ c ∷ d ∷ []) ≡ ((a * 256 + b) * 256 + c) * 256 + d
unfolding ip2uint32
ip2uint32-sum a b c d (ha, (hb, (hc, (hd, _)))) = ground (
  arith,
  bit_or_shifted 24 a (b * 2 ^ 16),
  bit_or_shifted 16 (a * 256 + b) (c * 2 ^ 8),
  bit_or_shifted 8 ((a * 256 + b) * 256 + c) d,
)

-- The four bytes of an address are read back from the 32-bit number made of them.
pub uint322ip-ip2uint32 :
    (a b c d : ℕ)
    → AreBytes (a ∷ b ∷ c ∷ d ∷ [])
    → uint322ip (ip2uint32 (a ∷ b ∷ c ∷ d ∷ [])) ≡ a ∷ b ∷ c ∷ d ∷ []
unfolding uint322ip
uint322ip-ip2uint32 a b c d h = ground (arith, ip2uint32-sum a b c d h)

-- A 32-bit number is read back from its bytes.
pub ip2uint32-uint322ip : (ip : ℕ) → ip < 2 ^ 32 → ip2uint32 (uint322ip ip) ≡ ip
unfolding uint322ip
ip2uint32-uint322ip ip h =
    ground (arith, ip2uint32-sum (ip / 2 ^ 24) (ip / 2 ^ 16 % 256) (ip / 2 ^ 8 % 256) (ip % 256))

no_dot : (s : Bytes) → All IsDigit s → All (λ x. x ≢ b'.') s
no_dot [] h = tt
no_dot (c ∷ s) (hc, h) = ((λ e. absurd (omega arith)), no_dot s h)

index_byte-append :
    (x : ℕ) (p s : Bytes) → All (λ c. c ≢ x) p → index_byte (p ++ x ∷ s) x ≡ some (length p)
unfolding index_byte
index_byte-append x [] s h = ground arith
index_byte-append x (c ∷ p) s (hc, h) = ground (arith, index_byte-append x p s h)

take-length : (p s : Bytes) → take (length p) (p ++ s) ≡ p
take-length [] s = refl
take-length (c ∷ p) s = ap (◌∷◌ c) (take-length p s)

drop-length : (p s : Bytes) (x : ℕ) → drop (suc (length p)) (p ++ x ∷ s) ≡ s
drop-length [] s x = refl
drop-length (c ∷ p) s x = drop-length p s x

-- One round of the loop over a part and the dot behind it.
parse_part :
    (rounds i c : ℕ) (dst p s : Bytes)
    → c < 256
    → parse_uint p ≡ (pos c, none)
    → All IsDigit p
    → parse_parts (suc rounds) i dst (p ++ b'.' ∷ s) ≡ parse_parts rounds (i + 1) (set dst i c) s
parse_part rounds i c dst p s h read digits =
    unfold parse_parts store_part in
    ground (
      arith,
      index_byte-append b'.' p s (no_dot p digits),
      take-length p (b'.' ∷ s),
      read,
      drop-length p s b'.',
    )

parse_last :
    (i c : ℕ) (dst p : Bytes)
    → c < 256
    → parse_uint p ≡ (pos c, none)
    → parse_parts zero i dst p ≡ (set dst i c, none)
parse_last i c dst p h read = unfold parse_parts store_part in ground (arith, read)

append-ne-nil :
    (p s : Bytes) (x : ℕ)
    → (dst : Bytes)
    → parse_ipv4 dst (p ++ x ∷ s) ≡ parse_parts 3 0 (0 ∷ 0 ∷ 0 ∷ 0 ∷ []) (p ++ x ∷ s)
unfolding parse_ipv4
append-ne-nil [] s x dst = refl
append-ne-nil (c ∷ p) s x dst = refl

abbrev Prints : ℕ → Bytes → Type 0
Prints c s = (dst : Bytes) → append_uint dst (pos c) ≡ some (dst ++ s)

append_part :
    (c : ℕ) (s dst ip : Bytes)
    → Prints c s
    → append_parts dst (c ∷ ip) ≡ append_parts ((dst ++ b'.' ∷ []) ++ s) ip
append_part c s dst ip w = unfold append_parts in ground (arith, w (dst ++ b'.' ∷ []))

append_all :
    (a b c d : ℕ) (sa sb sc sd : Bytes)
    → Prints a sa
    → Prints b sb
    → Prints c sc
    → Prints d sd
    → append_ipv4 [] (a ∷ b ∷ c ∷ d ∷ [])
      ≡ some (sa ++ (b'.' ∷ (sb ++ (b'.' ∷ (sc ++ (b'.' ∷ sd))))))
append_all a b c d sa sb sc sd wa wb wc wd =
    start
    ∙ append_part b sb sa _ wb
    ∙ append_part c sc _ _ wc
    ∙ append_part d sd _ _ wd
    ∙ (unfold append_parts in simp append_assoc)
  where
    start : append_ipv4 [] (a ∷ b ∷ c ∷ d ∷ []) ≡ append_parts sa (b ∷ c ∷ d ∷ [])
    start = unfold append_ipv4 in ground (arith, wa [])

-- `ParseIPv4` reads back every IPv4 address that `AppendIPv4` writes, into a destination of any
-- length and content.
pub parse_ipv4-append_ipv4 :
    (a b c d : ℕ) (dst : Bytes)
    → AreBytes (a ∷ b ∷ c ∷ d ∷ [])
    → (s : Bytes) × (append_ipv4 [] (a ∷ b ∷ c ∷ d ∷ []) ≡ some s)
      × (parse_ipv4 dst s ≡ (a ∷ b ∷ c ∷ d ∷ [], none))
parse_ipv4-append_ipv4 a b c d dst (ha, (hb, (hc, (hd, _)))) =
    let (sa, wa, ra, da) = parse_uint-append_uint a (omega arith) in
    let (sb, wb, rb, db) = parse_uint-append_uint b (omega arith) in
    let (sc, wc, rc, dc) = parse_uint-append_uint c (omega arith) in
    let (sd, wd, rd, dd) = parse_uint-append_uint d (omega arith) in
    (
      sa ++ (b'.' ∷ (sb ++ (b'.' ∷ (sc ++ (b'.' ∷ sd))))),
      append_all a b c d sa sb sc sd wa wb wc wd,
      append-ne-nil sa _ b'.' dst
          ∙ parse_part 2 0 a _ sa _ ha ra da
          ∙ parse_part 1 1 b _ sb _ hb rb db
          ∙ parse_part 0 2 c _ sc _ hc rc dc
          ∙ parse_last 3 d _ sd hd rd,
    )
