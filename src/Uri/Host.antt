-- ===== src/Uri/Host.antt =====
-- `parseHost` and `unescape` (uri.go).
pub mod Unescape
use fasthttp.Base.{
  ℕ, zero, suc, ◌+◌, ◌*◌, List, [], ◌∷◌, ◌++◌, Option, none, some, ◌≡◌, refl, Bool, true, false,
  ltb, leb, ◌==◌, ◌&&◌, ◌||◌, not, if◌then◌else◌, Bytes, codes, byte, bit_and, bit_or, take, drop,
  index, last_index_byte, equal,
}
use fasthttp.Bytesconv.Tables.{among, hex2int}

pub data Encoding : Type 0 where
  encode_host encode_zone : Encoding

-- `EscapeError`, `InvalidHostError` and the two errors that `parseHost` makes.
pub data HostError : Type 0 where
  escape_error : Bytes → HostError
  invalid_host_error : Bytes → HostError
  missing_bracket : HostError
  invalid_port : Bytes → HostError

-- `shouldEscape`, which treats the two modes that there are alike.
unfoldable pub should_escape : ℕ → Bool
should_escape c = not (
    leb b'a' c && leb c b'z'
    || leb b'A' c && leb c b'Z'
    || leb b'0' c && leb c b'9'
    || among c (codes "!$&'()*+,;=:[]<>\"")
    || c == b'-'
    || c == b'_'
    || c == b'.'
    || c == b'~')

unfoldable pub is_hex : ℕ → Bool
is_hex c = ltb (hex2int c) 16

pub unhex : ℕ → ℕ
unhex c = bit_and (hex2int c) 15

-- `unhex(a)<<4 | unhex(b)`
pub spelled : ℕ → ℕ → ℕ
unfolding unhex
spelled a b = bit_or (byte (unhex a * 16)) (unhex b)

-- `bytes.Equal(s[i:i+3], []byte("%25"))`
abbrev is_percent : ℕ → ℕ → Bool
is_percent a b = a == b'2' && b == b'5'

-- What the first loop makes of an escape.
pub check_escape : Encoding → ℕ → ℕ → Option HostError
check_escape encode_host a b =
    if ltb (unhex a) 8 && not (is_percent a b)
    then some (escape_error (b'%' ∷ a ∷ b ∷ []))
    else none
check_escape encode_zone a b =
    let v = spelled a b in
    if not (is_percent a b) && not (v == b' ') && should_escape v
    then some (escape_error (b'%' ∷ a ∷ b ∷ []))
    else none

unfoldable pub check_plain : ℕ → Option HostError
check_plain c = if ltb c 0x80 && should_escape c then some (invalid_host_error (c ∷ [])) else none

-- The error first, or what follows.
abbrev pub or_else : Option HostError → Option HostError → Option HostError
or_else none rest = rest
or_else (some e) rest = some e

-- The first loop of `unescape`.
unfoldable pub check : Encoding → Bytes → Option HostError
check mode [] = none
check mode (c ∷ []) = if c == b'%' then some (escape_error (c ∷ [])) else check_plain c
check mode (c ∷ a ∷ []) =
    let rest = check mode (a ∷ []) in
    if c == b'%' then some (escape_error (c ∷ a ∷ [])) else or_else (check_plain c) rest
check mode (c ∷ a ∷ b ∷ s) =
    let past = check mode s in
    let rest = check mode (a ∷ b ∷ s) in
    if c == b'%'
    then (if not (is_hex a) || not (is_hex b)
        then some (escape_error (c ∷ a ∷ b ∷ []))
        else or_else (check_escape mode a b) past)
    else or_else (check_plain c) rest

-- The second loop. An escape that is cut off would panic; the first loop refuses it, and here it
-- stands as it is.
pub build : Bytes → Bytes
build [] = []
build (c ∷ []) = c ∷ []
build (c ∷ a ∷ []) = c ∷ a ∷ []
build (c ∷ a ∷ b ∷ s) =
    let past = build s in
    let rest = build (a ∷ b ∷ s) in if c == b'%' then spelled a b ∷ past else c ∷ rest

-- `unescape`. Where there is no '%' the second loop would copy the text, which is returned.
unfoldable pub unescape : Bytes → Encoding → Bytes × Option HostError
unescape s mode = elim (check mode s) [
  | some e ↦ ([], some e)
  | none ↦ if among b'%' s then (build s, none) else (s, none)
]

abbrev all_digits : Bytes → Bool
all_digits [] = true
all_digits (b ∷ s) = not (ltb b b'0' || ltb b'9' b) && all_digits s

unfoldable pub valid_optional_port : Bytes → Bool
valid_optional_port [] = true
valid_optional_port (c ∷ port) = c == b':' && all_digits port

-- A literal address with a zone, in its three parts.
pub unescape_zoned : Bytes → ℕ → ℕ → Bytes × Option HostError
unfolding unescape
unescape_zoned host zone i =
    let (host1, err1) = unescape (take zone host) encode_host in
    let (host2, err2) = unescape (drop zone (take i host)) encode_zone in
    let (host3, err3) = unescape (drop i host) encode_host in
    elim err1 [
      | some e ↦ ([], some e)
      | none ↦ elim err2 [
        | some e ↦ ([], some e)
        | none ↦ elim err3 [ some e ↦ ([], some e) | none ↦ (host1 ++ host2 ++ host3, none) ]
      ]
    ]

pub parse_bracketed : Bytes → Option ℕ → Bytes × Option HostError
unfolding unescape_zoned unescape valid_optional_port index
parse_bracketed host none = ([], some missing_bracket)
parse_bracketed host (some i) =
    if not (valid_optional_port (drop (i + 1) host))
    then ([], some (invalid_port (drop (i + 1) host)))
    else elim (index (take i host) (codes "%25")) [
      | some zone ↦ unescape_zoned host zone i
      | none ↦ unescape host encode_host
    ]

pub parse_unbracketed : Bytes → Option ℕ → Bytes × Option HostError
unfolding unescape valid_optional_port
parse_unbracketed host none = unescape host encode_host
parse_unbracketed host (some i) =
    if not (valid_optional_port (drop i host))
    then ([], some (invalid_port (drop i host)))
    else unescape host encode_host

abbrev starts_with : ℕ → Bytes → Bool
starts_with c [] = false
starts_with c (x ∷ s) = x == c

unfoldable pub parse_host : Bytes → Bytes × Option HostError
unfolding parse_bracketed parse_unbracketed last_index_byte
parse_host host =
    if starts_with b'[' host
    then parse_bracketed host (last_index_byte host b']')
    else parse_unbracketed host (last_index_byte host b':')

pub parse_host-nil : parse_host [] ≡ ([], none)
unfolding parse_host last_index_byte unescape check parse_unbracketed
parse_host-nil = refl

host_tests :
    (parse_host (codes "foo.com:80") ≡ (codes "foo.com:80", none))
    × (parse_host (codes "[fe80::1%25en%20]:80") ≡ (codes "[fe80::1%en ]:80", none))
    × (parse_host (codes "a%41") ≡ ([], some (escape_error (codes "%41"))))
    × (parse_host (codes "[::1") ≡ ([], some missing_bracket))
unfolding parse_host check build check_escape check_plain spelled unhex unescape hex2int
    should_escape is_hex
host_tests = (refl, refl, refl, refl)
