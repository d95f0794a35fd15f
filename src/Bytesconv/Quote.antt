-- ===== src/Bytesconv/Quote.antt =====
-- `AppendQuotedArg`, `appendQuotedPath` (bytesconv.go), `decodeArgAppend` and
-- `decodeArgAppendNoPlus` (args.go): URL encoding and decoding.
pub mod Decode
pub mod RoundTrip
use fasthttp.Base.{
  ℕ, ◌+◌, ◌*◌, ◌/◌, List, [], ◌∷◌, ◌++◌, Option, none, some, ◌≡◌, refl, Bool, true, false, ltb,
  ◌==◌, ◌&&◌, ◌||◌, not, if◌then◌else◌, Bytes, codes, get_or, take, drop, index_byte, byte, bit_and,
  bit_or,
}
use fasthttp.Bytesconv.Tables.{hex2int, quoted_arg_should_escape, quoted_path_should_escape}

abbrev pub upperhex : Bytes
upperhex = codes "0123456789ABCDEF"

-- '%', upperhex[c>>4], upperhex[c&0xf]
abbrev pub percent : ℕ → Bytes
percent c = b'%' ∷ get_or upperhex (c / 16) 0 ∷ get_or upperhex (bit_and c 0xf) 0 ∷ []

pub quote_byte : ℕ → Bytes
unfolding quoted_arg_should_escape
quote_byte c =
    if c == b' ' then b'+' ∷ [] else if quoted_arg_should_escape c then percent c else c ∷ []

unfoldable pub append_quoted_arg : Bytes → Bytes → Bytes
unfolding quote_byte
append_quoted_arg dst [] = dst
append_quoted_arg dst (c ∷ src) = append_quoted_arg (dst ++ quote_byte c) src

pub quote_path_byte : ℕ → Bytes
unfolding quoted_path_should_escape
quote_path_byte c = if quoted_path_should_escape c then percent c else c ∷ []

pub quote_path : Bytes → Bytes → Bytes
unfolding quote_path_byte
quote_path dst [] = dst
quote_path dst (c ∷ src) = quote_path (dst ++ quote_path_byte c) src

unfoldable pub append_quoted_path : Bytes → Bytes → Bytes
unfolding quote_path
append_quoted_path dst (c ∷ []) = if c == b'*' then dst ++ b'*' ∷ [] else quote_path dst (c ∷ [])
append_quoted_path dst src = quote_path dst src

-- The byte that stands for `c` where `c` starts no escape. The flag says whether '+' is a space.
pub plain : Bool → ℕ → ℕ
plain plus c = if plus && c == b'+' then b' ' else c

-- The slow path of both decoders, from the position of `src` on. The last two bytes can start no
-- escape, and a '%' there ends the loop.
pub decode_slow : Bool → Bytes → Bytes → Bytes
unfolding plain
decode_slow plus dst [] = dst
decode_slow plus dst (c ∷ []) = if c == b'%' then dst ++ c ∷ [] else dst ++ plain plus c ∷ []
decode_slow plus dst (c ∷ h ∷ []) =
    let rest = decode_slow plus (dst ++ plain plus c ∷ []) (h ∷ []) in
    if c == b'%' then dst ++ c ∷ h ∷ [] else rest
decode_slow plus dst (c ∷ h ∷ l ∷ src) =
    let x2 = hex2int l in
    let x1 = hex2int h in
    let escape = decode_slow plus (dst ++ bit_or (byte (x1 * 16)) x2 ∷ []) src in
    let copy = decode_slow plus (dst ++ plain plus c ∷ []) (h ∷ l ∷ src) in
    if c == b'%' && not (x1 == 16 || x2 == 16) then escape else copy

-- The first position of a '%' or a '+'; `none` is the fast path.
pub first_special : Option ℕ → Option ℕ → Option ℕ
first_special none none = none
first_special none (some p) = some p
first_special (some e) none = some e
first_special (some e) (some p) = if ltb p e then some p else some e

pub decode_from : Bool → Option ℕ → Bytes → Bytes → Bytes
unfolding decode_slow
decode_from plus none dst src = dst ++ src
decode_from plus (some i) dst src = decode_slow plus (dst ++ take i src) (drop i src)

unfoldable pub decode_arg_append : Bytes → Bytes → Bytes
unfolding decode_from first_special index_byte hex2int
decode_arg_append dst src =
    decode_from true (first_special (index_byte src b'%') (index_byte src b'+')) dst src

unfoldable pub decode_arg_append_no_plus : Bytes → Bytes → Bytes
unfolding decode_from index_byte hex2int
decode_arg_append_no_plus dst src = decode_from false (index_byte src b'%') dst src

quote_tests :
    (append_quoted_arg [] (codes "a b&c~%") ≡ codes "a+b%26c~%25")
    × (append_quoted_path [] (codes "/a b?") ≡ codes "/a%20b%3F")
    × (decode_arg_append [] (codes "a+b%26%zz%4") ≡ codes "a b&%zz%4")
    × (decode_arg_append_no_plus [] (codes "a+b%2F") ≡ codes "a+b/")
unfolding append_quoted_arg append_quoted_path decode_arg_append decode_arg_append_no_plus
    quoted_arg_should_escape quoted_path_should_escape
quote_tests = (refl, refl, refl, refl)
