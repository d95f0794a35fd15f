-- ===== src/Header/Names.antt =====
-- The names of headers (headers.go, strings.go), their normal form and their comparison, and the
-- removal of line breaks from a value (header.go).
pub mod Laws
use fasthttp.Base.{
  ℕ, ◌≡◌, refl, List, [], ◌∷◌, Bool, true, false, Option, none, some, ◌==◌, ◌||◌, min,
  if◌then◌else◌, Bytes, codes, equal, map, drop, take, ◌++◌, index_byte,
}
use fasthttp.Bytesconv.Tables.{to_lower, to_upper}
use fasthttp.Cookie.Scan.{case_insensitive_compare}

abbrev pub r_char : ℕ
r_char = 13

abbrev pub n_char : ℕ
n_char = 10

abbrev pub tab : ℕ
tab = 9

abbrev pub str_crlf : Bytes
str_crlf = r_char ∷ n_char ∷ []

abbrev pub str_http11 : Bytes
str_http11 = codes "HTTP/1.1"

abbrev pub header_content_type : Bytes
header_content_type = codes "Content-Type"

abbrev pub header_content_encoding : Bytes
header_content_encoding = codes "Content-Encoding"

abbrev pub header_content_length : Bytes
header_content_length = codes "Content-Length"

abbrev pub header_content_range : Bytes
header_content_range = codes "Content-Range"

abbrev pub header_connection : Bytes
header_connection = codes "Connection"

abbrev pub header_server : Bytes
header_server = codes "Server"

abbrev pub header_set_cookie : Bytes
header_set_cookie = codes "Set-Cookie"

abbrev pub header_cookie : Bytes
header_cookie = codes "Cookie"

abbrev pub header_transfer_encoding : Bytes
header_transfer_encoding = codes "Transfer-Encoding"

abbrev pub header_trailer : Bytes
header_trailer = codes "Trailer"

abbrev pub header_host : Bytes
header_host = codes "Host"

abbrev pub header_user_agent : Bytes
header_user_agent = codes "User-Agent"

abbrev pub header_date : Bytes
header_date = codes "Date"

abbrev pub str_close : Bytes
str_close = codes "close"

abbrev pub str_chunked : Bytes
str_chunked = codes "chunked"

abbrev pub str_keep_alive : Bytes
str_keep_alive = codes "keep-alive"

abbrev pub str_comma_space : Bytes
str_comma_space = b',' ∷ b' ' ∷ []

abbrev pub str_colon_space : Bytes
str_colon_space = b':' ∷ b' ' ∷ []

-- `headNameCompare`
unfoldable pub head_name_compare : Bytes → Bytes → Bool → Bool
unfolding case_insensitive_compare
head_name_compare a b disable_normalize =
    if disable_normalize then case_insensitive_compare a b else equal a b

-- The loop of `normalizeHeaderKeyV2`; the flag says that the byte before was a dash that the loop
-- took.
pub normalize_rest : Bool → Bytes → Bytes
unfolding to_upper to_lower
normalize_rest after_dash [] = []
normalize_rest true (c ∷ b) = to_upper c ∷ normalize_rest false b
normalize_rest false (c ∷ b) = (if c == b'-' then c else to_lower c) ∷ normalize_rest (c == b'-') b

-- `normalizeHeaderKeyV2`
unfoldable pub normalize_header_key : Bytes → Bytes
unfolding normalize_rest
normalize_header_key [] = []
normalize_header_key (c ∷ b) = to_upper c ∷ normalize_rest false b

-- `initHeaderK`
unfoldable pub init_header_k : Bytes → Bool → Bytes
unfolding normalize_header_key
init_header_k key disable_normalizing =
    if disable_normalizing then key else normalize_header_key key

-- The position from which `initHeaderV` and `removeNewLines` replace; `none` if there is no line
-- break, and 0 where there is no '\r'.
pub break_start : Option ℕ → Option ℕ → Option ℕ
break_start found_r none = found_r
break_start none (some n) = some 0
break_start (some r) (some n) = some (min r n)

abbrev pub blank_break : ℕ → ℕ
blank_break c = if c == r_char || c == n_char then b' ' else c

pub replace_from : Option ℕ → Bytes → Bytes
replace_from none raw = raw
replace_from (some start) raw = take start raw ++ map blank_break (drop start raw)

-- `initHeaderV` and `removeNewLines`
unfoldable pub init_header_v : Bytes → Bytes
unfolding break_start replace_from
init_header_v raw = replace_from (break_start (index_byte raw r_char) (index_byte raw n_char)) raw

names_tests :
    (normalize_header_key (codes "coNTENT-TYPe") ≡ codes "Content-Type")
    × (normalize_header_key (codes "x--y") ≡ codes "X--y")
    × (init_header_v (codes "a" ++ str_crlf ++ codes "b: c") ≡ codes "a  b: c")
unfolding normalize_header_key init_header_v index_byte
names_tests = (refl, refl, refl)
