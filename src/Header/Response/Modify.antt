-- ===== src/Header/Response/Modify.antt =====
-- `Set`, `Add`, `Del` and `Peek` of a `ResponseHeader`, and its trailers (header.go).
use Prim.Native.Nat.{bit_or}
use fasthttp.Base.{
  ℕ, zero, List, [], ◌∷◌, ◌++◌, Option, none, some, Bool, true, false, ◌==◌, if◌then◌else◌, Bytes,
  codes, equal, pos, negsuc, index,
}
use fasthttp.Args.{ArgsKv, Slots, append_arg, set_arg, del_all_args, peek_arg, peek_all}
use fasthttp.Args.Scan.{is_empty}
use fasthttp.Bytesconv.Decimal.{append_uint}
use fasthttp.Cookie.Request.{append_response_cookie_bytes}
use fasthttp.Header.Errors.{ok, err}
use fasthttp.Header.Lines.{parse_content_length}
use fasthttp.Header.Names.{
  str_crlf, str_comma_space, str_close, str_chunked, header_server, header_date,
  header_content_type, header_content_encoding, header_content_length, header_trailer,
  header_set_cookie, header_connection, header_transfer_encoding, init_header_k, init_header_v,
}
use fasthttp.Header.Request.{or_nil, append_args_key_bytes, append_header_line}
use fasthttp.Header.Response.{ResponseHeader, get_content_type}
use fasthttp.Header.Response.Parse.{add_cookie}
use fasthttp.Header.Trailer.{response_set_trailer}

abbrev emptied : Slots → Slots
emptied s = record { live = []; spare = s.live ++ s.spare }

-- `setNonSpecial` and `ResetConnectionClose`
unfoldable pub set_non_special : ResponseHeader → Bytes → Bytes → ResponseHeader
unfolding set_arg
set_non_special h key value = record h { h = set_arg h.h key value false }

unfoldable pub reset_connection_close : ResponseHeader → ResponseHeader
unfolding del_all_args
reset_connection_close h =
    if h.connection_close
    then record h { connection_close = false; h = del_all_args h.h header_connection }
    else h

-- The cases of `setSpecialHeader`, by the first byte of the key; `none` is false.
pub set_length : ResponseHeader → Bytes → ResponseHeader
unfolding parse_content_length
set_length h value = elim (parse_content_length value) [
  | err _ ↦ h
  | ok n ↦ record h { content_length = n; content_length_bytes = value }
]

pub set_connection : ResponseHeader → Bytes → Bytes → ResponseHeader
unfolding reset_connection_close set_non_special
set_connection h key value =
    if equal str_close value
    then record h { connection_close = true }
    else set_non_special (reset_connection_close h) key value

pub set_special_c : ResponseHeader → Bytes → Bytes → Option ResponseHeader
unfolding set_length set_connection
set_special_c h key value =
    if equal header_content_type key
    then some (record h { content_type = value })
    else if equal header_content_length key
    then some (set_length h value)
    else if equal header_content_encoding key
    then some (record h { content_encoding = value })
    else if equal header_connection key
    then some (set_connection h key value)
    else none

pub set_special_s : ResponseHeader → Bytes → Bytes → Bool → Option ResponseHeader
unfolding add_cookie
set_special_s h key value overwrite =
    if equal header_server key
    then some (record h { server = value })
    else if equal header_set_cookie key
    then some (record h {
      cookies = add_cookie (if overwrite then emptied h.cookies else h.cookies) value;
    })
    else none

pub set_special_t : ResponseHeader → Bytes → Bytes → Option ResponseHeader
unfolding response_set_trailer
set_special_t h key value =
    if equal header_transfer_encoding key
    then some h
    else if equal header_trailer key
    then some
        (record h { trailer = (response_set_trailer h.disable_normalizing h.trailer value).0 })
    else none

pub set_special_at : ℕ → ResponseHeader → Bytes → Bytes → Bool → Option ResponseHeader
unfolding set_special_c set_special_s set_special_t
set_special_at c h key value overwrite =
    if c == b'c'
    then set_special_c h key value
    else if c == b's'
    then set_special_s h key value overwrite
    else if c == b't'
    then set_special_t h key value
    else if c == b'd'
    then (if equal header_date key then some h else none)
    else none

-- `setSpecialHeader`
unfoldable pub set_special_header : ResponseHeader → Bytes → Bytes → Bool → Option ResponseHeader
unfolding set_special_at
set_special_header h [] value overwrite = none
set_special_header h (c ∷ key) value overwrite =
    set_special_at (bit_or c 32) h (c ∷ key) value overwrite

-- `setCanonical`, and `SetBytesKV`, which the other setters call
unfoldable pub set_canonical : ResponseHeader → Bytes → Bytes → ResponseHeader
unfolding set_special_header set_non_special
set_canonical h key value = elim (set_special_header h key value true) [
  | some h' ↦ h'
  | none ↦ set_non_special h key value
]

unfoldable pub set_bytes_kv : ResponseHeader → Bytes → Bytes → ResponseHeader
unfolding set_canonical init_header_k init_header_v
set_bytes_kv h key value =
    set_canonical h (init_header_k key h.disable_normalizing) (init_header_v value)

-- `addCanonical`, and `AddBytesKV`, which the other `Add` methods call
unfoldable pub add_canonical : ResponseHeader → Bytes → Bytes → ResponseHeader
unfolding set_special_header append_arg
add_canonical h key value = elim (set_special_header h key value false) [
  | some h' ↦ h'
  | none ↦ record h { h = append_arg h.h key value false }
]

unfoldable pub add_bytes_kv : ResponseHeader → Bytes → Bytes → ResponseHeader
unfolding add_canonical init_header_k init_header_v
add_bytes_kv h key value =
    add_canonical h (init_header_k key h.disable_normalizing) (init_header_v value)

-- The field that `del` clears for a name that it knows.
pub clear : ResponseHeader → Bytes → ResponseHeader
clear h key =
    if equal key header_content_type
    then record h { content_type = [] }
    else if equal key header_content_encoding
    then record h { content_encoding = [] }
    else if equal key header_server
    then record h { server = [] }
    else if equal key header_set_cookie
    then record h { cookies = emptied h.cookies }
    else if equal key header_content_length
    then record h { content_length = negsuc 1; content_length_bytes = [] }
    else if equal key header_connection
    then record h { connection_close = false }
    else if equal key header_trailer
    then record h { trailer = emptied h.trailer }
    else h

-- `del`, and `DelBytes`, which `Del` calls
unfoldable pub del : ResponseHeader → Bytes → ResponseHeader
unfolding clear del_all_args
del h key = record (clear h key) { h = del_all_args h.h key }

unfoldable pub del_bytes : ResponseHeader → Bytes → ResponseHeader
unfolding del init_header_k
del_bytes h key = del h (init_header_k key h.disable_normalizing)

-- The cases of `peekSpecial` on a name that begins with 'C', 'S' and 'T'; `none` is false. The copy of
-- the digits that is left in `contentLengthBytes` is not modelled. Where the
-- length of the body is not positive its name is found, with no value.
pub peek_length : ResponseHeader → Option Bytes
unfolding append_uint
peek_length h = elim h.content_length [
  | negsuc _ ↦ some []
  | pos n ↦ if n == 0 then some [] else some (or_nil (append_uint [] (pos n)))
]

pub peek_special_c : ResponseHeader → Bytes → Option Bytes
unfolding get_content_type peek_length
peek_special_c h key =
    if equal key header_content_type
    then some (get_content_type h)
    else if equal key header_content_encoding
    then some h.content_encoding
    else if equal key header_connection
    then (if h.connection_close then some str_close else none)
    else if equal key header_content_length
    then peek_length h
    else none

pub peek_special_s : ResponseHeader → Bytes → Option Bytes
unfolding append_response_cookie_bytes
peek_special_s h key =
    if equal key header_server
    then some h.server
    else if equal key header_set_cookie
    then some (append_response_cookie_bytes [] h.cookies.live)
    else none

pub peek_special_t : ResponseHeader → Bytes → Option Bytes
unfolding append_args_key_bytes
peek_special_t h key =
    if equal key header_trailer
    then some (append_args_key_bytes [] h.trailer.live str_comma_space)
    else if equal key header_transfer_encoding
    then some (elim h.content_length [ negsuc zero ↦ str_chunked | _ ↦ [] ])
    else none

-- `peekSpecial`
unfoldable pub peek_special : ResponseHeader → Bytes → Option Bytes
unfolding peek_special_c peek_special_s peek_special_t
peek_special h [] = none
peek_special h (c ∷ key) =
    if c == b'C'
    then peek_special_c h (c ∷ key)
    else if c == b'S'
    then peek_special_s h (c ∷ key)
    else if c == b'T'
    then peek_special_t h (c ∷ key)
    else none

-- `peek` and `PeekBytes`
unfoldable pub peek : ResponseHeader → Bytes → Bytes
unfolding peek_special
peek h key = elim (peek_special h key) [ some r ↦ r | none ↦ or_nil (peek_arg h.h.live key) ]

unfoldable pub peek_bytes : ResponseHeader → Bytes → Bytes
unfolding peek init_header_k
peek_bytes h key = peek h (init_header_k key h.disable_normalizing)

-- `peekAll`
unfoldable pub peek_values : ResponseHeader → Bytes → List Bytes
unfolding peek_special peek_all
peek_values h key = elim (peek_special h key) [
  | none ↦ peek_all [] h.h.live key
  | some r ↦ if is_empty r then peek_all [] h.h.live key else r ∷ []
]

-- `addVaryBytes`
unfoldable pub add_vary_bytes : ResponseHeader → Bytes → ResponseHeader
unfolding peek set_bytes_kv index
add_vary_bytes h value =
    let v = peek h (codes "Vary") in
    if is_empty v then set_bytes_kv h (codes "Vary") value else elim (index v value) [
      | none ↦ set_bytes_kv h (codes "Vary") (v ++ b',' ∷ value)
      | some _ ↦ h
    ]

-- `TrailerHeader`
pub trailer_lines : ResponseHeader → Bytes → List ArgsKv → Bytes
unfolding append_header_line peek
trailer_lines h dst [] = dst
trailer_lines h dst (t ∷ trailer) =
    trailer_lines h (append_header_line dst t.key (peek h t.key)) trailer

unfoldable pub trailer_header : ResponseHeader → Bytes
unfolding trailer_lines
trailer_header h = trailer_lines h [] h.trailer.live ++ str_crlf
