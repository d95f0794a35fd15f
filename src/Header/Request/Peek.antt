-- ===== src/Header/Request/Peek.antt =====
-- What a `RequestHeader` returns for a name (header.go), and its trailers' text.
use fasthttp.Base.{
  zero, List, [], ◌∷◌, ◌++◌, Option, none, some, ◌==◌, if◌then◌else◌, Bytes, equal, negsuc,
}
use fasthttp.Args.{ArgsKv, peek_arg, peek_all, peek_args_keys}
use fasthttp.Args.Scan.{is_empty}
use fasthttp.Cookie.Request.{append_request_cookie_bytes}
use fasthttp.Header.Names.{
  str_crlf, str_comma_space, str_close, str_chunked, header_host, header_user_agent,
  header_content_type, header_content_length, header_trailer, header_cookie, header_connection,
  header_transfer_encoding, init_header_k,
}
use fasthttp.Header.Request.{
  RequestHeader, or_nil, get_host, get_user_agent, get_content_type, append_args_key_bytes,
  append_header_line,
}
use fasthttp.Header.Request.Modify.{collect_cookies}

pub peek_special_c : RequestHeader → Bytes → Option Bytes
unfolding get_content_type append_request_cookie_bytes
peek_special_c h key =
    if equal key header_content_type
    then some (get_content_type h)
    else if equal key header_cookie
    then (if h.cookies_collected
        then some (append_request_cookie_bytes [] h.cookies.live)
        else none)
    else if equal key header_connection
    then (if h.connection_close then some str_close else none)
    else if equal key header_content_length
    then some h.content_length_bytes
    else none

-- `peekSpecial`; `none` is false.
unfoldable pub peek_special : RequestHeader → Bytes → Option Bytes
unfolding get_host get_user_agent peek_special_c append_args_key_bytes
peek_special h [] = none
peek_special h (c ∷ key) =
    if c == b'H'
    then (if equal (c ∷ key) header_host then some (get_host h) else none)
    else if c == b'U'
    then (if equal (c ∷ key) header_user_agent then some (get_user_agent h) else none)
    else if c == b'C'
    then peek_special_c h (c ∷ key)
    else if c == b'T'
    then if equal (c ∷ key) header_trailer
      then some (append_args_key_bytes [] h.trailer.live str_comma_space)
      else none
    else none

-- `peek` and `PeekBytes`
unfoldable pub peek : RequestHeader → Bytes → Bytes
unfolding peek_special
peek h key = elim (peek_special h key) [ some r ↦ r | none ↦ or_nil (peek_arg h.h.live key) ]

unfoldable pub peek_bytes : RequestHeader → Bytes → Bytes
unfolding peek init_header_k
peek_bytes h key = peek h (init_header_k key h.disable_normalizing)

-- `peekAll`
unfoldable pub peek_values : RequestHeader → Bytes → List Bytes
unfolding peek_special peek_all
peek_values h key = elim (peek_special h key) [
  | none ↦ peek_all [] h.h.live key
  | some r ↦ if is_empty r then peek_all [] h.h.live key else r ∷ []
]

-- `TransferEncoding`
unfoldable pub transfer_encoding : RequestHeader → Bytes
unfolding peek
transfer_encoding h =
    let t = peek h header_transfer_encoding in
    let chunked : Bytes = elim h.content_length [ negsuc zero ↦ str_chunked | _ ↦ [] ] in
    if is_empty t then chunked else t

-- `PeekKeys` and `PeekTrailerKeys`
unfoldable pub peek_keys : RequestHeader → List Bytes
peek_keys h = peek_args_keys [] h.h.live

unfoldable pub peek_trailer_keys : RequestHeader → List Bytes
peek_trailer_keys h = peek_args_keys [] h.trailer.live

-- `CookieBytes`
unfoldable pub cookie_bytes : RequestHeader → Bytes → RequestHeader × Option Bytes
unfolding collect_cookies
cookie_bytes h key = let c = collect_cookies h in (c, peek_arg c.cookies.live key)

-- `TrailerHeader`
pub trailer_lines : RequestHeader → Bytes → List ArgsKv → Bytes
unfolding append_header_line peek
trailer_lines h dst [] = dst
trailer_lines h dst (t ∷ trailer) =
    trailer_lines h (append_header_line dst t.key (peek h t.key)) trailer

unfoldable pub trailer_header : RequestHeader → Bytes
unfolding trailer_lines
trailer_header h = trailer_lines h [] h.trailer.live ++ str_crlf
