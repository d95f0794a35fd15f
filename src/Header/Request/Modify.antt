-- ===== src/Header/Request/Modify.antt =====
-- `Set`, `Add`, `Del` and `Peek` of a `RequestHeader`, its cookies and its trailers (header.go).
pub mod Laws
use Prim.Native.Nat.{bit_or}
use fasthttp.Base.{
  ℕ, zero, suc, List, [], ◌∷◌, ◌++◌, Option, none, some, ◌≡◌, refl, Bool, true, false, ◌==◌, ◌&&◌,
  ◌||◌, not, if◌then◌else◌, Bytes, codes, equal, ℤ, pos, negsuc,
}
use fasthttp.Args.{ArgsKv, Slots, append_arg, set_arg, del_all_args, peek_arg, peek_all}
use fasthttp.Args.Scan.{is_empty}
use fasthttp.Bytesconv.Decimal.{append_uint}
use fasthttp.Cookie.Request.{append_request_cookie_bytes, parse_request_cookies}
use fasthttp.Cookie.Scan.{case_insensitive_compare}
use fasthttp.Header.Errors.{HeaderError, Result, ok, err}
use fasthttp.Header.Lines.{parse_content_length}
use fasthttp.Header.Names.{
  str_crlf, str_comma_space, str_close, str_chunked, header_host, header_user_agent,
  header_content_type, header_content_length, header_trailer, header_cookie, header_connection,
  header_transfer_encoding, init_header_k, init_header_v,
}
use fasthttp.Header.Request.{
  RequestHeader, or_nil, get_host, get_user_agent, get_content_type, append_args_key_bytes,
  append_header_line,
}
use fasthttp.Header.Trailer.{request_set_trailer}

abbrev emptied : Slots → Slots
emptied s = record { live = []; spare = s.live ++ s.spare }

-- `collectCookies`: the entries of Cookie headers become spare, and their cookies are parsed, in
-- order.
pub collect : List ArgsKv → List ArgsKv → Slots → Slots × Slots
unfolding case_insensitive_compare parse_request_cookies
collect [] spare cookies = (record { live = []; spare = spare }, cookies)
collect (kv ∷ live) spare cookies =
    let taken = case_insensitive_compare kv.key header_cookie in
    let (h, cookies') =
      collect live (if taken then kv ∷ spare else spare)
        (if taken then parse_request_cookies cookies kv.value else cookies) in
    (if taken then h else record h { live = kv ∷ h.live }, cookies')

unfoldable pub collect_cookies : RequestHeader → RequestHeader
unfolding collect
collect_cookies h = if h.cookies_collected then h else record h {
  h = (collect h.h.live h.h.spare h.cookies).0;
  cookies = (collect h.h.live h.h.spare h.cookies).1;
  cookies_collected = true;
}

-- `setNonSpecial`, `SetConnectionClose` and `ResetConnectionClose`
unfoldable pub set_non_special : RequestHeader → Bytes → Bytes → RequestHeader
unfolding set_arg
set_non_special h key value = record h { h = set_arg h.h key value false }

unfoldable pub reset_connection_close : RequestHeader → RequestHeader
unfolding del_all_args
reset_connection_close h =
    if h.connection_close
    then record h { connection_close = false; h = del_all_args h.h header_connection }
    else h

-- `SetContentLength`; `none` is a panic, of which there is none.
unfoldable pub set_content_length : RequestHeader → ℤ → Option RequestHeader
unfolding append_uint del_all_args set_arg
set_content_length h (pos n) = elim (append_uint [] (pos n)) [
  | none ↦ none
  | some b ↦ some (record h {
    content_length = pos n;
    content_length_bytes = b;
    h = del_all_args h.h header_transfer_encoding;
  })
]
set_content_length h (negsuc n) = some (record h {
  content_length = negsuc n;
  content_length_bytes = [];
  h = set_arg h.h header_transfer_encoding str_chunked false;
})

-- The cases of `setSpecialHeader`, by the first byte of the key; `none` is false.
pub set_length : RequestHeader → Bytes → RequestHeader
unfolding parse_content_length
set_length h value = elim (parse_content_length value) [
  | err _ ↦ h
  | ok n ↦ record h { content_length = n; content_length_bytes = value }
]

pub set_connection : RequestHeader → Bytes → Bytes → RequestHeader
unfolding reset_connection_close set_non_special
set_connection h key value =
    if equal str_close value
    then record h { connection_close = true }
    else set_non_special (reset_connection_close h) key value

pub set_cookie_header : RequestHeader → Bytes → Bool → RequestHeader
unfolding collect_cookies parse_request_cookies
set_cookie_header h value overwrite =
    let c = collect_cookies h in
    record c {
      cookies = parse_request_cookies (if overwrite then emptied c.cookies else c.cookies) value;
    }

pub set_special_c : RequestHeader → Bytes → Bytes → Bool → Option RequestHeader
unfolding set_length set_connection set_cookie_header
set_special_c h key value overwrite =
    if equal header_content_type key
    then some (record h { content_type = value })
    else if equal header_content_length key
    then some (set_length h value)
    else if equal header_connection key
    then some (set_connection h key value)
    else if equal header_cookie key
    then some (set_cookie_header h value overwrite)
    else none

pub set_special_t : RequestHeader → Bytes → Bytes → Option RequestHeader
unfolding request_set_trailer
set_special_t h key value =
    if equal header_transfer_encoding key
    then some h
    else if equal header_trailer key
    then some (record h { trailer = (request_set_trailer h.disable_normalizing h.trailer value).0 })
    else none

pub set_special_at : ℕ → RequestHeader → Bytes → Bytes → Bool → Option RequestHeader
unfolding set_special_c set_special_t
set_special_at c h key value overwrite =
    if c == b'c'
    then set_special_c h key value overwrite
    else if c == b't'
    then set_special_t h key value
    else if c == b'h'
    then (if equal header_host key then some (record h { host = value }) else none)
    else if c == b'u'
    then (if equal header_user_agent key then some (record h { user_agent = value }) else none)
    else none

-- `setSpecialHeader`
unfoldable pub set_special_header : RequestHeader → Bytes → Bytes → Bool → Option RequestHeader
unfolding set_special_at
set_special_header h [] value overwrite = none
set_special_header h (c ∷ key) value overwrite =
    if h.disable_special_header
    then none
    else set_special_at (bit_or c 32) h (c ∷ key) value overwrite

-- `setCanonical`, `SetCanonical`, and `SetBytesKV`, which the other setters call
unfoldable pub set_canonical : RequestHeader → Bytes → Bytes → RequestHeader
unfolding set_special_header set_non_special
set_canonical h key value = elim (set_special_header h key value true) [
  | some h' ↦ h'
  | none ↦ set_non_special h key value
]

unfoldable pub set_bytes_kv : RequestHeader → Bytes → Bytes → RequestHeader
unfolding set_canonical init_header_k init_header_v
set_bytes_kv h key value =
    set_canonical h (init_header_k key h.disable_normalizing) (init_header_v value)

-- `addCanonical`, and `AddBytesKV`, which the other `Add` methods call
unfoldable pub add_canonical : RequestHeader → Bytes → Bytes → RequestHeader
unfolding set_special_header append_arg
add_canonical h key value = elim (set_special_header h key value false) [
  | some h' ↦ h'
  | none ↦ record h { h = append_arg h.h key value false }
]

unfoldable pub add_bytes_kv : RequestHeader → Bytes → Bytes → RequestHeader
unfolding add_canonical init_header_k init_header_v
add_bytes_kv h key value =
    add_canonical h (init_header_k key h.disable_normalizing) (init_header_v value)

-- The field that `del` clears for a name that it knows.
pub clear : RequestHeader → Bytes → RequestHeader
clear h key =
    if equal key header_host
    then record h { host = [] }
    else if equal key header_content_type
    then record h { content_type = [] }
    else if equal key header_user_agent
    then record h { user_agent = [] }
    else if equal key header_cookie
    then record h { cookies = emptied h.cookies }
    else if equal key header_content_length
    then record h { content_length = pos 0; content_length_bytes = [] }
    else if equal key header_connection
    then record h { connection_close = false }
    else if equal key header_trailer
    then record h { trailer = emptied h.trailer }
    else h

-- `del`, `DelCanonical`, and `DelBytes`, which `Del` calls
unfoldable pub del : RequestHeader → Bytes → RequestHeader
unfolding clear del_all_args
del h key = record (clear h key) { h = del_all_args h.h key }

unfoldable pub del_bytes : RequestHeader → Bytes → RequestHeader
unfolding del init_header_k
del_bytes h key = del h (init_header_k key h.disable_normalizing)
