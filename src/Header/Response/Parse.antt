-- ===== src/Header/Response/Parse.antt =====
-- `parse` and `parseTrailer` of a `ResponseHeader` (header.go).
use Prim.Native.Nat.{bit_or}
use fasthttp.Base.{
  ℕ, zero, suc, ◌+◌, ◌-◌, [], ◌∷◌, ◌++◌, Option, none, some, Bool, true, false, ◌==◌, ◌&&◌, not,
  if◌then◌else◌, Bytes, length, take, drop, index_byte, equal, ℤ, pos, negsuc,
}
use fasthttp.Args.{Slots, alloc_arg, append_arg, peek_arg}
use fasthttp.Bytesconv.Decimal.{IntError, parse_uint_buf}
use fasthttp.Bytesconv.Tables.{valid_header_field_byte, valid_header_value_byte}
use fasthttp.Cookie.Scan.{decode_cookie_arg}
use fasthttp.Header.Errors.{
  HeaderError, empty_header_key, invalid_key, invalid_value, content_length_not_int, unsupported_te,
  bad_trailer_in_header, malformed_response, Result, ok, err,
}
use fasthttp.Header.Lines.{next_line, parse_content_length}
use fasthttp.Header.Names.{
  str_http11, str_chunked, str_close, str_keep_alive, header_content_type, header_content_encoding,
  header_content_length, header_connection, header_server, header_set_cookie,
  header_transfer_encoding, header_trailer, head_name_compare,
}
use fasthttp.Header.Request.{or_nil}
use fasthttp.Header.Request.Fields.{all_valid}
use fasthttp.Header.Request.Parse.{is_negative}
use fasthttp.Header.Response.{ResponseHeader}
use fasthttp.Header.Scanner.{HeaderScanner, next, new_scanner, unread}
use fasthttp.Header.Trailer.{response_set_trailer}
use fasthttp.Header.Values.{has_header_value}

-- The status code and the text behind it.
pub status_at : ResponseHeader → ℕ → Bytes → ℤ × ℕ × Option IntError → ResponseHeader × Result ℕ
status_at h size b (code, n, some _) = (record h { status_code = code }, err malformed_response)
status_at h size b (code, n, none) = elim (drop n b) [
  | [] ↦ (record h { status_code = code }, ok size)
  | c ∷ text ↦
      if not (c == b' ') then (record h { status_code = code }, err malformed_response) else (
        record h {
          status_code = code;
          status_message = elim text [ [] ↦ h.status_message | t ∷ ts ↦ t ∷ ts ];
        },
        ok size,
      )
]

-- The version, which ends at the first space.
pub version_at : ResponseHeader → ℕ → Bytes → Option ℕ → ResponseHeader × Result ℕ
unfolding status_at parse_uint_buf
version_at h size b none = (h, err malformed_response)
version_at h size b (some zero) = (h, err malformed_response)
version_at h size b (some (suc n)) =
    status_at (record h { no_http11 = not (equal (take (suc n) b) str_http11) }) size
      (drop (suc n + 1) b) (parse_uint_buf (drop (suc n + 1) b))

pub status_line_at : ResponseHeader → ℕ → Result (Bytes × Bytes) → ResponseHeader × Result ℕ
unfolding version_at
status_line_at h size (err e) = (h, err e)
status_line_at h size (ok (b, b_next)) = version_at h (size - length b_next) b (index_byte b b' ')

-- `parseFirstLine`
unfoldable pub parse_first_line : ResponseHeader → Bytes → ResponseHeader × Result ℕ
unfolding status_line_at next_line
parse_first_line h buf = status_line_at h (length buf) (next_line buf)

abbrev other : ResponseHeader → Bytes → Bytes → ResponseHeader
other h key value = record h { h = append_arg h.h key value false }

-- `getCookieKey`
unfoldable pub get_cookie_key : Bytes → Bytes
unfolding decode_cookie_arg
get_cookie_key src =
    decode_cookie_arg (elim (index_byte src b'=') [ none ↦ src | some n ↦ take n src ]) false

-- A Set-Cookie field, in an entry that keeps its `no_value`.
unfoldable pub add_cookie : Slots → Bytes → Slots
unfolding get_cookie_key alloc_arg
add_cookie cookies value = record {
  live =
      cookies.live
      ++ record (alloc_arg cookies.spare).0 { key = get_cookie_key value; value = value } ∷ [];
  spare = (alloc_arg cookies.spare).1;
}

-- The cases of the loop of `parseHeaders`, by the first byte of the key.
pub field_length : ResponseHeader → Bytes → ResponseHeader × Option HeaderError
unfolding parse_content_length
field_length h value = elim h.content_length [
  | negsuc zero ↦ (h, none)
  | _ ↦ elim (parse_content_length value) [
    | err _ ↦ (record h { content_length = negsuc 0 }, some content_length_not_int)
    | ok n ↦ (record h { content_length = n; content_length_bytes = value }, none)
  ]
]

pub field_c : ResponseHeader → Bytes → Bytes → ResponseHeader × Option HeaderError
unfolding field_length
field_c h key value =
    let dn = h.disable_normalizing in
    if head_name_compare key header_content_type dn
    then (record h { content_type = value }, none)
    else if head_name_compare key header_content_encoding dn
    then (record h { content_encoding = value }, none)
    else if head_name_compare key header_content_length dn
    then field_length h value
    else if head_name_compare key header_connection dn
    then if equal value str_close
      then (record h { connection_close = true }, none)
      else (record (other h key value) { connection_close = false }, none)
    else (other h key value, none)

pub field_s : ResponseHeader → Bytes → Bytes → ResponseHeader
unfolding add_cookie
field_s h key value =
    if head_name_compare key header_server h.disable_normalizing
    then record h { server = value }
    else if head_name_compare key header_set_cookie h.disable_normalizing
    then record h { cookies = add_cookie h.cookies value }
    else other h key value

pub trailer_field :
    ResponseHeader → Slots × Option HeaderError → ResponseHeader × Option HeaderError
trailer_field h (trailer, none) = (record h { trailer = trailer }, none)
trailer_field h (trailer, some _) = (record h { trailer = trailer }, some bad_trailer_in_header)

pub field_t : ResponseHeader → Bytes → Bytes → ResponseHeader × Option HeaderError
unfolding trailer_field response_set_trailer
field_t h key value =
    let dn = h.disable_normalizing in
    if head_name_compare key header_transfer_encoding dn
    then if equal value str_chunked
      then (record h { content_length = negsuc 0 }, none)
      else (h, some (unsupported_te value))
    else if head_name_compare key header_trailer dn
    then trailer_field h (response_set_trailer dn h.trailer value)
    else (other h key value, none)

pub field_at : ℕ → ResponseHeader → Bytes → Bytes → ResponseHeader × Option HeaderError
unfolding field_c field_s field_t head_name_compare
field_at c h key value =
    if c == b'c'
    then field_c h key value
    else if c == b's'
    then (field_s h key value, none)
    else if c == b't'
    then field_t h key value
    else (other h key value, none)

-- One round of the loop of `parseHeaders`, on the key and the value that the scanner has.
unfoldable pub field : ResponseHeader → Bytes → Bytes → ResponseHeader × Option HeaderError
unfolding field_at all_valid valid_header_field_byte valid_header_value_byte
field h [] value = (h, some empty_header_key)
field h (c ∷ key) value =
    if not (all_valid valid_header_field_byte (c ∷ key))
    then (h, some invalid_key)
    else if not (all_valid valid_header_value_byte value)
    then (h, some invalid_value)
    else field_at (bit_or c 32) h (c ∷ key) value

-- What `parseHeaders` does behind its loop.
unfoldable pub finish : ResponseHeader → ResponseHeader
unfolding is_negative has_header_value
finish h =
    let keep = has_header_value (or_nil (peek_arg h.h.live header_connection)) str_keep_alive in
    record h {
      content_length_bytes = if is_negative h.content_length then [] else h.content_length_bytes;
      connection_close =
          if h.no_http11 && not h.connection_close then not keep else h.connection_close;
    }

pub headers_field :
    (ResponseHeader → HeaderScanner → ResponseHeader × Result HeaderScanner)
    → HeaderScanner
    → ResponseHeader × Option HeaderError
    → ResponseHeader × Result HeaderScanner
headers_field go s (h, some e) = (h, err e)
headers_field go s (h, none) = go h s

pub headers_end :
    ResponseHeader → HeaderScanner → Option HeaderError → ResponseHeader × Result HeaderScanner
unfolding finish
headers_end h s (some e) = (h, err e)
headers_end h s none = (finish h, ok s)

-- One round of the loop on what the scanner returns; `go` is the rest of the loop.
pub headers_step :
    (ResponseHeader → HeaderScanner → ResponseHeader × Result HeaderScanner)
    → ResponseHeader
    → HeaderScanner × Bool
    → ResponseHeader × Result HeaderScanner
unfolding headers_field headers_end field
headers_step go h (s, false) = headers_end h s s.fault
headers_step go h (s, true) = headers_field go s (field h s.key s.value)

-- The loop. Each field takes a byte at least, so that the length of the text and 1 is fuel enough.
pub headers_loop : ℕ → ResponseHeader → HeaderScanner → ResponseHeader × Result HeaderScanner
unfolding next headers_step
headers_loop zero h s = (h, ok s)
headers_loop (suc fuel) h s = headers_step (headers_loop fuel) h (next s)

-- `parseHeaders`: the scanner at the end says what is read, and what is left in the buffer.
unfoldable pub parse_headers : ResponseHeader → Bytes → ResponseHeader × Result HeaderScanner
unfolding headers_loop
parse_headers h buf =
    headers_loop (suc (length buf))
      (record h { content_length = if h.head_method then pos 0 else negsuc 1 })
      (new_scanner buf h.disable_normalizing)

-- The bytes read are those of the buffer without those that the scanner has left, also where the
-- scanner has moved what is left to the front.
unfoldable pub parsed :
    ℕ → ℕ → ResponseHeader × Result HeaderScanner → ResponseHeader × Result (ℕ × Bytes)
unfolding unread
parsed m size (h, err e) = (h, err e)
parsed m size (h, ok s) = (h, ok (m + (size - length s.b), unread s size (size - length s.b)))

unfoldable pub parse_behind :
    Bytes → ResponseHeader × Result ℕ → ResponseHeader × Result (ℕ × Bytes)
unfolding parse_headers parsed
parse_behind buf (h, err e) = (h, err e)
parse_behind buf (h, ok m) = parsed m (length (drop m buf)) (parse_headers h (drop m buf))

-- `parse`: the number of bytes read, and what the reader's buffer holds when they are discarded.
unfoldable pub parse : ResponseHeader → Bytes → ResponseHeader × Result (ℕ × Bytes)
unfolding parse_first_line parse_behind
parse h buf = parse_behind buf (parse_first_line h buf)
