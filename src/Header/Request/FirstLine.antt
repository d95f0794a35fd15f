-- ===== src/Header/Request/FirstLine.antt =====
-- The request line (header.go): `parseFirstLine` of a `RequestHeader`.
pub mod Line
use Prim.Native.Nat.{bit_or}
use fasthttp.Base.{
  ℕ, zero, suc, ◌+◌, ◌-◌, List, [], ◌∷◌, ◌++◌, Option, none, some, ◌≡◌, refl, Bool, true, false,
  leb, ltb, ◌==◌, ◌||◌, ◌&&◌, not, if◌then◌else◌, Bytes, codes, length, take, drop, get_or,
  index_byte, last_index_byte, has_prefix, equal, ℤ, pos, negsuc,
}
use fasthttp.Args.{ArgsKv, Slots, append_arg, set_arg, peek_arg}
use fasthttp.Bytesconv.Tables.{among, valid_header_field_byte, valid_header_value_byte}
use fasthttp.Header.Errors.{
  HeaderError, empty_header_key, invalid_key, invalid_value, content_length_not_int,
  multiple_content_length, unsupported_te, invalid_trailer_key, method_not_found, invalid_method,
  uri_not_found, unsupported_version, Result, ok, err, ◌>>=◌,
}
use fasthttp.Header.Lines.{next_line, is_valid_method, parse_content_length, read_raw_headers}
use fasthttp.Header.Names.{
  str_crlf, str_http11, str_chunked, str_close, str_keep_alive, tab, header_host, header_user_agent,
  header_content_type, header_content_length, header_connection, header_transfer_encoding,
  header_trailer, head_name_compare,
}
use fasthttp.Header.Request.{RequestHeader, or_nil}
use fasthttp.Header.Scanner.{HeaderScanner, next, new_scanner, unread}
use fasthttp.Header.Trailer.{request_set_trailer}
use fasthttp.Header.Values.{has_header_value}

-- The version of the protocol: "HTTP/", a digit, any byte, a digit.
pub is_digit : ℕ → Bool
is_digit c = leb b'0' c && leb c b'9'

pub is_version : Bytes → Bool
unfolding is_digit
is_version p =
    length p == length str_http11
    && has_prefix p (take 5 str_http11)
    && is_digit (get_or p 5 0)
    && is_digit (get_or p 7 0)

-- What the old value `h.method` is after `append(h.method[:0], method...)`: it keeps its length, and
-- the new bytes stand in its place where its array has the room.
pub overwritten : Bool → Bytes → Bytes → Bytes
overwritten has_room old method =
    if has_room then take (length old) (method ++ drop (length method) old) else old

-- The target and the version, separated at the last space of `b`.
unfoldable pub target_at : RequestHeader → ℕ → Bytes → Bytes → Option ℕ → RequestHeader × Result ℕ
unfolding is_version
target_at h line_length method b none = (h, err uri_not_found)
target_at h line_length method b (some zero) = (h, err uri_not_found)
target_at h line_length method b (some (suc k)) =
    let proto = drop (suc k + 1) b in
    if not (is_version proto) then (h, err unsupported_version) else (
      record h {
        method = method;
        no_http11 = not (equal proto str_http11);
        proto = proto;
        request_uri = take (suc k) b;
        first_line_len = line_length;
      },
      ok line_length,
    )

-- What follows the test of the method.
unfoldable pub method_when : Bool → RequestHeader → ℕ → Bytes → Bytes → RequestHeader × Result ℕ
unfolding target_at
method_when false h line_length method target = (h, err invalid_method)
method_when true h line_length method target =
    target_at h line_length method target (last_index_byte target b' ')

-- The method, which ends at the first space of the line `b`. The code tests what the old value of
-- `h.method` has become, and not the method.
unfoldable pub method_at : Bool → RequestHeader → ℕ → Bytes → Option ℕ → RequestHeader × Result ℕ
unfolding overwritten method_when is_valid_method
method_at has_room h line_length b none = (h, err method_not_found)
method_at has_room h line_length b (some zero) = (h, err method_not_found)
method_at has_room h line_length b (some (suc n)) =
    let old = overwritten has_room h.method (take (suc n) b) in
    method_when (is_valid_method old) (record h { method = old }) line_length (take (suc n) b)
      (drop (suc n + 1) b)

unfoldable pub line_at :
    Bool → RequestHeader → ℕ → Result (Bytes × Bytes) → RequestHeader × Result ℕ
unfolding method_at
line_at has_room h size (err e) = (h, err e)
line_at has_room h size (ok (b, b_next)) =
    method_at has_room h (size - length b_next) b (index_byte b b' ')

-- `parseFirstLine`. `has_room` says whether the array of the old `h.method` has room for the new
-- one, which the runtime's growth of slices decides.
unfoldable pub parse_first_line : Bool → RequestHeader → Bytes → RequestHeader × Result ℕ
unfolding line_at next_line
parse_first_line has_room h buf = line_at has_room h (length buf) (next_line buf)
