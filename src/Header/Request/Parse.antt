-- ===== src/Header/Request/Parse.antt =====
-- `parse` and `parseTrailer` of a `RequestHeader` (header.go).
pub mod Fuel
pub mod Lines
use Prim.Native.Nat.{bit_or}
use fasthttp.Base.{
  ℕ, zero, suc, ◌+◌, ◌-◌, List, [], ◌∷◌, ◌++◌, Option, none, some, ◌≡◌, refl, Bool, true, false,
  leb, ltb, ◌==◌, ◌||◌, ◌&&◌, not, if◌then◌else◌, Bytes, codes, length, take, drop, get_or,
  index_byte, last_index_byte, has_prefix, equal, ℤ, pos, negsuc,
}
use fasthttp.Args.{ArgsKv, Slots, append_arg, set_arg, peek_arg}
use fasthttp.Bytesconv.Tables.{among, valid_header_field_byte, valid_header_value_byte}
use fasthttp.Header.Errors.{
  HeaderError, empty_header_key, invalid_key, invalid_value, content_length_not_int,
  multiple_content_length, unsupported_te, invalid_trailer_key, method_not_found, invalid_method,
  uri_not_found, unsupported_version, Result, ok, err, ◌>>=◌,
}
use fasthttp.Header.Lines.{next_line, is_valid_method, parse_content_length, read_raw_headers}
use fasthttp.Header.Names.{
  str_crlf, str_http11, str_chunked, str_close, str_keep_alive, tab, header_host, header_user_agent,
  header_content_type, header_content_length, header_connection, header_transfer_encoding,
  header_trailer, head_name_compare,
}
use fasthttp.Header.Request.{RequestHeader, or_nil}
use fasthttp.Header.Scanner.{HeaderScanner, next, new_scanner, unread}
use fasthttp.Header.Trailer.{request_set_trailer}
use fasthttp.Header.Values.{has_header_value}
use fasthttp.Header.Request.FirstLine.{parse_first_line}
use fasthttp.Header.Request.Fields.{field, other}

unfoldable pub is_negative : ℤ → Bool
is_negative (pos n) = false
is_negative (negsuc n) = true

-- What `parseHeaders` does behind its loop.
unfoldable pub finish : RequestHeader → RequestHeader
unfolding is_negative
finish h =
    let keep = has_header_value (or_nil (peek_arg h.h.live header_connection)) str_keep_alive in
    record h {
      content_length_bytes = if is_negative h.content_length then [] else h.content_length_bytes;
      connection_close =
          if h.no_http11 && not h.connection_close then not keep else h.connection_close;
    }

pub headers_field :
    (RequestHeader → HeaderScanner → RequestHeader × Result HeaderScanner)
    → HeaderScanner
    → RequestHeader × Option HeaderError
    → RequestHeader × Result HeaderScanner
headers_field go s (h, some e) = (h, err e)
headers_field go s (h, none) = go h s

pub headers_end :
    RequestHeader → HeaderScanner → Option HeaderError → RequestHeader × Result HeaderScanner
unfolding finish
headers_end h s (some e) = (h, err e)
headers_end h s none = (finish h, ok s)

-- One round of the loop on what the scanner returns; `go` is the rest of the loop.
unfoldable pub headers_step :
    (RequestHeader → HeaderScanner → RequestHeader × Result HeaderScanner)
    → RequestHeader
    → HeaderScanner × Bool
    → RequestHeader × Result HeaderScanner
unfolding headers_field headers_end field
headers_step go h (s, false) = headers_end h s s.fault
headers_step go h (s, true) = headers_field go s (field h s.key s.value)

-- The loop. Each field takes a byte at least, so that the length of the text and 1 is fuel enough.
unfoldable pub headers_loop :
    ℕ → RequestHeader → HeaderScanner → RequestHeader × Result HeaderScanner
unfolding next headers_step
headers_loop zero h s = (h, ok s)
headers_loop (suc fuel) h s = headers_step (headers_loop fuel) h (next s)

-- `parseHeaders`: the scanner at the end says what is read, and what is left in the buffer.
unfoldable pub parse_headers : RequestHeader → Bytes → RequestHeader × Result HeaderScanner
unfolding headers_loop
parse_headers h buf =
    headers_loop (suc (length buf))
      (record h { content_length = pos 0; content_length_seen = false })
      (new_scanner buf h.disable_normalizing)

-- What `parse` returns when the fields are parsed: the number of bytes read, and what the reader's
-- buffer holds when they are discarded.
unfoldable pub parsed :
    ℕ → ℕ → RequestHeader × Result HeaderScanner → RequestHeader × Result (ℕ × Bytes)
unfolding unread
parsed m size (h, err e) = (h, err e)
parsed m size (h, ok s) = (h, ok (m + s.h_len, unread s size s.h_len))

-- The part of `parse` behind the raw headers, and behind the first line of `m` bytes.
unfoldable pub parse_fields :
    RequestHeader → Bytes → ℕ → Bytes × Result ℕ → RequestHeader × Result (ℕ × Bytes)
unfolding parse_headers parsed
parse_fields h b m (raw, err e) = (record h { raw_headers = raw }, err e)
parse_fields h b m (raw, ok _) =
    parsed m (length b) (parse_headers (record h { raw_headers = raw }) b)

unfoldable pub parse_rest : RequestHeader → Bytes → ℕ → RequestHeader × Result (ℕ × Bytes)
unfolding read_raw_headers parse_fields
parse_rest h buf m = parse_fields h (drop m buf) m (read_raw_headers [] (drop m buf))

unfoldable pub parse_behind : Bytes → RequestHeader × Result ℕ → RequestHeader × Result (ℕ × Bytes)
unfolding parse_rest
parse_behind buf (h, err e) = (h, err e)
parse_behind buf (h, ok m) = parse_rest h buf m

-- `parse`: the number of bytes read, and what the reader's buffer holds when they are discarded.
unfoldable pub parse : Bool → RequestHeader → Bytes → RequestHeader × Result (ℕ × Bytes)
unfolding parse_first_line parse_behind
parse has_room h buf =
    if h.first_line_len == 0
    then parse_behind buf (parse_first_line has_room h buf)
    else parse_rest h buf h.first_line_len

-- The loop of `parseTrailer`, which appends each trailer to the header.
pub trailer_loop : ℕ → RequestHeader → HeaderScanner → RequestHeader × Result HeaderScanner
trailer_loop zero h s = (h, ok s)
trailer_loop (suc fuel) h s =
    let (s', more) = next s in
    elim more [
      | false ↦ elim s'.fault [ some e ↦ (h, err e) | none ↦ (h, ok s') ]
      | true ↦ elim s'.key [
        | [] ↦ trailer_loop fuel h s'
        | c ∷ key ↦
            if among b' ' (c ∷ key) || among tab (c ∷ key)
            then (h, err invalid_trailer_key)
            else trailer_loop fuel (other h (c ∷ key) s'.value) s'
      ]
    ]

-- `parseTrailer`
unfoldable pub parse_trailer : RequestHeader → Bytes → RequestHeader × Result HeaderScanner
unfolding trailer_loop
parse_trailer h buf = trailer_loop (suc (length buf)) h (new_scanner buf h.disable_normalizing)

abbrev pub fresh : RequestHeader
fresh = record {
  content_length_bytes = [];
  method = [];
  request_uri = [];
  proto = [];
  host = [];
  content_type = [];
  user_agent = [];
  h = record { live = []; spare = [] };
  trailer = record { live = []; spare = [] };
  cookies = record { live = []; spare = [] };
  raw_headers = [];
  content_length = pos 0;
  no_http11 = false;
  connection_close = false;
  cookies_collected = false;
  content_length_seen = false;
  disable_special_header = false;
  disable_normalizing = false;
  no_default_content_type = false;
  secure_error_log_message = false;
  first_line_len = 0;
}

abbrev example : Bytes
example =
    codes "POST /x HTTP/1.1"
    ++ (str_crlf
        ++ (codes "host: a"
            ++ (str_crlf
                ++ (codes "content-length: 4"
                    ++ (str_crlf
                        ++ (codes "x-y: z" ++ (str_crlf ++ (str_crlf ++ codes "BODY"))))))))

parse_tests :
    ((parse false fresh example).0.host ≡ codes "a")
    × ((parse false fresh example).0.content_length ≡ pos 4)
    × ((parse false fresh example).0.method ≡ codes "POST")
    × ((parse false fresh example).0.h.live
        ≡ record { key = codes "X-Y"; value = codes "z"; no_value = false } ∷ [])
    × ((parse false fresh example).1 ≡ ok (56, codes "BODY"))
unfolding parse index_byte last_index_byte has_prefix equal append_arg
parse_tests = (refl, refl, refl, refl, refl)
