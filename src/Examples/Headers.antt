-- ===== src/Examples/Headers.antt =====
-- Headers of requests and of responses.
use mathlib.Core.List.{cons-ne-nil}
use fasthttp.Base.{
  Bytes, [], ◌∷◌, ◌++◌, ◌≡◌, refl, arith, codes, true, false, map, pos, length, if◌then◌else◌,
  equal,
}
use fasthttp.Args.{ArgsKv, Slots, peek_args_keys}
use fasthttp.Header.Errors.{ok}
use fasthttp.Header.Lines.{parse_content_length}
use fasthttp.Header.Names.{
  init_header_k, init_header_v, normalize_header_key, str_crlf, blank_break,
}
use fasthttp.Header.Names.Laws.{IsClean, init_header_v-IsClean}
use fasthttp.Header.Values.{strip_space}
use fasthttp.Header.Scanner.{new_scanner, blanks, trim_end}
use fasthttp.Header.Scanner.Line.{IsName, IsPlain}
use fasthttp.Header.Scanner.Lines.{IsField, lines, behind}
use fasthttp.Header.Trailer.{is_bad_trailer, request_set_trailer, response_set_trailer}
use fasthttp.Header.Trailer.Forbidden.{listed, forbidden, is_bad_trailer-listed}
use fasthttp.Header.Trailer.Stored.{
  AreAllowed, request_set_trailer-allowed, response_set_trailer-stores,
}
use fasthttp.Header.Request.{
  RequestHeader, reset, append_bytes, get_method, get_request_uri, get_protocol, get_user_agent,
  get_host, get_content_type, ignore_body,
}
use fasthttp.Bytesconv.Tables.{valid_header_value_byte, valid_header_field_byte}
use fasthttp.Header.Request.Fields.{all_valid}
use fasthttp.Header.Request.Text.Fields.{IsGeneral}
use fasthttp.Header.Request.FirstLine.{parse_first_line}
use fasthttp.Header.Request.FirstLine.Line.{IsTarget, line_of, first_line, parse_first_line-line}
use fasthttp.Header.Request.Modify.{set_bytes_kv}
use fasthttp.Header.Request.Modify.Laws.{IsOther, peek_bytes-set_bytes_kv}
use fasthttp.Header.Request.Parse.{fresh, parse, parse_headers, headers_loop}
use fasthttp.Header.Request.Parse.Fuel.{headers_loop-enough}
use fasthttp.Header.Request.Parse.Lines.{apply, closed, parse_headers-lines}
use fasthttp.Header.Request.Peek.{peek_bytes}
use fasthttp.Header.Request.Text.Readable.{IsReadable}
use fasthttp.Header.Request.Text.RoundTrip.{ReadsBack, parse-append_bytes}

abbrev no_slots : Slots
no_slots = record { live = []; spare = [] }

abbrev x_a : ArgsKv
x_a = record { key = codes "X-A"; value = codes "b c"; no_value = false }

abbrev post : RequestHeader
post = record fresh {
  method = codes "POST";
  request_uri = codes "/x";
  host = codes "a";
  content_length = pos 4;
  content_length_bytes = codes "4";
  connection_close = true;
  h = record { live = x_a ∷ []; spare = [] };
}

abbrev old : RequestHeader
old = record fresh { host = codes "old"; content_length = pos 9 }

post-IsTarget : IsTarget (codes "POST") (codes "/x")
post-IsTarget = record {
  has_method = cons-ne-nil _ _;
  has_uri = cons-ne-nil _ _;
  method_solid = omega arith;
  method_line = omega arith;
  uri_line = omega arith;
}

no_method-IsTarget : IsTarget (codes "no<method") (codes "/x")
no_method-IsTarget = record {
  has_method = cons-ne-nil _ _;
  has_uri = cons-ne-nil _ _;
  method_solid = omega arith;
  method_line = omega arith;
  uri_line = omega arith;
}

x_a-IsName : IsName (codes "X-A")
x_a-IsName = record { no_colon = omega arith; no_break = omega arith }

x_a-IsPlain : IsPlain (codes "b c")
unfolding blanks trim_end
x_a-IsPlain = record { one_line = omega arith; no_lead = refl; no_trail = refl }

x_a-IsField : IsField (codes "X-A", codes "b c")
unfolding blanks
x_a-IsField = (x_a-IsName, refl, x_a-IsPlain)

x_a-IsGeneral : IsGeneral x_a
unfolding normalize_header_key all_valid valid_header_field_byte valid_header_value_byte equal
x_a-IsGeneral = record {
  named = cons-ne-nil _ _;
  normal = refl;
  key_bytes = refl;
  value_bytes = refl;
  has_value = refl;
  not_host = refl;
  not_user_agent = refl;
  not_content_type = refl;
  not_content_length = refl;
  not_connection = refl;
  not_transfer_encoding = refl;
  not_trailer = refl;
}

post-IsReadable : IsReadable post
unfolding get_method get_request_uri get_protocol get_user_agent get_host get_content_type
    ignore_body all_valid valid_header_value_byte equal blanks trim_end parse_content_length
post-IsReadable = record {
  usual = record { special = refl; normal = refl };
  target = post-IsTarget;
  version = refl;
  user_agent = (record { one_line = tt; no_lead = refl; no_trail = refl }, refl);
  host = (record { one_line = omega arith; no_lead = refl; no_trail = refl }, refl);
  content_type = (record { one_line = omega arith; no_lead = refl; no_trail = refl }, refl);
  length_plain = record { one_line = omega arith; no_lead = refl; no_trail = refl };
  sized = (refl, refl);
  natural = (4, refl);
  general = (x_a-IsGeneral, tt);
  fields = (x_a-IsField, tt);
  no_trailer = refl;
  no_cookies = refl;
}

parse-append_bytes_example :
    ReadsBack post (codes "BODY") (parse false (reset old) (append_bytes post [] ++ codes "BODY"))
parse-append_bytes_example = parse-append_bytes false old post (codes "BODY") post-IsReadable

parse_headers-lines_example :
    parse_headers fresh (lines ((codes "X-A", codes "b c") ∷ []) (codes "BODY"))
    ≡ closed
        (behind false (codes "BODY") [] [] 0 ((codes "X-A", codes "b c") ∷ []))
        (apply false fresh ((codes "X-A", codes "b c") ∷ []))
parse_headers-lines_example =
    parse_headers-lines fresh ((codes "X-A", codes "b c") ∷ []) (codes "BODY") (x_a-IsField, tt)

abbrev text : Bytes
text = codes "a: b" ++ str_crlf ++ str_crlf

headers_loop-enough_example :
    headers_loop 9 fresh (new_scanner text false) ≡ headers_loop 50 fresh (new_scanner text false)
headers_loop-enough_example =
    headers_loop-enough 9 50 fresh (new_scanner text false) (omega arith) (omega arith)

init_header_v-IsClean_example :
    (init_header_v (codes "a" ++ str_crlf ++ codes "b: c")
      ≡ map blank_break (codes "a" ++ str_crlf ++ codes "b: c"))
    × IsClean (init_header_v (codes "a" ++ str_crlf ++ codes "b: c"))
    × (length (init_header_v (codes "a" ++ str_crlf ++ codes "b: c")) ≡ 7)
init_header_v-IsClean_example = init_header_v-IsClean (codes "a" ++ str_crlf ++ codes "b: c")

is_bad_trailer-listed_example :
    is_bad_trailer (codes "Content-Length") false ≡ listed forbidden (codes "Content-Length")
is_bad_trailer-listed_example = is_bad_trailer-listed b'C' (codes "ontent-Length")

request_set_trailer-allowed_example :
    AreAllowed false (request_set_trailer false no_slots (codes "host, x-a")).0.live
request_set_trailer-allowed_example = request_set_trailer-allowed false no_slots (codes "host, x-a")

response_set_trailer-stores_example :
    peek_args_keys [] (response_set_trailer false no_slots (codes "host")).0.live
    ≡ normalize_header_key (codes "host") ∷ []
unfolding strip_space is_bad_trailer equal
response_set_trailer-stores_example =
    response_set_trailer-stores no_slots b'h' (codes "ost") (omega arith) refl refl

parse_first_line-line_example :
    parse_first_line true fresh (line_of (codes "no<method") (codes "/x") ++ (str_crlf ++ []))
    ≡ (first_line fresh 23 (codes "no<method") (codes "/x"), ok 23)
parse_first_line-line_example =
    parse_first_line-line true fresh (codes "no<method") (codes "/x") [] refl no_method-IsTarget

x_a-IsOther : IsOther (codes "X-A")
unfolding equal
x_a-IsOther = record {
  not_host = refl;
  not_user_agent = refl;
  not_content_type = refl;
  not_content_length = refl;
  not_connection = refl;
  not_cookie = refl;
  not_transfer_encoding = refl;
  not_trailer = refl;
}

peek_bytes-set_bytes_kv_example :
    peek_bytes (set_bytes_kv fresh (codes "x-a") (codes "b")) (codes "X-A") ≡ (
      if equal (init_header_k (codes "x-a") false) (init_header_k (codes "X-A") false)
      then init_header_v (codes "b")
      else peek_bytes fresh (codes "X-A"))
unfolding init_header_k normalize_header_key
peek_bytes-set_bytes_kv_example =
    peek_bytes-set_bytes_kv fresh (codes "x-a") (codes "b") (codes "X-A") x_a-IsOther x_a-IsOther
