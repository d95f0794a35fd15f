-- ===== src/Header/Response.antt =====
-- `ResponseHeader` (header.go): its fields and its text.
pub mod Parse
pub mod Modify
use fasthttp.Base.{
  ℕ, zero, suc, List, [], ◌∷◌, ◌++◌, Option, none, some, ◌≡◌, refl, Bool, true, false, ltb, ◌==◌,
  ◌||◌, ◌&&◌, not, if◌then◌else◌, Bytes, codes, equal, ℤ, pos, negsuc,
}
use fasthttp.Args.{ArgsKv, Slots, copy_args, del_all_args, peek_arg}
use fasthttp.Args.Scan.{is_empty}
use fasthttp.Bytesconv.Decimal.{append_uint}
use fasthttp.Header.Names.{
  str_crlf, str_http11, str_comma_space, str_close, str_chunked, header_server, header_date,
  header_content_type, header_content_encoding, header_content_length, header_trailer,
  header_set_cookie, header_connection, header_transfer_encoding,
}
use fasthttp.Header.Request.{
  append_args_key_bytes, append_header_line, append_fields, line_unless, or_else,
}
use fasthttp.Header.Status.{format_status_line}

-- `mulHeader` and the buffers `bufK` and `bufV` are left out, as those of a request are.
pub record ResponseHeader : Type 0 where
  pub status_message : Bytes
  pub protocol : Bytes
  pub content_length_bytes : Bytes
  pub content_type : Bytes
  pub content_encoding : Bytes
  pub server : Bytes
  pub h : Slots
  pub trailer : Slots
  pub cookies : Slots
  pub status_code : ℤ
  pub content_length : ℤ
  pub no_http11 : Bool
  pub connection_close : Bool
  pub disable_normalizing : Bool
  pub no_default_content_type : Bool
  pub secure_error_log_message : Bool
  pub head_method : Bool
  pub no_default_date : Bool

abbrev emptied : Slots → Slots
emptied s = record { live = []; spare = s.live ++ s.spare }

-- `resetSkipNormalize`
unfoldable pub reset_skip_normalize : ResponseHeader → ResponseHeader
reset_skip_normalize h = record h {
  status_message = [];
  protocol = [];
  content_length_bytes = [];
  content_type = [];
  content_encoding = [];
  server = [];
  h = emptied h.h;
  trailer = emptied h.trailer;
  cookies = emptied h.cookies;
  status_code = pos 0;
  content_length = pos 0;
  no_http11 = false;
  connection_close = false;
}

-- `Reset`
unfoldable pub reset : ResponseHeader → ResponseHeader
unfolding reset_skip_normalize
reset h = reset_skip_normalize (record h {
  disable_normalizing = false;
  no_default_content_type = false;
  secure_error_log_message = false;
  head_method = false;
  no_default_date = false;
})

-- `CopyTo`
unfoldable pub copy_to : ResponseHeader → ResponseHeader → ResponseHeader
unfolding reset
copy_to h dst =
    let d = reset dst in
    record d {
      disable_normalizing = h.disable_normalizing;
      no_http11 = h.no_http11;
      connection_close = h.connection_close;
      no_default_content_type = h.no_default_content_type;
      no_default_date = h.no_default_date;
      status_code = h.status_code;
      status_message = h.status_message;
      protocol = h.protocol;
      content_length = h.content_length;
      content_length_bytes = h.content_length_bytes;
      content_type = h.content_type;
      content_encoding = h.content_encoding;
      server = h.server;
      h = copy_args d.h h.h.live;
      cookies = copy_args d.cookies h.cookies.live;
      trailer = copy_args d.trailer h.trailer.live;
    }

-- `Protocol` and `ContentType`
unfoldable pub get_protocol : ResponseHeader → Bytes
get_protocol h = or_else h.protocol str_http11

unfoldable pub get_content_type : ResponseHeader → Bytes
get_content_type h =
    if not h.no_default_content_type && is_empty h.content_type
    then codes "text/plain; charset=utf-8"
    else h.content_type

-- `bodyNotAllowedForStatus`, which `mustSkipContentLength` repeats
unfoldable pub body_not_allowed_for_status : ℤ → Bool
body_not_allowed_for_status (negsuc n) = false
body_not_allowed_for_status (pos code) =
    if ltb code 100 || code == 200 then false else code == 304 || code == 204 || ltb code 200

-- `appendStatusLine` on an emptied buffer
pub status_line : ResponseHeader → Option Bytes
unfolding format_status_line get_protocol
status_line h = elim h.status_code [
  | negsuc _ ↦ format_status_line [] (get_protocol h) 200 h.status_message
  | pos code ↦
      format_status_line [] (get_protocol h) (if code == 0 then 200 else code) h.status_message
]

-- What the length of the body adds to a header with a body: the header, its text, and whether the
-- trailers follow.
pub append_length : Bool → ResponseHeader → Bytes → Option (ResponseHeader × Bytes × Bool)
unfolding append_uint append_header_line
append_length compressed h dst = elim h.content_length [
  | pos zero ↦ some (
    h,
    if h.head_method then dst else append_header_line dst header_content_length (b'0' ∷ []),
    false,
  )
  | pos (suc n) ↦ if compressed then some (h, dst, false) else elim (append_uint [] (pos (suc n))) [
    | none ↦ none
    | some b ↦ some (
      record h { content_length_bytes = b },
      append_header_line dst header_content_length b,
      false,
    )
  ]
  | negsuc zero ↦
      if h.head_method
      then some (h, dst, false)
      else some (h, append_header_line dst header_transfer_encoding str_chunked, true)
  | negsuc (suc n) ↦
      if h.head_method
      then some (h, dst, false)
      else some (record h { connection_close = true }, dst, false)
]

-- The lines that describe the body, for a status that allows one.
pub append_body_lines : Bool → ResponseHeader → Bytes → Option (ResponseHeader × Bytes × Bool)
unfolding get_content_type append_length append_header_line
append_body_lines compressed h dst =
    let ct = get_content_type h in
    let no_length : Bool = elim h.content_length [ pos zero ↦ true | _ ↦ false ] in
    let typed =
      line_unless (is_empty ct || (is_empty h.content_type && no_length)) dst header_content_type
        ct in
    let encoded =
      line_unless (is_empty h.content_encoding) typed header_content_encoding h.content_encoding in
    append_length compressed h encoded

pub append_trailer_names : Bytes → List ArgsKv → Bytes
unfolding append_header_line append_args_key_bytes
append_trailer_names dst [] = dst
append_trailer_names dst (kv ∷ trailer) =
    append_header_line dst header_trailer (append_args_key_bytes [] (kv ∷ trailer) str_comma_space)

pub append_cookies : Bytes → List ArgsKv → Bytes
unfolding append_header_line
append_cookies dst [] = dst
append_cookies dst (kv ∷ cookies) =
    append_cookies (append_header_line dst header_set_cookie kv.value) cookies

-- The lines behind those of the body.
pub append_tail : Bool → ResponseHeader → Bytes → List ArgsKv → Bytes
unfolding append_fields append_trailer_names append_cookies append_header_line
append_tail compressed h dst trailer =
    let fields = append_trailer_names (append_fields trailer dst h.h.live) trailer in
    let closed =
      line_unless (not h.connection_close) (append_cookies fields h.cookies.live) header_connection
        str_close in
    if compressed then closed else closed ++ str_crlf

-- `AppendBytes`: the bytes of `dst` are overwritten. `date` is the text of the server's clock.
unfoldable pub append_bytes : Bytes → Bool → ResponseHeader → Option (ResponseHeader × Bytes)
unfolding status_line append_body_lines append_tail body_not_allowed_for_status del_all_args
append_bytes date compressed h = elim (status_line h) [
  | none ↦ none
  | some first ↦
      let h' = record h { h = del_all_args h.h header_transfer_encoding } in
      let server = line_unless (is_empty h.server) first header_server h.server in
      let dated = line_unless h.no_default_date server header_date date in
      let body : Option (ResponseHeader × Bytes × Bool) =
        if body_not_allowed_for_status h.status_code
        then some (h', dated, false)
        else append_body_lines compressed h' dated in
      elim body [
        | none ↦ none
        | some (h'', dst, chunked) ↦
            some (h'', append_tail compressed h'' dst (if chunked then h.trailer.live else []))
      ]
]
