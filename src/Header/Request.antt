-- ===== src/Header/Request.antt =====
-- `RequestHeader` (header.go): its fields, what it holds under the names it knows, and its text.
pub mod Modify
pub mod Text
pub mod Peek
pub mod FirstLine
pub mod Fields
pub mod Parse
use fasthttp.Base.{
  ℕ, List, [], ◌∷◌, ◌++◌, Option, none, some, ◌≡◌, refl, Bool, true, false, ◌==◌, ◌||◌, ◌&&◌, not,
  if◌then◌else◌, Bytes, codes, equal, ℤ, pos, negsuc, length, drop,
}
use fasthttp.Args.{ArgsKv, Slots, copy_args, peek_arg}
use fasthttp.Args.Scan.{is_empty}
use fasthttp.Cookie.Request.{append_request_cookie_bytes}
use fasthttp.Header.Names.{
  str_crlf, str_http11, str_colon_space, str_comma_space, str_close, header_host, header_user_agent,
  header_content_type, header_content_length, header_trailer, header_cookie, header_connection,
}

-- `mulHeader` and the buffers `bufK` and `bufV` are left out: nothing is read from them that the
-- same call has not put there.
pub record RequestHeader : Type 0 where
  pub content_length_bytes : Bytes
  pub method : Bytes
  pub request_uri : Bytes
  pub proto : Bytes
  pub host : Bytes
  pub content_type : Bytes
  pub user_agent : Bytes
  pub h : Slots
  pub trailer : Slots
  pub cookies : Slots
  pub raw_headers : Bytes
  pub content_length : ℤ
  pub no_http11 : Bool
  pub connection_close : Bool
  pub cookies_collected : Bool
  pub content_length_seen : Bool
  pub disable_special_header : Bool
  pub disable_normalizing : Bool
  pub no_default_content_type : Bool
  pub secure_error_log_message : Bool
  pub first_line_len : ℕ

abbrev emptied : Slots → Slots
emptied s = record { live = []; spare = s.live ++ s.spare }

-- `resetSkipNormalize`
unfoldable pub reset_skip_normalize : RequestHeader → RequestHeader
reset_skip_normalize h = record h {
  content_length_bytes = [];
  method = [];
  request_uri = [];
  proto = [];
  host = [];
  content_type = [];
  user_agent = [];
  h = emptied h.h;
  trailer = emptied h.trailer;
  cookies = emptied h.cookies;
  raw_headers = [];
  content_length = pos 0;
  first_line_len = 0;
  no_http11 = false;
  connection_close = false;
  cookies_collected = false;
  content_length_seen = false;
}

-- `Reset`
unfoldable pub reset : RequestHeader → RequestHeader
unfolding reset_skip_normalize
reset h = reset_skip_normalize (record h {
  disable_special_header = false;
  disable_normalizing = false;
  no_default_content_type = false;
  secure_error_log_message = false;
})

-- `CopyTo`: the trailers are appended to the emptied list, and share the arrays of the source.
unfoldable pub copy_to : RequestHeader → RequestHeader → RequestHeader
unfolding reset
copy_to h dst =
    let d = reset dst in
    record d {
      disable_normalizing = h.disable_normalizing;
      no_http11 = h.no_http11;
      connection_close = h.connection_close;
      no_default_content_type = h.no_default_content_type;
      content_length = h.content_length;
      content_length_bytes = h.content_length_bytes;
      method = h.method;
      proto = h.proto;
      request_uri = h.request_uri;
      host = h.host;
      content_type = h.content_type;
      user_agent = h.user_agent;
      trailer = record {
        live = h.trailer.live;
        spare = drop (length h.trailer.live) d.trailer.spare;
      };
      h = copy_args d.h h.h.live;
      cookies = copy_args d.cookies h.cookies.live;
      cookies_collected = h.cookies_collected;
      raw_headers = h.raw_headers;
      content_length_seen = h.content_length_seen;
      first_line_len = h.first_line_len;
    }

abbrev pub or_else : Bytes → Bytes → Bytes
or_else b d = if is_empty b then d else b

abbrev pub or_nil : Option Bytes → Bytes
or_nil none = []
or_nil (some b) = b

-- `Method`, `Protocol` and `RequestURI`
unfoldable pub get_method : RequestHeader → Bytes
get_method h = or_else h.method (codes "GET")

unfoldable pub get_protocol : RequestHeader → Bytes
get_protocol h = or_else h.proto str_http11

unfoldable pub get_request_uri : RequestHeader → Bytes
get_request_uri h = or_else h.request_uri (codes "/")

-- `Host`, `UserAgent` and `ContentType`
unfoldable pub get_host : RequestHeader → Bytes
get_host h = if h.disable_special_header then or_nil (peek_arg h.h.live header_host) else h.host

unfoldable pub get_user_agent : RequestHeader → Bytes
get_user_agent h =
    if h.disable_special_header then or_nil (peek_arg h.h.live header_user_agent) else h.user_agent

unfoldable pub get_content_type : RequestHeader → Bytes
get_content_type h =
    if h.disable_special_header
    then or_nil (peek_arg h.h.live header_content_type)
    else h.content_type

-- `ignoreBody`
unfoldable pub ignore_body : RequestHeader → Bool
unfolding get_method
ignore_body h = equal (get_method h) (codes "GET") || equal (get_method h) (codes "HEAD")

-- `appendArgsKeyBytes`
unfoldable pub append_args_key_bytes : Bytes → List ArgsKv → Bytes → Bytes
append_args_key_bytes dst [] sep = dst
append_args_key_bytes dst (kv ∷ []) sep = dst ++ kv.key
append_args_key_bytes dst (kv ∷ kv' ∷ args) sep =
    append_args_key_bytes (dst ++ kv.key ++ sep) (kv' ∷ args) sep

-- `appendHeaderLine`
abbrev pub header_line : Bytes → Bytes → Bytes
header_line key value = key ++ (str_colon_space ++ (value ++ str_crlf))

unfoldable pub append_header_line : Bytes → Bytes → Bytes → Bytes
append_header_line dst key value = dst ++ header_line key value

-- Whether the key is the key of a trailer.
unfoldable pub is_trailer : List ArgsKv → Bytes → Bool
is_trailer [] key = false
is_trailer (t ∷ trailer) key = if equal key t.key then true else is_trailer trailer key

-- The loop that writes the entries that are no trailers.
unfoldable pub append_fields : List ArgsKv → Bytes → List ArgsKv → Bytes
unfolding append_header_line is_trailer
append_fields trailer dst [] = dst
append_fields trailer dst (kv ∷ h) =
    append_fields trailer
      (if is_trailer trailer kv.key then dst else append_header_line dst kv.key kv.value) h

abbrev pub line_unless : Bool → Bytes → Bytes → Bytes → Bytes
line_unless skip dst key value = if skip then dst else append_header_line dst key value

-- The line that names the trailers, and the line of the cookies.
pub append_trailer_line : Bytes → List ArgsKv → Bytes
unfolding append_header_line append_args_key_bytes
append_trailer_line dst [] = dst
append_trailer_line dst (kv ∷ trailer) =
    append_header_line dst header_trailer (append_args_key_bytes [] (kv ∷ trailer) str_comma_space)

pub append_cookie_line : Bool → Bytes → List ArgsKv → Bytes
unfolding append_request_cookie_bytes
append_cookie_line off dst [] = dst
append_cookie_line off dst (kv ∷ cookies) =
    if off
    then dst
    else append_request_cookie_bytes (dst ++ (header_cookie ++ str_colon_space)) (kv ∷ cookies)
      ++ str_crlf

-- The Content-Type that is written.
abbrev pub written_type : RequestHeader → Bytes
written_type h =
    if not h.no_default_content_type && is_empty (get_content_type h) && not (ignore_body h)
    then codes "application/octet-stream"
    else get_content_type h

-- `AppendBytes` on the trailers and the cookies of the header.
pub append_with : RequestHeader → List ArgsKv → List ArgsKv → Bytes → Bytes
unfolding append_header_line append_fields get_method get_request_uri get_protocol get_user_agent
    get_host get_content_type ignore_body append_trailer_line append_cookie_line
append_with h trailer cookies dst =
    let off = h.disable_special_header in
    let first =
      dst ++ (get_method h ++ b' ' ∷ (get_request_uri h ++ b' ' ∷ (get_protocol h ++ str_crlf))) in
    let agent =
      line_unless (is_empty (get_user_agent h) || off) first header_user_agent (get_user_agent h) in
    let host = line_unless (is_empty (get_host h) || off) agent header_host (get_host h) in
    let typed =
      line_unless (is_empty (written_type h) || off) host header_content_type (written_type h) in
    let sized =
      line_unless (is_empty h.content_length_bytes || off) typed header_content_length
        h.content_length_bytes in
    let fields = append_fields trailer sized h.h.live in
    let named = append_cookie_line off (append_trailer_line fields trailer) cookies in
    line_unless (not h.connection_close || off) named header_connection str_close ++ str_crlf

unfoldable pub append_bytes : RequestHeader → Bytes → Bytes
unfolding append_with
append_bytes h dst = append_with h h.trailer.live h.cookies.live dst
