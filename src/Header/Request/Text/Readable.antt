-- ===== src/Header/Request/Text/Readable.antt =====
-- The headers of requests that can be written and read back.
use fasthttp.Base.{
  ℕ, List, [], ◌++◌, ◌≡◌, refl, Bool, true, false, ◌||◌, not, Bytes, arith, All, All-append, pos,
  map,
}
use fasthttp.Args.{Slots}
use fasthttp.Args.Scan.{is_empty}
use fasthttp.Header.Names.{
  str_close, str_http11, header_host, header_user_agent, header_content_type, header_content_length,
  header_connection,
}
use fasthttp.Header.Request.{
  RequestHeader, reset, get_method, get_request_uri, get_protocol, get_host, get_user_agent,
  written_type,
}
use fasthttp.Header.Request.FirstLine.Line.{IsTarget, first_line}
use fasthttp.Header.Request.Text.{pair, unless, written_fields}
use fasthttp.Header.Request.Text.Fields.{IsUsual, IsValidValue, IsSized, IsGeneral}
use fasthttp.Header.Scanner.{blanks, trim_end}
use fasthttp.Header.Scanner.Line.{IsName, IsPlain}
use fasthttp.Header.Scanner.Lines.{IsField}

-- A value that can be written and read.
abbrev pub IsText : Bytes → Type 0
IsText value = IsPlain value × IsValidValue value

-- A header that can be read back: an HTTP/1.1 request with no trailers whose cookies are not taken
-- apart from the other fields, and with a length that is not negative.
pub record IsReadable (h : RequestHeader) : Type 0 where
  pub usual : IsUsual h
  pub target : IsTarget (get_method h) (get_request_uri h)
  pub version : get_protocol h ≡ str_http11
  pub user_agent : IsText (get_user_agent h)
  pub host : IsText (get_host h)
  pub content_type : IsText (written_type h)
  pub length_plain : IsPlain h.content_length_bytes
  pub sized : IsSized h.content_length_bytes h.content_length
  pub natural : (n : ℕ) × (h.content_length ≡ pos n)
  pub general : All IsGeneral h.h.live
  pub fields : All IsField (map pair h.h.live)
  pub no_trailer : h.trailer.live ≡ []
  pub no_cookies : h.cookies.live ≡ []

close-IsPlain : IsPlain str_close
unfolding blanks trim_end
close-IsPlain = record { one_line = omega arith; no_lead = refl; no_trail = refl }

-- The fields that come behind one that may be left out.
unless-IsField :
    (skip : Bool) (key value : Bytes) (fields : List (Bytes × Bytes))
    → IsName key
    → blanks key ≡ 0
    → IsPlain value
    → All IsField fields
    → All IsField (unless skip key value ++ fields)
unless-IsField true key value fields name lead plain all = all
unless-IsField false key value fields name lead plain all = ((name, lead, plain), all)

connection-IsName : IsName header_connection
connection-IsName = record { no_colon = omega arith; no_break = omega arith }

content_length-IsName : IsName header_content_length
content_length-IsName = record { no_colon = omega arith; no_break = omega arith }

content_type-IsName : IsName header_content_type
content_type-IsName = record { no_colon = omega arith; no_break = omega arith }

host-IsName : IsName header_host
host-IsName = record { no_colon = omega arith; no_break = omega arith }

user_agent-IsName : IsName header_user_agent
user_agent-IsName = record { no_colon = omega arith; no_break = omega arith }

pub written_fields-IsField : (h : RequestHeader) → IsReadable h → All IsField (written_fields h)
unfolding blanks
written_fields-IsField h r =
    let close =
      unless-IsField (not h.connection_close || h.disable_special_header) header_connection
        str_close [] connection-IsName refl close-IsPlain tt in
    let general = All-append IsField (map pair h.h.live) _ r.fields close in
    let sized =
      unless-IsField (is_empty h.content_length_bytes || h.disable_special_header)
        header_content_length _ _ content_length-IsName refl r.length_plain general in
    let typed =
      unless-IsField (is_empty (written_type h) || h.disable_special_header) header_content_type _ _
        content_type-IsName refl r.content_type.0 sized in
    let host =
      unless-IsField (is_empty (get_host h) || h.disable_special_header) header_host _ _ host-IsName
        refl r.host.0 typed in
    unless-IsField (is_empty (get_user_agent h) || h.disable_special_header) header_user_agent _ _
      user_agent-IsName refl r.user_agent.0 host

-- The header that is read, before its end.
abbrev pub loaded : RequestHeader → ℕ → RequestHeader → Bytes → Slots → RequestHeader
loaded o n h raw s = record (first_line (reset o) n (get_method h) (get_request_uri h)) {
  raw_headers = raw;
  user_agent = get_user_agent h;
  host = get_host h;
  content_type = written_type h;
  content_length_seen = not (is_empty h.content_length_bytes);
  content_length = h.content_length;
  content_length_bytes = h.content_length_bytes;
  h = s;
  connection_close = h.connection_close;
}
