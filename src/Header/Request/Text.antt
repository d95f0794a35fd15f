-- ===== src/Header/Request/Text.antt =====
-- The text of a request's header, line by line.
pub mod Fields
pub mod Readable
pub mod RoundTrip
use fasthttp.Base.{
  ℕ, List, [], ◌∷◌, ◌++◌, ◌≡◌, refl, ap, ap₂, ◌∙◌, sym, append_assoc, append-nil, Bool, true, false,
  ◌||◌, not, ◌&&◌, if◌then◌else◌, Bytes, codes, map, equal,
}
use fasthttp.Args.{ArgsKv}
use fasthttp.Args.Scan.{is_empty}
use fasthttp.Header.Names.{
  str_crlf, str_close, header_host, header_user_agent, header_content_type, header_content_length,
  header_connection,
}
use fasthttp.Header.Request.{
  RequestHeader, append_header_line, append_fields, is_trailer, line_unless, append_with,
  append_trailer_line, append_cookie_line, append_bytes, written_type, get_method, get_request_uri,
  get_protocol, get_user_agent, get_host, get_content_type, ignore_body,
}
use fasthttp.Header.Scanner.Line.{line_text}
use fasthttp.Header.Scanner.Lines.{lines}

abbrev pub pair : ArgsKv → Bytes × Bytes
pair kv = (kv.key, kv.value)

abbrev pub unless : Bool → Bytes → Bytes → List (Bytes × Bytes)
unless skip key value = if skip then [] else (key, value) ∷ []

line-text :
    (dst key value t : Bytes) → append_header_line dst key value ++ t ≡ dst ++ line_text key value t
unfolding append_header_line
line-text dst key value t = simp append_assoc

line_unless-lines :
    (skip : Bool) (dst key value : Bytes) (fields : List (Bytes × Bytes)) (rest : Bytes)
    → line_unless skip dst key value ++ lines fields rest
      ≡ dst ++ lines (unless skip key value ++ fields) rest
line_unless-lines true dst key value fields rest = refl
line_unless-lines false dst key value fields rest = line-text dst key value (lines fields rest)

append_fields-lines :
    (dst : Bytes) (h : List ArgsKv) (fields : List (Bytes × Bytes)) (rest : Bytes)
    → append_fields [] dst h ++ lines fields rest ≡ dst ++ lines (map pair h ++ fields) rest
unfolding append_fields is_trailer
append_fields-lines dst [] fields rest = refl
append_fields-lines dst (kv ∷ h) fields rest =
    append_fields-lines (append_header_line dst kv.key kv.value) h fields rest
    ∙ line-text dst kv.key kv.value (lines (map pair h ++ fields) rest)

-- The request line without its end.
abbrev pub request_line : RequestHeader → Bytes
request_line h = get_method h ++ b' ' ∷ (get_request_uri h ++ b' ' ∷ get_protocol h)

-- The fields that are written, in order, for a header with no trailers and no cookies apart.
abbrev pub written_fields : RequestHeader → List (Bytes × Bytes)
written_fields h =
    let off = h.disable_special_header in
    unless (is_empty (get_user_agent h) || off) header_user_agent (get_user_agent h)
    ++ (unless (is_empty (get_host h) || off) header_host (get_host h)
        ++ (unless (is_empty (written_type h) || off) header_content_type (written_type h)
            ++ (unless (is_empty h.content_length_bytes || off) header_content_length
                  h.content_length_bytes
                ++ (map pair h.h.live
                    ++ (unless (not h.connection_close || off) header_connection str_close
                        ++ [])))))

append_with-lines :
    (h : RequestHeader) (rest : Bytes)
    → append_with h [] [] [] ++ rest ≡ request_line h ++ (str_crlf ++ lines (written_fields h) rest)
unfolding append_with append_trailer_line append_cookie_line
append_with-lines h rest =
    append_assoc _ str_crlf rest
    ∙ line_unless-lines (not h.connection_close || h.disable_special_header) _ header_connection
        str_close [] rest
    ∙ append_fields-lines _ h.h.live _ rest
    ∙ line_unless-lines (is_empty h.content_length_bytes || h.disable_special_header) _
        header_content_length h.content_length_bytes _ rest
    ∙ line_unless-lines (is_empty (written_type h) || h.disable_special_header) _
        header_content_type (written_type h) _ rest
    ∙ line_unless-lines (is_empty (get_host h) || h.disable_special_header) _ header_host
        (get_host h) _ rest
    ∙ line_unless-lines (is_empty (get_user_agent h) || h.disable_special_header) _
        header_user_agent (get_user_agent h) _ rest
    ∙ simp append_assoc

-- The text of a header with no trailers, whose cookies are not collected, is its request line and a
-- line for each field.
pub append_bytes-lines :
    (h : RequestHeader) (rest : Bytes)
    → h.trailer.live ≡ []
    → h.cookies.live ≡ []
    → append_bytes h [] ++ rest ≡ request_line h ++ (str_crlf ++ lines (written_fields h) rest)
unfolding append_bytes
append_bytes-lines h rest no_trailer no_cookies =
    ap₂ (λ t c. append_with h t c [] ++ rest) no_trailer no_cookies ∙ append_with-lines h rest
