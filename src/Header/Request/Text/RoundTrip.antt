-- ===== src/Header/Request/Text/RoundTrip.antt =====
-- The header of a request is read back from its text.
use fasthttp.Base.{
  ℕ, ◌≤◌, ◌+◌, ◌-◌, List, [], ◌∷◌, ◌++◌, ◌≡◌, refl, sym, ap, ap₂, subst, ◌∙◌, append-nil, Bool,
  false, ◌||◌, not, if◌then◌else◌, none, Bytes, length, drop, length-append, drop_front_more, arith,
  pos,
}
use fasthttp.Args.{Slots}
use fasthttp.Args.Scan.{is_empty}
use fasthttp.Header.Errors.{Result, ok}
use fasthttp.Header.Lines.{read_raw_headers}
use fasthttp.Header.Lines.Raw.{read_raw_headers-lines}
use fasthttp.Header.Names.{str_crlf, str_close, header_connection}
use fasthttp.Header.Request.{
  RequestHeader, reset, get_method, get_request_uri, get_protocol, get_host, get_user_agent,
  written_type, append_bytes,
}
use fasthttp.Header.Request.FirstLine.{parse_first_line}
use fasthttp.Header.Request.FirstLine.Line.{first_line, parse_first_line-line}
use fasthttp.Header.Request.Parse.{
  parse, parse_behind, parse_rest, parse_fields, parsed, is_negative, finish,
}
use fasthttp.Header.Request.Parse.Lines.{apply, closed, parse_headers-lines}
use fasthttp.Header.Request.Text.{unless, request_line, written_fields, append_bytes-lines}
use fasthttp.Header.Request.Text.Fields.{
  apply-host, apply-user_agent, apply-content_type, apply-content_length, apply-general,
  apply-connection_close,
}
use fasthttp.Header.Scanner.{unread}
use fasthttp.Header.Scanner.Lines.{lines, behind, behind_lem}
use fasthttp.Header.Request.Text.Readable.{IsReadable, written_fields-IsField, loaded}

-- The fields applied to a header that is reset and has its first line.
apply-written :
    (o : RequestHeader) (n : ℕ) (h : RequestHeader) (raw : Bytes)
    → IsReadable h
    → (s : Slots) × (apply false
          (record (first_line (reset o) n (get_method h) (get_request_uri h)) {
            raw_headers = raw;
            content_length = pos 0;
            content_length_seen = false;
          })
          (written_fields h)
        ≡ (loaded o n h raw s, none))
      × (s.live ≡ h.h.live)
unfolding reset
apply-written o n h raw r =
    let off = h.disable_special_header in
    let on = r.usual.special in
    let r0 : RequestHeader = record (first_line (reset o) n (get_method h) (get_request_uri h)) {
      raw_headers = raw;
      content_length = pos 0;
      content_length_seen = false;
    } in
    let r1 : RequestHeader = record r0 { user_agent = get_user_agent h } in
    let r2 : RequestHeader = record r1 { host = get_host h } in
    let r3 : RequestHeader = record r2 { content_type = written_type h } in
    let r4 : RequestHeader = record r3 {
      content_length_seen = not (is_empty h.content_length_bytes);
      content_length = h.content_length;
      content_length_bytes = h.content_length_bytes;
    } in
    let close = unless (not h.connection_close || off) header_connection str_close ++ [] in
    let (s, kept, live) =
      apply-general r4 h.h.live close (record { special = refl; normal = refl }) r.general in
    (
      s,
      apply-user_agent r0 (record { special = refl; normal = refl }) off on _ (get_user_agent h)
            r.user_agent.1 refl
          ∙ apply-host r1 (record { special = refl; normal = refl }) off on _ (get_host h) r.host.1
              refl
          ∙ apply-content_type r2 (record { special = refl; normal = refl }) off on _
              (written_type h) r.content_type.1 refl
          ∙ apply-content_length r3 off h.content_length_bytes h.content_length _
              (record { special = refl; normal = refl }) on refl refl refl r.sized
          ∙ kept
          ∙ apply-connection_close (record r4 { h = s }) off h.connection_close
              (record { special = refl; normal = refl }) on refl,
      live,
    )

-- The number of bytes read, and what is left of the text behind the header.
parsed-behind :
    (m : ℕ) (h : RequestHeader) (fields : List (Bytes × Bytes)) (rest : Bytes)
    → parsed m (length (lines fields rest)) (h, ok (behind false rest [] [] 0 fields))
      ≡ (h, ok (m + (length (lines fields rest) - length rest), rest))
unfolding parsed unread
parsed-behind m h fields rest =
    let end = behind false rest [] [] 0 fields in
    let (b, stale, size) = behind_lem false rest [] [] 0 fields in
    let none_left : end.h_len - (length (lines fields rest) - length end.b - length end.stale) ≡ 0 =
      omega (arith, size, ap length b, ap length stale) in
    ap₂ (λ n r. (h, ok (n, r))) (omega (arith, size))
      (ap (λ k. drop k (end.b ++ end.stale)) none_left
        ∙ ap₂ (λ x y. x ++ y) b stale
        ∙ append-nil rest)

length-rest :
    (fields : List (Bytes × Bytes)) (rest : Bytes) → length rest ≤ length (lines fields rest)
length-rest [] rest = omega arith
length-rest ((key, value) ∷ fields) rest = omega (
  arith,
  length-rest fields rest,
  length-append key (b':' ∷ b' ' ∷ ((value ++ 13 ∷ []) ++ 10 ∷ lines fields rest)),
  length-append (value ++ 13 ∷ []) (10 ∷ lines fields rest),
)

-- What reading the text of `h` gives, with `rest` behind it.
pub record ReadsBack (h : RequestHeader) (rest : Bytes) (r : RequestHeader × Result (ℕ × Bytes))
    : Type 0 where
  pub size : r.1 ≡ ok (length (append_bytes h []), rest)
  pub method : r.0.method ≡ get_method h
  pub request_uri : r.0.request_uri ≡ get_request_uri h
  pub proto : r.0.proto ≡ get_protocol h
  pub user_agent : r.0.user_agent ≡ get_user_agent h
  pub host : r.0.host ≡ get_host h
  pub content_type : r.0.content_type ≡ written_type h
  pub content_length_bytes : r.0.content_length_bytes ≡ h.content_length_bytes
  pub content_length : r.0.content_length ≡ h.content_length
  pub connection_close : r.0.connection_close ≡ h.connection_close
  pub fields : r.0.h.live ≡ h.h.live

parse_rest-written :
    (o : RequestHeader) (h : RequestHeader) (rest : Bytes)
    → IsReadable h
    → (raw : Bytes) × (s : Slots) × (parse_rest
          (first_line (reset o) (length (request_line h) + 2) (get_method h) (get_request_uri h))
          (request_line h ++ (str_crlf ++ lines (written_fields h) rest))
          (length (request_line h) + 2)
        ≡ (
          finish (loaded o (length (request_line h) + 2) h raw s),
          ok (
            length (request_line h) + 2 + (length (lines (written_fields h) rest) - length rest),
            rest,
          ),
        ))
      × (s.live ≡ h.h.live)
unfolding parse_rest parse_fields reset
parse_rest-written o h rest r =
    let m = length (request_line h) + 2 in
    let text = lines (written_fields h) rest in
    let wf = written_fields-IsField h r in
    let (raw, k, block) = read_raw_headers-lines (written_fields h) rest wf in
    let (s, applied, live) = apply-written o m h raw r in
    let d = first_line (reset o) m (get_method h) (get_request_uri h) in
    (
      raw,
      s,
      ap (λ b. parse_fields d b m (read_raw_headers [] b))
            (drop_front_more 2 (request_line h) (str_crlf ++ text))
          ∙ ap (parse_fields d text m) block
          ∙ ap (parsed m (length text)) (
              parse_headers-lines (record d { raw_headers = raw }) (written_fields h) rest wf
              ∙ ap (closed (behind false rest [] [] 0 (written_fields h))) applied)
          ∙ parsed-behind m (finish (loaded o m h raw s)) (written_fields h) rest,
      live,
    )

finish-loaded :
    (o : RequestHeader) (n k : ℕ) (h : RequestHeader) (raw : Bytes) (s : Slots) (rest : Bytes)
    → IsReadable h
    → s.live ≡ h.h.live
    → k ≡ length (append_bytes h [])
    → ReadsBack h rest (finish (loaded o n h raw s), ok (k, rest))
unfolding finish reset
finish-loaded o n k h raw s rest r live size = record {
  size = ap (λ k. ok (k, rest)) size;
  method = refl;
  request_uri = refl;
  proto = sym r.version;
  user_agent = refl;
  host = refl;
  content_type = refl;
  content_length_bytes = ap (λ n. if is_negative n then [] else h.content_length_bytes) r.natural.1;
  content_length = refl;
  connection_close = refl;
  fields = live;
}

-- Reading the text of a request's header, with anything behind it, into any object that is reset
-- takes just the text and gives the method, the target, the version, the user agent, the host, the
-- content type that was written, the content length, whether the connection is closed, and the other
-- fields in order.
pub parse-append_bytes :
    (has_room : Bool) (o h : RequestHeader) (rest : Bytes)
    → IsReadable h
    → ReadsBack h rest (parse has_room (reset o) (append_bytes h [] ++ rest))
unfolding parse parse_behind reset
parse-append_bytes has_room o h rest r =
    let line = request_line h in
    let text = lines (written_fields h) rest in
    let spelled : append_bytes h [] ++ rest ≡ line ++ (str_crlf ++ text) =
      append_bytes-lines h rest r.no_trailer r.no_cookies in
    let (raw, s, e, live) = parse_rest-written o h rest r in
    let first : parse_first_line has_room (reset o) (line ++ (str_crlf ++ text)) ≡ (
      first_line (reset o) (length line + 2) (get_method h) (get_request_uri h),
      ok (length line + 2),
    ) =
      subst
        (λ p.
          parse_first_line has_room (reset o)
            ((get_method h ++ b' ' ∷ (get_request_uri h ++ b' ' ∷ p)) ++ (str_crlf ++ text))
          ≡ (
            first_line (reset o)
                (length (get_method h ++ b' ' ∷ (get_request_uri h ++ b' ' ∷ p)) + 2) (get_method h)
                (get_request_uri h),
            ok (length (get_method h ++ b' ' ∷ (get_request_uri h ++ b' ' ∷ p)) + 2),
          ))
        (sym r.version)
        (parse_first_line-line has_room (reset o) (get_method h) (get_request_uri h) text refl
          r.target) in
    subst (ReadsBack h rest)
      (sym (
        ap (parse has_room (reset o)) spelled
        ∙ ap (parse_behind (line ++ (str_crlf ++ text))) first
        ∙ e))
      (finish-loaded o (length line + 2) _ h raw s rest r live (
        omega (
          arith,
          ap length spelled,
          length-append (append_bytes h []) rest,
          length-append line (str_crlf ++ text),
          length-rest (written_fields h) rest,
        )))
