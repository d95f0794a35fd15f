-- ===== src/Header/Request/FirstLine/Line.antt =====
-- A request line is read back as its method, its target and its version.
use fasthttp.Base.{
  ℕ, ◌+◌, [], ◌∷◌, ◌++◌, ◌≡◌, ◌≢◌, refl, sym, ap, ap₂, ◌∙◌, append_assoc, Bool, true, false, Bytes,
  length, take, drop, length-append, All-append, Lacks, index_byte, last_index_byte,
  index_byte-first, last_index_byte-last, take_front, drop_front_more, arith, equal, has_prefix,
}
use fasthttp.Header.Errors.{ok}
use fasthttp.Header.Lines.{next_line, cut_line, is_valid_method}
use fasthttp.Header.Names.{r_char, n_char, str_crlf, str_http11}
use fasthttp.Header.Request.{RequestHeader}
use fasthttp.Header.Request.FirstLine.{
  overwritten, target_at, method_when, method_at, line_at, parse_first_line,
}
use fasthttp.Header.Scanner.Line.{drop_cr-snoc}
use fasthttp.Header.Scanner.{drop_cr}

abbrev pub line_of : Bytes → Bytes → Bytes
line_of method uri = method ++ b' ' ∷ (uri ++ b' ' ∷ str_http11)

pub record IsTarget (method uri : Bytes) : Type 0 where
  pub has_method : method ≢ []
  pub has_uri : uri ≢ []
  pub method_solid : Lacks b' ' method
  pub method_line : Lacks n_char method
  pub uri_line : Lacks n_char uri

-- The header with the first line stored.
abbrev pub first_line : RequestHeader → ℕ → Bytes → Bytes → RequestHeader
first_line d n method uri = record d {
  method = method;
  no_http11 = false;
  proto = str_http11;
  request_uri = uri;
  first_line_len = n;
}

line-Lacks : (method uri : Bytes) → IsTarget method uri → Lacks n_char (line_of method uri)
line-Lacks method uri t =
    All-append _ method (b' ' ∷ (uri ++ b' ' ∷ str_http11)) t.method_line
      (omega arith, All-append _ uri (b' ' ∷ str_http11) t.uri_line (omega arith))

next_line-line :
    (line rest : Bytes)
    → Lacks n_char line
    → next_line (line ++ (str_crlf ++ rest)) ≡ ok (line, rest)
unfolding next_line cut_line
next_line-line line rest lacks =
    let text = (line ++ r_char ∷ []) ++ n_char ∷ rest in
    ap next_line (sym (append_assoc line (r_char ∷ []) (n_char ∷ rest)))
    ∙ ap (cut_line text) (
        index_byte-first n_char (line ++ r_char ∷ []) rest
          (All-append _ line (r_char ∷ []) lacks (omega arith, tt)))
    ∙ ap₂ (λ a b. ok (drop_cr a, b)) (take_front (line ++ r_char ∷ []) (n_char ∷ rest))
        (drop_front_more 1 (line ++ r_char ∷ []) (n_char ∷ rest))
    ∙ ap (λ a. ok (a, rest)) (drop_cr-snoc line)

target_at-line :
    (d : RequestHeader) (n : ℕ) (method uri : Bytes)
    → uri ≢ []
    → target_at d n method
        (uri ++ b' ' ∷ str_http11)
        (last_index_byte (uri ++ b' ' ∷ str_http11) b' ')
      ≡ (first_line d n method uri, ok n)
unfolding target_at equal has_prefix
target_at-line d n method [] ne = absurd (ne refl)
target_at-line d n method (c ∷ uri) ne =
    ap (target_at d n method ((c ∷ uri) ++ b' ' ∷ str_http11))
      (last_index_byte-last b' ' (c ∷ uri) str_http11 (omega arith))
    ∙ rw (drop_front_more 1 (c ∷ uri) (b' ' ∷ str_http11))
        (rw (take_front (c ∷ uri) (b' ' ∷ str_http11)) refl)

-- With no old method nothing is tested.
overwritten-nil : (has_room : Bool) (method : Bytes) → overwritten has_room [] method ≡ []
unfolding overwritten
overwritten-nil true method = refl
overwritten-nil false method = refl

method_at-line :
    (has_room : Bool) (d : RequestHeader) (n : ℕ) (method uri : Bytes)
    → d.method ≡ []
    → IsTarget method uri
    → method_at has_room d n (line_of method uri) (index_byte (line_of method uri) b' ')
      ≡ (first_line d n method uri, ok n)
unfolding method_at is_valid_method
method_at-line has_room d n [] uri old t = absurd (t.has_method refl)
method_at-line has_room d n (c ∷ method) uri old t =
    let target = uri ++ b' ' ∷ str_http11 in
    let line = line_of (c ∷ method) uri in
    let k = length (c ∷ method) in
    ap (method_at has_room d n line) (index_byte-first b' ' (c ∷ method) target t.method_solid)
    ∙ ap
        (λ o.
          method_when (is_valid_method o) (record d { method = o }) n (take k line)
            (drop (k + 1) line))
        (ap (λ o. overwritten has_room o (take k line)) old
          ∙ overwritten-nil has_room (take k line))
    ∙ ap₂ (λ m b. target_at (record d { method = [] }) n m b (last_index_byte b b' '))
        (take_front (c ∷ method) (b' ' ∷ target)) (drop_front_more 1 (c ∷ method) (b' ' ∷ target))
    ∙ target_at-line (record d { method = [] }) n (c ∷ method) uri t.has_uri

-- A line with a method and a target is stored as they are, with the line's length, whatever comes
-- behind it, in a header that holds no method.
pub parse_first_line-line :
    (has_room : Bool) (d : RequestHeader) (method uri rest : Bytes)
    → d.method ≡ []
    → IsTarget method uri
    → parse_first_line has_room d (line_of method uri ++ (str_crlf ++ rest)) ≡ (
      first_line d (length (line_of method uri) + 2) method uri,
      ok (length (line_of method uri) + 2),
    )
unfolding parse_first_line line_at
parse_first_line-line has_room d method uri rest old t =
    let line = line_of method uri in
    ap (line_at has_room d (length (line ++ (str_crlf ++ rest))))
      (next_line-line line rest (line-Lacks method uri t))
    ∙ ap (λ n. method_at has_room d n line (index_byte line b' '))
        (omega (arith, length-append line (str_crlf ++ rest)))
    ∙ method_at-line has_room d (length line + 2) method uri old t
