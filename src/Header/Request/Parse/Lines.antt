-- ===== src/Header/Request/Parse/Lines.antt =====
-- Reading the lines of a header is applying its fields in order.
use fasthttp.Base.{
  ℕ, zero, suc, ◌<◌, List, [], ◌∷◌, ◌++◌, ◌≡◌, refl, ap, ◌∙◌, Bool, true, false, Option, none, some,
  length, arith, Bytes, All, pos, length-append,
}
use fasthttp.Header.Errors.{HeaderError, Result, ok, err}
use fasthttp.Header.Names.{r_char}
use fasthttp.Header.Request.{RequestHeader}
use fasthttp.Header.Request.Fields.{field}
use fasthttp.Header.Request.Parse.{
  headers_field, headers_end, headers_step, headers_loop, parse_headers, finish,
}
use fasthttp.Header.Scanner.{HeaderScanner}
use fasthttp.Header.Scanner.Line.{at_line, next-line, next-end}
use fasthttp.Header.Scanner.Lines.{IsField, lines, written_key, behind, lines-GoesNoFurther}

-- The fields applied in order, up to the first that is refused.
abbrev pub apply_then :
    (RequestHeader → RequestHeader × Option HeaderError)
    → RequestHeader × Option HeaderError
    → RequestHeader × Option HeaderError
apply_then go (h, some e) = (h, some e)
apply_then go (h, none) = go h

abbrev pub apply : Bool → RequestHeader → List (Bytes × Bytes) → RequestHeader × Option HeaderError
apply dn h [] = (h, none)
apply dn h ((key, value) ∷ fields) =
    apply_then (λ h'. apply dn h' fields) (field h (written_key dn key) value)

-- What parseHeaders makes of the fields, with the scanner behind them.
abbrev pub closed :
    HeaderScanner → RequestHeader × Option HeaderError → RequestHeader × Result HeaderScanner
closed s (h, some e) = (h, err e)
closed s (h, none) = (finish h, ok s)

field-then :
    (go : RequestHeader → HeaderScanner → RequestHeader × Result HeaderScanner)
    (rest : RequestHeader → RequestHeader × Option HeaderError) (s end : HeaderScanner)
    (r : RequestHeader × Option HeaderError)
    → ((h : RequestHeader) → go h s ≡ closed end (rest h))
    → headers_field go s r ≡ closed end (apply_then rest r)
unfolding headers_field
field-then go rest s end (h, some e) same = refl
field-then go rest s end (h, none) same = same h

headers_loop-lines :
    (fuel : ℕ) (h : RequestHeader) (started dn : Bool) (rest k v : Bytes) (n : ℕ)
    (fields : List (Bytes × Bytes))
    → length fields < fuel
    → All IsField fields
    → headers_loop fuel h (at_line started (lines fields rest) k v n dn)
      ≡ closed (behind dn rest k v n fields) (apply dn h fields)
unfolding headers_loop headers_step headers_end
headers_loop-lines zero h started dn rest k v n fields lt w = absurd (omega arith)
headers_loop-lines (suc fuel) h started dn rest k v n [] lt w =
    ap (headers_step (headers_loop fuel) h) (next-end started dn rest k v n)
headers_loop-lines (suc fuel) h started dn rest k v n ((key, value) ∷ fields) lt (w, ws) =
    ap (headers_step (headers_loop fuel) h) (
      next-line started dn key value (lines fields rest) k v n w.0 w.2
        (lines-GoesNoFurther fields rest ws))
    ∙ field-then (headers_loop fuel) (λ h'. apply dn h' fields) _ _
        (field h (written_key dn key) value)
        λ h'. headers_loop-lines fuel h' true dn rest _ _ _ fields (omega arith) ws

length-lines :
    (fields : List (Bytes × Bytes)) (rest : Bytes) → length fields < length (lines fields rest)
length-lines [] rest = omega arith
length-lines ((key, value) ∷ fields) rest = omega (
  arith,
  length-lines fields rest,
  length-append key (b':' ∷ b' ' ∷ ((value ++ r_char ∷ []) ++ 10 ∷ lines fields rest)),
  length-append (value ++ r_char ∷ []) (10 ∷ lines fields rest),
)

-- For a text of one line for each field, an empty line and a rest, parseHeaders applies the fields
-- in order up to the first that is refused, whose error it returns, and else finishes the header
-- with the scanner behind the empty line.
pub parse_headers-lines :
    (h : RequestHeader) (fields : List (Bytes × Bytes)) (rest : Bytes)
    → All IsField fields
    → parse_headers h (lines fields rest)
      ≡ closed (behind h.disable_normalizing rest [] [] 0 fields) (
          apply h.disable_normalizing
            (record h { content_length = pos 0; content_length_seen = false })
            fields)
unfolding parse_headers
parse_headers-lines h fields rest w =
    headers_loop-lines (suc (length (lines fields rest)))
      (record h { content_length = pos 0; content_length_seen = false }) false h.disable_normalizing
      rest [] [] 0 fields (omega (arith, length-lines fields rest)) w
