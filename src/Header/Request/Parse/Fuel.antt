-- ===== src/Header/Request/Parse/Fuel.antt =====
-- The loop of `parseHeaders` ends: more fuel than the text has bytes changes nothing.
use fasthttp.Base.{
  ℕ, zero, suc, ◌<◌, ◌≡◌, refl, Bool, true, false, Option, none, some, length, arith,
}
use fasthttp.Header.Errors.{HeaderError, Result}
use fasthttp.Header.Request.{RequestHeader}
use fasthttp.Header.Request.Fields.{field}
use fasthttp.Header.Request.Parse.{headers_field, headers_step, headers_loop}
use fasthttp.Header.Scanner.{HeaderScanner, next}
use fasthttp.Header.Scanner.Progress.{next-shrinks}

headers_field-same :
    (go go' : RequestHeader → HeaderScanner → RequestHeader × Result HeaderScanner)
    (s : HeaderScanner) (r : RequestHeader × Option HeaderError)
    → ((h : RequestHeader) → go h s ≡ go' h s)
    → headers_field go s r ≡ headers_field go' s r
unfolding headers_field
headers_field-same go go' s (h, some e) same = refl
headers_field-same go go' s (h, none) same = same h

headers_step-same :
    (go go' : RequestHeader → HeaderScanner → RequestHeader × Result HeaderScanner)
    (h : RequestHeader) (r : HeaderScanner × Bool)
    → (r.1 ≡ true → (h' : RequestHeader) → go h' r.0 ≡ go' h' r.0)
    → headers_step go h r ≡ headers_step go' h r
unfolding headers_step
headers_step-same go go' h (s, false) same = refl
headers_step-same go go' h (s, true) same =
    headers_field-same go go' s (field h s.key s.value) (same refl)

-- Any two amounts of fuel that are larger than the text give the same header and the same result,
-- so that the fuel of parseHeaders, the length of its text and 1, is enough for its loop.
pub headers_loop-enough :
    (f g : ℕ) (h : RequestHeader) (s : HeaderScanner)
    → length s.b < f
    → length s.b < g
    → headers_loop f h s ≡ headers_loop g h s
unfolding headers_loop
headers_loop-enough zero g h s hf hg = absurd (omega arith)
headers_loop-enough (suc f) zero h s hf hg = absurd (omega arith)
headers_loop-enough (suc f) (suc g) h s hf hg =
    headers_step-same (headers_loop f) (headers_loop g) h (next s) λ more h'.
      headers_loop-enough f g h' (next s).0 (omega (arith, next-shrinks s more))
        (omega (arith, next-shrinks s more))
