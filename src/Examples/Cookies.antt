-- ===== src/Examples/Cookies.antt =====
-- Cookies.
use mathlib.Core.List.{cons-ne-nil}
use fasthttp.Base.{
  Bytes, ℕ, List, [], ◌∷◌, none, some, ◌≡◌, refl, arith, codes, true, false, map, pos,
}
use fasthttp.Args.{ArgsKv, Slots}
use fasthttp.Cookie.Scan.{decode_cookie_arg}
use fasthttp.Cookie.Request.{append_request_cookie_bytes, parse_request_cookies}
use fasthttp.Cookie.Request.Stream.{IsSpelled}
use fasthttp.Cookie.Request.RoundTrip.{pair_of, parse_request_cookies-append_request_cookie_bytes}
use fasthttp.Cookie.Response.{Times, Cookie, disabled, lax_mode, append_bytes, parse_bytes}
use fasthttp.Cookie.Response.Flags.{flagged, parse_bytes-flagged}
use fasthttp.Cookie.Response.Steps.{cleared}
use fasthttp.Cookie.Response.Fresh.{parse_bytes-fresh}

abbrev kv_a : ArgsKv
kv_a = record { key = codes "a"; value = codes "1"; no_value = false }

abbrev kv_b : ArgsKv
kv_b = record { key = codes "b"; value = codes "x=y"; no_value = false }

abbrev no_cookies : Slots
no_cookies = record { live = []; spare = kv_b ∷ [] }

abbrev two : List ArgsKv
two = kv_a ∷ kv_b ∷ []

kv_a-IsSpelled : IsSpelled kv_a
unfolding decode_cookie_arg
kv_a-IsSpelled = record {
  named = cons-ne-nil _ _;
  key_bytes = ((λ e. omega (arith, e), λ e. omega (arith, e)), tt);
  value_bytes = (λ e. omega (arith, e), tt);
  key_trimmed = refl;
  value_trimmed = refl;
}

kv_b-IsSpelled : IsSpelled kv_b
unfolding decode_cookie_arg
kv_b-IsSpelled = record {
  named = cons-ne-nil _ _;
  key_bytes = ((λ e. omega (arith, e), λ e. omega (arith, e)), tt);
  value_bytes = (λ e. omega (arith, e), (λ e. omega (arith, e), (λ e. omega (arith, e), tt)));
  key_trimmed = refl;
  value_trimmed = refl;
}

parse_request_cookies-append_request_cookie_bytes_example :
    map pair_of (parse_request_cookies no_cookies (append_request_cookie_bytes [] two)).live
    ≡ map pair_of two
parse_request_cookies-append_request_cookie_bytes_example =
    parse_request_cookies-append_request_cookie_bytes no_cookies two
      (kv_a-IsSpelled, (kv_b-IsSpelled, tt))

-- Times are years here.
abbrev years : Times ℕ ℕ
years = record {
  zero_time = 1;
  year = λ t. t;
  http_date = λ t. codes "date";
  parse_rfc1123 = λ s. none;
  parse_dashed = λ s. (2030, none);
}

abbrev fresh_cookie : Cookie ℕ
fresh_cookie = record {
  key = [];
  value = [];
  expire = 1;
  max_age = pos 0;
  domain = [];
  path = [];
  same_site = disabled;
  buf_k = [];
  buf_v = [];
  http_only = false;
  secure = false;
  partitioned = false;
}

abbrev used_cookie : Cookie ℕ
used_cookie = record fresh_cookie {
  key = codes "old";
  secure = true;
  same_site = lax_mode;
  buf_k = codes "path";
}

parse_bytes-fresh_example :
    parse_bytes years used_cookie (codes "a=b; HttpOnly")
    ≡ parse_bytes years fresh_cookie (codes "a=b; HttpOnly")
parse_bytes-fresh_example =
    parse_bytes-fresh years used_cookie fresh_cookie (codes "a=b; HttpOnly") (cons-ne-nil _ _)

parse_bytes-flagged_example :
    (text : Bytes) × (append_bytes years
        (flagged years (codes "a") (codes "1") true true lax_mode false)
        []
      ≡ some (flagged years (codes "a") (codes "1") true true lax_mode false, text))
    × (cleared years (parse_bytes years used_cookie text)
        ≡ (flagged years (codes "a") (codes "1") true true lax_mode false, none))
parse_bytes-flagged_example =
    parse_bytes-flagged years used_cookie (codes "a") (codes "1") true true lax_mode false
      kv_a-IsSpelled refl
