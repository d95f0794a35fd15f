-- ===== src/Cookie/Request.antt =====
-- The cookies of a request (cookie.go).
pub mod Stream
pub mod RoundTrip
use fasthttp.Base.{
  ℕ, zero, suc, ◌+◌, ◌≤◌, List, [], ◌∷◌, ◌++◌, append_assoc, append-nil, map, map-append, Option,
  none, some, ◌≡◌, ◌≢◌, refl, sym, ap, ◌∙◌, arith, Bool, true, false, ◌==◌, ◌&&◌, if◌then◌else◌,
  Bytes, length, length-append, ◌<◌, All, Bool-cases, inl, inr, not,
}
use fasthttp.Args.{ArgsKv, Slots, alloc_arg}
use fasthttp.Args.Scan.{is_empty, has_content}
use fasthttp.Cookie.Scan.{Scanned, finish, scan, next, decode_cookie_arg, decode-space}

-- One cookie, without what separates it from the next one.
pub append_cookie : Bytes → ArgsKv → Bytes
append_cookie dst kv =
    (if not (is_empty kv.key) then (dst ++ kv.key) ++ b'=' ∷ [] else dst) ++ kv.value

-- `appendRequestCookieBytes`
unfoldable pub append_request_cookie_bytes : Bytes → List ArgsKv → Bytes
unfolding append_cookie
append_request_cookie_bytes dst [] = dst
append_request_cookie_bytes dst (kv ∷ []) = append_cookie dst kv
append_request_cookie_bytes dst (kv ∷ kv' ∷ cookies) =
    append_request_cookie_bytes (append_cookie dst kv ++ b';' ∷ b' ' ∷ []) (kv' ∷ cookies)

-- `appendResponseCookieBytes`
unfoldable pub append_response_cookie_bytes : Bytes → List ArgsKv → Bytes
append_response_cookie_bytes dst [] = dst
append_response_cookie_bytes dst (kv ∷ []) = dst ++ kv.value
append_response_cookie_bytes dst (kv ∷ kv' ∷ cookies) =
    append_response_cookie_bytes ((dst ++ kv.value) ++ b';' ∷ b' ' ∷ []) (kv' ∷ cookies)

-- The loop of `parseRequestCookies`. `kv` is the entry allocated last, whose `no_value` stays as it
-- is; `releaseArg` gives it back at the end. The fuel bounds the calls of `next`.
pub cookies_loop : ℕ → List ArgsKv → ArgsKv → List ArgsKv → Bytes → Slots
unfolding next
cookies_loop zero live kv spare b = record { live = live; spare = kv ∷ spare }
cookies_loop (suc fuel) live kv spare b = elim (next kv.key b) [
  | none ↦ record { live = live; spare = kv ∷ spare }
  | some s ↦
      let kv' = record kv { key = s.key; value = s.value } in
      if has_content kv'
      then cookies_loop fuel (live ++ kv' ∷ []) (alloc_arg spare).0 (alloc_arg spare).1 s.rest
      else cookies_loop fuel live kv' spare s.rest
]

-- Each call of `next` takes a byte at least.
unfoldable pub parse_request_cookies : Slots → Bytes → Slots
unfolding cookies_loop
parse_request_cookies cookies src =
    cookies_loop (length src) cookies.live (alloc_arg cookies.spare).0 (alloc_arg cookies.spare).1
      src
