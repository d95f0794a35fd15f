-- ===== src/Client.antt =====
-- How often a client sends a request (client.go): the retries of HostClient.Do and the redirects of
-- doRequestFollowRedirects. The calls that send the request are the environment's, by their number.
pub mod Attempts
pub mod Redirects
use fasthttp.Base.{
  ℕ, zero, suc, ◌+◌, max, Bool, true, false, not, ◌&&◌, ◌||◌, leb, ltb, ◌==◌, if◌then◌else◌, Option,
  none, some, ◌≡◌, refl, Bytes, codes, equal,
}
use fasthttp.Header.Request.{RequestHeader, get_method}

pub data DoError : Type 0 where
  eof time_out connection_closed : DoError
  other : ℕ → DoError

-- What a call of `do` returns, and the time that is left before it; 0 if none is.
pub record Call : Type 0 where
  pub failed : Option DoError
  pub left : ℕ

-- The settings of a call of Do. `attempts` is the number of the request, or that of the client where it
-- is not positive; a number that is not positive is 0. `retry_if` is that of the client, which answers
-- with the last of its results; the one of the request is not used.
pub record Settings : Type 0 where
  pub attempts : ℕ
  pub retry_if : Option (ℕ → DoError → Bool)
  pub has_body_stream : Bool
  pub has_timeout : Bool

-- `isIdempotent`
unfoldable pub is_idempotent : RequestHeader → Bool
unfolding get_method equal
is_idempotent h =
    equal (get_method h) (codes "GET")
    || equal (get_method h) (codes "HEAD")
    || equal (get_method h) (codes "PUT")

unfoldable pub retries : Settings → RequestHeader → ℕ → DoError → Bool
unfolding is_idempotent
retries s h attempts e = elim s.retry_if [
  | none ↦ is_idempotent h
  | some retry_if ↦ retry_if attempts e
]

-- The loop of `Do`, behind a call: how many calls are made, and the error.
unfoldable pub do_behind :
    (ℕ → ℕ × Option DoError) → Settings → RequestHeader → ℕ → Option DoError → ℕ × Option DoError
unfolding retries
do_behind go s h calls none = (calls, none)
do_behind go s h calls (some e) =
    if s.has_body_stream || leb s.attempts calls || not (retries s h calls e)
    then (calls, some e)
    else go calls

unfoldable pub do_loop : ℕ → Settings → RequestHeader → (ℕ → Call) → ℕ → ℕ × Option DoError
unfolding do_behind
do_loop zero s h env calls = (calls, none)
do_loop (suc fuel) s h env calls =
    let behind = do_behind (do_loop fuel s h env) s h (calls + 1) (env calls).failed in
    if s.has_timeout && (env calls).left == 0 then (calls, some time_out) else behind

-- The error that Do returns.
unfoldable pub closed : Option DoError → Option DoError
closed (some eof) = some connection_closed
closed e = e

-- `Do`: how many calls are made, and the error.
unfoldable pub do_request : Settings → RequestHeader → (ℕ → Call) → ℕ × Option DoError
unfolding do_loop closed
do_request s h env = let (calls, e) = do_loop (max 1 s.attempts) s h env 0 in (calls, closed e)
