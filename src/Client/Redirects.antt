-- ===== src/Client/Redirects.antt =====
-- The redirects that doRequestFollowRedirects follows (client.go). The answer to each request is the
-- environment's, by its number and its URL. `u` is the URI that AcquireURI returns, after Reset, and
-- `capacity` that of the array of its scheme, where it is more than the scheme of the base needs.
pub mod Bounded
use fasthttp.Base.{
  ℕ, zero, suc, ◌+◌, List, [], ◌∷◌, Bool, true, false, not, ◌&&◌, ◌||◌, leb, ltb, ◌==◌,
  if◌then◌else◌, Option, none, some, ◌≡◌, refl, ◌⊎◌, inl, inr, Bytes, codes, equal, has_prefix,
 length, drop, take, max, ◌++◌,
}
use fasthttp.Uri.{Uri, reset, scheme_of}
use fasthttp.Uri.Update.{update, full_uri, non_empty}

-- What parseURI or Do fails with; the number of the error is the environment's.
pub data Fault : Type 0 where
  bad_uri not_sent : ℕ → Fault

pub data RedirectError : Type 0 where
  too_many_redirects missing_location different_scheme different_host broken : RedirectError
  failed : Fault → RedirectError

pub record Answer : Type 0 where
  pub fault : Option Fault
  pub status_code : ℕ
  pub location : Bytes

-- `StatusCodeIsRedirect`
unfoldable pub status_code_is_redirect : ℕ → Bool
status_code_is_redirect code =
    code == 301 || code == 302 || code == 303 || code == 307 || code == 308

-- What `oldScheme` holds after UpdateBytes: it is a slice of the array of `u.scheme`, and a new scheme
-- that fits into the array is written over it. The "http" of a URI without a scheme is no such slice.
unfoldable pub overwritten : ℕ → Bytes → Bytes → Bytes
overwritten capacity old new =
    if leb (length new) (max capacity (length old))
    then take (length old) (new ++ drop (length new) old)
    else old

unfoldable pub old_scheme_of : ℕ → Uri → Uri → Bytes
unfolding overwritten scheme_of
old_scheme_of capacity u u' =
    if non_empty u.scheme then overwritten capacity u.scheme u'.scheme else scheme_of u

-- The test of a HostClient, on what `oldScheme` holds and the URI after: `broken` is a panic, where the
-- base is shorter than its scheme and "://".
unfoldable pub same_check : Bytes → Bytes → Uri → Option RedirectError
unfolding scheme_of equal has_prefix
same_check base old_scheme u =
    if not (equal (scheme_of u) old_scheme)
    then some different_scheme
    else if ltb (length base) (length (scheme_of u) + 3)
    then some broken
    else if has_prefix (drop (length (scheme_of u) + 3) base) u.host
    then none
    else some different_host

unfoldable pub checked : Bool → Option RedirectError → Uri → RedirectError ⊎ Bytes
unfolding full_uri
checked off (some e) u = inl e
checked off none u = inr (full_uri (record u { disable_path_normalizing = off })).1

unfoldable pub redirected : ℕ → Bytes → Bytes → Bool → Bool → Option Uri → RedirectError ⊎ Bytes
unfolding checked same_check update old_scheme_of
redirected capacity base location off same none = inl broken
redirected capacity base location off same (some u) = elim (update u location) [
  | none ↦ inl broken
  | some u' ↦ checked off (if same then same_check base (old_scheme_of capacity u u') u' else none) u'
]

-- `getRedirectURL`
unfoldable pub get_redirect_url : Uri → ℕ → Bytes → Bytes → Bool → Bool → RedirectError ⊎ Bytes
unfolding redirected update reset
get_redirect_url u capacity base location off same =
    redirected capacity base location off same (update (reset u) base)

-- What a call returns: the number of rounds, each of which sends a request at most, the status code and
-- the error.
pub record Followed : Type 0 where
  pub requests : ℕ
  pub status_code : ℕ
  pub fault : Option RedirectError

unfoldable pub go_on : (Bytes → Followed) → ℕ → ℕ → RedirectError ⊎ Bytes → Followed
go_on go requests code (inl e) = record { requests = requests; status_code = code; fault = some e }
go_on go requests code (inr url) = go url

-- What the loop does with an answer; `requests` counts it, so that it is the number of redirects.
unfoldable pub follow :
    (Bytes → Followed) → (Bytes → RedirectError ⊎ Bytes) → ℕ → ℕ → ℕ → Answer → Followed
unfolding go_on status_code_is_redirect
follow go next max_redirects requests code a = elim a.fault [
  | some (bad_uri e) ↦ record {
    requests = requests;
    status_code = 0;
    fault = some (failed (bad_uri e));
  }
  | some (not_sent e) ↦ record {
    requests = requests;
    status_code = code;
    fault = some (failed (not_sent e));
  }
  | none ↦
      let stop : Option RedirectError → Followed =
        λ e. record { requests = requests; status_code = a.status_code; fault = e } in
      if not (status_code_is_redirect a.status_code)
      then stop none
      else if ltb max_redirects requests
      then stop (some too_many_redirects)
      else if length a.location == 0
      then stop (some missing_location)
      else go_on go requests a.status_code (next a.location)
]

-- The loop. A round is a request, so that one more than the redirects is fuel enough.
unfoldable pub follow_loop :
    ℕ
    → (ℕ → Bytes → Bytes → RedirectError ⊎ Bytes)
    → ℕ
    → (ℕ → Bytes → Answer)
    → ℕ
    → ℕ
    → Bytes
    → Followed
unfolding follow
follow_loop zero next max_redirects env requests code url = record {
  requests = requests;
  status_code = code;
  fault = none;
}
follow_loop (suc fuel) next max_redirects env requests code url =
    follow (follow_loop fuel next max_redirects env (requests + 1) (env requests url).status_code)
      (next requests url) max_redirects (requests + 1) code (env requests url)

-- `doRequestFollowRedirects`
unfoldable pub do_request_follow_redirects :
    Uri → (ℕ → ℕ) → Bool → Bool → ℕ → (ℕ → Bytes → Answer) → Bytes → Followed
unfolding follow_loop get_redirect_url
do_request_follow_redirects u capacity off same max_redirects env url =
    follow_loop (max_redirects + 1) (λ n base location. get_redirect_url u (capacity n) base location off same)
      max_redirects env 0 0 url
