-- ===== src/Examples/Requests.antt =====
-- Retries and redirects.
use fasthttp.Base.{ℕ, ◌+◌, ◌≤◌, max, [], none, some, ◌≡◌, Bytes, codes, true, false}
use fasthttp.Uri.{Uri}
use fasthttp.Header.Request.Parse.{fresh}
use fasthttp.Client.{Call, Settings, other, do_loop, do_request}
use fasthttp.Client.Attempts.{most_calls, do_request-bounded}
use fasthttp.Client.Redirects.{Answer, get_redirect_url, follow_loop, do_request_follow_redirects}
use fasthttp.Client.Redirects.Bounded.{do_request_follow_redirects-bounded}

-- A server that never answers, and five attempts.
abbrev silent : ℕ → Call
silent n = record { failed = some (other 1); left = 1 }

abbrev five : Settings
five = record { attempts = 5; retry_if = none; has_body_stream = false; has_timeout = true }

do_request-bounded_example :
    ((do_request five fresh silent).0 ≤ most_calls five fresh)
    × (do_loop (max 1 5 + 3) five fresh silent 0 ≡ do_loop (max 1 5) five fresh silent 0)
do_request-bounded_example = do_request-bounded five fresh silent 3

-- A server that redirects every request.
abbrev elsewhere : ℕ → Bytes → Answer
elsewhere n url = record { fault = none; status_code = 302; location = codes "http://a/b" }

abbrev no_uri : Uri
no_uri = record {
  path_original = [];
  scheme = [];
  path = [];
  query_string = [];
  hash = [];
  host = [];
  query_args = record { args = record { live = []; spare = [] }; buf = [] };
  parsed_query_args = false;
  disable_path_normalizing = false;
  full_uri = [];
  request_uri = [];
  username = [];
  password = [];
}

-- The capacity of the array of a scheme.
abbrev spare : ℕ → ℕ
spare n = 8

do_request_follow_redirects-bounded_example :
    ((do_request_follow_redirects no_uri spare false true 2 elsewhere (codes "http://a/")).requests ≤ 3)
    × (follow_loop 4
          (λ n base location. get_redirect_url no_uri (spare n) base location false true)
          2
          elsewhere
          0
          0
          (codes "http://a/")
        ≡ do_request_follow_redirects no_uri spare false true 2 elsewhere (codes "http://a/"))
do_request_follow_redirects-bounded_example =
    do_request_follow_redirects-bounded no_uri spare false true 2 elsewhere (codes "http://a/") 1
