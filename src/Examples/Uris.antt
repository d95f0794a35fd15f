-- ===== src/Examples/Uris.antt =====
-- URIs.
use fasthttp.Base.{[], ◌++◌, none, ◌≡◌, ◌≢◌, refl, Bytes, All, codes, false, index}
use fasthttp.Uri.{Uri}
use fasthttp.Uri.Path.{str_slash_dot_dot_slash, str_slash_dot_dot, normalize_path}
use fasthttp.Uri.Path.DotDot.{normalize_path-no-dot-dot}
use fasthttp.Uri.Host.{encode_host, unescape, check, check_plain, should_escape}
use fasthttp.Uri.Host.Unescape.{IsAllowed, unescape-IsAllowed}

normalize_path-no-dot-dot_example :
    (index (normalize_path (codes "/a/%2e%2e/../etc/..")) str_slash_dot_dot_slash ≡ none)
    × ((p : Bytes) → normalize_path (codes "/a/%2e%2e/../etc/..") ≢ p ++ str_slash_dot_dot)
normalize_path-no-dot-dot_example = normalize_path-no-dot-dot (codes "/a/%2e%2e/../etc/..")

unescape-IsAllowed_example : All IsAllowed (codes "foo.com")
unfolding unescape check check_plain should_escape
unescape-IsAllowed_example = unescape-IsAllowed encode_host (codes "foo.com") (codes "foo.com") refl

abbrev some_uri : Uri
some_uri = record {
  path_original = codes "/";
  scheme = codes "https";
  path = codes "/";
  query_string = [];
  hash = [];
  host = codes "foo.com";
  query_args = record { args = record { live = []; spare = [] }; buf = [] };
  parsed_query_args = false;
  disable_path_normalizing = false;
  full_uri = [];
  request_uri = [];
  username = [];
  password = [];
}
