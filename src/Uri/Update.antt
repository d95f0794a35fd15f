-- ===== src/Uri/Update.antt =====
-- `RequestURI`, `FullURI` and `Update` (uri.go).
pub mod LostHost
use fasthttp.Base.{
  ℕ, zero, suc, ◌+◌, ◌-◌, List, [], ◌∷◌, ◌++◌, Option, none, some, ◌≡◌, refl, Bool, true, false,
  ltb, ◌==◌, ◌&&◌, ◌||◌, not, if◌then◌else◌, Bytes, codes, take, drop, index, index_byte,
  last_index_byte, length,
}
use fasthttp.Args.Query.{append_bytes}
use fasthttp.Bytesconv.Quote.{append_quoted_path}
use fasthttp.Uri.{Uri, reset, set_hash, set_query_string, path_of, scheme_of}
use fasthttp.Uri.Path.{str_slash_slash}
use fasthttp.Uri.Parse.{UriError, parse}

abbrev pub non_empty {ℓ} : {A : Type ℓ} → List A → Bool
non_empty [] = false
non_empty (c ∷ s) = true

-- `RequestURI`, with the buffer that it keeps.
unfoldable pub request_uri : Uri → Uri × Bytes
request_uri u =
    let path =
      if u.disable_path_normalizing then u.path_original else append_quoted_path [] (path_of u) in
    let out =
      if u.parsed_query_args && non_empty u.query_args.args.live
      then append_bytes (path ++ b'?' ∷ []) u.query_args.args.live
      else if non_empty u.query_string
      then path ++ b'?' ∷ u.query_string
      else path in
    (record u { request_uri = out }, out)

-- `appendSchemeHost`
unfoldable pub append_scheme_host : Uri → Bytes → Bytes
append_scheme_host u dst = ((dst ++ scheme_of u) ++ codes "://") ++ u.host

-- `URI.AppendBytes`
unfoldable pub append_uri : Uri → Bytes → Uri × Bytes
append_uri u dst =
    let (u', request) = request_uri u in
    let out = append_scheme_host u dst ++ request in
    (u', if non_empty u.hash then (out ++ b'#' ∷ []) ++ u.hash else out)

-- `FullURI`
unfoldable pub full_uri : Uri → Uri × Bytes
full_uri u = let (u', out) = append_uri u [] in (record u' { full_uri = out }, out)

-- The result of `updateBytes` after a `Parse` that may fail, which gives nil.
pub parsed : Uri × Option UriError → Bytes → Uri × Bytes
parsed (u, none) buf = (u, buf)
parsed (u, some e) buf = (u, [])

-- The scheme that an absolute URI without one keeps.
unfoldable pub keep_scheme : Bytes → Uri × Option UriError → Bytes → Uri × Bytes
keep_scheme original (u, some e) buf = (u, [])
keep_scheme original (u, none) buf = (
  if non_empty original && not (non_empty u.scheme) then record u { scheme = original } else u,
  buf,
)

-- The last part of the path is replaced; `none` is the panic on a path with no slash.
pub update_last : Uri → Bytes → Option ℕ → Option (Uri × Bytes)
update_last u new_uri none = none
update_last u new_uri (some n) =
    let buf = append_quoted_path (append_scheme_host u []) (take (n + 1) (path_of u)) ++ new_uri in
    some (parsed (parse u [] buf false) buf)

-- `updateBytes`
unfoldable pub update_bytes : Uri → Bytes → Bytes → Option (Uri × Bytes)
update_bytes u [] buf = some (u, buf)
update_bytes u (c ∷ new_uri) buf = elim (index (c ∷ new_uri) str_slash_slash) [
  | some n ↦ some (keep_scheme u.scheme (parse u [] (c ∷ new_uri) false) buf)
  | none ↦
      let rooted = append_scheme_host u [] ++ c ∷ new_uri in
      if c == b'/'
      then some (parsed (parse u [] rooted false) rooted)
      else if c == b'?'
      then some (full_uri (set_query_string u new_uri))
      else if c == b'#'
      then some (full_uri (set_hash u new_uri))
      else update_last u (c ∷ new_uri) (last_index_byte (path_of u) b'/')
]

-- `UpdateBytes` and `Update`, which keep the result as the request URI.
unfoldable pub set_request_uri : Option (Uri × Bytes) → Option Uri
set_request_uri none = none
set_request_uri (some (u, buf)) = some (record u { request_uri = buf })

unfoldable pub update : Uri → Bytes → Option Uri
update u new_uri = set_request_uri (update_bytes u new_uri u.request_uri)
