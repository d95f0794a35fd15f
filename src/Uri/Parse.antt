-- ===== src/Uri/Parse.antt =====
-- `URI.parse` and `splitHostURI` (uri.go).
use fasthttp.Base.{
  ℕ, ◌+◌, [], ◌∷◌, Option, none, some, Bool, true, false, ltb, ◌==◌, ◌||◌, not, if◌then◌else◌,
  Bytes, codes, take, drop, index, index_byte,
}
use fasthttp.Uri.{Uri, reset, set_scheme, lowercase_bytes}
use fasthttp.Uri.Path.{normalize_path, str_slash_slash}
use fasthttp.Uri.Host.{HostError, parse_host}

-- `stringContainsCTLByte`
unfoldable pub string_contains_ctl_byte : Bytes → Bool
string_contains_ctl_byte [] = false
string_contains_ctl_byte (b ∷ s) = ltb b b' ' || b == 0x7f || string_contains_ctl_byte s

-- The scheme without the ':' at its end.
pub cut_colon : Bytes → Bytes
cut_colon [] = []
cut_colon (c ∷ []) = if c == b':' then [] else c ∷ []
cut_colon (c ∷ d ∷ s) = c ∷ cut_colon (d ∷ s)

pub record SplitUri : Type 0 where
  pub scheme : Bytes
  pub host : Bytes
  pub uri : Bytes

-- What follows "//" from the positions of '/' and '?'.
pub split_authority : Bytes → Bytes → Option ℕ → Option ℕ → SplitUri
split_authority scheme uri (some n) (some nq) =
    let i = if ltb nq n then nq else n in
    record { scheme = scheme; host = take i uri; uri = drop i uri }
split_authority scheme uri (some n) none = record {
  scheme = scheme;
  host = take n uri;
  uri = drop n uri;
}
split_authority scheme uri none (some nq) = record {
  scheme = scheme;
  host = take nq uri;
  uri = drop nq uri;
}
split_authority scheme uri none none = record { scheme = scheme; host = uri; uri = codes "/" }

abbrev is_none : Option ℕ → Bool
is_none none = true
is_none (some i) = false

-- `splitHostURI`
unfoldable pub split_host_uri : Bytes → Bytes → SplitUri
split_host_uri host uri = elim (index uri str_slash_slash) [
  | none ↦ record { scheme = codes "http"; host = host; uri = uri }
  | some n ↦
      let scheme = take n uri in
      let after = drop (n + 2) uri in
      if not (is_none (index_byte scheme b'/'))
      then record { scheme = codes "http"; host = host; uri = uri }
      else split_authority (cut_colon scheme) after (index_byte after b'/') (index_byte after b'?')
]

pub data UriError : Type 0 where
  invalid_uri : UriError
  host_error : HostError → UriError

-- The user information in front of the '@', and the host behind it.
pub split_auth : Bytes → Option ℕ → Bytes × Bytes
split_auth auth none = (auth, [])
split_auth auth (some n) = (take n auth, drop (n + 1) auth)

unfoldable pub set_auth : Uri → Bytes → Option ℕ → Uri × Bytes
set_auth u host none = (u, host)
set_auth u host (some n) =
    let auth = take n host in
    let (username, password) = split_auth auth (index_byte auth b':') in
    (record u { username = username; password = password }, drop (n + 1) host)

-- The path, the query and the fragment of `b`, from the positions of '?' and '#'.
pub split_path : Bytes → Option ℕ → Option ℕ → Bytes × Bytes × Bytes
split_path b none none = (b, [], [])
split_path b (some q) none = (take q b, drop (q + 1) b, [])
split_path b none (some f) = (take f b, [], drop (f + 1) b)
split_path b (some q) (some f) =
    if ltb f q
    then (take f b, [], drop (f + 1) b)
    else (take q b, drop (q + 1) (take f b), drop (f + 1) b)

unfoldable pub set_parts : Uri → Bytes → Uri
set_parts u b =
    let parts = split_path b (index_byte b b'?') (index_byte b b'#') in
    record u {
      path_original = parts.0;
      path = normalize_path parts.0;
      query_string = parts.1;
      hash = parts.2;
    }

-- `parse` from the host on. Here an error leaves the host as it was given; the source may by then
-- have unescaped the first part of a literal address with a zone in place.
unfoldable pub parse_parts : Uri → Bytes → Bytes → Uri × Option UriError
parse_parts u host uri =
    let (parsed, err) = parse_host host in
    elim err [
      | some e ↦ (record u { host = host }, some (host_error e))
      | none ↦ (set_parts (record u { host = lowercase_bytes parsed }) uri, none)
    ]

abbrev no_host : Bytes → Bool
no_host [] = true
no_host (c ∷ s) = false

-- `parse`, whose last argument is `isTLS`.
unfoldable pub parse : Uri → Bytes → Bytes → Bool → Uri × Option UriError
parse u host uri is_tls =
    let empty = reset u in
    if string_contains_ctl_byte uri
    then (empty, some invalid_uri)
    else (let absolute = no_host host || not (is_none (index uri (codes "://"))) in
        let split = split_host_uri host uri in
        let given = if absolute then set_scheme empty split.scheme else empty in
        let secured = if is_tls then set_scheme given (codes "https") else given in
        let host' = if absolute then split.host else host in
        let uri' = if absolute then split.uri else uri in
        let (named, host'') = set_auth secured host' (index_byte host' b'@') in
        parse_parts named host'' uri')
