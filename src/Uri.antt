-- ===== src/Uri.antt =====
-- uri.go: `URI`, its fields and the methods that set them. Names in the `string` and `[]byte` forms
-- of a method are alike byte strings here.
pub mod Path
pub mod Host
pub mod Parse
pub mod Update
use fasthttp.Base.{ℕ, List, [], ◌∷◌, ◌++◌, Bool, true, false, if◌then◌else◌, Bytes, map, codes}
use fasthttp.Bytesconv.Tables.{to_lower}
use fasthttp.Args
use fasthttp.Args.{Args, Slots}
use fasthttp.Args.Methods
use fasthttp.Args.Scan
use fasthttp.Uri.Path.{normalize_path}

pub record Uri : Type 0 where
  pub path_original : Bytes
  pub scheme : Bytes
  pub path : Bytes
  pub query_string : Bytes
  pub hash : Bytes
  pub host : Bytes
  pub query_args : Args
  pub parsed_query_args : Bool
  pub disable_path_normalizing : Bool
  pub full_uri : Bytes
  pub request_uri : Bytes
  pub username : Bytes
  pub password : Bytes

-- `lowercaseBytes`
unfoldable pub lowercase_bytes : Bytes → Bytes
lowercase_bytes b = map to_lower b

-- `Reset`, which leaves the two buffers.
unfoldable pub reset : Uri → Uri
reset u = record u {
  path_original = [];
  scheme = [];
  path = [];
  query_string = [];
  hash = [];
  username = [];
  password = [];
  host = [];
  query_args = Args.reset u.query_args;
  parsed_query_args = false;
  disable_path_normalizing = false;
}

-- `CopyTo`
unfoldable pub copy_to : Uri → Uri → Uri
copy_to u dst = record u {
  query_args = Methods.copy_to u.query_args (Args.reset dst.query_args);
  full_uri = dst.full_uri;
  request_uri = dst.request_uri;
}

-- `SetScheme` and `SetSchemeBytes`
unfoldable pub set_scheme : Uri → Bytes → Uri
set_scheme u scheme = record u { scheme = lowercase_bytes scheme }

-- `SetHost` and `SetHostBytes`
unfoldable pub set_host : Uri → Bytes → Uri
set_host u host = record u { host = lowercase_bytes host }

-- `SetHash` and `SetHashBytes`
unfoldable pub set_hash : Uri → Bytes → Uri
set_hash u hash = record u { hash = hash }

-- `SetQueryString` and `SetQueryStringBytes`
unfoldable pub set_query_string : Uri → Bytes → Uri
set_query_string u query_string = record u {
  query_string = query_string;
  parsed_query_args = false;
}

-- `SetPath` and `SetPathBytes`
unfoldable pub set_path : Uri → Bytes → Uri
set_path u path = record u { path_original = path; path = normalize_path path }

abbrev or_default : Bytes → Bytes → Bytes
or_default d [] = d
or_default d (c ∷ s) = c ∷ s

-- `Path` and `Scheme`
unfoldable pub path_of : Uri → Bytes
path_of u = or_default (codes "/") u.path

unfoldable pub scheme_of : Uri → Bytes
scheme_of u = or_default (codes "http") u.scheme

-- `parseQueryArgs` and `QueryArgs`
unfoldable pub parse_query_args : Uri → Uri
parse_query_args u = if u.parsed_query_args then u else record u {
  query_args = Scan.parse_bytes u.query_args u.query_string;
  parsed_query_args = true;
}
