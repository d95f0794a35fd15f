-- ===== src/Cookie/Response.antt =====
-- `Cookie` (cookie.go). Times, their text and their formats are package time's, through `Times`.
pub mod Fresh
pub mod Steps
pub mod Flags
use Prim.Native.String.{String}
use fasthttp.Base.{
  ℕ, zero, suc, ◌+◌, ◌-◌, List, [], ◌∷◌, ◌++◌, Option, none, some, ◌≡◌, refl, Bool, true, false,
  ltb, leb, ◌==◌, ◌&&◌, ◌||◌, not, if◌then◌else◌, Bytes, length, bit_or, codes, ℤ, pos, negsuc,
}
use fasthttp.Bytesconv.Decimal.{IntError, append_uint, parse_uint}
use fasthttp.Cookie.Scan.{Scanned, next, case_insensitive_compare}

-- `time.Time`: the zero time, the year, the text of `AppendHTTPDate`, and the two formats that
-- `ParseBytes` tries, with the error of the second one.
pub record Times (T E : Type 0) : Type 0 where
  pub zero_time : T
  pub year : T → ℕ
  pub http_date : T → Bytes
  pub parse_rfc1123 : Bytes → Option T
  pub parse_dashed : Bytes → T × Option E

pub data SameSite : Type 0 where
  disabled default_mode lax_mode strict_mode none_mode : SameSite

-- `expire` is a time and `max_age` an int.
pub record Cookie (T : Type 0) : Type 0 where
  pub key : Bytes
  pub value : Bytes
  pub expire : T
  pub max_age : ℤ
  pub domain : Bytes
  pub path : Bytes
  pub same_site : SameSite
  pub buf_k : Bytes
  pub buf_v : Bytes
  pub http_only : Bool
  pub secure : Bool
  pub partitioned : Bool

pub data CookieError (E : Type 0) : Type 0 where
  no_cookies : CookieError E
  bad_max_age : IntError → CookieError E
  bad_expires : E → CookieError E

module _ {T E : Type 0} (time : Times T E) where
  -- `Reset`, which leaves the buffers.
  unfoldable pub reset : Cookie T → Cookie T
  reset c = record c {
    key = [];
    value = [];
    expire = time.zero_time;
    max_age = pos 0;
    domain = [];
    path = [];
    http_only = false;
    secure = false;
    same_site = disabled;
    partitioned = false;
  }

  -- `CopyTo`, which copies `src` to `c`.
  unfoldable pub copy_to : Cookie T → Cookie T → Cookie T
  copy_to c src = record src { buf_k = c.buf_k; buf_v = c.buf_v }

  unfoldable pub set_same_site : Cookie T → SameSite → Cookie T
  set_same_site c none_mode = record c { same_site = none_mode; secure = true }
  set_same_site c mode = record c { same_site = mode }

  unfoldable pub set_partitioned : Cookie T → Bool → Cookie T
  set_partitioned c partitioned =
      if partitioned
      then record c { partitioned = partitioned; secure = true; path = codes "/" }
      else record c { partitioned = partitioned }

  -- `Max-Age`; `none` is the panic of `AppendUint` on a negative number, which is not reached.
  pub append_max_age : Bytes → ℤ → Option Bytes
  append_max_age dst (pos zero) = some dst
  append_max_age dst (pos (suc n)) = append_uint (dst ++ codes "; Max-Age=") (pos (suc n))
  append_max_age dst (negsuc n) = some (dst ++ codes "; Max-Age=0")

  abbrev non_empty : Bytes → Bool
  non_empty [] = false
  non_empty (c ∷ s) = true

  pub same_site_text : SameSite → Bytes
  same_site_text disabled = []
  same_site_text default_mode = codes "; SameSite"
  same_site_text lax_mode = codes "; SameSite=Lax"
  same_site_text strict_mode = codes "; SameSite=Strict"
  same_site_text none_mode = codes "; SameSite=None"

  -- What follows `Max-Age`.
  pub append_rest : Cookie T → Bytes → Cookie T × Bytes
  unfolding same_site_text
  append_rest c dst =
      let valid_expires = leb 1601 (time.year c.expire) in
      let date = time.http_date c.expire in
      let dated = if valid_expires then dst ++ codes "; Expires=" ++ date else dst in
      let homed = if non_empty c.domain then dated ++ codes "; Domain=" ++ c.domain else dated in
      let pathed = if non_empty c.path then homed ++ codes "; Path=" ++ c.path else homed in
      let hidden = if c.http_only then pathed ++ codes "; HttpOnly" else pathed in
      let secured = if c.secure then hidden ++ codes "; Secure" else hidden in
      let sited = secured ++ same_site_text c.same_site in
      (
        record c { buf_k = if valid_expires then date else c.buf_k },
        if c.partitioned then sited ++ codes "; Partitioned" else sited,
      )

  -- `AppendBytes`
  unfoldable pub append_bytes : Cookie T → Bytes → Option (Cookie T × Bytes)
  unfolding append_max_age append_rest
  append_bytes c dst =
      let named = if non_empty c.key then (dst ++ c.key) ++ b'=' ∷ [] else dst in
      elim (append_max_age (named ++ c.value) c.max_age) [
        | none ↦ none
        | some aged ↦ some (append_rest c aged)
      ]

  -- `c | 0x20`
  abbrev lower : Bytes → ℕ
  lower [] = 0
  lower (c ∷ s) = bit_or c 32

  abbrev is : String → Bytes → Bool
  is name s = case_insensitive_compare (codes name) s

  pub parse_same_site : Bytes → SameSite → SameSite
  parse_same_site v mode =
      if lower v == b'l'
      then (if is "Lax" v then lax_mode else mode)
      else if lower v == b's'
      then (if is "Strict" v then strict_mode else mode)
      else if lower v == b'n'
      then (if is "None" v then none_mode else mode)
      else mode

  pub set_max_age : Cookie T → ℤ × Option IntError → Cookie T × Option (CookieError E)
  set_max_age c (n, none) = (record c { max_age = n }, none)
  set_max_age c (n, some e) = (c, some (bad_max_age e))

  pub set_expires : Cookie T → Option T → T × Option E → Cookie T × Option (CookieError E)
  set_expires c (some t) _ = (record c { expire = t }, none)
  set_expires c none (t, none) = (record c { expire = t }, none)
  set_expires c none (t, some e) = (c, some (bad_expires e))

  -- An attribute with a key.
  pub keyed : Cookie T → Bytes → Bytes → Cookie T × Option (CookieError E)
  unfolding set_max_age set_expires parse_same_site
  keyed c k v =
      if lower k == b'm'
      then (if is "Max-Age" k then set_max_age c (parse_uint v) else (c, none))
      else if lower k == b'e'
      then (if is "Expires" k
          then set_expires c (time.parse_rfc1123 v) (time.parse_dashed v)
          else (c, none))
      else if lower k == b'd'
      then (if is "Domain" k then (record c { domain = c.domain ++ v }, none) else (c, none))
      else if lower k == b'p'
      then (if is "Path" k then (record c { path = c.path ++ v }, none) else (c, none))
      else if lower k == b's' && is "SameSite" k
      then (record c { same_site = parse_same_site v c.same_site }, none)
      else (c, none)

  -- An attribute with no key.
  pub flag : Cookie T → Bytes → Cookie T
  flag c v =
      if lower v == b'h'
      then (if is "HttpOnly" v then record c { http_only = true } else c)
      else if lower v == b's'
      then (if is "Secure" v
          then record c { secure = true }
          else if is "SameSite" v
          then record c { same_site = default_mode }
          else c)
      else if lower v == b'p' && is "Partitioned" v
      then record c { partitioned = true }
      else c

  pub attribute : Cookie T → Bytes → Bytes → Cookie T × Option (CookieError E)
  unfolding keyed flag
  attribute c [] v = (flag c v, none)
  attribute c (x ∷ k) v = keyed c (x ∷ k) v

  abbrev buffered : Cookie T → Scanned → Cookie T
  buffered c s = record c { buf_k = s.key; buf_v = s.value }

  -- The loop of `ParseBytes`. The fuel bounds the calls of `next`.
  pub attributes : ℕ → Cookie T → Bytes → Cookie T × Option (CookieError E)
  unfolding attribute next
  attributes zero c b = (c, none)
  attributes (suc fuel) c b = elim (next c.buf_k b) [
    | none ↦ (c, none)
    | some s ↦
        let done = attribute (buffered c s) s.key s.value in
        let rest = attributes fuel done.0 s.rest in
        elim done.1 [ some e ↦ (done.0, some e) | none ↦ rest ]
  ]

  -- `ParseBytes`
  unfoldable pub parse_bytes : Cookie T → Bytes → Cookie T × Option (CookieError E)
  unfolding reset attributes next
  parse_bytes c src =
      let c' = reset c in
      elim (next c'.buf_k src) [
        | none ↦ (c', some no_cookies)
        | some s ↦
            attributes (length s.rest) (record (buffered c' s) { key = s.key; value = s.value })
              s.rest
      ]
