-- ===== src/Cookie/Response/Steps.antt =====
-- What `ParseBytes` makes of each flag of a cookie.
use fasthttp.Base.{
  ℕ, zero, suc, ◌≤◌, [], ◌∷◌, ◌++◌, Option, none, some, ◌≡◌, refl, ◌∙◌, arith, Bool, true, false,
  if◌then◌else◌, Bytes, codes, length,
}
use fasthttp.Cookie.Scan.{finish, scan, next, decode_cookie_arg, case_insensitive_compare}
use fasthttp.Cookie.Response.{
  Times, SameSite, disabled, default_mode, lax_mode, strict_mode, none_mode, Cookie, CookieError,
  attributes, attribute, keyed, flag, parse_same_site,
}

-- The text that follows a cookie's value, or an attribute, and what the scanner leaves of it.
abbrev pub tail : Option Bytes → Bytes
tail none = []
tail (some b) = b';' ∷ b

abbrev pub left : Option Bytes → Bytes
left none = []
left (some b) = b

abbrev pub put_if : Bool → Bytes → Option Bytes → Option Bytes
put_if true piece o = some (b' ' ∷ (piece ++ tail o))
put_if false piece o = o

abbrev pub put_site : SameSite → Option Bytes → Option Bytes
put_site disabled o = o
put_site default_mode o = some (b' ' ∷ (codes "SameSite" ++ tail o))
put_site lax_mode o = some (b' ' ∷ (codes "SameSite=Lax" ++ tail o))
put_site strict_mode o = some (b' ' ∷ (codes "SameSite=Strict" ++ tail o))
put_site none_mode o = some (b' ' ∷ (codes "SameSite=None" ++ tail o))

length-left : (o : Option Bytes) → length (left o) ≤ length (tail o)
length-left none = omega arith
length-left (some b) = omega arith

module _ {T E : Type 0} (time : Times T E) where
  abbrev pub cleared : Cookie T × Option (CookieError E) → Cookie T × Option (CookieError E)
  cleared (c, e) = (record c { buf_k = []; buf_v = [] }, e)

  abbrev pub bare : Cookie T → Cookie T
  bare c = record c { buf_k = []; buf_v = [] }

  -- With fuel for each byte of it the text does `f`.
  abbrev pub Does : Option Bytes → (Cookie T → Cookie T) → Type 0
  Does o f =
      (c : Cookie T) (n : ℕ)
      → length (left o) ≤ n
      → cleared (attributes time n c (left o)) ≡ (f (bare c), none)

  nothing-Does : Does none (λ c. c)
  unfolding attributes next
  nothing-Does c zero h = refl
  nothing-Does c (suc n) h = refl

  abbrev pub set_http : Bool → Cookie T → Cookie T
  set_http on c = if on then record c { http_only = true } else c

  abbrev pub set_secure : Bool → Cookie T → Cookie T
  set_secure on c = if on then record c { secure = true } else c

  abbrev pub set_partitioned : Bool → Cookie T → Cookie T
  set_partitioned on c = if on then record c { partitioned = true } else c

  http_step :
      (o : Option Bytes) (c : Cookie T) (n : ℕ)
      → cleared (attributes time (suc n) c (left (put_if true (codes "HttpOnly") o)))
        ≡ cleared (
            attributes time n
              (record c { http_only = true; buf_k = []; buf_v = codes "HttpOnly" })
              (left o))
  unfolding attributes next attribute flag scan finish decode_cookie_arg case_insensitive_compare
  http_step none c n = refl
  http_step (some b) c n = refl

  secure_step :
      (o : Option Bytes) (c : Cookie T) (n : ℕ)
      → cleared (attributes time (suc n) c (left (put_if true (codes "Secure") o)))
        ≡ cleared (
            attributes time n
              (record c { secure = true; buf_k = []; buf_v = codes "Secure" })
              (left o))
  unfolding attributes next attribute flag scan finish decode_cookie_arg case_insensitive_compare
  secure_step none c n = refl
  secure_step (some b) c n = refl

  partitioned_step :
      (o : Option Bytes) (c : Cookie T) (n : ℕ)
      → cleared (attributes time (suc n) c (left (put_if true (codes "Partitioned") o)))
        ≡ cleared (
            attributes time n
              (record c { partitioned = true; buf_k = []; buf_v = codes "Partitioned" })
              (left o))
  unfolding attributes next attribute flag scan finish decode_cookie_arg case_insensitive_compare
  partitioned_step none c n = refl
  partitioned_step (some b) c n = refl

  default_step :
      (o : Option Bytes) (c : Cookie T) (n : ℕ)
      → cleared (attributes time (suc n) c (left (put_site default_mode o)))
        ≡ cleared (
            attributes time n
              (record c { same_site = default_mode; buf_k = []; buf_v = codes "SameSite" })
              (left o))
  unfolding attributes next attribute flag scan finish decode_cookie_arg case_insensitive_compare
  default_step none c n = refl
  default_step (some b) c n = refl

  lax_step :
      (o : Option Bytes) (c : Cookie T) (n : ℕ)
      → cleared (attributes time (suc n) c (left (put_site lax_mode o)))
        ≡ cleared (
            attributes time n
              (record c { same_site = lax_mode; buf_k = codes "SameSite"; buf_v = codes "Lax" })
              (left o))
  unfolding attributes next attribute keyed parse_same_site scan finish decode_cookie_arg
      case_insensitive_compare
  lax_step none c n = refl
  lax_step (some b) c n = refl

  strict_step :
      (o : Option Bytes) (c : Cookie T) (n : ℕ)
      → cleared (attributes time (suc n) c (left (put_site strict_mode o)))
        ≡ cleared (
            attributes time n
              (record c {
                same_site = strict_mode;
                buf_k = codes "SameSite";
                buf_v = codes "Strict";
              })
              (left o))
  unfolding attributes next attribute keyed parse_same_site scan finish decode_cookie_arg
      case_insensitive_compare
  strict_step none c n = refl
  strict_step (some b) c n = refl

  none_step :
      (o : Option Bytes) (c : Cookie T) (n : ℕ)
      → cleared (attributes time (suc n) c (left (put_site none_mode o)))
        ≡ cleared (
            attributes time n
              (record c { same_site = none_mode; buf_k = codes "SameSite"; buf_v = codes "None" })
              (left o))
  unfolding attributes next attribute keyed parse_same_site scan finish decode_cookie_arg
      case_insensitive_compare
  none_step none c n = refl
  none_step (some b) c n = refl

  http-Does :
      (o : Option Bytes) (f : Cookie T → Cookie T) (on : Bool)
      → Does o f
      → Does (put_if on (codes "HttpOnly") o) (λ c. f (set_http on c))
  http-Does o f false h c n le = h c n le
  http-Does o f true h c zero le = absurd (omega arith)
  http-Does o f true h c (suc n) le =
      http_step o c n
      ∙ h (record c { http_only = true; buf_k = []; buf_v = codes "HttpOnly" }) n
          (omega (arith, le, length-left o))

  secure-Does :
      (o : Option Bytes) (f : Cookie T → Cookie T) (on : Bool)
      → Does o f
      → Does (put_if on (codes "Secure") o) (λ c. f (set_secure on c))
  secure-Does o f false h c n le = h c n le
  secure-Does o f true h c zero le = absurd (omega arith)
  secure-Does o f true h c (suc n) le =
      secure_step o c n
      ∙ h (record c { secure = true; buf_k = []; buf_v = codes "Secure" }) n
          (omega (arith, le, length-left o))

  partitioned-Does :
      (o : Option Bytes) (f : Cookie T → Cookie T) (on : Bool)
      → Does o f
      → Does (put_if on (codes "Partitioned") o) (λ c. f (set_partitioned on c))
  partitioned-Does o f false h c n le = h c n le
  partitioned-Does o f true h c zero le = absurd (omega arith)
  partitioned-Does o f true h c (suc n) le =
      partitioned_step o c n
      ∙ h (record c { partitioned = true; buf_k = []; buf_v = codes "Partitioned" }) n
          (omega (arith, le, length-left o))

  abbrev pub set_site : SameSite → Cookie T → Cookie T
  set_site disabled c = c
  set_site default_mode c = record c { same_site = default_mode }
  set_site lax_mode c = record c { same_site = lax_mode }
  set_site strict_mode c = record c { same_site = strict_mode }
  set_site none_mode c = record c { same_site = none_mode }

  site-Does :
      (o : Option Bytes) (f : Cookie T → Cookie T) (mode : SameSite)
      → Does o f
      → Does (put_site mode o) (λ c. f (set_site mode c))
  site-Does o f disabled h c n le = h c n le
  site-Does o f default_mode h c zero le = absurd (omega arith)
  site-Does o f default_mode h c (suc n) le =
      default_step o c n
      ∙ h (record c { same_site = default_mode; buf_k = []; buf_v = codes "SameSite" }) n
          (omega (arith, le, length-left o))
  site-Does o f lax_mode h c zero le = absurd (omega arith)
  site-Does o f lax_mode h c (suc n) le =
      lax_step o c n
      ∙ h (record c { same_site = lax_mode; buf_k = codes "SameSite"; buf_v = codes "Lax" }) n
          (omega (arith, le, length-left o))
  site-Does o f strict_mode h c zero le = absurd (omega arith)
  site-Does o f strict_mode h c (suc n) le =
      strict_step o c n
      ∙ h (record c { same_site = strict_mode; buf_k = codes "SameSite"; buf_v = codes "Strict" }) n
          (omega (arith, le, length-left o))
  site-Does o f none_mode h c zero le = absurd (omega arith)
  site-Does o f none_mode h c (suc n) le =
      none_step o c n
      ∙ h (record c { same_site = none_mode; buf_k = codes "SameSite"; buf_v = codes "None" }) n
          (omega (arith, le, length-left o))

  -- The flags of a cookie, in the order in which `AppendBytes` writes them.
  abbrev pub flags : Cookie T → Option Bytes
  flags c = put_if c.http_only (codes "HttpOnly") (
      put_if c.secure (codes "Secure")
        (put_site c.same_site (put_if c.partitioned (codes "Partitioned") none)))

  abbrev pub set_flags : Cookie T → Cookie T → Cookie T
  set_flags c d =
      set_partitioned c.partitioned
        (set_site c.same_site (set_secure c.secure (set_http c.http_only d)))

  pub flags-Does : (c : Cookie T) → Does (flags c) (set_flags c)
  flags-Does c =
      let last = put_if c.partitioned (codes "Partitioned") none in
      let sited = put_site c.same_site last in
      http-Does (put_if c.secure (codes "Secure") sited)
        (λ d. set_partitioned c.partitioned (set_site c.same_site (set_secure c.secure d)))
        c.http_only
        (secure-Does sited (λ d. set_partitioned c.partitioned (set_site c.same_site d)) c.secure
          (site-Does last (λ d. set_partitioned c.partitioned d) c.same_site
            (partitioned-Does none (λ d. d) c.partitioned nothing-Does)))
