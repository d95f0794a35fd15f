-- ===== src/Cookie/Response/Flags.antt =====
-- The flags of a cookie are read back from its text.
use fasthttp.Base.{
  [], ◌∷◌, ◌++◌, append_assoc, append-nil, Option, none, some, ◌≡◌, ◌≢◌, refl, sym, ap, ◌∙◌, arith,
  Bool, true, false, if◌then◌else◌, Bytes, codes, length, pos, leb,
}
use fasthttp.Args.{ArgsKv}
use fasthttp.Cookie.Scan.{finish, scan, next, decode_cookie_arg}
use fasthttp.Cookie.Request.Stream.{IsSpelled, next-spell}
use fasthttp.Cookie.Response.{
  Times, SameSite, disabled, default_mode, lax_mode, strict_mode, none_mode, Cookie, parse_bytes,
  reset, append_bytes, append_rest, append_max_age, same_site_text,
}
use fasthttp.Cookie.Response.Steps.{
  tail, left, put_if, put_site, cleared, set_http, set_secure, set_partitioned, set_site, set_flags,
  flags, flags-Does,
}

module _ {T E : Type 0} (time : Times T E) where
  scan-tail :
      (key value : Bytes) (o : Option Bytes)
      → decode_cookie_arg value true ≡ value
      → scan false key value (tail o) ≡ record { key = key; value = value; rest = left o }
  unfolding scan finish
  scan-tail key value none e = rw e refl
  scan-tail key value (some b) e = rw e refl

  abbrev text_of : Cookie T → Bytes
  text_of c = c.key ++ b'=' ∷ (c.value ++ tail (flags time c))

  abbrev kv_of : Cookie T → ArgsKv
  kv_of c = record { key = c.key; value = c.value; no_value = false }

  next-text :
      (old : Bytes) (c : Cookie T)
      → IsSpelled (kv_of c)
      → next old (text_of c)
        ≡ some (record { key = c.key; value = c.value; rest = left (flags time c) })
  next-text old c h =
      next-spell old false (kv_of c) (tail (flags time c)) h
      ∙ ap some (scan-tail c.key c.value (flags time c) h.value_trimmed)

  -- A cookie that has nothing but its key, its value and its flags time.
  abbrev pub flagged : Bytes → Bytes → Bool → Bool → SameSite → Bool → Cookie T
  flagged key value http_only secure same_site partitioned = record {
    key = key;
    value = value;
    expire = time.zero_time;
    max_age = pos 0;
    domain = [];
    path = [];
    same_site = same_site;
    buf_k = [];
    buf_v = [];
    http_only = http_only;
    secure = secure;
    partitioned = partitioned;
  }

  http-flagged :
      (k v : Bytes) (h : Bool)
      → set_http time h (flagged k v false false disabled false)
        ≡ flagged k v h false disabled false
  http-flagged k v true = refl
  http-flagged k v false = refl

  secure-flagged :
      (k v : Bytes) (h s : Bool)
      → set_secure time s (flagged k v h false disabled false) ≡ flagged k v h s disabled false
  secure-flagged k v h true = refl
  secure-flagged k v h false = refl

  site-flagged :
      (k v : Bytes) (h s : Bool) (m : SameSite)
      → set_site time m (flagged k v h s disabled false) ≡ flagged k v h s m false
  site-flagged k v h s disabled = refl
  site-flagged k v h s default_mode = refl
  site-flagged k v h s lax_mode = refl
  site-flagged k v h s strict_mode = refl
  site-flagged k v h s none_mode = refl

  partitioned-flagged :
      (k v : Bytes) (h s : Bool) (m : SameSite) (p : Bool)
      → set_partitioned time p (flagged k v h s m false) ≡ flagged k v h s m p
  partitioned-flagged k v h s m true = refl
  partitioned-flagged k v h s m false = refl

  set_flags-flagged :
      (k v : Bytes) (h s : Bool) (m : SameSite) (p : Bool)
      → set_flags time (flagged k v h s m p) (flagged k v false false disabled false)
        ≡ flagged k v h s m p
  set_flags-flagged k v h s m p =
      ap (λ d. set_partitioned time p (set_site time m (set_secure time s d))) (http-flagged k v h)
      ∙ ap (λ d. set_partitioned time p (set_site time m d)) (secure-flagged k v h s)
      ∙ ap (set_partitioned time p) (site-flagged k v h s m)
      ∙ partitioned-flagged k v h s m p

  parse-text :
      (old : Cookie T) (k v : Bytes) (h s : Bool) (m : SameSite) (p : Bool)
      → IsSpelled (kv_of (flagged k v h s m p))
      → cleared time (parse_bytes time old (text_of (flagged k v h s m p)))
        ≡ (flagged k v h s m p, none)
  unfolding parse_bytes reset
  parse-text old k v h s m p sp =
      let c = flagged k v h s m p in
      let o = flags time c in
      let start = record (reset time old) { key = k; value = v; buf_k = k; buf_v = v } in
      rw (next-text old.buf_k c sp) (
        flags-Does time c start (length (left o)) (omega arith)
        ∙ ap (λ d. (d, none)) (set_flags-flagged k v h s m p))

  append-put_if :
      (x piece : Bytes) (on : Bool) (o : Option Bytes)
      → (if on then x ++ b';' ∷ b' ' ∷ piece else x) ++ tail o ≡ x ++ tail (put_if on piece o)
  append-put_if x piece true o = append_assoc x (b';' ∷ b' ' ∷ piece) (tail o)
  append-put_if x piece false o = refl

  site-tail :
      (m : SameSite) (o : Option Bytes) → same_site_text time m ++ tail o ≡ tail (put_site m o)
  unfolding same_site_text
  site-tail disabled o = refl
  site-tail default_mode o = refl
  site-tail lax_mode o = refl
  site-tail strict_mode o = refl
  site-tail none_mode o = refl

  append-put_site :
      (x : Bytes) (m : SameSite) (o : Option Bytes)
      → (x ++ same_site_text time m) ++ tail o ≡ x ++ tail (put_site m o)
  append-put_site x m o =
      append_assoc x (same_site_text time m) (tail o) ∙ ap (λ t. x ++ t) (site-tail m o)

  append-text :
      (k v : Bytes) (h s : Bool) (m : SameSite) (p : Bool)
      → k ≢ []
      → leb 1601 (time.year time.zero_time) ≡ false
      → append_bytes time (flagged k v h s m p) []
        ≡ some (flagged k v h s m p, text_of (flagged k v h s m p))
  unfolding append_bytes append_max_age append_rest
  append-text [] v h s m p ne date = absurd (ne refl)
  append-text (x ∷ k) v h s m p ne date =
      let base = ((x ∷ k) ++ b'=' ∷ []) ++ v in
      let hidden = if h then base ++ b';' ∷ b' ' ∷ codes "HttpOnly" else base in
      let secured = if s then hidden ++ b';' ∷ b' ' ∷ codes "Secure" else hidden in
      let sited = secured ++ same_site_text time m in
      let out = if p then sited ++ b';' ∷ b' ' ∷ codes "Partitioned" else sited in
      let last = put_if p (codes "Partitioned") none in
      let more = put_if s (codes "Secure") (put_site m last) in
      let all = put_if h (codes "HttpOnly") more in
      rw date (
        ap (λ t. some (flagged (x ∷ k) v h s m p, t))
          (sym (append-nil out)
            ∙ append-put_if sited (codes "Partitioned") p none
            ∙ append-put_site secured m last
            ∙ append-put_if hidden (codes "Secure") s (put_site m last)
            ∙ append-put_if base (codes "HttpOnly") h more
            ∙ append_assoc ((x ∷ k) ++ b'=' ∷ []) v (tail all)
            ∙ append_assoc (x ∷ k) (b'=' ∷ []) (v ++ tail all)))

  -- A cookie with a key, a value and any of the flags time HttpOnly, Secure, SameSite and Partitioned, and
  -- nothing else, is read back from its text, whatever the object held before, up to the buffers: if
  -- the key is not empty and holds neither '=' nor ';', the value holds no ';', neither begins or
  -- ends with what the scanner takes away, and the zero time is before the year 1601.
  pub parse_bytes-flagged :
      (old : Cookie T) (k v : Bytes) (h s : Bool) (m : SameSite) (p : Bool)
      → IsSpelled (record { key = k; value = v; no_value = false })
      → leb 1601 (time.year time.zero_time) ≡ false
      → (text : Bytes) × (append_bytes time (flagged k v h s m p) []
          ≡ some (flagged k v h s m p, text))
        × (cleared time (parse_bytes time old text) ≡ (flagged k v h s m p, none))
  parse_bytes-flagged old k v h s m p sp date = (
    text_of (flagged k v h s m p),
    append-text k v h s m p sp.named date,
    parse-text old k v h s m p sp,
  )
