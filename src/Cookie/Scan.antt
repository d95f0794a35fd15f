-- ===== src/Cookie/Scan.antt =====
-- `cookieScanner` and what it uses (cookie.go).
use fasthttp.Base.{
  ℕ, ◌-◌, [], ◌∷◌, ◌++◌, Option, none, some, ◌≡◌, refl, Bool, true, false, ltb, ◌==◌, ◌&&◌,
  if◌then◌else◌, Bytes, length, get_or, take, drop, bit_or, codes,
}

pub trim_left : Bytes → Bytes
trim_left [] = []
trim_left (c ∷ s) = if c == b' ' then trim_left s else c ∷ s

abbrev cons_trimmed : ℕ → Bytes → Bytes
cons_trimmed c [] = if c == b' ' then [] else c ∷ []
cons_trimmed c (d ∷ s) = c ∷ d ∷ s

pub trim_right : Bytes → Bytes
trim_right [] = []
trim_right (c ∷ s) = cons_trimmed c (trim_right s)

pub strip_quotes : Bytes → Bytes
strip_quotes s =
    let n = length s in
    if ltb 1 n && get_or s 0 0 == b'"' && get_or s (n - 1) 0 == b'"'
    then take (n - 2) (drop 1 s)
    else s

-- `decodeCookieArg`, which overwrites its destination.
unfoldable pub decode_cookie_arg : Bytes → Bool → Bytes
unfolding trim_left trim_right strip_quotes
decode_cookie_arg src skip_quotes =
    let trimmed = trim_right (trim_left src) in
    if skip_quotes then strip_quotes trimmed else trimmed

-- A key, a value and the bytes left.
pub record Scanned : Type 0 where
  pub key : Bytes
  pub value : Bytes
  pub rest : Bytes

-- The end of a cookie; `seg` is `b[k:i]`.
unfoldable pub finish : Bool → Bytes → Bytes → Bytes → Scanned
unfolding decode_cookie_arg
finish is_key key seg rest = record {
  key = if is_key then [] else key;
  value = decode_cookie_arg seg true;
  rest = rest;
}

-- The loop of `next`.
unfoldable pub scan : Bool → Bytes → Bytes → Bytes → Scanned
unfolding finish decode_cookie_arg
scan is_key key seg [] = finish is_key key seg []
scan is_key key seg (c ∷ b) =
    let key_ends = is_key && c == b'=' in
    let rest =
      scan (if key_ends then false else is_key)
        (if key_ends then decode_cookie_arg seg false else key)
        (if key_ends then [] else seg ++ c ∷ []) b in
    if c == b';' then finish is_key key seg b else rest

-- `next`, from the key that `bufK` holds; `none` is false.
unfoldable pub next : Bytes → Bytes → Option Scanned
unfolding scan
next key [] = none
next key (c ∷ b) = some (scan true key [] (c ∷ b))

-- `caseInsensitiveCompare`
unfoldable pub case_insensitive_compare : Bytes → Bytes → Bool
case_insensitive_compare [] [] = true
case_insensitive_compare (x ∷ a) (y ∷ b) =
    bit_or x 32 == bit_or y 32 && case_insensitive_compare a b
case_insensitive_compare _ _ = false

scan_test :
    next [] (codes " a = \"b c\" ; d")
    ≡ some (record { key = codes "a"; value = codes "b c"; rest = codes " d" })
unfolding next
scan_test = refl

no_key_test :
    next (codes "old") (codes "d;x")
    ≡ some (record { key = []; value = codes "d"; rest = codes "x" })
unfolding next
no_key_test = refl

-- A space in front of a cookie is not seen.
pub decode-space :
    (s : Bytes) (skip_quotes : Bool)
    → decode_cookie_arg (b' ' ∷ s) skip_quotes ≡ decode_cookie_arg s skip_quotes
unfolding decode_cookie_arg trim_left
decode-space s skip_quotes = refl
