-- ===== src/Cookie/Request/Stream.antt =====
-- What the scanner makes of the text of the cookies.
use fasthttp.Base.{
  ◌≤◌, List, [], ◌∷◌, ◌++◌, append_assoc, append-nil, some, ◌≡◌, ◌≢◌, refl, ap, ◌∙◌, arith, Bool,
  true, false, Bytes, length, length-append, ◌<◌, All,
}
use fasthttp.Args.{ArgsKv}
use fasthttp.Cookie.Scan.{finish, scan, next, decode_cookie_arg, decode-space}

-- A cookie that the text can spell: the key holds neither '=' nor ';', the value no ';', and
-- neither begins or ends with what the reader takes away.
pub record IsSpelled (kv : ArgsKv) : Type 0 where
  pub named : kv.key ≢ []
  pub key_bytes : All (λ c. (c ≢ b'=') × (c ≢ b';')) kv.key
  pub value_bytes : All (λ c. c ≢ b';') kv.value
  pub key_trimmed : decode_cookie_arg kv.key false ≡ kv.key
  pub value_trimmed : decode_cookie_arg kv.value true ≡ kv.value

pub scan-key :
    (k key seg b : Bytes)
    → All (λ c. (c ≢ b'=') × (c ≢ b';')) k
    → scan true key seg (k ++ b) ≡ scan true key (seg ++ k) b
unfolding scan
scan-key [] key seg b h = rw append-nil refl
scan-key (c ∷ k) key seg b ((ne, ns), h) =
    ground (arith, scan-key k key (seg ++ c ∷ []) b h, append_assoc seg (c ∷ []) k)

pub scan-value :
    (v key seg b : Bytes)
    → All (λ c. c ≢ b';') v
    → scan false key seg (v ++ b) ≡ scan false key (seg ++ v) b
unfolding scan
scan-value [] key seg b h = rw append-nil refl
scan-value (c ∷ v) key seg b (ns, h) =
    ground (arith, scan-value v key (seg ++ c ∷ []) b h, append_assoc seg (c ∷ []) v)

pub key_end :
    (old seg key b : Bytes)
    → decode_cookie_arg seg false ≡ key
    → scan true old seg (b'=' ∷ b) ≡ scan false key [] b
unfolding scan
key_end old seg key b e = rw e refl

-- What `next` makes of a cookie, behind `lead`.
pub scan-cookie :
    (old lead : Bytes) (kv : ArgsKv) (b : Bytes)
    → IsSpelled kv
    → decode_cookie_arg (lead ++ kv.key) false ≡ kv.key
    → scan true old lead (kv.key ++ b'=' ∷ (kv.value ++ b)) ≡ scan false kv.key kv.value b
scan-cookie old lead kv b h lead_key =
    scan-key kv.key old lead (b'=' ∷ (kv.value ++ b)) h.key_bytes
    ∙ key_end old (lead ++ kv.key) kv.key (kv.value ++ b) lead_key
    ∙ scan-value kv.value kv.key [] b h.value_bytes

abbrev pub spaces : Bool → Bytes
spaces true = b' ' ∷ []
spaces false = []

abbrev pub spell : ArgsKv → Bytes → Bytes
spell kv b = kv.key ++ b'=' ∷ (kv.value ++ b)

-- The text of the cookies, behind a space or not.
unfoldable pub stream : Bool → List ArgsKv → Bytes
stream lead [] = []
stream lead (kv ∷ []) = spaces lead ++ spell kv []
stream lead (kv ∷ kv' ∷ h) = spaces lead ++ spell kv (b';' ∷ stream true (kv' ∷ h))

pub next-scan : (old b : Bytes) → 0 < length b → next old b ≡ some (scan true old [] b)
unfolding next
next-scan old [] h = absurd (omega arith)
next-scan old (c ∷ b) h = refl

pub spell-pos : (kv : ArgsKv) (lead : Bool) (b : Bytes) → 0 < length (spaces lead ++ spell kv b)
spell-pos kv lead b =
    omega (
      arith,
      length-append (spaces lead) (spell kv b),
      length-append kv.key (b'=' ∷ (kv.value ++ b)),
    )

pub decode-lead :
    (lead : Bool) (s : Bytes)
    → decode_cookie_arg (spaces lead ++ s) false ≡ decode_cookie_arg s false
decode-lead true s = decode-space s false
decode-lead false s = refl

pub scan-lead :
    (old : Bytes) (lead : Bool) (b : Bytes)
    → scan true old [] (spaces lead ++ b) ≡ scan true old (spaces lead) b
unfolding scan
scan-lead old true b = refl
scan-lead old false b = refl

pub next-spell :
    (old : Bytes) (lead : Bool) (kv : ArgsKv) (b : Bytes)
    → IsSpelled kv
    → next old (spaces lead ++ spell kv b) ≡ some (scan false kv.key kv.value b)
next-spell old lead kv b h =
    next-scan old (spaces lead ++ spell kv b) (spell-pos kv lead b)
    ∙ ap some (
        scan-lead old lead (spell kv b)
        ∙ scan-cookie old (spaces lead) kv b h (decode-lead lead kv.key ∙ h.key_trimmed))

pub next-stream :
    (old : Bytes) (lead : Bool) (kv : ArgsKv) (h : List ArgsKv)
    → IsSpelled kv
    → next old (stream lead (kv ∷ h))
      ≡ some (record { key = kv.key; value = kv.value; rest = stream true h })
unfolding stream scan finish
next-stream old lead kv [] s = next-spell old lead kv [] s ∙ rw s.value_trimmed refl
next-stream old lead kv (kv' ∷ h) s =
    next-spell old lead kv (b';' ∷ stream true (kv' ∷ h)) s ∙ rw s.value_trimmed refl

pub length-stream : (lead : Bool) (h : List ArgsKv) → length h ≤ length (stream lead h)
unfolding stream
length-stream lead [] = omega arith
length-stream lead (kv ∷ []) = omega (arith, spell-pos kv lead [])
length-stream lead (kv ∷ kv' ∷ h) =
    let b = b';' ∷ stream true (kv' ∷ h) in
    omega (
      arith,
      length-stream true (kv' ∷ h),
      length-append (spaces lead) (spell kv b),
      length-append kv.key (b'=' ∷ (kv.value ++ b)),
      length-append kv.value b,
    )
