-- ===== src/Bytesconv/Html.antt =====
-- `AppendHTMLEscape` (bytesconv.go).
use mathlib.Core.List.{flat_map}
use fasthttp.Base.{
  ℕ, [], ◌∷◌, ◌++◌, append_assoc, append-nil, ◌≡◌, ◌≢◌, refl, arith, ◌==◌, if◌then◌else◌, Bytes,
  codes, All, All-append, ◌∙◌,
}

-- The escape of a byte, [] where the source's `sub` is "".
pub html_sub : ℕ → Bytes
html_sub c =
    if c == b'&'
    then codes "&amp;"
    else if c == b'<'
    then codes "&lt;"
    else if c == b'>'
    then codes "&gt;"
    else if c == b'"'
    then codes "&#34;"
    else if c == b'\''
    then codes "&#39;"
    else []

-- `pending` is `s[prev:i]`.
pub flush_sub : Bytes → Bytes → ℕ → Bytes → Bytes × Bytes
flush_sub dst pending c [] = (dst, pending ++ c ∷ [])
flush_sub dst pending c (x ∷ sub) = ((dst ++ pending) ++ x ∷ sub, [])

pub escape_loop : Bytes → Bytes → Bytes → Bytes
unfolding html_sub flush_sub
escape_loop dst pending [] = dst ++ pending
escape_loop dst pending (c ∷ s) =
    let p = flush_sub dst pending c (html_sub c) in escape_loop p.0 p.1 s

unfoldable pub append_html_escape : Bytes → Bytes → Bytes
unfolding escape_loop
append_html_escape dst s = escape_loop dst [] s

-- The reference: each byte is escaped on its own.
pub or_self : ℕ → Bytes → Bytes
or_self c [] = c ∷ []
or_self c (x ∷ sub) = x ∷ sub

pub html_bytes : ℕ → Bytes
unfolding html_sub or_self
html_bytes c = or_self c (html_sub c)

html_test :
    append_html_escape (codes "x") (codes "<a> & 'b'") ≡ codes "x&lt;a&gt; &amp; &#39;b&#39;"
unfolding append_html_escape
html_test = refl

flush_sub-or_self :
    (sub dst pending rest : Bytes) (c : ℕ)
    → (flush_sub dst pending c sub).0 ++ ((flush_sub dst pending c sub).1 ++ rest)
      ≡ dst ++ (pending ++ (or_self c sub ++ rest))
unfolding flush_sub or_self
flush_sub-or_self [] dst pending rest c = simp append_assoc
flush_sub-or_self (x ∷ sub) dst pending rest c = simp append_assoc

escape_step :
    (s dst pending : Bytes) (c : ℕ)
    → let p = flush_sub dst pending c (html_sub c) in
      escape_loop p.0 p.1 s ≡ p.0 ++ (p.1 ++ flat_map html_bytes s)
      → escape_loop dst pending (c ∷ s) ≡ dst ++ (pending ++ flat_map html_bytes (c ∷ s))
escape_step s dst pending c ih =
    unfold escape_loop flat_map html_bytes in
    (ih ∙ flush_sub-or_self (html_sub c) dst pending (flat_map html_bytes s) c)

escape_loop-flat_map :
    (s dst pending : Bytes) → escape_loop dst pending s ≡ dst ++ (pending ++ flat_map html_bytes s)
escape_loop-flat_map [] dst pending = unfold escape_loop flat_map in rw append-nil
escape_loop-flat_map (c ∷ s) dst pending =
    let p = flush_sub dst pending c (html_sub c) in
    escape_step s dst pending c (escape_loop-flat_map s p.0 p.1)

-- `AppendHTMLEscape` appends to `dst` the escape of each byte in turn.
pub append_html_escape-flat_map :
    (dst s : Bytes) → append_html_escape dst s ≡ dst ++ flat_map html_bytes s
unfolding append_html_escape
append_html_escape-flat_map dst s = escape_loop-flat_map s dst []

-- A byte that can open or close neither a tag nor an attribute.
abbrev pub IsSafe : ℕ → Type 0
IsSafe c = (c ≢ b'<') × (c ≢ b'>') × (c ≢ b'"') × (c ≢ b'\'')

html_bytes-IsSafe : (c : ℕ) → All IsSafe (html_bytes c)
unfolding html_bytes
html_bytes-IsSafe c = ground arith

flat_map-IsSafe : (s : Bytes) → All IsSafe (flat_map html_bytes s)
unfolding flat_map
flat_map-IsSafe [] = tt
flat_map-IsSafe (c ∷ s) =
    All-append IsSafe (html_bytes c) (flat_map html_bytes s) (html_bytes-IsSafe c)
      (flat_map-IsSafe s)

-- What is appended to a safe `dst` holds no '<', '>' or quote, whatever the text is.
pub append_html_escape-IsSafe :
    (dst s : Bytes) → All IsSafe dst → All IsSafe (append_html_escape dst s)
append_html_escape-IsSafe dst s h =
    rw append_html_escape-flat_map
      (All-append IsSafe dst (flat_map html_bytes s) h (flat_map-IsSafe s))
