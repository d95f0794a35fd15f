-- ===== src/Args/Query/RoundTrip.antt =====
-- The query string of a list of arguments is parsed to that list.
use fasthttp.Base.{
  ℕ, List, [], ◌∷◌, ◌++◌, append_assoc, append-nil, ◌≡◌, ◌≢◌, refl, sym, ap, ◌∙◌, arith, Bool, true,
  false, Bytes, AreBytes, All, All-append,
}
use fasthttp.Args.{ArgsKv, Args}
use fasthttp.Args.Scan.{has_content, parse_bytes}
use fasthttp.Args.Scan.Split.{
  cut, argument, arguments, arguments-nil, arguments_step, or_nil, parse_bytes-arguments,
}
use fasthttp.Args.Query.{append_kv, append_bytes}
use fasthttp.Bytesconv.Quote.{append_quoted_arg, decode_arg_append}
use fasthttp.Bytesconv.Quote.RoundTrip.{
  append_quoted_arg-flat_map, append_quoted_arg-IsUnreserved, decode_arg_append-append_quoted_arg,
  IsUnreserved,
}

-- An argument that a query can spell.
pub record IsSpelled (kv : ArgsKv) : Type 0 where
  pub key_bytes : AreBytes kv.key
  pub value_bytes : AreBytes kv.value
  pub tidy : kv.no_value ≡ true → kv.value ≡ []
  pub content : has_content kv ≡ true

abbrev quoted : Bytes → Bytes
quoted s = append_quoted_arg [] s

value_text : Bool → Bytes → Bytes
value_text true v = []
value_text false v = b'=' ∷ quoted v

abbrev kv_text : ArgsKv → Bytes
kv_text kv = quoted kv.key ++ value_text kv.no_value kv.value

append_quoted_arg-quoted : (dst s : Bytes) → append_quoted_arg dst s ≡ dst ++ quoted s
append_quoted_arg-quoted dst s =
    append_quoted_arg-flat_map s dst ∙ ap (λ t. dst ++ t) (sym (append_quoted_arg-flat_map s []))

quoted-nil : quoted [] ≡ []
unfolding append_quoted_arg
quoted-nil = refl

append_kv-kv_text : (dst : Bytes) (kv : ArgsKv) → append_kv dst kv ≡ dst ++ kv_text kv
append_kv-kv_text dst kv = go kv.no_value kv.value
  where
    go :
        (nv : Bool) (v : Bytes)
        → append_kv dst (record kv { no_value = nv; value = v })
          ≡ dst ++ (quoted kv.key ++ value_text nv v)
    go true v = unfold append_kv value_text in rw (append_quoted_arg-quoted dst kv.key, append-nil)
    go false [] =
        unfold append_kv value_text in
        rw (append_quoted_arg-quoted dst kv.key, quoted-nil, append_assoc)
    go false (c ∷ v) =
        unfold append_kv value_text in
        simp (append_quoted_arg-quoted dst kv.key, append_quoted_arg-quoted _ (c ∷ v), append_assoc)

-- The text of the whole query.
query_text : List ArgsKv → Bytes
query_text [] = []
query_text (kv ∷ []) = kv_text kv
query_text (kv ∷ kv' ∷ h) = kv_text kv ++ b'&' ∷ query_text (kv' ∷ h)

append_bytes-query_text : (h : List ArgsKv) (dst : Bytes) → append_bytes dst h ≡ dst ++ query_text h
unfolding append_bytes query_text
append_bytes-query_text [] dst = rw append-nil
append_bytes-query_text (kv ∷ []) dst = append_kv-kv_text dst kv
append_bytes-query_text (kv ∷ kv' ∷ h) dst =
    append_bytes-query_text (kv' ∷ h) (append_kv dst kv ++ b'&' ∷ [])
    ∙ simp (append_kv-kv_text dst kv, append_assoc)

cut-append :
    (x : ℕ) (p s : Bytes) → All (λ c. c ≢ x) p → cut x (p ++ s) ≡ (p ++ (cut x s).0, (cut x s).1)
cut-append x [] s h = refl
cut-append x (c ∷ p) s (hc, h) = ground (arith, cut-append x p s h)

without :
    (x : ℕ) (p : Bytes)
    → ((c : ℕ) → IsUnreserved c → c ≢ x)
    → All IsUnreserved p
    → All (λ c. c ≢ x) p
without x [] f h = tt
without x (c ∷ p) f (hc, h) = (f c hc, without x p f h)

quoted-Lacks :
    (s : Bytes) → AreBytes s → All (λ c. c ≢ b'&') (quoted s) × All (λ c. c ≢ b'=') (quoted s)
quoted-Lacks s h =
    let u = append_quoted_arg-IsUnreserved s h in
    (without b'&' _ (λ c u. u.2) u, without b'=' _ (λ c u. u.3) u)

decode-quoted : (s : Bytes) → AreBytes s → decode_arg_append [] (quoted s) ≡ s
decode-quoted s h = decode_arg_append-append_quoted_arg [] s h

argument-kv_text :
    (k v : Bytes) (nv : Bool)
    → AreBytes k
    → AreBytes v
    → (nv ≡ true → v ≡ [])
    → argument [] (cut b'=' (quoted k ++ value_text nv v))
      ≡ record { key = k; value = v; no_value = nv }
unfolding value_text
argument-kv_text k v true hk hv tidy =
    rw (
      cut-append b'=' (quoted k) [] (quoted-Lacks k hk).1,
      append-nil,
      decode-quoted k hk,
      tidy refl,
    )
argument-kv_text k v false hk hv tidy = rw (
  cut-append b'=' (quoted k) (b'=' ∷ quoted v) (quoted-Lacks k hk).1,
  append-nil,
  decode-quoted k hk,
  decode-quoted v hv,
)

kv_text-Lacks : (kv : ArgsKv) → IsSpelled kv → All (λ c. c ≢ b'&') (kv_text kv)
kv_text-Lacks kv s =
    All-append (λ c. c ≢ b'&') (quoted kv.key) _ (quoted-Lacks kv.key s.key_bytes).0
      (go kv.no_value)
  where
    go : (nv : Bool) → All (λ c. c ≢ b'&') (value_text nv kv.value)
    go true = unfold value_text in tt
    go false =
        unfold value_text in ((λ e. absurd (omega arith)), (quoted-Lacks kv.value s.value_bytes).0)

arguments-kv_text :
    (kv : ArgsKv) (rest : Bytes)
    → IsSpelled kv
    → (cut b'&' rest).0 ≡ []
    → arguments (kv_text kv ++ rest) ≡ kv ∷ arguments (or_nil (cut b'&' rest).1)
arguments-kv_text kv rest s e =
    arguments_step (kv_text kv ++ rest)
    ∙ rw (
      cut-append b'&' (kv_text kv) rest (kv_text-Lacks kv s),
      e,
      append-nil,
      argument-kv_text kv.key kv.value kv.no_value s.key_bytes s.value_bytes s.tidy,
      s.content,
    )

arguments-query_text : (h : List ArgsKv) → All IsSpelled h → arguments (query_text h) ≡ h
unfolding query_text
arguments-query_text [] s = arguments-nil
arguments-query_text (kv ∷ []) (skv, s) =
    ap arguments (sym (append-nil (kv_text kv)))
    ∙ arguments-kv_text kv [] skv refl
    ∙ rw arguments-nil
arguments-query_text (kv ∷ kv' ∷ h) (skv, s) =
    arguments-kv_text kv (b'&' ∷ query_text (kv' ∷ h)) skv refl
    ∙ ap (◌∷◌ kv) (arguments-query_text (kv' ∷ h) s)

-- Parsing the query string of a list of arguments gives the list back, whatever bytes the keys and
-- values hold, if each argument has a key or a value and stores no value where it has none.
pub parse_bytes-append_bytes :
    (a : Args) (h : List ArgsKv)
    → All IsSpelled h
    → (parse_bytes a (append_bytes [] h)).args.live ≡ h
parse_bytes-append_bytes a h s =
    parse_bytes-arguments a (append_bytes [] h)
    ∙ ap arguments (append_bytes-query_text h [])
    ∙ arguments-query_text h s
