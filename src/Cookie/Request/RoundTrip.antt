-- ===== src/Cookie/Request/RoundTrip.antt =====
-- The cookies of a request are read back from its header.
use fasthttp.Base.{
  ℕ, zero, suc, ◌≤◌, List, [], ◌∷◌, ◌++◌, append_assoc, append-nil, map, map-append, some, ◌≡◌, ◌≢◌,
  refl, sym, ap, ◌∙◌, arith, Bool, true, false, Bytes, length, All, not,
}
use fasthttp.Args.{ArgsKv, Slots, alloc_arg}
use fasthttp.Args.Scan.{is_empty, has_content}
use fasthttp.Cookie.Scan.{Scanned, next}
use fasthttp.Cookie.Request.{
  append_cookie, append_request_cookie_bytes, cookies_loop, parse_request_cookies,
}
use fasthttp.Cookie.Request.Stream.{IsSpelled, spell, stream, next-stream, length-stream}

abbrev pub pair_of : ArgsKv → Bytes × Bytes
pair_of kv = (kv.key, kv.value)

content-named :
    (kv : ArgsKv) (key value : Bytes)
    → key ≢ []
    → has_content (record kv { key = key; value = value }) ≡ true
content-named kv [] value ne = absurd (ne refl)
content-named kv (c ∷ key) value ne = refl

loop_step :
    (fuel : ℕ) (live : List ArgsKv) (kv : ArgsKv) (spare : List ArgsKv) (b : Bytes) (s : Scanned)
    → next kv.key b ≡ some s
    → s.key ≢ []
    → cookies_loop (suc fuel) live kv spare b
      ≡ cookies_loop fuel
          (live ++ record kv { key = s.key; value = s.value } ∷ [])
          (alloc_arg spare).0
          (alloc_arg spare).1
          s.rest
unfolding cookies_loop
loop_step fuel live kv spare b s e ne = ground (arith, e, content-named kv s.key s.value ne)

loop_nil :
    (fuel : ℕ) (live : List ArgsKv) (kv : ArgsKv) (spare : List ArgsKv)
    → (cookies_loop fuel live kv spare []).live ≡ live
unfolding cookies_loop next
loop_nil zero live kv spare = refl
loop_nil (suc fuel) live kv spare = refl

stream-nil : (lead : Bool) → stream lead [] ≡ []
unfolding stream
stream-nil lead = refl

loop-stream :
    (fuel : ℕ) (lead : Bool) (h live : List ArgsKv) (kv : ArgsKv) (spare : List ArgsKv)
    → length h ≤ fuel
    → All IsSpelled h
    → map pair_of (cookies_loop fuel live kv spare (stream lead h)).live
      ≡ map pair_of live ++ map pair_of h
loop-stream fuel lead [] live kv spare le s =
    ap (λ b. map pair_of (cookies_loop fuel live kv spare b).live) (stream-nil lead)
    ∙ ap (map pair_of) (loop_nil fuel live kv spare)
    ∙ sym (append-nil (map pair_of live))
loop-stream zero lead (x ∷ h) live kv spare le s = absurd (omega arith)
loop-stream (suc fuel) lead (x ∷ h) live kv spare le (sx, s) =
    let rest =
      loop-stream fuel true h (live ++ record kv { key = x.key; value = x.value } ∷ [])
        (alloc_arg spare).0 (alloc_arg spare).1 (omega arith) s in
    rw
      (loop_step fuel live kv spare (stream lead (x ∷ h)) _ (next-stream kv.key lead x h sx)
        sx.named)
      (rest
        ∙ ap (λ l. l ++ map pair_of h)
            (map-append pair_of live (record kv { key = x.key; value = x.value } ∷ []))
        ∙ append_assoc (map pair_of live) (pair_of x ∷ []) (map pair_of h))

not-empty : (s : Bytes) → s ≢ [] → not (is_empty s) ≡ true
not-empty [] ne = absurd (ne refl)
not-empty (c ∷ s) ne = refl

append-spell :
    (dst : Bytes) (kv : ArgsKv) (b : Bytes)
    → kv.key ≢ []
    → append_cookie dst kv ++ b ≡ dst ++ spell kv b
unfolding append_cookie
append-spell dst kv b ne = simp (not-empty kv.key ne, append_assoc)

stream-lead : (kv : ArgsKv) (h : List ArgsKv) → stream true (kv ∷ h) ≡ b' ' ∷ stream false (kv ∷ h)
unfolding stream
stream-lead kv [] = refl
stream-lead kv (kv' ∷ h) = refl

append-stream :
    (dst : Bytes) (h : List ArgsKv)
    → All IsSpelled h
    → append_request_cookie_bytes dst h ≡ dst ++ stream false h
unfolding append_request_cookie_bytes stream
append-stream dst [] s = sym (append-nil dst)
append-stream dst (kv ∷ []) (sk, s) =
    sym (append-nil (append_cookie dst kv)) ∙ append-spell dst kv [] sk.named
append-stream dst (kv ∷ kv' ∷ h) (sk, s) =
    append-stream (append_cookie dst kv ++ b';' ∷ b' ' ∷ []) (kv' ∷ h) s
    ∙ append_assoc (append_cookie dst kv) (b';' ∷ b' ' ∷ []) (stream false (kv' ∷ h))
    ∙ append-spell dst kv (b';' ∷ b' ' ∷ stream false (kv' ∷ h)) sk.named
    ∙ ap (λ r. dst ++ spell kv (b';' ∷ r)) (sym (stream-lead kv' h))

-- The cookies of a request are read back from the header that they are written to, in order, behind
-- those that the list held.
pub parse_request_cookies-append_request_cookie_bytes :
    (cookies : Slots) (h : List ArgsKv)
    → All IsSpelled h
    → map pair_of (parse_request_cookies cookies (append_request_cookie_bytes [] h)).live
      ≡ map pair_of cookies.live ++ map pair_of h
parse_request_cookies-append_request_cookie_bytes cookies h s =
    let text = append-stream [] h s in
    ap (λ b. map pair_of (parse_request_cookies cookies b).live) text
    ∙ (unfold parse_request_cookies in
        loop-stream (length (stream false h)) false h cookies.live (alloc_arg cookies.spare).0
          (alloc_arg cookies.spare).1 (length-stream false h) s)
