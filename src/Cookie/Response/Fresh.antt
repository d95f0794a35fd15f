-- ===== src/Cookie/Response/Fresh.antt =====
-- A `Cookie` that is used again: what it held does not show.
use fasthttp.Base.{[], ◌∷◌, ◌++◌, some, ◌≡◌, ◌≢◌, refl, ap, true, Bytes, arith}
use fasthttp.Cookie.Scan.{finish, scan, next}
use fasthttp.Cookie.Response.{Times, Cookie, parse_bytes, reset}

-- The key that the buffer held is not read.
scan-old : (b old old' seg : Bytes) → scan true old seg b ≡ scan true old' seg b
unfolding scan finish
scan-old [] old old' seg = refl
scan-old (c ∷ b) old old' seg = ground (arith, scan-old b old old' (seg ++ c ∷ []))

next-old : (b old old' : Bytes) → next old b ≡ next old' b
unfolding next
next-old [] old old' = refl
next-old (c ∷ b) old old' = ap some (scan-old (c ∷ b) old old' [])

module _ {T E : Type 0} (time : Times T E) where
  -- Parsing a text that is not empty gives the same cookie and the same error whatever the object
  -- and its buffers held before.
  pub parse_bytes-fresh :
      (c d : Cookie T) (src : Bytes) → src ≢ [] → parse_bytes time c src ≡ parse_bytes time d src
  unfolding parse_bytes next reset
  parse_bytes-fresh c d [] ne = absurd (ne refl)
  parse_bytes-fresh c d (x ∷ src) ne = rw (scan-old (x ∷ src) c.buf_k d.buf_k []) refl
