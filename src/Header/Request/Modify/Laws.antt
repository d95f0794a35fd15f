-- ===== src/Header/Request/Modify/Laws.antt =====
-- What `Set`, `Add` and `Peek` of a request's header do to each other, and that no value that they
-- store breaks a line.
use Prim.Native.Nat.{bit_or}
use fasthttp.Base.{
  ℕ, [], ◌∷◌, Option, none, some, ◌≡◌, refl, sym, ap, ◌∙◌, Bool, true, false, arith, if◌then◌else◌,
  Bytes, equal, equal_comm,
}
use fasthttp.Args.{set_arg, peek_arg}
use fasthttp.Args.Laws.{peek_arg-set_arg}
use fasthttp.Header.Names.{
  header_host, header_user_agent, header_content_type, header_content_length, header_connection,
  header_cookie, header_transfer_encoding, header_trailer, init_header_k, init_header_v,
}
use fasthttp.Header.Request.{RequestHeader, or_nil}
use fasthttp.Header.Request.Modify.{
  set_special_at, set_special_header, set_non_special, set_canonical, set_bytes_kv,
}
use fasthttp.Header.Request.Peek.{peek_special, peek, peek_bytes}

-- A name that the header gives no meaning to.
pub record IsOther (key : Bytes) : Type 0 where
  pub not_host : equal header_host key ≡ false
  pub not_user_agent : equal header_user_agent key ≡ false
  pub not_content_type : equal header_content_type key ≡ false
  pub not_content_length : equal header_content_length key ≡ false
  pub not_connection : equal header_connection key ≡ false
  pub not_cookie : equal header_cookie key ≡ false
  pub not_transfer_encoding : equal header_transfer_encoding key ≡ false
  pub not_trailer : equal header_trailer key ≡ false

set_special_at-none :
    (c : ℕ) (h : RequestHeader) (key value : Bytes) (overwrite : Bool)
    → IsOther key
    → set_special_at c h key value overwrite ≡ none
unfolding set_special_at
set_special_at-none c h key value overwrite o =
    simp
      (
        o.not_host, o.not_user_agent, o.not_content_type, o.not_content_length, o.not_connection,
        o.not_cookie, o.not_transfer_encoding, o.not_trailer,
      )
      (ground arith)

set_special_header-none :
    (h : RequestHeader) (key value : Bytes) (overwrite : Bool)
    → IsOther key
    → set_special_header h key value overwrite ≡ none
unfolding set_special_header
set_special_header-none h [] value overwrite o = refl
set_special_header-none h (c ∷ key) value overwrite o =
    ground (arith, set_special_at-none (bit_or c 32) h (c ∷ key) value overwrite o)

flip : (a b : Bytes) → equal a b ≡ false → equal b a ≡ false
flip a b h = equal_comm b a ∙ h

peek_special-none : (h : RequestHeader) (key : Bytes) → IsOther key → peek_special h key ≡ none
unfolding peek_special
peek_special-none h [] o = refl
peek_special-none h (c ∷ key) o =
    simp
      (
        flip _ _ o.not_host,
        flip _ _ o.not_user_agent,
        flip _ _ o.not_content_type,
        flip _ _ o.not_content_length,
        flip _ _ o.not_connection,
        flip _ _ o.not_cookie,
        flip _ _ o.not_trailer,
      )
      (ground arith)

peek-other :
    (h : RequestHeader) (key : Bytes) → IsOther key → peek h key ≡ or_nil (peek_arg h.h.live key)
unfolding peek
peek-other h key o = rw (peek_special-none h key o, peek) refl

set_canonical-other :
    (h : RequestHeader) (key value : Bytes)
    → IsOther key
    → set_canonical h key value ≡ set_non_special h key value
unfolding set_canonical
set_canonical-other h key value o =
    rw (set_special_header-none h key value true o, set_canonical) refl

or_nil-if :
    (b : Bool) (v : Bytes) (o : Option Bytes)
    → or_nil (if b then some v else o) ≡ (if b then v else or_nil o)
or_nil-if true v o = refl
or_nil-if false v o = refl

-- What Set stores under a name that has no meaning of its own is, with a space for each line break,
-- what Peek returns for the name, however either is spelled, and every other such name keeps its
-- value.
pub peek_bytes-set_bytes_kv :
    (h : RequestHeader) (key value j : Bytes)
    → IsOther (init_header_k key h.disable_normalizing)
    → IsOther (init_header_k j h.disable_normalizing)
    → peek_bytes (set_bytes_kv h key value) j ≡ (
        if equal (init_header_k key h.disable_normalizing) (init_header_k j h.disable_normalizing)
        then init_header_v value
        else peek_bytes h j)
unfolding peek_bytes set_bytes_kv set_non_special
peek_bytes-set_bytes_kv h key value j ok oj =
    let k = init_header_k key h.disable_normalizing in
    let j' = init_header_k j h.disable_normalizing in
    let v = init_header_v value in
    ap (λ h'. peek h' (init_header_k j h'.disable_normalizing)) (set_canonical-other h k v ok)
    ∙ peek-other (record h { h = set_arg h.h k v false }) j' oj
    ∙ ap or_nil (peek_arg-set_arg h.h k v false j')
    ∙ or_nil-if (equal k j') v (peek_arg h.h.live j')
    ∙ ap (λ r. if equal k j' then v else r) (sym (peek-other h j' oj))
