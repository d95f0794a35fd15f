-- ===== src/Args/Methods/Typed.antt =====
-- Numbers stored in `Args`.
use fasthttp.Base.{
  ℕ, ◌<◌, [], ◌∷◌, none, some, ◌≡◌, ap, ◌∙◌, arith, Bytes, int64_limit, pos, equal_refl, false,
  replicate,
}
use fasthttp.Args.{Args, stored}
use fasthttp.Args.Laws.{peek_arg-set_arg}
use fasthttp.Args.Methods.{set, peek, get_uint, get_uint_of, bytes_of, set_uint}
use fasthttp.Bytesconv.Decimal.{parse_uint}
use fasthttp.Bytesconv.Decimal.Print.{append_uint_into-append_uint, parse_uint-append_uint}

peek-set : (a : Args) (k v : Bytes) → peek (set a k v) k ≡ some v
peek-set a k v = unfold peek set stored in (peek_arg-set_arg a.args k v false k ∙ rw equal_refl)

get_uint_of-parse_uint :
    (v : Bytes) (n : ℕ) → parse_uint v ≡ (pos n, none) → get_uint_of v ≡ (pos n, none)
get_uint_of-parse_uint [] n h = unfold parse_uint in cc
get_uint_of-parse_uint (c ∷ v) n h = unfold get_uint_of in rw h

-- `SetUint` stores every int that is not negative, and `GetUint` returns it.
pub get_uint-set_uint :
    (a : Args) (k : Bytes) (n : ℕ)
    → n < int64_limit
    → (a' : Args) × (set_uint a k (pos n) ≡ some a') × (get_uint a' k ≡ (pos n, none))
get_uint-set_uint a k n h =
    let (v, written, read, digits) = parse_uint-append_uint n h in
    let into = append_uint_into-append_uint (replicate 20 0) n (omega arith) h ∙ written [] in
    (
      set a k v,
      unfold set_uint in rw (into, set_uint),
      unfold get_uint in
          (ap (λ o. get_uint_of (bytes_of o)) (peek-set a k v) ∙ get_uint_of-parse_uint v n read),
    )
