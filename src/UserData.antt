-- ===== src/UserData.antt =====
-- userdata.go: `userData`, the values that handlers attach to a request. Keys are of a type with
-- Go's `==`, after `[]byte` keys were turned into strings; a value is `none` where it is nil.
pub mod Laws
use fasthttp.Base.{
  Bool, true, false, if◌then◌else◌, List, [], ◌∷◌, ◌++◌, Option, none, some, ◌≡◌, ◌↔◌,
}

-- Go's `==` on keys decides equality.
pub record KeyEq (K : Type 0) : Type 0 where
  pub same : K → K → Bool
  pub same_iff : (a b : K) → (same a b ≡ true) ↔ (a ≡ b)

pub record UserDataKv (K V : Type 0) : Type 0 where
  pub key : K
  pub value : Option V

module _ {K V : Type 0} ⦃q : KeyEq K⦄ where
  -- The loop of `Set`; `none` if no entry has the key.
  pub replace : List (UserDataKv K V) → K → Option V → Option (List (UserDataKv K V))
  replace [] k v = none
  replace (kv ∷ d) k v =
      if q.same kv.key k
      then some (record kv { value = v } ∷ d)
      else elim (replace d k v) [ none ↦ none | some d' ↦ some (kv ∷ d') ]

  pub set_absent : List (UserDataKv K V) → K → Option V → List (UserDataKv K V)
  set_absent d k none = d
  set_absent d k (some v) = d ++ record { key = k; value = some v } ∷ []

  -- `Set` and `SetBytes`
  unfoldable pub set : List (UserDataKv K V) → K → Option V → List (UserDataKv K V)
  unfolding replace set_absent
  set d k v = elim (replace d k v) [ some d' ↦ d' | none ↦ set_absent d k v ]

  -- `Get` and `GetBytes`
  unfoldable pub get : List (UserDataKv K V) → K → Option V
  get [] k = none
  get (kv ∷ d) k = if q.same kv.key k then kv.value else get d k

  -- The last entry and those before it: `args[n]` and `args[:n]` for a new length n.
  pub unsnoc : UserDataKv K V → List (UserDataKv K V) → List (UserDataKv K V) × UserDataKv K V
  unsnoc kv [] = ([], kv)
  unsnoc kv (x ∷ d) = (kv ∷ (unsnoc x d).0, (unsnoc x d).1)

  -- What becomes of the entries from the one found on: the last one takes its place.
  pub swap_out : List (UserDataKv K V) → List (UserDataKv K V)
  swap_out [] = []
  swap_out (x ∷ d) = (unsnoc x d).1 ∷ (unsnoc x d).0

  -- `Remove` and `RemoveBytes`
  unfoldable pub remove : List (UserDataKv K V) → K → List (UserDataKv K V)
  unfolding swap_out unsnoc
  remove [] k = []
  remove (kv ∷ d) k = if q.same kv.key k then swap_out d else kv ∷ remove d k

  -- The values that `Reset` closes, in order, which are those that implement `io.Closer`; the
  -- entries left are none.
  unfoldable pub reset : (V → Bool) → List (UserDataKv K V) → List (UserDataKv K V) × List V
  reset is_closer [] = ([], [])
  reset is_closer (kv ∷ d) =
      let closed = (reset is_closer d).1 in
      ([], elim kv.value [ none ↦ closed | some v ↦ if is_closer v then v ∷ closed else closed ])
