-- ===== src/UserData/Laws.antt =====
-- `userData` as a map.
use fasthttp.Base.{
  false, if◌then◌else◌, List, [], ◌∷◌, ◌++◌, Option, none, some, ◌≡◌, refl, ap, ◌∙◌, arith,
  Bool-cases, Option-cases, inl, inr, All, All-append,
}
use fasthttp.UserData.{KeyEq, UserDataKv, replace, set_absent, set, get, unsnoc, swap_out, remove}

same-false : {K : Type 0} (q : KeyEq K) (a b : K) → q.same a b ≡ false → q.same b a ≡ false
same-false q a b h = ground (arith, q.same_iff a b, q.same_iff b a)

module _ {K V : Type 0} ⦃q : KeyEq K⦄ where
  get-replace :
      (d d' : List (UserDataKv K V)) (k : K) (v : Option V) (j : K)
      → replace d k v ≡ some d'
      → get d' j ≡ (if q.same k j then v else get d j)
  unfolding replace get
  get-replace [] d' k v j h = cc
  get-replace (x ∷ d) d' k v j h = elim (Option-cases (replace d k v)) [
    | inl missing ↦ ground (arith, q.same_iff x.key k, q.same_iff k j, q.same_iff x.key j)
    | inr (d'', found) ↦ ground (
      arith,
      q.same_iff x.key k,
      q.same_iff k j,
      q.same_iff x.key j,
      get-replace d d'' k v j found,
    )
  ]

  abbrev pub Absent : K → List (UserDataKv K V) → Type 0
  Absent k d = All (λ kv. q.same kv.key k ≡ false) d

  -- No key has two entries.
  abbrev pub Distinct : List (UserDataKv K V) → Type 0
  Distinct [] = Unit
  Distinct (kv ∷ d) = Absent kv.key d × Distinct d

  replace-none :
      (d : List (UserDataKv K V)) (k : K) (v : Option V) → replace d k v ≡ none → Absent k d
  unfolding replace
  replace-none [] k v h = tt
  replace-none (x ∷ d) k v h = ground (arith, replace-none d k v)

  get-Absent : (d : List (UserDataKv K V)) (k : K) → Absent k d → get d k ≡ none
  unfolding get
  get-Absent [] k h = refl
  get-Absent (x ∷ d) k (hx, h) = rw hx (get-Absent d k h)

  get-concat :
      (d : List (UserDataKv K V)) (k : K) (v : V) (j : K)
      → Absent k d
      → get (d ++ record { key = k; value = some v } ∷ []) j
        ≡ (if q.same k j then some v else get d j)
  unfolding get
  get-concat [] k v j h = refl
  get-concat (x ∷ d) k v j (hx, h) =
      ground (arith, q.same_iff x.key k, q.same_iff k j, q.same_iff x.key j, get-concat d k v j h)

  get-set_absent :
      (d : List (UserDataKv K V)) (k : K) (v : Option V) (j : K)
      → Absent k d
      → get (set_absent d k v) j ≡ (if q.same k j then v else get d j)
  unfolding set_absent
  get-set_absent d k none j h =
      ground (arith, get-Absent d k h, q.same_iff k j, ap (get d) {x = k} {y = j})
  get-set_absent d k (some v) j h = get-concat d k v j h

  -- What `Set` stores under a key is what `Get` returns for it, nil included, and every other key
  -- keeps its value.
  pub get-set :
      (d : List (UserDataKv K V)) (k : K) (v : Option V) (j : K)
      → get (set d k v) j ≡ (if q.same k j then v else get d j)
  get-set d k v j = elim (Option-cases (replace d k v)) [
    | inr (d', found) ↦ unfold set in rw (found, set) (get-replace d d' k v j found)
    | inl missing ↦
        unfold set in rw (missing, set) (get-set_absent d k v j (replace-none d k v missing))
  ]

  All-unsnoc :
      (P : UserDataKv K V → Type 0) (x : UserDataKv K V) (d : List (UserDataKv K V))
      → All P (x ∷ d)
      → P (unsnoc x d).1 × All P (unsnoc x d).0
  unfolding unsnoc
  All-unsnoc P x [] (hx, h) = (hx, tt)
  All-unsnoc P x (y ∷ d) (hx, h) = let (last, rest) = All-unsnoc P y d h in (last, (hx, rest))

  get-swap_out : (d : List (UserDataKv K V)) (j : K) → Distinct d → get (swap_out d) j ≡ get d j
  unfolding swap_out unsnoc
  get-swap_out [] j h = refl
  get-swap_out (x ∷ []) j h = refl
  get-swap_out (x ∷ y ∷ d) j (hx, h) =
      let (other, _) = All-unsnoc (λ kv. q.same kv.key x.key ≡ false) y d hx in
      let ih = get-swap_out (y ∷ d) j h in step x (unsnoc y d).1 (unsnoc y d).0 (y ∷ d) other ih
    where
      step :
          (x z : UserDataKv K V) (init d : List (UserDataKv K V))
          → q.same z.key x.key ≡ false
          → get (z ∷ init) j ≡ get d j
          → get (z ∷ x ∷ init) j ≡ get (x ∷ d) j
      step x z init d ne e =
          unfold get in
          ground (arith, q.same_iff z.key x.key, q.same_iff z.key j, q.same_iff x.key j)

  All-swap_out :
      (P : UserDataKv K V → Type 0) (d : List (UserDataKv K V)) → All P d → All P (swap_out d)
  unfolding swap_out
  All-swap_out P [] h = tt
  All-swap_out P (x ∷ d) h = All-unsnoc P x d h

  unsnoc-Distinct :
      (x : UserDataKv K V) (d : List (UserDataKv K V))
      → Distinct (x ∷ d)
      → Absent (unsnoc x d).1.key (unsnoc x d).0 × Distinct (unsnoc x d).0
  unfolding unsnoc
  unsnoc-Distinct x [] h = (tt, tt)
  unsnoc-Distinct x (y ∷ d) (hx, h) =
      let (absent, distinct) = unsnoc-Distinct y d h in
      let (other, rest) = All-unsnoc (λ kv. q.same kv.key x.key ≡ false) y d hx in
      ((same-false q _ _ other, absent), (rest, distinct))

  swap_out-Distinct : (d : List (UserDataKv K V)) → Distinct d → Distinct (swap_out d)
  unfolding swap_out
  swap_out-Distinct [] h = tt
  swap_out-Distinct (x ∷ d) h = unsnoc-Distinct x d h

  All-remove :
      (P : UserDataKv K V → Type 0) (d : List (UserDataKv K V)) (k : K)
      → All P d
      → All P (remove d k)
  All-remove P [] k h = unfold remove in tt
  All-remove P (x ∷ d) k (hx, h) = kept P x d k hx (All-swap_out P d h) (All-remove P d k h)
    where
      kept :
          (P : UserDataKv K V → Type 0) (x : UserDataKv K V) (d : List (UserDataKv K V)) (k : K)
          → P x
          → All P (swap_out d)
          → All P (remove d k)
          → All P (remove (x ∷ d) k)
      kept P x d k hx swapped rest = elim (Bool-cases (q.same x.key k)) [
        | inl found ↦ unfold remove in rw found swapped
        | inr other ↦ unfold remove in rw other (hx, rest)
      ]

  replace-All :
      (P : K → Type 0) (d d' : List (UserDataKv K V)) (k : K) (v : Option V)
      → replace d k v ≡ some d'
      → All (λ kv. P kv.key) d
      → All (λ kv. P kv.key) d'
  unfolding replace
  replace-All P [] d' k v e h = cc
  replace-All P (x ∷ d) d' k v e (hx, h) = elim (Option-cases (replace d k v)) [
    | inl missing ↦ ground arith
    | inr (d'', found) ↦ ground (arith, replace-All P d d'' k v found h)
  ]

  replace-Distinct :
      (d d' : List (UserDataKv K V)) (k : K) (v : Option V)
      → replace d k v ≡ some d'
      → Distinct d
      → Distinct d'
  unfolding replace
  replace-Distinct [] d' k v e h = cc
  replace-Distinct (x ∷ d) d' k v e (hx, h) = elim (Option-cases (replace d k v)) [
    | inl missing ↦ ground arith
    | inr (d'', found) ↦ ground (
      arith,
      replace-All (λ j. q.same j x.key ≡ false) d d'' k v found hx,
      replace-Distinct d d'' k v found h,
    )
  ]

  concat-Distinct :
      (d : List (UserDataKv K V)) (kv : UserDataKv K V)
      → Absent kv.key d
      → Distinct d
      → Distinct (d ++ kv ∷ [])
  concat-Distinct [] kv a h = (tt, tt)
  concat-Distinct (x ∷ d) kv (ax, a) (hx, h) =
      (All-append _ d (kv ∷ []) hx (same-false q _ _ ax, tt), concat-Distinct d kv a h)

  set_absent-Distinct :
      (d : List (UserDataKv K V)) (k : K) (v : Option V)
      → Absent k d
      → Distinct d
      → Distinct (set_absent d k v)
  unfolding set_absent
  set_absent-Distinct d k none a h = h
  set_absent-Distinct d k (some v) a h = concat-Distinct d _ a h

  set-Distinct :
      (d : List (UserDataKv K V)) (k : K) (v : Option V) → Distinct d → Distinct (set d k v)
  set-Distinct d k v h = elim (Option-cases (replace d k v)) [
    | inr (d', found) ↦ unfold set in rw (found, set) (replace-Distinct d d' k v found h)
    | inl missing ↦
        unfold set in rw (missing, set) (set_absent-Distinct d k v (replace-none d k v missing) h)
  ]

  remove-Distinct : (d : List (UserDataKv K V)) (k : K) → Distinct d → Distinct (remove d k)
  remove-Distinct [] k h = unfold remove in tt
  remove-Distinct (x ∷ d) k (hx, h) = kept x d k hx (swap_out-Distinct d h) (remove-Distinct d k h)
    where
      kept :
          (x : UserDataKv K V) (d : List (UserDataKv K V)) (k : K)
          → Absent x.key d
          → Distinct (swap_out d)
          → Distinct (remove d k)
          → Distinct (remove (x ∷ d) k)
      kept x d k hx swapped rest = elim (Bool-cases (q.same x.key k)) [
        | inl found ↦ unfold remove in rw found swapped
        | inr other ↦ unfold remove in rw other (All-remove _ d k hx, rest)
      ]

  -- Neither `Set` nor `Remove` gives a key a second entry.
  pub set-remove-Distinct :
      (d : List (UserDataKv K V)) (k : K) (v : Option V)
      → Distinct d
      → Distinct (set d k v) × Distinct (remove d k)
  set-remove-Distinct d k v h = (set-Distinct d k v h, remove-Distinct d k h)

  get_step :
      (x : UserDataKv K V) (d : List (UserDataKv K V)) (k j : K)
      → Absent x.key d
      → Distinct d
      → get (remove d k) j ≡ (if q.same k j then none else get d j)
      → get (remove (x ∷ d) k) j ≡ (if q.same k j then none else get (x ∷ d) j)
  get_step x d k j hx h ih = elim (Bool-cases (q.same x.key k)) [
    | inl found ↦
        let e = (q.same_iff x.key k).0 found in
        unfold remove in
        rw found (
          get-swap_out d j h
          ∙ (unfold get in
              ground (
                arith,
                get-Absent d x.key hx,
                q.same_iff k j,
                q.same_iff x.key j,
                ap (get d) {x = x.key} {y = j},
                e,
              )))
    | inr other ↦
        unfold remove in
        rw other
          (unfold get in ground (arith, ih, q.same_iff x.key k, q.same_iff k j, q.same_iff x.key j))
  ]

  -- `Remove` takes away the entry of its key and, though it moves another entry into its place,
  -- changes no other key's value.
  pub get-remove :
      (d : List (UserDataKv K V)) (k j : K)
      → Distinct d
      → get (remove d k) j ≡ (if q.same k j then none else get d j)
  get-remove [] k j h = unfold remove get in ground arith
  get-remove (x ∷ d) k j (hx, h) = get_step x d k j hx h (get-remove d k j h)
