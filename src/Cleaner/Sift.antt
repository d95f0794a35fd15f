-- ===== src/Cleaner/Sift.antt =====
-- Arrays that are written at one index, and heaps, by the times at their indices.
use fasthttp.Base.{
  ℕ, zero, suc, ◌+◌, ◌-◌, ◌/◌, ◌<◌, ◌≤◌, List, [], ◌∷◌, ◌++◌, ◌≡◌, ◌≢◌, refl, ap, arith, Bool,
  false, if◌then◌else◌, length, take, set, get_or, Bool-cases, inl, inr, ℕ_discrete,
}

module _ {ℓ} {A : Type ℓ} where
  pub length-set : (xs : List A) (i : ℕ) (v : A) → length (set xs i v) ≡ length xs
  length-set [] i v = refl
  length-set (x ∷ xs) zero v = refl
  length-set (x ∷ xs) (suc i) v = ap suc (length-set xs i v)

  pub get_or-set : (xs : List A) (i : ℕ) (v d : A) → i < length xs → get_or (set xs i v) i d ≡ v
  get_or-set [] i v d h = absurd (omega arith)
  get_or-set (x ∷ xs) zero v d h = refl
  get_or-set (x ∷ xs) (suc i) v d h = get_or-set xs i v d (omega arith)

  pub get_or-set_other :
      (xs : List A) (i j : ℕ) (v d : A) → i ≢ j → get_or (set xs i v) j d ≡ get_or xs j d
  get_or-set_other [] i j v d h = refl
  get_or-set_other (x ∷ xs) zero zero v d h = absurd (h refl)
  get_or-set_other (x ∷ xs) zero (suc j) v d h = refl
  get_or-set_other (x ∷ xs) (suc i) zero v d h = refl
  get_or-set_other (x ∷ xs) (suc i) (suc j) v d h = get_or-set_other xs i j v d (omega arith)

  -- How many items pass the test.
  abbrev pub tally : (A → Bool) → List A → ℕ
  tally q [] = 0
  tally q (x ∷ xs) = (if q x then 1 else 0) + tally q xs

  pub tally-set :
      (q : A → Bool) (xs : List A) (i : ℕ) (v d : A)
      → i < length xs
      → tally q (set xs i v) + (if q (get_or xs i d) then 1 else 0)
        ≡ tally q xs + (if q v then 1 else 0)
  tally-set q [] i v d h = absurd (omega arith)
  tally-set q (x ∷ xs) zero v d h = omega arith
  tally-set q (x ∷ xs) (suc i) v d h = omega (arith, tally-set q xs i v d (omega arith))

  pub set-get_or : (xs : List A) (i : ℕ) (d : A) → set xs i (get_or xs i d) ≡ xs
  set-get_or [] i d = refl
  set-get_or (x ∷ xs) zero d = refl
  set-get_or (x ∷ xs) (suc i) d = ap (λ r. x ∷ r) (set-get_or xs i d)

  pub get_or-append :
      (xs ys : List A) (j : ℕ) (d : A) → j < length xs → get_or (xs ++ ys) j d ≡ get_or xs j d
  get_or-append [] ys j d h = absurd (omega arith)
  get_or-append (x ∷ xs) ys zero d h = refl
  get_or-append (x ∷ xs) ys (suc j) d h = get_or-append xs ys j d (omega arith)

  pub get_or-append_last : (xs : List A) (v d : A) → get_or (xs ++ v ∷ []) (length xs) d ≡ v
  get_or-append_last [] v d = refl
  get_or-append_last (x ∷ xs) v d = get_or-append_last xs v d

  pub get_or-take :
      (n : ℕ) (xs : List A) (j : ℕ) (d : A) → j < n → get_or (take n xs) j d ≡ get_or xs j d
  get_or-take zero xs j d h = absurd (omega arith)
  get_or-take (suc n) [] j d h = refl
  get_or-take (suc n) (x ∷ xs) zero d h = refl
  get_or-take (suc n) (x ∷ xs) (suc j) d h = get_or-take n xs j d (omega arith)

  pub tally-append : (q : A → Bool) (xs ys : List A) → tally q (xs ++ ys) ≡ tally q xs + tally q ys
  tally-append q [] ys = omega arith
  tally-append q (x ∷ xs) ys = omega (arith, tally-append q xs ys)

  pub tally-take_last :
      (q : A → Bool) (n : ℕ) (xs : List A) (d : A)
      → length xs ≡ suc n
      → tally q (take n xs) + (if q (get_or xs n d) then 1 else 0) ≡ tally q xs
  tally-take_last q n [] d h = absurd (omega arith)
  tally-take_last q zero (x ∷ []) d h = omega arith
  tally-take_last q zero (x ∷ y ∷ xs) d h = absurd (omega arith)
  tally-take_last q (suc n) (x ∷ xs) d h = omega (arith, tally-take_last q n xs d (omega arith))

  -- No item passes the test.
  pub tally-none :
      (q : A → Bool) (xs : List A) (d : A)
      → ((j : ℕ) → j < length xs → q (get_or xs j d) ≡ false)
      → tally q xs ≡ 0
  tally-none q [] d h = refl
  tally-none q (x ∷ xs) d h =
      rw (h 0 (omega arith)) (omega (arith, tally-none q xs d (λ j lt. h (suc j) (omega arith))))

  pub tally-at :
      (q : A → Bool) (xs : List A) (d : A) (j : ℕ)
      → tally q xs ≡ 0
      → j < length xs
      → q (get_or xs j d) ≡ false
  tally-at q [] d j h lt = absurd (omega arith)
  tally-at q (x ∷ xs) d zero h lt = elim (Bool-cases (q x)) [
    | inl hit ↦ absurd (omega (arith, h, ap {B = ℕ} (λ b. if b then 1 else 0) hit))
    | inr miss ↦ miss
  ]
  tally-at q (x ∷ xs) d (suc j) h lt = tally-at q xs d j (omega (arith, h)) (omega arith)

-- A heap of `n` items with the times `w`: no item is due before its parent.
abbrev pub IsHeap : ℕ → (ℕ → ℕ) → Type 0
IsHeap n w = (j : ℕ) → 0 < j → j < n → w ((j - 1) / 4) ≤ w j

-- A heap but for the item `i` and its parent.
pub record Rises (n i : ℕ) (w : ℕ → ℕ) : Type 0 where
  pub others : (j : ℕ) → 0 < j → j < n → j ≢ i → w ((j - 1) / 4) ≤ w j
  pub below : (j : ℕ) → 0 < j → j < n → 0 < i → (j - 1) / 4 ≡ i → w ((i - 1) / 4) ≤ w j

-- A heap but for the item `i` and its children.
pub record Sinks (n i : ℕ) (w : ℕ → ℕ) : Type 0 where
  pub others : (j : ℕ) → 0 < j → j < n → (j - 1) / 4 ≢ i → w ((j - 1) / 4) ≤ w j
  pub below : (j : ℕ) → 0 < j → j < n → 0 < i → (j - 1) / 4 ≡ i → w ((i - 1) / 4) ≤ w j

-- The times after an exchange of the items at `i` and `c`.
pub record Swaps (i c : ℕ) (w w' : ℕ → ℕ) : Type 0 where
  pub here : w' i ≡ w c
  pub there : w' c ≡ w i
  pub else_where : (j : ℕ) → j ≢ i → j ≢ c → w' j ≡ w j

pub Rises-swap :
    (n i : ℕ) (w w' : ℕ → ℕ)
    → 0 < i
    → i < n
    → Rises n i w
    → Swaps i ((i - 1) / 4) w w'
    → w i ≤ w ((i - 1) / 4)
    → Rises n ((i - 1) / 4) w'
Rises-swap n i w w' pos_i lt r s less =
    let p = (i - 1) / 4 in
    let p_lt : p < i = omega arith in
    record {
      others = λ j pj jn jp. elim (ℕ_discrete j i) [
        | yes e ↦ omega (arith, s.here, s.there, ap w' e, ap (λ k. w' ((k - 1) / 4)) e)
        | no ne ↦ elim (ℕ_discrete ((j - 1) / 4) i) [
          | yes e ↦ omega (arith, s.here, ap w' e, r.below j pj jn pos_i e, s.else_where j ne jp)
          | no ne2 ↦ elim (ℕ_discrete ((j - 1) / 4) p) [
            | yes e ↦
                omega (arith, s.there, ap w' e, ap w e, r.others j pj jn ne, s.else_where j ne jp)
            | no ne3 ↦ omega (
              arith,
              r.others j pj jn ne,
              s.else_where j ne jp,
              s.else_where ((j - 1) / 4) ne2 ne3,
            )
          ]
        ]
      ];
      below = λ j pj jn pp e.
          let pp_lt : (p - 1) / 4 < p = omega arith in
          let up = s.else_where ((p - 1) / 4) (λ q. omega (arith, q)) (λ q. omega (arith, q)) in
          let upper = r.others p pp (omega arith) (λ q. omega (arith, q)) in
          elim (ℕ_discrete j i) [
            | yes e2 ↦ omega (arith, s.here, ap w' e2, up, upper)
            | no ne ↦ omega (
              arith,
              up,
              upper,
              r.others j pj jn ne,
              ap w e,
              s.else_where j ne (λ q. omega (arith, q)),
            )
          ];
    }

pub Sinks-swap :
    (n i c : ℕ) (w w' : ℕ → ℕ)
    → (c - 1) / 4 ≡ i
    → 0 < c
    → c < n
    → ((j : ℕ) → 0 < j → j < n → (j - 1) / 4 ≡ i → w c ≤ w j)
    → Sinks n i w
    → Swaps i c w w'
    → w c ≤ w i
    → Sinks n c w'
Sinks-swap n i c w w' parent pos_c lt least r s less =
    let lower : i < c = omega arith in
    record {
      others = λ j pj jn jp. elim (ℕ_discrete ((j - 1) / 4) i) [
        | yes e ↦ elim (ℕ_discrete j c) [
          | yes e2 ↦ omega (arith, s.here, s.there, ap w' e, ap w' e2)
          | no ne ↦
              omega
                (arith, s.here, ap w' e, least j pj jn e, s.else_where j (λ q. omega (arith, q)) ne)
        ]
        | no ne ↦ elim (ℕ_discrete j i) [
          | yes e ↦ omega (
            arith,
            s.here,
            ap w' e,
            s.else_where ((j - 1) / 4) ne jp,
            ap (λ k. w ((k - 1) / 4)) e,
            r.below c pos_c lt (omega arith) parent,
          )
          | no ne2 ↦ omega (
            arith,
            r.others j pj jn ne,
            s.else_where ((j - 1) / 4) ne jp,
            s.else_where j ne2 (λ q. omega (arith, q, ap (λ k. (k - 1) / 4) q)),
          )
        ]
      ];
      below = λ j pj jn pc e. omega (
        arith,
        s.here,
        ap w' parent,
        ap w e,
        r.others j pj jn (λ q. omega (arith, q)),
        s.else_where j (λ q. omega (arith, q)) (λ q. omega (arith, q)),
      );
    }

-- The first item of a heap is due first.
pub IsHeap-first : (n : ℕ) (w : ℕ → ℕ) (fuel j : ℕ) → IsHeap n w → j < n → j ≤ fuel → w 0 ≤ w j
IsHeap-first n w fuel zero heap h le = omega arith
IsHeap-first n w zero (suc j) heap h le = absurd (omega arith)
IsHeap-first n w (suc fuel) (suc j) heap h le = omega (
  arith,
  heap (suc j) (omega arith) h,
  IsHeap-first n w fuel ((suc j - 1) / 4) heap (omega arith) (omega arith),
)
