-- ===== src/HostClient/Clean/Search.antt =====
-- The binary search finds the connections that have been idle for too long, and those alone.
use fasthttp.Base.{
  ℕ, zero, suc, ◌+◌, ◌-◌, ◌/◌, ◌<◌, ◌≤◌, List, [], ◌∷◌, ◌++◌, ◌≡◌, refl, arith, Bool, true, false,
  ltb, leb, ◌==◌, length, get_or, take, drop, take-append-drop, length-drop, length-take, sym, ap, ◌∙◌, All, Bool-cases, inl,
  inr, ℤ, pos, negsuc,
}
use fasthttp.Cleaner.Sift.{get_or-take}
use fasthttp.HostClient.Pool.{HostClient}
use fasthttp.HostClient.Clean.{is_stale, search, stale_count, difference, clean}

leb_of : (i n : ℕ) → ltb i n ≡ false → n ≤ i
leb_of i n h = ground arith

-- The connections in the order of their last use.
abbrev pub AreOrdered : (ℕ → ℕ) → List ℕ → Type 0
AreOrdered used conns =
    (i j : ℕ) → i ≤ j → j < length conns → used (get_or conns i 0) ≤ used (get_or conns j 0)

abbrev pub IsNotPositive : ℤ → Type 0
IsNotPositive (pos v) = v ≡ 0
IsNotPositive (negsuc v) = Unit

difference-IsNotPositive : (a b : ℕ) → a ≤ b → IsNotPositive (difference a b)
difference-IsNotPositive a b le = elim (Bool-cases (leb b a)) [
  | inl same ↦ rw same (ground arith)
  | inr more ↦ rw more tt
]

-- The last of the first `i`.
get_or-last :
    (i : ℕ) (xs : List ℕ)
    → 0 < i
    → i < length xs
    → get_or (take i xs) (length (take i xs) - 1) 0 ≡ get_or xs (i - 1) 0
get_or-last i xs h lt =
    ap (λ n. get_or (take i xs) (n - 1) 0) (length-take i xs ∙ omega arith)
    ∙ get_or-take i xs (i - 1) 0 (omega arith)

module _ (used : ℕ → ℕ) (max_idle now : ℕ) where
  -- The first `k` connections are stale, and no other is.
  record Splits (conns : List ℕ) (k : ℕ) : Type 0 where
    within : k ≤ length conns
    front : (i : ℕ) → i < k → is_stale used max_idle now (get_or conns i 0) ≡ true
    back :
        (i : ℕ) → k ≤ i → i < length conns → is_stale used max_idle now (get_or conns i 0) ≡ false

  search-Splits :
      (fuel : ℕ) (conns : List ℕ) (low high : ℕ)
      → AreOrdered used conns
      → low ≤ high
      → high ≤ low + fuel
      → high ≤ length conns
      → ((i : ℕ) → i < low → is_stale used max_idle now (get_or conns i 0) ≡ true)
      → ((i : ℕ)
          → high ≤ i
          → i < length conns
          → is_stale used max_idle now (get_or conns i 0) ≡ false)
      → Splits conns (search used max_idle now fuel conns low high)
  unfolding search
  search-Splits zero conns low high order le enough fits front back = record {
    within = fits;
    front = λ i lt. front i (omega arith);
    back = back;
  }
  search-Splits (suc fuel) conns low high order le enough fits front back =
      let mid = (low + (high - 1)) / 2 in
      elim (Bool-cases (ltb low high)) [
        | inr met ↦
            rw met (record { within = fits; front = λ i lt. front i (ground arith); back = back })
        | inl apart ↦
            let lt : low < high = ground arith in
            elim (Bool-cases (is_stale used max_idle now (get_or conns mid 0))) [
              | inl old ↦ rw apart (
                  rw old (
                    search-Splits fuel conns (mid + 1) high order (omega arith) (omega arith) fits
                      (λ i il.
                        let earlier = order i mid (omega arith) (omega arith) in ground arith)
                      back))
              | inr young ↦ rw apart (
                  rw young (
                    search-Splits fuel conns low mid order (omega arith) (omega arith) (omega arith)
                      front (λ i il ir. let after = order mid i il ir in ground arith)))
            ]
      ]

  stale_count-Splits :
      (conns : List ℕ) → AreOrdered used conns → Splits conns (stale_count used max_idle now conns)
  unfolding stale_count
  stale_count-Splits conns order =
      search-Splits (length conns) conns 0 (length conns) order (omega arith) (omega arith)
        (omega arith) (λ i lt. absurd (omega arith)) (λ i le lt. absurd (omega arith))

  All-take :
      (q : ℕ → Bool) (b : Bool) (k : ℕ) (xs : List ℕ)
      → ((i : ℕ) → i < k → i < length xs → q (get_or xs i 0) ≡ b)
      → All (λ x. q x ≡ b) (take k xs)
  All-take q b zero xs h = tt
  All-take q b (suc k) [] h = tt
  All-take q b (suc k) (x ∷ xs) h = (
    h 0 (omega arith) (omega arith),
    All-take q b k xs (λ i lt fits. h (suc i) (omega arith) (omega arith)),
  )

  All-drop :
      (q : ℕ → Bool) (b : Bool) (k : ℕ) (xs : List ℕ)
      → ((i : ℕ) → k ≤ i → i < length xs → q (get_or xs i 0) ≡ b)
      → All (λ x. q x ≡ b) (drop k xs)
  All-drop q b zero [] h = tt
  All-drop q b zero (x ∷ xs) h = (
    h 0 (omega arith) (omega arith),
    All-drop q b zero xs (λ i le fits. h (suc i) (omega arith) (omega arith)),
  )
  All-drop q b (suc k) [] h = tt
  All-drop q b (suc k) (x ∷ xs) h =
      All-drop q b k xs (λ i le fits. h (suc i) (omega arith) (omega arith))

  -- What Clean does where the connections stand in the order of their last use: it takes away just
  -- those that have been idle for longer than they may, and keeps the others in order.
  pub record Parts (before after : HostClient) (closed : List ℕ) : Type 0 where
    pub whole : closed ++ after.conns ≡ before.conns
    pub all_stale : All (λ conn. is_stale used max_idle now conn ≡ true) closed
    pub none_stale : All (λ conn. is_stale used max_idle now conn ≡ false) after.conns
    pub same_count : after.conns_count ≡ before.conns_count

  pub clean-Parts :
      (later : ℕ) (h : HostClient)
      → AreOrdered used h.conns
      → Parts h (clean used max_idle now later h).0 (clean used max_idle now later h).1
  unfolding clean
  clean-Parts later h order =
      let i = stale_count used max_idle now h.conns in
      let s = stale_count-Splits h.conns order in
      elim (Bool-cases (i == 0)) [
        | inl none_found ↦ rw none_found (record {
          whole = refl;
          all_stale = tt;
          none_stale =
              All-drop (is_stale used max_idle now) false 0 h.conns
                (λ j le fits. s.back j (ground arith) fits);
          same_count = refl;
        })
        | inr found ↦ rw found (record {
          whole = take-append-drop i h.conns;
          all_stale =
              All-take (is_stale used max_idle now) true i h.conns (λ j lt fits. s.front j lt);
          none_stale = All-drop (is_stale used max_idle now) false i h.conns s.back;
          same_count = refl;
        })
      ]

  -- Where Clean closes some connections and keeps others, in the order of their last use, with a clock
  -- that does not go back, the duration that it returns is what is left of the time that the last
  -- connection that it closes may be idle, and 1 more, and that is not positive.
  pub clean_duration-IsNotPositive :
      (later : ℕ) (h : HostClient)
      → AreOrdered used h.conns
      → now ≤ later
      → 0 < length (clean used max_idle now later h).1
      → 0 < length (clean used max_idle now later h).0.conns
      → let closed = (clean used max_idle now later h).1 in
        ((clean used max_idle now later h).2
          ≡ difference (max_idle + 1) (later - used (get_or closed (length closed - 1) 0)))
        × IsNotPositive (clean used max_idle now later h).2
  unfolding clean
  clean_duration-IsNotPositive later h order clock closed kept =
      let i = stale_count used max_idle now h.conns in
      let s = stale_count-Splits h.conns order in
      elim (Bool-cases (i == 0)) [
        | inl none_found ↦ absurd (omega (arith, (rw none_found at closed)))
        | inr found ↦ elim (Bool-cases (ltb i (length h.conns))) [
          | inl some_left ↦
              let last_stale = s.front (i - 1) (ground arith) in
              let last = get_or-last i h.conns (ground arith) (ground arith) in
              rw found (
                rw some_left (
                  ap (λ conn. difference (max_idle + 1) (later - used conn)) (sym last),
                  difference-IsNotPositive (max_idle + 1) (later - used (get_or h.conns (i - 1) 0))
                    (ground arith),
                ))
          | inr all_gone ↦ absurd (
              omega (
                arith,
                (rw found at kept),
                length-drop i h.conns,
                leb_of i (length h.conns) all_gone,
              ))
        ]
      ]
