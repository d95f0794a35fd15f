-- ===== src/PerIp/Counting.antt =====
-- The counter holds the number of connections that are open.
use fasthttp.Base.{
  ℕ, ◌+◌, ◌-◌, ◌≤◌, ◌<◌, ltb, ◌==◌, if◌then◌else◌, List, [], ◌∷◌, Option, none, some, ◌≡◌, ◌≢◌,
  ◌&&◌, refl, ap, arith, Bool-cases, inl, inr,
}
use fasthttp.PerIp.{Counter, new_counter, read, register, unregister, wrap_conn}

-- What the server does with the counter: a connection of an address is accepted, or closed.
pub data Event : Type 0 where
  accept : ℕ → Event
  close : ℕ → Event

-- `none` is a panic.
pub run : Counter → List Event → Option Counter
run cc [] = some cc
run cc (accept ip ∷ es) = run (register cc ip).0 es
run cc (close ip ∷ es) = elim (unregister cc ip) [ none ↦ none | some cc' ↦ run cc' es ]

-- The connections of `ip` that are open after the events, if `n` were before.
abbrev pub open_after : ℕ → ℕ → List Event → ℕ
open_after ip n [] = n
open_after ip n (accept j ∷ es) = open_after ip (if ip == j then n + 1 else n) es
open_after ip n (close j ∷ es) = open_after ip (if ip == j then n - 1 else n) es

-- Only an open connection is closed.
abbrev pub Closes : (ℕ → ℕ) → List Event → Type 0
Closes opened [] = Unit
Closes opened (accept j ∷ es) = Closes (λ i. if i == j then opened i + 1 else opened i) es
Closes opened (close j ∷ es) =
    (0 < opened j) × Closes (λ i. if i == j then opened i - 1 else opened i) es

register-read :
    (cc : Counter) (j ip : ℕ)
    → read (register cc j).0.m ip ≡ (if ip == j then read cc.m ip + 1 else read cc.m ip)
register-read cc j ip = go cc.m
  where
    go :
        (m : Option (ℕ → ℕ))
        → read (register (record { m = m }) j).0.m ip
          ≡ (if ip == j then read m ip + 1 else read m ip)
    go none = unfold register in ground arith
    go (some m) = unfold register in ground (arith, ap m {x = ip} {y = j})

unregister-read :
    (m : Option (ℕ → ℕ)) (j : ℕ)
    → 0 < read m j
    → (cc' : Counter) × (unregister (record { m = m }) j ≡ some cc')
      × ((ip : ℕ) → read cc'.m ip ≡ (if ip == j then read m ip - 1 else read m ip))
unfolding unregister
unregister-read none j h = absurd (omega arith)
unregister-read (some m) j h = (_, refl, λ ip. ground (arith, ap m {x = ip} {y = j}))

run_counts :
    (es : List Event) (cc : Counter) (opened : ℕ → ℕ)
    → ((ip : ℕ) → read cc.m ip ≡ opened ip)
    → Closes opened es
    → (cc' : Counter) × (run cc es ≡ some cc')
      × ((ip : ℕ) → read cc'.m ip ≡ open_after ip (opened ip) es)
unfolding run
run_counts [] cc opened h c = (cc, refl, h)
run_counts (accept j ∷ es) cc opened h c =
    run_counts es (register cc j).0 (λ i. if i == j then opened i + 1 else opened i)
      (λ ip. ground (arith, register-read cc j ip, h ip)) c
run_counts (close j ∷ es) cc opened h (open_j, c) =
    let (cc', closed, left) = unregister-read cc.m j (ground (arith, h j)) in
    let (end, ran, counts) =
      run_counts es cc' (λ i. if i == j then opened i - 1 else opened i)
        (λ ip. ground (arith, left ip, h ip)) c in
    (end, rw (closed, run) ran, counts)

register-count : (cc : Counter) (j : ℕ) → (register cc j).1 ≡ read cc.m j + 1
register-count cc j = go cc.m
  where
    go : (m : Option (ℕ → ℕ)) → (register (record { m = m }) j).1 ≡ read m j + 1
    go none = unfold register in refl
    go (some m) = unfold register in refl

-- If only open connections are closed, no call panics, and afterwards the counter holds for every
-- address the number of its connections that are open.
pub run-counts :
    (es : List Event)
    → Closes (λ ip. 0) es
    → (cc : Counter) × (run new_counter es ≡ some cc)
      × ((ip : ℕ) → read cc.m ip ≡ open_after ip 0 es)
run-counts es c = run_counts es new_counter (λ ip. 0) (λ ip. refl) c

-- A connection is refused exactly where its address has as many as are allowed, and then no count
-- changes; otherwise the address has one more. No call panics, and no address gets more
-- connections than are allowed.
pub wrap_conn_lem :
    (limit : ℕ) (cc : Counter) (ip : ℕ)
    → ip ≢ 0
    → ((j : ℕ) → read cc.m j ≤ limit)
    → (cc' : Counter) × (wrap_conn limit cc ip ≡ some (cc', ltb (read cc.m ip) limit))
      × ((j : ℕ)
          → read cc'.m j
            ≡ (if j == ip && ltb (read cc.m ip) limit then read cc.m j + 1 else read cc.m j))
      × ((j : ℕ) → read cc'.m j ≤ limit)
wrap_conn_lem limit cc ip ne within = elim (Bool-cases (ltb (read cc.m ip) limit)) [
  | inl room ↦ (
    (register cc ip).0,
    unfold wrap_conn in ground (arith, register-count cc ip),
    λ j. ground (arith, register-read cc ip j),
    λ j. ground (arith, register-read cc ip j, within j, ap (read cc.m) {x = j} {y = ip}),
  )
  | inr full ↦
      let (cc', closed, left) =
        unregister-read (register cc ip).0.m ip (ground (arith, register-read cc ip ip)) in
      (
        cc',
        unfold wrap_conn in ground (arith, register-count cc ip, closed, within ip),
        λ j. ground (arith, register-read cc ip j, left j),
        λ j. ground (arith, register-read cc ip j, left j, within j),
      )
]
