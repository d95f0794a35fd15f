-- ===== src/WorkerPool/Channels.antt =====
-- How often a channel occurs in a list, and what `getCh` does to the ready list.
use fasthttp.Base.{
  ℕ, zero, suc, ◌+◌, ◌≤◌, ltb, ◌==◌, if◌then◌else◌, List, [], ◌∷◌, ◌++◌, ◌≡◌, refl, ap, arith,
  length, take, drop, map, Bool-cases, inl, inr,
}
use fasthttp.WorkerPool.{
  WorkerChan, WorkerPool, GetCh, reuse, create_worker, no_worker, last_ready, get_ready, get_ch,
}

-- How often the channel `x` occurs.
abbrev pub occ : ℕ → List ℕ → ℕ
occ x [] = 0
occ x (c ∷ cs) = if x == c then suc (occ x cs) else occ x cs

abbrev pub occ_ready : ℕ → List WorkerChan → ℕ
occ_ready x [] = 0
occ_ready x (w ∷ ws) = if x == w.ch then suc (occ_ready x ws) else occ_ready x ws

abbrev pub chans : List WorkerChan → List ℕ
chans ws = map (λ w. w.ch) ws

pub occ-append : (x : ℕ) (xs ys : List ℕ) → occ x (xs ++ ys) ≡ occ x xs + occ x ys
occ-append x [] ys = omega arith
occ-append x (c ∷ xs) ys = ground (arith, occ-append x xs ys)

pub occ-chans : (x : ℕ) (ws : List WorkerChan) → occ x (chans ws) ≡ occ_ready x ws
occ-chans x [] = refl
occ-chans x (w ∷ ws) = ground (arith, occ-chans x ws)

pub length-chans : (ws : List WorkerChan) → length (chans ws) ≡ length ws
length-chans [] = refl
length-chans (w ∷ ws) = ap suc (length-chans ws)

pub occ_ready-append :
    (x : ℕ) (ws vs : List WorkerChan) → occ_ready x (ws ++ vs) ≡ occ_ready x ws + occ_ready x vs
occ_ready-append x [] vs = omega arith
occ_ready-append x (w ∷ ws) vs = ground (arith, occ_ready-append x ws vs)

pub take-drop : (n : ℕ) (ws : List WorkerChan) → length (take n ws) + length (drop n ws) ≡ length ws
take-drop zero ws = omega arith
take-drop (suc n) [] = refl
take-drop (suc n) (w ∷ ws) = omega (arith, take-drop n ws)

pub occ_ready-take-drop :
    (x n : ℕ) (ws : List WorkerChan)
    → occ_ready x (take n ws) + occ_ready x (drop n ws) ≡ occ_ready x ws
occ_ready-take-drop x zero ws = omega arith
occ_ready-take-drop x (suc n) [] = refl
occ_ready-take-drop x (suc n) (w ∷ ws) = ground (arith, occ_ready-take-drop x n ws)

pub length-last_ready :
    (w : WorkerChan) (ws : List WorkerChan) → length (last_ready w ws).0 ≡ length ws
unfolding last_ready
length-last_ready w [] = refl
length-last_ready w (v ∷ ws) = ap suc (length-last_ready v ws)

pub occ-last_ready :
    (x : ℕ) (w : WorkerChan) (ws : List WorkerChan)
    → occ_ready x (last_ready w ws).0 + (if x == (last_ready w ws).1.ch then 1 else 0)
      ≡ occ_ready x (w ∷ ws)
unfolding last_ready
occ-last_ready x w [] = ground arith
occ-last_ready x w (v ∷ ws) = ground (arith, occ-last_ready x v ws)

-- The channel that is reused, and how many workers are new.
abbrev pub chan_of : GetCh → ℕ
chan_of (reuse w) = w.ch
chan_of create_worker = 0
chan_of no_worker = 0

abbrev pub reused : GetCh → ℕ
reused (reuse w) = 1
reused create_worker = 0
reused no_worker = 0

abbrev pub created : GetCh → ℕ
created (reuse w) = 0
created create_worker = 1
created no_worker = 0

-- What `getCh` does to the counts, on all branches.
pub record Got (p p' : WorkerPool) (g : GetCh) : Type 0 where
  pub count : p'.workers_count ≡ p.workers_count + created g
  pub limit : p'.max_workers_count ≡ p.max_workers_count
  pub few : p.workers_count ≤ p.max_workers_count → p'.workers_count ≤ p'.max_workers_count
  pub ready : length p'.ready + reused g ≡ length p.ready
  pub places :
      (x : ℕ)
      → occ_ready x p'.ready + (if x == chan_of g then reused g else 0) ≡ occ_ready x p.ready

pub get_ready-Got :
    (p : WorkerPool) (ws : List WorkerChan)
    → p.ready ≡ ws
    → Got p (get_ready p ws).0 (get_ready p ws).1
unfolding get_ready
get_ready-Got p [] e = elim (Bool-cases (ltb p.workers_count p.max_workers_count)) [
  | inl more ↦ rw more (record {
    count = refl;
    limit = refl;
    few = λ le. ground arith;
    ready = omega arith;
    places = λ x. ground arith;
  })
  | inr full ↦ rw full (record {
    count = omega arith;
    limit = refl;
    few = λ le. le;
    ready = omega arith;
    places = λ x. ground arith;
  })
]
get_ready-Got p (w ∷ ws) e = record {
  count = omega arith;
  limit = refl;
  few = λ le. le;
  ready = omega (arith, ap length e, length-last_ready w ws);
  places = λ x. ground (arith, ap (occ_ready x) e, occ-last_ready x w ws);
}

pub get_ch-Got : (p : WorkerPool) → Got p (get_ch p).0 (get_ch p).1
unfolding get_ch
get_ch-Got p = get_ready-Got p p.ready refl
