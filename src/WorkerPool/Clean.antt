-- ===== src/WorkerPool/Clean.antt =====
-- What the default threshold makes of the idle workers.
use fasthttp.Base.{
  ℕ, zero, suc, ◌-◌, ◌*◌, ◌/◌, ◌≤◌, ◌<◌, ◌&&◌, ltb, leb, dec_lt, if◌then◌else◌, List, [], ◌∷◌, some,
  ◌≡◌, arith, length, length-take, take, drop, All,
}
use fasthttp.WorkerPool.{WorkerChan, WorkerPool, clean_num, clean, default_clean_threshold, time_at}

-- The workers stand in the order in which they became idle.
abbrev pub Ordered : List WorkerChan → Type 0
Ordered [] = Unit
Ordered (w ∷ ws) = All (λ v. w.last_use_time ≤ v.last_use_time) ws × Ordered ws

time_at-All :
    (w : WorkerChan) (ws : List WorkerChan) (i : ℕ)
    → All (λ v. w.last_use_time ≤ v.last_use_time) ws
    → i < length ws
    → w.last_use_time ≤ time_at ws i
time_at-All w [] i h lt = absurd (omega arith)
time_at-All w (v ∷ ws) zero (hv, h) lt = hv
time_at-All w (v ∷ ws) (suc i) (hv, h) lt = time_at-All w ws i h (omega arith)

time_at-le :
    (ws : List WorkerChan) (i j : ℕ)
    → Ordered ws
    → i ≤ j
    → j < length ws
    → time_at ws i ≤ time_at ws j
time_at-le [] i j o le lt = absurd (omega arith)
time_at-le (w ∷ ws) zero zero o le lt = omega arith
time_at-le (w ∷ ws) zero (suc j) (hw, o) le lt = time_at-All w ws j hw (omega arith)
time_at-le (w ∷ ws) (suc i) zero o le lt = absurd (omega arith)
time_at-le (w ∷ ws) (suc i) (suc j) (hw, o) le lt = time_at-le ws i j o (omega arith) (omega arith)

-- The worker is idle for longer than the duration.
abbrev pub IsExpired : ℕ → ℕ → WorkerChan → Type 0
IsExpired now max_idle w = max_idle < now - w.last_use_time

take-IsExpired :
    (now max_idle : ℕ) (ws : List WorkerChan) (i k : ℕ)
    → Ordered ws
    → i < length ws
    → k ≤ i
    → max_idle < now - time_at ws i
    → All (IsExpired now max_idle) (take k ws)
take-IsExpired now max_idle ws i zero o lt le e = tt
take-IsExpired now max_idle [] i (suc k) o lt le e = tt
take-IsExpired now max_idle (w ∷ ws) zero (suc k) o lt le e = absurd (omega arith)
take-IsExpired now max_idle (w ∷ ws) (suc i) (suc k) (hw, o) lt le e =
    let first = time_at-All w ws i hw (omega arith) in
    (omega (arith, first, e), take-IsExpired now max_idle ws i k o (omega arith) (omega arith) e)

-- The numbers that the threshold gives, for times in order.
module _ (now t1 t2 t3 t4 n max idle : ℕ) (le23 : t2 ≤ t3) (le34 : t3 ≤ t4) where
  default-half : default_clean_threshold now t1 t2 t3 t4 n max idle ≤ n / 2
  unfolding default_clean_threshold
  default-half = ground arith

  default-quarter : 0 < default_clean_threshold now t1 t2 t3 t4 n max idle → idle < now - t2
  unfolding default_clean_threshold
  default-quarter h = ground arith

  default-above : n / 4 < default_clean_threshold now t1 t2 t3 t4 n max idle → idle < now - t3
  unfolding default_clean_threshold
  default-above h = ground arith

  -- For times in order the second test of each branch changes nothing: where the worker that is
  -- idle for a shorter time has expired, so has the one that is tested first, and no more than a
  -- quarter of the workers goes in the first two branches.
  pub default_clean_threshold-first : default_clean_threshold now t1 t2 t3 t4 n max idle ≡ (
      if leb n (max / 4)
      then (if ltb idle (now - t3) then n / 4 else 0)
      else if leb n (max / 2)
      then (if ltb idle (now - t2) then n / 4 else 0)
      else if leb n max && ltb idle (now - t3)
      then n / 2
      else 0)
  unfolding default_clean_threshold
  default_clean_threshold-first = ground arith

-- The same for the pool's workers.
module _ (now : ℕ) (wp : WorkerPool) (o : Ordered wp.ready) where
  quarter-le-half :
      0 < length wp.ready
      → time_at wp.ready (length wp.ready / 4) ≤ time_at wp.ready (length wp.ready / 2)
  quarter-le-half h =
      time_at-le wp.ready (length wp.ready / 4) (length wp.ready / 2) o (omega arith) (omega arith)

  half-le-late :
      0 < length wp.ready
      → time_at wp.ready (length wp.ready / 2) ≤ time_at wp.ready (length wp.ready * 3 / 4)
  half-le-late h =
      time_at-le wp.ready (length wp.ready / 2) (length wp.ready * 3 / 4) o (omega arith)
        (omega arith)

  num : ℕ
  num = clean_num (default_clean_threshold now) wp

  num-half : num ≤ length wp.ready / 2
  unfolding num clean_num
  num-half = elim (dec_lt 0 (length wp.ready)) [
    | yes h ↦
        let half =
          default-half now (time_at wp.ready (length wp.ready / 8))
            (time_at wp.ready (length wp.ready / 4)) (time_at wp.ready (length wp.ready / 2))
            (time_at wp.ready (length wp.ready * 3 / 4)) (length wp.ready) wp.max_workers_count
            wp.max_idle_worker_duration (quarter-le-half h) (half-le-late h) in
        ground (arith, half)
    | no h ↦ ground arith
  ]

  num-quarter : 0 < num → wp.max_idle_worker_duration < now - time_at wp.ready (length wp.ready / 4)
  unfolding num clean_num
  num-quarter pos = elim (dec_lt 0 (length wp.ready)) [
    | yes h ↦
        let some_time =
          default-quarter now (time_at wp.ready (length wp.ready / 8))
            (time_at wp.ready (length wp.ready / 4)) (time_at wp.ready (length wp.ready / 2))
            (time_at wp.ready (length wp.ready * 3 / 4)) (length wp.ready) wp.max_workers_count
            wp.max_idle_worker_duration (quarter-le-half h) (half-le-late h) in
        ground (arith, some_time)
    | no h ↦ ground arith
  ]

  num-above :
      length wp.ready / 4 < num
      → wp.max_idle_worker_duration < now - time_at wp.ready (length wp.ready / 2)
  unfolding num clean_num
  num-above pos = elim (dec_lt 0 (length wp.ready)) [
    | yes h ↦
        let some_time =
          default-above now (time_at wp.ready (length wp.ready / 8))
            (time_at wp.ready (length wp.ready / 4)) (time_at wp.ready (length wp.ready / 2))
            (time_at wp.ready (length wp.ready * 3 / 4)) (length wp.ready) wp.max_workers_count
            wp.max_idle_worker_duration (quarter-le-half h) (half-le-late h) in
        ground (arith, some_time)
    | no h ↦ ground arith
  ]

  taken-IsExpired : All (IsExpired now wp.max_idle_worker_duration) (take num wp.ready)
  taken-IsExpired = elim (dec_lt 0 num) [
    | no none_taken ↦ let nothing : num ≡ 0 = omega arith in rw nothing tt
    | yes pos ↦ elim (dec_lt (length wp.ready / 4) num) [
      | yes above ↦
          take-IsExpired now wp.max_idle_worker_duration wp.ready (length wp.ready / 2) num o
            (omega (arith, num-half)) num-half (num-above above)
      | no few ↦
          take-IsExpired now wp.max_idle_worker_duration wp.ready (length wp.ready / 4) num o
            (omega (arith, num-half)) (omega arith) (num-quarter pos)
    ]
  ]

-- With the default threshold `clean` does not panic. When the workers stand in the order in which
-- they became idle, it keeps at least half of them, and each one that it stops was idle for longer
-- than the duration.
pub clean_lem :
    (now : ℕ) (wp : WorkerPool)
    → Ordered wp.ready
    → (wp' : WorkerPool) × (stopped : List WorkerChan) × (clean (default_clean_threshold now) wp
        ≡ some (wp', stopped))
      × (length stopped ≤ length wp.ready / 2)
      × All (IsExpired now wp.max_idle_worker_duration) stopped
clean_lem now wp o =
    let half = num-half now wp o in
    (
      record wp { ready = drop (num now wp o) wp.ready },
      take (num now wp o) wp.ready,
      unfold clean num in ground (arith, half),
      omega (arith, half, length-take (num now wp o) wp.ready),
      taken-IsExpired now wp o,
    )
