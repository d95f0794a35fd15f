-- ===== src/WorkerPool.antt =====
-- workerpool.go: `workerPool`, the goroutines that serve connections. A function is what happens
-- under one hold of `lock`.
--
-- A channel is a number; a time is the nanoseconds since some start. What is sent on channels, the
-- goroutines and the pool of channels that nobody uses are the environment's.
pub mod Channels
pub mod Once
pub mod Clean
use fasthttp.Base.{
  ℕ, zero, suc, ◌+◌, ◌-◌, ◌*◌, ◌/◌, ◌^◌, Bool, true, false, ltb, leb, if◌then◌else◌, List, [], ◌∷◌,
  ◌++◌, Option, none, some, length, get_or, take, drop,
}

pub record WorkerChan : Type 0 where
  pub ch : ℕ
  pub last_use_time : ℕ

-- `started` is `stopCh != nil`.
pub record WorkerPool : Type 0 where
  pub max_workers_count : ℕ
  pub max_idle_worker_duration : ℕ
  pub must_stop : Bool
  pub started : Bool
  pub workers_count : ℕ
  pub ready : List WorkerChan

-- What `getCh` finds under the lock.
pub data GetCh : Type 0 where
  reuse : WorkerChan → GetCh
  create_worker : GetCh
  no_worker : GetCh

-- `ready[:n]` and `ready[n]`
pub last_ready : WorkerChan → List WorkerChan → List WorkerChan × WorkerChan
last_ready w [] = ([], w)
last_ready w (v ∷ ws) = (w ∷ (last_ready v ws).0, (last_ready v ws).1)

pub get_ready : WorkerPool → List WorkerChan → WorkerPool × GetCh
unfolding last_ready
get_ready wp [] =
    if ltb wp.workers_count wp.max_workers_count
    then (record wp { workers_count = wp.workers_count + 1 }, create_worker)
    else (wp, no_worker)
get_ready wp (w ∷ ws) = (record wp { ready = (last_ready w ws).0 }, reuse (last_ready w ws).1)

unfoldable pub get_ch : WorkerPool → WorkerPool × GetCh
unfolding get_ready
get_ch wp = get_ready wp wp.ready

-- The result is whether the worker goes on.
unfoldable pub release : WorkerPool → ℕ → ℕ → WorkerPool × Bool
release wp now ch =
    if wp.must_stop
    then (wp, false)
    else (record wp { ready = wp.ready ++ record { ch = ch; last_use_time = now } ∷ [] }, true)

-- The end of `workerFunc`.
unfoldable pub exit : WorkerPool → WorkerPool
exit wp = record wp { workers_count = wp.workers_count - 1 }

-- `CleanThresholdFunc`: of the four times, the length of `ready`, the greatest number of workers and
-- the duration.
abbrev pub CleanThresholdFunc : Type 0
CleanThresholdFunc = ℕ → ℕ → ℕ → ℕ → ℕ → ℕ → ℕ → ℕ

abbrev time_at : List WorkerChan → ℕ → ℕ
time_at ws i = (get_or ws i (record { ch = 0; last_use_time = 0 })).last_use_time

-- `cleanNum`
unfoldable pub clean_num : CleanThresholdFunc → WorkerPool → ℕ
clean_num threshold wp =
    let n = length wp.ready in
    if ltb 0 n
    then threshold (time_at wp.ready (n / 2 ^ 3)) (time_at wp.ready (n / 2 ^ 2))
        (time_at wp.ready (n / 2 ^ 1)) (time_at wp.ready (n * 3 / 4)) n wp.max_workers_count
        wp.max_idle_worker_duration
    else 0

-- `clean`, with the workers that are then told to stop; `none` is the panic of a bound out of range.
unfoldable pub clean : CleanThresholdFunc → WorkerPool → Option (WorkerPool × List WorkerChan)
clean threshold wp =
    let num = clean_num threshold wp in
    if ltb (length wp.ready) num
    then none
    else some (record wp { ready = drop num wp.ready }, take num wp.ready)

-- `DefaultCleanThresholdFunc` at a time `now`. `2>>10` is written as it is; a difference of times
-- that is negative counts as 0, which is no more than the duration either.
unfoldable pub default_clean_threshold : ℕ → CleanThresholdFunc
default_clean_threshold now t1 t2 t3 t4 ready_len max_workers_count max_idle =
    if leb ready_len (2 / 2 ^ 10)
    then 0
    else if leb ready_len (max_workers_count / 2 ^ 2)
    then (if ltb max_idle (now - t3)
        then ready_len / 2 ^ 2
        else if ltb max_idle (now - t4)
        then ready_len / 2 ^ 1
        else 0)
    else if leb ready_len (max_workers_count / 2 ^ 1)
    then (if ltb max_idle (now - t2)
        then ready_len / 2 ^ 2
        else if ltb max_idle (now - t3)
        then ready_len / 2 ^ 1
        else 0)
    else if leb ready_len max_workers_count
    then (if ltb max_idle (now - t3) then ready_len / 2 ^ 1 else 0)
    else 0

-- `Start`, which sets `stopCh` alone under no lock.
unfoldable pub start : WorkerPool → WorkerPool
start wp = record wp { started = true }

-- `Stop`, with the workers that are told to stop.
unfoldable pub stop : WorkerPool → WorkerPool × List WorkerChan
stop wp =
    if wp.started
    then (record wp { started = false; ready = []; must_stop = true }, wp.ready)
    else (wp, [])
