-- ===== src/Examples/Workers.antt =====
-- Workers.
use fasthttp.Base.{
  ℕ, ◌≤◌, List, [], ◌∷◌, some, ◌≡◌, refl, arith, true, false, if◌then◌else◌, length, All,
}
use fasthttp.WorkerPool.{WorkerChan, WorkerPool, default_clean_threshold, clean, release}
use fasthttp.WorkerPool.Clean.{Ordered, IsExpired, clean_lem}
use fasthttp.WorkerPool.Once.{State, here, next, finish, IsPlaced, Reach-IsPlaced}

abbrev worker : ℕ → ℕ → WorkerChan
worker c t = record { ch = c; last_use_time = t }

-- Four idle workers, of which the first two have expired at time 30.
abbrev pool : WorkerPool
pool = record {
  max_workers_count = 16;
  max_idle_worker_duration = 10;
  must_stop = false;
  started = true;
  workers_count = 5;
  ready = worker 1 4 ∷ worker 2 5 ∷ worker 3 6 ∷ worker 4 25 ∷ [];
}

pool-Ordered : Ordered pool.ready
pool-Ordered = (
  (omega arith, (omega arith, (omega arith, tt))),
  ((omega arith, (omega arith, tt)), ((omega arith, tt), (tt, tt))),
)

clean_lem_example :
    (wp' : WorkerPool) × (stopped : List WorkerChan) × (clean (default_clean_threshold 30) pool
      ≡ some (wp', stopped))
    × (length stopped ≤ 2)
    × All (IsExpired 30 10) stopped
clean_lem_example = clean_lem 30 pool pool-Ordered

abbrev serving : State
serving = record { pool = pool; working = 7 ∷ []; stopping = [] }

serving-IsPlaced : IsPlaced serving
serving-IsPlaced = record { count = refl; few = omega arith; once = λ x. ground arith }

Reach-IsPlaced_example : IsPlaced (record {
  pool = (release pool 30 7).0;
  working = [];
  stopping = if (release pool 30 7).1 then [] else 7 ∷ [];
})
Reach-IsPlaced_example =
    Reach-IsPlaced {threshold = default_clean_threshold 30} serving-IsPlaced
      (next here (finish pool [] [] [] 7 30))
