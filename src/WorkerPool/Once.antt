-- ===== src/WorkerPool/Once.antt =====
-- Each channel is in one place at a time, over the operations of the pool in any order.
use mathlib.Core.Path.{subst}
use fasthttp.Base.{
  ℕ, ◌+◌, ◌≤◌, ltb, ◌==◌, if◌then◌else◌, List, [], ◌∷◌, ◌++◌, Option, none, some, ◌≡◌, sym, ap, ◌∙◌,
  arith, length, length-append, take, drop, Bool-cases, inl, inr,
}
use fasthttp.WorkerPool.{
  WorkerChan, WorkerPool, reuse, create_worker, get_ch, release, exit, CleanThresholdFunc,
  clean_num, clean, start, stop,
}
use fasthttp.WorkerPool.Channels.{
  occ, occ_ready, chans, occ-append, occ-chans, length-chans, occ_ready-append, take-drop,
  occ_ready-take-drop, chan_of, reused, created, get_ch-Got,
}

-- `working` are the workers that have a connection, and `stopping` those that were sent nil or that
-- `release` told to end, up to their `exit`.
pub record State : Type 0 where
  pub pool : WorkerPool
  pub working : List ℕ
  pub stopping : List ℕ

abbrev pub uses : ℕ → State → ℕ
uses x s = occ_ready x s.pool.ready + (occ x s.working + occ x s.stopping)

pub data Step (threshold : CleanThresholdFunc) : State → State → Type 0 where
  serve_reused :
      (s : State) (w : WorkerChan)
      → (get_ch s.pool).1 ≡ reuse w
      → Step threshold s (record s { pool = (get_ch s.pool).0; working = w.ch ∷ s.working })
  serve_created :
      (s : State) (ch : ℕ)
      → (get_ch s.pool).1 ≡ create_worker
      → uses ch s ≡ 0
      → Step threshold s (record s { pool = (get_ch s.pool).0; working = ch ∷ s.working })
  finish :
      (p : WorkerPool) (before after stopping : List ℕ) (ch now : ℕ)
      → Step threshold
          (record { pool = p; working = before ++ ch ∷ after; stopping = stopping })
          (record {
            pool = (release p now ch).0;
            working = before ++ after;
            stopping = if (release p now ch).1 then stopping else ch ∷ stopping;
          })
  end_worker :
      (p : WorkerPool) (working before after : List ℕ) (ch : ℕ)
      → Step threshold
          (record { pool = p; working = working; stopping = before ++ ch ∷ after })
          (record { pool = exit p; working = working; stopping = before ++ after })
  clean_idle :
      (s : State) (p : WorkerPool) (stopped : List WorkerChan)
      → clean threshold s.pool ≡ some (p, stopped)
      → Step threshold s (record s { pool = p; stopping = chans stopped ++ s.stopping })
  start_pool : (s : State) → Step threshold s (record s { pool = start s.pool })
  stop_pool :
      (s : State)
      → Step threshold s
          (record s { pool = (stop s.pool).0; stopping = chans (stop s.pool).1 ++ s.stopping })

pub data Reach (threshold : CleanThresholdFunc) (s : State) : State → Type 0 where
  here : Reach threshold s s
  next : {t u : State} → Reach threshold s t → Step threshold t u → Reach threshold s u

pub record IsPlaced (s : State) : Type 0 where
  pub count : s.pool.workers_count ≡ length s.pool.ready + (length s.working + length s.stopping)
  pub few : s.pool.workers_count ≤ s.pool.max_workers_count
  pub once : (x : ℕ) → uses x s ≤ 1

abbrev cleaned : WorkerPool → ℕ → WorkerPool × List WorkerChan
cleaned p n = (record p { ready = drop n p.ready }, take n p.ready)

abbrev or_same : WorkerPool → Option (WorkerPool × List WorkerChan) → WorkerPool × List WorkerChan
or_same p none = (p, [])
or_same p (some r) = r

clean-cleaned :
    (threshold : CleanThresholdFunc) (p : WorkerPool) (r : WorkerPool × List WorkerChan)
    → clean threshold p ≡ some r
    → r ≡ cleaned p (clean_num threshold p)
unfolding clean
clean-cleaned threshold p r e = elim (Bool-cases (ltb (length p.ready) (clean_num threshold p))) [
  | inl over ↦ ground (arith, e, over)
  | inr fits ↦ sym (ap (or_same p) (simp fits at e))
]

clean-IsPlaced :
    (threshold : CleanThresholdFunc) (s : State) (p : WorkerPool) (stopped : List WorkerChan)
    → clean threshold s.pool ≡ some (p, stopped)
    → IsPlaced s
    → IsPlaced (record s { pool = p; stopping = chans stopped ++ s.stopping })
clean-IsPlaced threshold s p stopped e i =
    let n = clean_num threshold s.pool in
    let l1 = length-append (chans (take n s.pool.ready)) s.stopping in
    let l2 = length-chans (take n s.pool.ready) in
    let base : IsPlaced (record s {
      pool = (cleaned s.pool n).0;
      stopping = chans (cleaned s.pool n).1 ++ s.stopping;
    }) =
      record {
        count = omega (arith, i.count, l1, l2, take-drop n s.pool.ready);
        few = i.few;
        once = λ x. ground (
          arith,
          i.once x,
          occ-append x (chans (take n s.pool.ready)) s.stopping,
          occ-chans x (take n s.pool.ready),
          occ_ready-take-drop x n s.pool.ready,
        );
      } in
    subst (λ r. IsPlaced (record s { pool = r.0; stopping = chans r.1 ++ s.stopping }))
      (sym (clean-cleaned threshold s.pool (p, stopped) e)) base

release-IsPlaced :
    (p : WorkerPool) (before after stopping : List ℕ) (ch now : ℕ)
    → IsPlaced (record { pool = p; working = before ++ ch ∷ after; stopping = stopping })
    → IsPlaced (record {
      pool = (release p now ch).0;
      working = before ++ after;
      stopping = if (release p now ch).1 then stopping else ch ∷ stopping;
    })
unfolding release
release-IsPlaced p before after stopping ch now i =
    let l1 = length-append before (ch ∷ after) in
    let l2 = length-append before after in
    let l3 = length-append p.ready (record { ch = ch; last_use_time = now } ∷ []) in
    record {
      count = ground (arith, i.count, l1, l2, l3);
      few = ground (arith, i.few);
      once = λ x. ground (
        arith,
        i.once x,
        occ-append x before (ch ∷ after),
        occ-append x before after,
        occ_ready-append x p.ready (record { ch = ch; last_use_time = now } ∷ []),
      );
    }

stop-IsPlaced :
    (s : State)
    → IsPlaced s
    → IsPlaced (record s { pool = (stop s.pool).0; stopping = chans (stop s.pool).1 ++ s.stopping })
unfolding stop
stop-IsPlaced s i =
    let l1 = length-append (chans s.pool.ready) s.stopping in
    let l2 = length-chans s.pool.ready in
    record {
      count = ground (arith, i.count, l1, l2);
      few = ground (arith, i.few);
      once = λ x.
          ground (
            arith,
            i.once x,
            occ-append x (chans s.pool.ready) s.stopping,
            occ-chans x s.pool.ready,
          );
    }

Step-IsPlaced :
    {threshold : CleanThresholdFunc} {s t : State} → Step threshold s t → IsPlaced s → IsPlaced t
unfolding exit start
Step-IsPlaced (serve_reused s w e) i =
    let got = get_ch-Got s.pool in
    let c = ap created e in
    let r = ap reused e in
    let ch = ap chan_of e in
    record {
      count = ground (arith, got.count, got.ready, i.count, c, r);
      few = got.few i.few;
      once = λ x. ground (arith, got.places x, i.once x, r, ch);
    }
Step-IsPlaced (serve_created s ch e fresh) i =
    let got = get_ch-Got s.pool in
    let c = ap created e in
    let r = ap reused e in
    record {
      count = ground (arith, got.count, got.ready, i.count, c, r);
      few = got.few i.few;
      once = λ x. elim (Bool-cases (x == ch)) [
        | inl same ↦
            let eq : x ≡ ch = ground arith in
            let unused = ap (λ y. uses y s) eq ∙ fresh in
            ground (arith, got.places x, unused, r, same)
        | inr other ↦ ground (arith, got.places x, i.once x, r, other)
      ];
    }
Step-IsPlaced (finish p before after stopping ch now) i =
    release-IsPlaced p before after stopping ch now i
Step-IsPlaced (end_worker p working before after ch) i =
    let l1 = length-append before (ch ∷ after) in
    let l2 = length-append before after in
    record {
      count = ground (arith, i.count, l1, l2);
      few = ground (arith, i.few);
      once = λ x.
          ground (arith, i.once x, occ-append x before (ch ∷ after), occ-append x before after);
    }
Step-IsPlaced {threshold = threshold} (clean_idle s p stopped e) i =
    clean-IsPlaced threshold s p stopped e i
Step-IsPlaced (start_pool s) i = record { count = i.count; few = i.few; once = i.once }
Step-IsPlaced (stop_pool s) i = stop-IsPlaced s i

-- In any order of the operations, `workersCount` is the number of the workers that are idle, have
-- a connection or are ending, and at most `MaxWorkersCount`; and no channel is in two places, if a
-- new worker gets a channel that nobody uses.
pub Reach-IsPlaced :
    {threshold : CleanThresholdFunc} {s t : State} → IsPlaced s → Reach threshold s t → IsPlaced t
Reach-IsPlaced i here = i
Reach-IsPlaced i (next r st) = Step-IsPlaced st (Reach-IsPlaced i r)
