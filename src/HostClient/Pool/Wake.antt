-- ===== src/HostClient/Pool/Wake.antt =====
-- Which waiter `releaseConn` wakes.
use mathlib.Core.List.{cons-ne-nil}
use fasthttp.Base.{
  ℕ, zero, suc, ◌≤◌, ◌<◌, Bool, true, false, ◌&&◌, ltb, if◌then◌else◌, List, [], ◌∷◌, none, some,
  ◌≡◌, refl, sym, ap, ◌∙◌, arith, length, drop, get_or, Bool-cases, inl, inr, int64_limit,
  length-append, length-drop,
}
use fasthttp.HostClient.Queue.{WantConnQueue, len, pop_front, drop_failed}
use fasthttp.HostClient.Queue.Refines.{
  Holds, from_waiting, pop_front-Holds, pop_front-failed, drop_failed-Holds, enough, length-map,
}
use fasthttp.HostClient.Pool.Count.{release_loop-Kept}
use fasthttp.HostClient.Pool.{
  HostClient, WantConn, new_waiter, put, waiting, try_deliver, has_waiters, release_loop, rounds,
  release_conn, dec_conns_count, time_out,
}

-- How many of the waiters no longer wait.
abbrev pub gone : (ℕ → Bool) → List ℕ → ℕ
gone waiting [] = 0
gone waiting (w ∷ ws) = if waiting w then gone waiting ws else suc (gone waiting ws)

gone-le : (p : ℕ → Bool) (ws : List ℕ) → gone p ws ≤ length ws
gone-le p [] = omega arith
gone-le p (w ∷ ws) = ground (arith, gone-le p ws)

has_waiters-Holds :
    (q : WantConnQueue ℕ) (ws : List ℕ)
    → Holds q ws
    → length ws < int64_limit
    → q.failed_waiters < int64_limit
    → has_waiters q ≡ ltb q.failed_waiters (length ws)
unfolding has_waiters len
has_waiters-Holds q ws h lt f = ground (
  arith,
  ap length h.waiters,
  length-append (drop q.head_pos q.head) q.tail,
  length-drop q.head_pos q.head,
  length-map ws,
)

gone-from_waiting :
    (p : ℕ → Bool) (ws : List ℕ) (w : ℕ) (rest : List ℕ)
    → from_waiting p ws ≡ w ∷ rest
    → gone p ws < length ws
gone-from_waiting p [] w rest e = absurd (cons-ne-nil _ _ (sym e))
gone-from_waiting p (x ∷ ws) w rest e = ground (arith, gone-le p ws, gone-from_waiting p ws w rest)

-- The queue holds `ws`, and `failedWaiters` is the number of those that no longer wait.
pub record IsExact (h : HostClient) (ws : List ℕ) : Type 0 where
  pub holds : Holds h.conns_wait ws
  pub failed : h.conns_wait.failed_waiters ≡ gone (waiting h) ws
  pub fits : length ws < int64_limit

abbrev pub delivered : ℕ → WantConn
delivered c = record { conn = some c; err = false; closed = true }

abbrev skip : HostClient → HostClient
skip h = record h { conns_wait = drop_failed (pop_front h.conns_wait).1 }

skip-IsExact :
    (h : HostClient) (w : ℕ) (ws : List ℕ)
    → IsExact h (w ∷ ws)
    → waiting h w ≡ false
    → IsExact (skip h) ws
unfolding drop_failed
skip-IsExact h w ws i e = record {
  holds =
      drop_failed-Holds (pop_front h.conns_wait).1 ws (pop_front-Holds h.conns_wait w ws i.holds).1;
  failed =
      ground (arith, i.failed, i.fits, e, gone-le (waiting h) ws, pop_front-failed h.conns_wait);
  fits = ground (arith, i.fits);
}

-- What a round does with the first waiter.
loop_step :
    (fuel : ℕ) (h : HostClient) (c w : ℕ)
    → has_waiters h.conns_wait ≡ true
    → (pop_front h.conns_wait).0 ≡ some w
    → release_loop (suc fuel) h c ≡ (
        if waiting h w && (try_deliver (h.waiters w) (some c)).1
        then (
          put
              (record h { conns_wait = (pop_front h.conns_wait).1 })
              w
              (try_deliver (h.waiters w) (some c)).0,
          true,
        )
        else release_loop fuel (skip h) c)
unfolding release_loop
loop_step fuel h c w e p = ground (arith, e, p)

loop_at_new :
    (fuel : ℕ) (h : HostClient) (c w : ℕ)
    → has_waiters h.conns_wait ≡ true
    → (pop_front h.conns_wait).0 ≡ some w
    → h.waiters w ≡ new_waiter
    → ((release_loop (suc fuel) h c).0.waiters w ≡ delivered c)
      × ((release_loop (suc fuel) h c).1 ≡ true)
unfolding try_deliver
loop_at_new fuel h c w e p new =
    let ahead = loop_step fuel h c w e p in rw (ahead, new) (ground arith, refl)

loop-wakes :
    (fuel : ℕ) (h : HostClient) (c : ℕ) (ws : List ℕ) (w : ℕ) (rest : List ℕ)
    → length ws ≤ fuel
    → IsExact h ws
    → from_waiting (waiting h) ws ≡ w ∷ rest
    → h.waiters w ≡ new_waiter
    → ((release_loop fuel h c).0.waiters w ≡ delivered c) × ((release_loop fuel h c).1 ≡ true)
loop-wakes fuel h c [] w rest lt i e new = absurd (cons-ne-nil _ _ (sym e))
loop-wakes zero h c (x ∷ ws) w rest lt i e new = absurd (omega arith)
loop-wakes (suc fuel) h c (x ∷ ws) w rest lt i e new =
    let few = gone-from_waiting (waiting h) (x ∷ ws) w rest e in
    let some_left =
      has_waiters-Holds h.conns_wait (x ∷ ws) i.holds i.fits (ground (arith, i.failed, i.fits)) in
    let more : has_waiters h.conns_wait ≡ true = ground (arith, some_left, i.failed, few) in
    let popped = (pop_front-Holds h.conns_wait x ws i.holds).0 in
    elim (Bool-cases (waiting h x)) [
      | inl still ↦
          let same : x ≡ w = ap (λ l. get_or l 0 x) (simp still at e) in
          loop_at_new fuel h c w more (popped ∙ ap some same) new
      | inr over ↦
          let left : from_waiting (waiting h) ws ≡ w ∷ rest = ground (arith, e, over) in
          let ih =
            loop-wakes fuel (skip h) c ws w rest (omega arith) (skip-IsExact h x ws i over) left
              new in
          rw (loop_step fuel h c x more popped, over) ih
    ]

-- When `failedWaiters` is the number of the waiters in the queue that no longer wait, a released
-- connection is given to the first waiter that still waits, provided that nothing was delivered to
-- it yet, and does not become idle.
pub release_conn-wakes :
    (h : HostClient) (c : ℕ) (ws : List ℕ) (w : ℕ) (rest : List ℕ)
    → h.may_wait ≡ true
    → IsExact h ws
    → from_waiting (waiting h) ws ≡ w ∷ rest
    → h.waiters w ≡ new_waiter
    → ((release_conn h c).waiters w ≡ delivered c) × ((release_conn h c).conns ≡ h.conns)
unfolding release_conn
release_conn-wakes h c ws w rest may i e new =
    let fuel = rounds h.conns_wait in
    let (woken, given) = loop-wakes fuel h c ws w rest (enough h.conns_wait ws i.holds) i e new in
    simp (may, given) (woken, (release_loop-Kept fuel h c).conns)

-- The client after decConnsCount has taken `x` from the queue, to dial for it, and `x` has timed out
-- and cancelled before the dial ends.
abbrev pub timed_out : HostClient → ℕ → HostClient
timed_out h x = time_out (dec_conns_count h).0 x

abbrev given_up : WantConn
given_up = record { conn = none; err = true; closed = true }
