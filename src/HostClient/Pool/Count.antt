-- ===== src/HostClient/Pool/Count.antt =====
-- The number of connections of a `HostClient`, over its operations in any order.
use fasthttp.Base.{
  ℕ, zero, suc, ◌+◌, Bool, true, false, not, ◌&&◌, ltb, if◌then◌else◌, Option, none, some, ◌≡◌,
  refl, arith, length,
}
use fasthttp.HostClient.Queue.{pop_front, drop_failed}
use fasthttp.HostClient.Pool.{
  HostClient, Acquired, idle, create, no_free_conns, must_wait, put, try_deliver, acquire_conn,
  queue_for_idle, release_loop, rounds, release_conn, dec_conns_count, cancelled, cancel,
  fail_waiter, dialed_for, close_idle, set_max_conns,
}
use fasthttp.HostClient.Clean.{clean}

-- What an operation on the queue and the waiters leaves as it is.
pub record Kept (h h' : HostClient) : Type 0 where
  pub conns : h'.conns ≡ h.conns
  count : h'.conns_count ≡ h.conns_count
  limit : h'.max_conns ≡ h.max_conns

pub release_loop-Kept : (fuel : ℕ) (h : HostClient) (c : ℕ) → Kept h (release_loop fuel h c).0
unfolding release_loop
release_loop-Kept zero h c = record { conns = refl; count = refl; limit = refl }
release_loop-Kept (suc fuel) h c =
    let skipped = record h { conns_wait = drop_failed (pop_front h.conns_wait).1 } in
    let rest = release_loop-Kept fuel skipped c in
    record {
      conns = ground (arith, rest.conns);
      count = ground (arith, rest.count);
      limit = ground (arith, rest.limit);
    }

-- The connections that an operation hands on to somebody who uses them.
abbrev pub acquired : Acquired → ℕ
acquired (idle c) = 1
acquired create = 1
acquired no_free_conns = 0
acquired must_wait = 0

abbrev pub if_some : Option ℕ → ℕ
if_some none = 0
if_some (some w) = 1

-- To a waiter, by `releaseConn`.
abbrev pub handed : HostClient → ℕ → ℕ
handed h c = if h.may_wait && (release_loop (rounds h.conns_wait) h c).1 then 1 else 0

abbrev pub dialed_handed : HostClient → ℕ → ℕ → ℕ
dialed_handed h w c = if (try_deliver (h.waiters w) (some c)).1 then 1 else handed h c

-- The client, and the connections that are being dialled, are used by a request, are on their way
-- to a waiter, or are being closed.
pub record State : Type 0 where
  pub client : HostClient
  pub in_use : ℕ

-- `m <= limit`, where `none` is no limit.
abbrev pub at_most : Option ℕ → Option ℕ → Bool
at_most m none = true
at_most none (some limit) = false
at_most (some m) (some limit) = not (ltb limit m)

-- One hold of `connsLock` or of a waiter's lock each; where a connection that was not delivered goes
-- on to `releaseConn`, nobody else has it in between, and the two holds are one step. SetMaxConns sets
-- no more than `limit`. The connections that Clean and CloseIdleConnections take away are closed later,
-- each by a step of its own.
pub data Step (limit : Option ℕ) : State → State → Type 0 where
  acquire :
      (h : HostClient) (n : ℕ)
      → Step limit
          (record { client = h; in_use = n })
          (record { client = (acquire_conn h).0; in_use = acquired (acquire_conn h).1 + n })
  enqueue :
      (h : HostClient) (n w : ℕ)
      → Step limit
          (record { client = h; in_use = n })
          (record { client = queue_for_idle h w; in_use = n })
  release :
      (h : HostClient) (n c : ℕ)
      → Step limit
          (record { client = h; in_use = suc n })
          (record { client = release_conn h c; in_use = handed h c + n })
  close :
      (h : HostClient) (n : ℕ)
      → Step limit
          (record { client = h; in_use = suc n })
          (record { client = (dec_conns_count h).0; in_use = if_some (dec_conns_count h).1 + n })
  fail :
      (h : HostClient) (n : ℕ)
      → Step limit (record { client = h; in_use = n }) (record { client = fail_waiter h; in_use = n })
  cancel_waiting :
      (h : HostClient) (n w : ℕ)
      → (h.waiters w).conn ≡ none
      → Step limit (record { client = h; in_use = n }) (record { client = cancel h w; in_use = n })
  cancel_delivered :
      (h : HostClient) (n w c : ℕ)
      → (h.waiters w).conn ≡ some c
      → Step limit
          (record { client = h; in_use = suc n })
          (record {
            client = cancel h w;
            in_use = handed (put h w (cancelled (h.waiters w)).0) c + n;
          })
  dial_error :
      (h : HostClient) (n w : ℕ)
      → Step limit
          (record { client = h; in_use = n })
          (record { client = dialed_for h w none; in_use = n })
  dialed :
      (h : HostClient) (n w c : ℕ)
      → Step limit
          (record { client = h; in_use = suc n })
          (record { client = dialed_for h w (some c); in_use = dialed_handed h w c + n })
  close_all :
      (h : HostClient) (n : ℕ)
      → Step limit
          (record { client = h; in_use = n })
          (record { client = (close_idle h).0; in_use = length (close_idle h).1 + n })
  set_limit :
      (h : HostClient) (n : ℕ) (m : Option ℕ)
      → at_most m limit ≡ true
      → Step limit
          (record { client = h; in_use = n })
          (record { client = set_max_conns h m; in_use = n })
  clean_idle :
      (used : ℕ → ℕ) (max_idle now later : ℕ) (h : HostClient) (n : ℕ)
      → Step limit
          (record { client = h; in_use = n })
          (record {
            client = (clean used max_idle now later h).0;
            in_use = length (clean used max_idle now later h).1 + n;
          })

pub data Reach (limit : Option ℕ) (s : State) : State → Type 0 where
  here : Reach limit s s
  next : {t u : State} → Reach limit s t → Step limit t u → Reach limit s u

abbrev pub within : ℕ → Option ℕ → Bool
within n none = true
within n (some m) = not (ltb m n)

-- Every connection that the client counts is idle or in use, and neither their number nor `maxConns`
-- passes the limit.
pub record IsBalanced (limit : Option ℕ) (s : State) : Type 0 where
  pub count : s.client.conns_count ≡ length s.client.conns + s.in_use
  pub few : within s.client.conns_count limit ≡ true
  pub limited : at_most s.client.max_conns limit ≡ true
