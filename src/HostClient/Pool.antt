-- ===== src/HostClient/Pool.antt =====
-- `HostClient` (client.go): `acquireConn`, `releaseConn`, `decConnsCount` and the life of a
-- `wantConn`. A function is what happens under one hold of `connsLock`, or of a waiter's own lock.
--
-- A connection and a waiter are numbers; `waiters` is the memory that holds the `wantConn`s. The
-- queue of a client that made none yet is empty. Dialling is the environment's.
pub mod Count
pub mod Wake
use fasthttp.Base.{
  ℕ, zero, suc, ◌+◌, ◌-◌, ◌%◌, ◌^◌, Bool, true, false, not, ◌&&◌, ◌||◌, ltb, ◌==◌, if◌then◌else◌,
  List, [], ◌∷◌, ◌++◌, Option, none, some, ◌≡◌, length, u64, int64_lt,
}
use fasthttp.HostClient.Queue.{WantConnQueue, len, push_back, pop_front, drop_failed, clear_front}

-- `err` says whether an error is set, `closed` whether `ready` is closed.
pub record WantConn : Type 0 where
  pub conn : Option ℕ
  pub err : Bool
  pub closed : Bool

abbrev pub new_waiter : WantConn
new_waiter = record { conn = none; err = false; closed = false }

pub data Strategy : Type 0 where
  lifo fifo : Strategy

-- `max_conns` is `none` for a negative number, and `may_wait` is `waitFreeConnTimeout != 0`.
pub record HostClient : Type 0 where
  pub conns : List ℕ
  pub conns_count : ℕ
  pub max_conns : Option ℕ
  pub strategy : Strategy
  pub may_wait : Bool
  pub waiters : ℕ → WantConn
  pub conns_wait : WantConnQueue ℕ

abbrev is_nil : Option ℕ → Bool
is_nil none = true
is_nil (some c) = false

abbrev pub waiting : HostClient → ℕ → Bool
waiting h w = not (h.waiters w).closed

-- `tryDeliver` of a connection, or of an error where there is none.
unfoldable pub try_deliver : WantConn → Option ℕ → WantConn × Bool
try_deliver w conn =
    if not (is_nil w.conn) || w.err
    then (w, false)
    else (record { conn = conn; err = is_nil conn; closed = true }, true)

abbrev pub put : HostClient → ℕ → WantConn → HostClient
put h i w = record h { waiters = λ j. if j == i then w else h.waiters j }

-- `SetMaxConns`
unfoldable pub set_max_conns : HostClient → Option ℕ → HostClient
set_max_conns h new_max_conns = record h { max_conns = new_max_conns }

-- What `acquireConn` finds under the lock.
pub data Acquired : Type 0 where
  idle : ℕ → Acquired
  create : Acquired
  no_free_conns : Acquired
  must_wait : Acquired

pub last_conn : ℕ → List ℕ → List ℕ × ℕ
last_conn c [] = ([], c)
last_conn c (d ∷ cs) = (c ∷ (last_conn d cs).0, (last_conn d cs).1)

-- `c.connsCount < maxConns || maxConns < 0`
pub may_create : ℕ → Option ℕ → Bool
may_create n none = true
may_create n (some m) = ltb n m

pub acquire_from : HostClient → List ℕ → Strategy → HostClient × Acquired
unfolding last_conn may_create
acquire_from h [] _ =
    if may_create h.conns_count h.max_conns
    then (record h { conns_count = h.conns_count + 1 }, create)
    else (h, if h.may_wait then must_wait else no_free_conns)
acquire_from h (c ∷ cs) lifo = (record h { conns = (last_conn c cs).0 }, idle (last_conn c cs).1)
acquire_from h (c ∷ cs) fifo = (record h { conns = cs }, idle c)

unfoldable pub acquire_conn : HostClient → HostClient × Acquired
unfolding acquire_from
acquire_conn h = acquire_from h h.conns h.strategy

-- `queueForIdle`
unfoldable pub queue_for_idle : HostClient → ℕ → HostClient
queue_for_idle h w = record h { conns_wait = push_back (clear_front (waiting h) h.conns_wait).0 w }

-- `q.len() > 0`
unfoldable pub has_waiters : WantConnQueue ℕ → Bool
has_waiters q = int64_lt 0 (len q)

-- The loop of `releaseConn`, with whether the connection was delivered. The fuel bounds the
-- waiters that are popped; a nil waiter, which would panic, ends it.
pub release_loop : ℕ → HostClient → ℕ → HostClient × Bool
unfolding try_deliver
release_loop zero h c = (h, false)
release_loop (suc fuel) h c = elim (has_waiters h.conns_wait) [
  | false ↦ (h, false)
  | true ↦ elim (pop_front h.conns_wait).0 [
    | none ↦ (h, false)
    | some w ↦
        let popped = record h { conns_wait = (pop_front h.conns_wait).1 } in
        let skipped = record h { conns_wait = drop_failed (pop_front h.conns_wait).1 } in
        elim (waiting h w && (try_deliver (h.waiters w) (some c)).1) [
          | true ↦ (put popped w (try_deliver (h.waiters w) (some c)).0, true)
          | false ↦ release_loop fuel skipped c
        ]
  ]
]

abbrev rounds : WantConnQueue ℕ → ℕ
rounds q = length q.head + length q.tail

unfoldable pub release_conn : HostClient → ℕ → HostClient
unfolding release_loop
release_conn h c =
    let (h', delivered) = release_loop (rounds h.conns_wait) h c in
    if not h.may_wait
    then record h { conns = h.conns ++ c ∷ [] }
    else if delivered
    then h'
    else record h' { conns = h'.conns ++ c ∷ [] }

-- The loop of `decConnsCount`, with the waiter for whom a connection is dialled.
pub dial_loop : ℕ → HostClient → HostClient × Option ℕ
dial_loop zero h = (h, none)
dial_loop (suc fuel) h = elim (has_waiters h.conns_wait) [
  | false ↦ (h, none)
  | true ↦ elim (pop_front h.conns_wait).0 [
    | none ↦ (h, none)
    | some w ↦ elim (waiting h w) [
      | true ↦ (record h { conns_wait = (pop_front h.conns_wait).1 }, some w)
      | false ↦ dial_loop fuel (record h { conns_wait = drop_failed (pop_front h.conns_wait).1 })
    ]
  ]
]

pub counted_down : HostClient × Option ℕ → HostClient × Option ℕ
counted_down (h, some w) = (h, some w)
counted_down (h, none) = (record h { conns_count = h.conns_count - 1 }, none)

unfoldable pub dec_conns_count : HostClient → HostClient × Option ℕ
unfolding dial_loop counted_down
dec_conns_count h =
    if not h.may_wait
    then (record h { conns_count = h.conns_count - 1 }, none)
    else counted_down (dial_loop (rounds h.conns_wait) h)

-- The state and the connection to release of `cancel`, under the waiter's lock.
pub cancelled : WantConn → WantConn × Option ℕ
cancelled w = (record { conn = none; err = true; closed = true }, w.conn)

pub release_opt : HostClient → Option ℕ → HostClient
unfolding release_conn
release_opt h none = h
release_opt h (some c) = release_conn h c

-- `cancel`: the waiter's lock, and then, with what had been delivered, `releaseConn`.
unfoldable pub cancel : HostClient → ℕ → HostClient
unfolding cancelled release_opt
cancel h w = let (w', conn) = cancelled (h.waiters w) in release_opt (put h w w') conn

-- A waiter whose timer fires: `failedWaiters.Add(1)`, and then the `cancel` that is deferred.
unfoldable pub fail_waiter : HostClient → HostClient
fail_waiter h = record h {
  conns_wait = record (h.conns_wait) { failed_waiters = u64 (h.conns_wait.failed_waiters + 1) };
}

unfoldable pub time_out : HostClient → ℕ → HostClient
unfolding fail_waiter cancel
time_out h w = cancel (fail_waiter h) w

-- What `dialConnFor` does once the dial for `w` has ended, with a connection or an error, up to
-- the `decConnsCount` after an error.
unfoldable pub dialed_for : HostClient → ℕ → Option ℕ → HostClient
unfolding try_deliver release_conn
dialed_for h w none = put h w (try_deliver (h.waiters w) none).0
dialed_for h w (some c) =
    let (w', delivered) = try_deliver (h.waiters w) (some c) in
    if delivered then put h w w' else release_conn h c

-- `CloseIdleConnections`, up to the calls of `closeConn` for the connections that it returns.
unfoldable pub close_idle : HostClient → HostClient × List ℕ
close_idle h = (record h { conns = [] }, h.conns)
