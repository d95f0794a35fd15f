-- ===== src/Examples/Clients.antt =====
-- Waiters, connections and balanced clients.
use mathlib.Core.List.{cons-ne-nil}
use fasthttp.Base.{
  ℕ, List, [], ◌∷◌, some, none, ◌≡◌, refl, arith, Bool, true, ltb, if◌then◌else◌, All,
}
use fasthttp.HostClient.Queue.{WantConnQueue, push_back, pop_front, peek_front}
use fasthttp.HostClient.Queue.Refines.{Holds, queue_lem}
use fasthttp.HostClient.Pool.{HostClient, new_waiter, lifo, release_conn}
use fasthttp.HostClient.Pool.Count.{State, here, next}
use fasthttp.HostClient.Pool.Wake.{IsExact, delivered, release_conn-wakes}
use fasthttp.LbClient.{LbEntry, get, add_penalty}
use fasthttp.LbClient.Choice.{NoWorse, IsIn, get_lem}
use fasthttp.LbClient.Penalty

-- Waiters 1 and 2, of whom 1 has given up.
abbrev two_waiters : WantConnQueue ℕ
two_waiters = record {
  head = none ∷ some 1 ∷ [];
  tail = some 2 ∷ [];
  head_pos = 1;
  failed_waiters = 1;
}

abbrev waits : ℕ → Bool
waits w = ltb 1 w

two_waiters-Holds : Holds two_waiters (1 ∷ 2 ∷ [])
two_waiters-Holds = record { waiters = refl }

queue_lem_example :
    Holds (push_back two_waiters 3) (1 ∷ 2 ∷ 3 ∷ [])
    × (peek_front two_waiters ≡ some 1)
    × ((pop_front two_waiters).0 ≡ some 1)
    × Holds (pop_front two_waiters).1 (2 ∷ [])
queue_lem_example = queue_lem two_waiters 3 (1 ∷ 2 ∷ []) two_waiters-Holds

-- A client with one connection, which is used.
abbrev busy : HostClient
busy = record {
  conns = [];
  conns_count = 1;
  max_conns = some 1;
  strategy = lifo;
  may_wait = true;
  waiters = λ w. if waits w then new_waiter else record { conn = none; err = true; closed = true };
  conns_wait = two_waiters;
}

abbrev busy_state : State
busy_state = record { client = busy; in_use = 1 }

busy-IsExact : IsExact busy (1 ∷ 2 ∷ [])
busy-IsExact = record { holds = record { waiters = refl }; failed = refl; fits = omega arith }

release_conn-wakes_example :
    ((release_conn busy 9).waiters 2 ≡ delivered 9) × ((release_conn busy 9).conns ≡ busy.conns)
release_conn-wakes_example = release_conn-wakes busy 9 (1 ∷ 2 ∷ []) 2 [] refl busy-IsExact refl refl

-- The same waiters, both of whom wait.
abbrev waited : HostClient
waited = record busy {
  waiters = λ w. new_waiter;
  conns_wait = record two_waiters { failed_waiters = 0 };
}

abbrev entry : ℕ → ℕ → LbEntry ℕ
entry c n = record { client = c; penalty = 0; total = n }

abbrev clients : List (LbEntry ℕ)
clients = entry 3 5 ∷ entry 1 9 ∷ entry 1 4 ∷ []

get_lem_example :
    (e : LbEntry ℕ) × (get (λ c. c) clients ≡ some e)
    × IsIn (λ c. c) e clients
    × All (NoWorse (λ c. c) e) clients
get_lem_example = get_lem (λ c. c) clients (cons-ne-nil _ _)

abbrev calm : Penalty.State ℕ
calm = record { entry = entry 3 5; timers = 0; undoing = 0 }

Reach-IsCounted_example :
    Penalty.IsCounted {C = ℕ} 100
      (record { entry = record { client = 3; penalty = 1; total = 5 }; timers = 1; undoing = 0 })
unfolding add_penalty
Reach-IsCounted_example =
    Penalty.Reach-IsCounted {s = calm} (omega arith)
      (record { counted = refl; few_timers = omega arith; few_undoing = omega arith })
      (Penalty.next Penalty.here (Penalty.penalize calm refl))
