-- ===== src/HostClient/Queue.antt =====
-- `wantConnQueue` (client.go): the queue of the goroutines that wait for a connection, in two
-- slices. `none` in the first is the nil that `popFront` leaves.
pub mod Refines
use fasthttp.Base.{
  ℕ, zero, suc, ◌+◌, ◌-◌, ◌%◌, ◌^◌, Bool, true, false, ltb, leb, if◌then◌else◌, List, [], ◌∷◌, ◌++◌,
  Option, none, some, ◌≡◌, refl, length, get_or, set, u64, int64_lt,
}

-- `failed_waiters` is the bit pattern of an int64.
pub record WantConnQueue (W : Type 0) : Type 0 where
  pub head : List (Option W)
  pub tail : List (Option W)
  pub head_pos : ℕ
  pub failed_waiters : ℕ

module _ {W : Type 0} where
  abbrev pub empty_queue : WantConnQueue W
  empty_queue = record { head = []; tail = []; head_pos = 0; failed_waiters = 0 }

  -- `len`, as a bit pattern of 64 bits.
  unfoldable pub len : WantConnQueue W → ℕ
  len q = u64 (length q.head - q.head_pos + length q.tail + (2 ^ 64 - q.failed_waiters))

  unfoldable pub push_back : WantConnQueue W → W → WantConnQueue W
  push_back q w = record q { tail = q.tail ++ some w ∷ [] }

  -- The second half of `popFront`.
  pub take_front : WantConnQueue W → Option W × WantConnQueue W
  take_front q = (
    get_or q.head q.head_pos none,
    record q { head = set q.head q.head_pos none; head_pos = q.head_pos + 1 },
  )

  pub swap_front : WantConnQueue W → List (Option W) → Option W × WantConnQueue W
  unfolding take_front
  swap_front q [] = (none, q)
  swap_front q (w ∷ tail) = take_front (record q { head = w ∷ tail; head_pos = 0; tail = [] })

  -- `none` is nil.
  unfoldable pub pop_front : WantConnQueue W → Option W × WantConnQueue W
  unfolding swap_front take_front
  pop_front q = if leb (length q.head) q.head_pos then swap_front q q.tail else take_front q

  abbrev pub first : List (Option W) → Option W
  first [] = none
  first (w ∷ ws) = w

  unfoldable pub peek_front : WantConnQueue W → Option W
  peek_front q =
      if ltb q.head_pos (length q.head) then get_or q.head q.head_pos none else first q.tail

  -- `failedWaiters.Add(-1)`
  unfoldable pub drop_failed : WantConnQueue W → WantConnQueue W
  drop_failed q = record q { failed_waiters = u64 (q.failed_waiters + (2 ^ 64 - 1)) }

  -- The loop of `clearFront`; the fuel bounds the waiters that are popped, and the flag is
  -- `cleaned`.
  pub clear_loop : ℕ → (W → Bool) → WantConnQueue W → Bool → WantConnQueue W × Bool
  clear_loop zero waiting q cleaned = (q, cleaned)
  clear_loop (suc fuel) waiting q cleaned = elim (peek_front q) [
    | none ↦ (q, cleaned)
    | some w ↦ elim (waiting w) [
      | true ↦ (q, cleaned)
      | false ↦ clear_loop fuel waiting (drop_failed (pop_front q).1) true
    ]
  ]

  -- One round for each waiter in the queue.
  unfoldable pub clear_front : (W → Bool) → WantConnQueue W → WantConnQueue W × Bool
  unfolding clear_loop
  clear_front waiting q = clear_loop (length q.head + length q.tail) waiting q false
