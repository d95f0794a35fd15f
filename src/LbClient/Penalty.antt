-- ===== src/LbClient/Penalty.antt =====
-- The penalty of one client while many goroutines call `DoDeadline`: the addition of `incPenalty`
-- and its `decPenalty` are separate atomic steps, and so is `decPenalty` by a timer.
use fasthttp.Base.{
  ℕ, ◌+◌, ◌-◌, ◌%◌, ◌^◌, ◌≤◌, ◌<◌, Bool, true, false, not, ◌&&◌, ltb, if◌then◌else◌, Option, ◌≡◌,
  arith,
}
use fasthttp.LbClient.{is_healthy, LbEntry, max_penalty, dec_penalty, add_penalty, done}

-- The client, the timers that will call `decPenalty`, and the goroutines between the addition and
-- the `decPenalty` of a call of `incPenalty` that returns false.
pub record State (C : Type 0) : Type 0 where
  pub entry : LbEntry C
  pub timers : ℕ
  pub undoing : ℕ

-- At most `limit` goroutines are in `incPenalty` at once.
pub data Step {C : Type 0} (limit : ℕ) : State C → State C → Type 0 where
  penalize :
      (s : State C)
      → (add_penalty s.entry).1 ≡ true
      → Step limit s (record s { entry = (add_penalty s.entry).0; timers = s.timers + 1 })
  exceed :
      (s : State C)
      → (add_penalty s.entry).1 ≡ false
      → s.undoing < limit
      → Step limit s (record s { entry = (add_penalty s.entry).0; undoing = s.undoing + 1 })
  undo :
      (s : State C)
      → 0 < s.undoing
      → Step limit s (record s { entry = dec_penalty s.entry; undoing = s.undoing - 1 })
  expire :
      (s : State C)
      → 0 < s.timers
      → Step limit s (record s { entry = dec_penalty s.entry; timers = s.timers - 1 })

pub data Reach {C : Type 0} (limit : ℕ) (s : State C) : State C → Type 0 where
  here : Reach limit s s
  next : {t u : State C} → Reach limit s t → Step limit t u → Reach limit s u

pub record IsCounted {C : Type 0} (limit : ℕ) (s : State C) : Type 0 where
  pub counted : s.entry.penalty ≡ s.timers + s.undoing
  pub few_timers : s.timers ≤ max_penalty
  pub few_undoing : s.undoing ≤ limit

Step-IsCounted :
    {C : Type 0} {limit : ℕ} {s t : State C}
    → limit < 2 ^ 31
    → Step limit s t
    → IsCounted limit s
    → IsCounted limit t
unfolding add_penalty dec_penalty
Step-IsCounted h (penalize s e) c = ground arith
Step-IsCounted h (exceed s e l) c = ground arith
Step-IsCounted h (undo s p) c = ground arith
Step-IsCounted h (expire s p) c = ground arith

-- However the steps of fewer than 2^31 goroutines interleave, the penalty of a client that had
-- none is the number of timers and of calls of `incPenalty` that take it back, and the timers are
-- at most 300: once no call is under way the penalty is at most 300, and it never wraps around.
pub Reach-IsCounted :
    {C : Type 0} {limit : ℕ} {s t : State C}
    → limit < 2 ^ 31
    → IsCounted limit s
    → Reach limit s t
    → IsCounted limit t
Reach-IsCounted h c here = c
Reach-IsCounted h c (next r st) = Step-IsCounted h st (Reach-IsCounted h c r)

-- A call that is alone penalises an unhealthy client, and leaves a timer, below the limit; at the
-- limit, and for a healthy client, it counts a request and leaves the penalty as it was.
pub done_lem :
    {C : Type 0} (check : Option (Bool → Bool)) (failed : Bool) (e : LbEntry C)
    → e.penalty ≤ max_penalty
    → done check failed e ≡ (
        if not (is_healthy check failed) && ltb e.penalty max_penalty
        then (record e { penalty = e.penalty + 1 }, true)
        else (record e { total = (e.total + 1) % 2 ^ 64 }, false))
unfolding done
done_lem check failed e h = ground arith
