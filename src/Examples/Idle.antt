-- ===== src/Examples/Idle.antt =====
-- Connections that have been idle.
use fasthttp.Base.{ℕ, zero, suc, ◌*◌, ◌-◌, ◌≡◌, [], ◌∷◌, none, arith, false}
use fasthttp.HostClient.Pool.{HostClient, new_waiter, lifo}
use fasthttp.HostClient.Clean.{clean, search, stale_count, difference}
use fasthttp.HostClient.Clean.Search.{
  AreOrdered, Parts, clean-Parts, IsNotPositive, clean_duration-IsNotPositive,
}

-- Connection 1 was last used at 10, and 2 at 20.
abbrev used : ℕ → ℕ
used conn = conn * 10

abbrev resting : HostClient
resting = record {
  conns = 1 ∷ 2 ∷ [];
  conns_count = 3;
  max_conns = none;
  strategy = lifo;
  may_wait = false;
  waiters = λ w. new_waiter;
  conns_wait = record { head = []; tail = []; head_pos = 0; failed_waiters = 0 };
}

resting-AreOrdered : AreOrdered used (1 ∷ 2 ∷ [])
resting-AreOrdered zero zero le lt = omega arith
resting-AreOrdered zero (suc zero) le lt = omega arith
resting-AreOrdered zero (suc (suc j)) le lt = absurd (omega arith)
resting-AreOrdered (suc zero) zero le lt = absurd (omega arith)
resting-AreOrdered (suc zero) (suc zero) le lt = omega arith
resting-AreOrdered (suc zero) (suc (suc j)) le lt = absurd (omega arith)
resting-AreOrdered (suc (suc i)) j le lt = absurd (omega arith)

clean-Parts_example :
    Parts used 5 18 resting (clean used 5 18 19 resting).0 (clean used 5 18 19 resting).1
clean-Parts_example = clean-Parts used 5 18 19 resting resting-AreOrdered

clean_duration-IsNotPositive_example :
    ((clean used 5 18 19 resting).2 ≡ difference 6 (19 - used 1))
    × IsNotPositive (clean used 5 18 19 resting).2
unfolding clean stale_count search
clean_duration-IsNotPositive_example =
    clean_duration-IsNotPositive used 5 18 19 resting resting-AreOrdered (omega arith) (omega arith)
      (omega arith)
