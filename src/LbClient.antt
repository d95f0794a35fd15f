-- ===== src/LbClient.antt =====
-- lbclient.go: `LBClient`, which sends each request to the least loaded of its clients.
--
-- What a client is (`BalancingClient`) is a parameter: the number of its pending requests is read
-- through a function.
pub mod Choice
pub mod Penalty
use fasthttp.Base.{
  ℕ, ◌+◌, ◌-◌, ◌%◌, ◌^◌, Bool, true, false, not, ◌&&◌, ◌||◌, ltb, ◌==◌, if◌then◌else◌, List, [],
  ◌∷◌, ◌++◌, map, Option, none, some, ◌≡◌, length, u32, u64,
}

abbrev pub max_penalty : ℕ
max_penalty = 300

-- `c`, `penalty` and `total` of an `lbClient`.
pub record LbEntry (C : Type 0) : Type 0 where
  pub client : C
  pub penalty : ℕ
  pub total : ℕ

-- `isHealthy`: the callback's answer, or whether there was no error where there is no callback.
pub is_healthy : Option (Bool → Bool) → Bool → Bool
is_healthy none failed = not failed
is_healthy (some check) failed = check failed

module _ {C : Type 0} where
  pub new_entry : C → LbEntry C
  new_entry c = record { client = c; penalty = 0; total = 0 }

  -- `init`; `none` is the panic on an empty list of clients.
  unfoldable pub init : List C → Option (List (LbEntry C))
  unfolding new_entry
  init [] = none
  init (c ∷ cs) = some (map new_entry (c ∷ cs))

  -- `AddClient`, with the new number of clients.
  unfoldable pub add_client : List (LbEntry C) → C → List (LbEntry C) × ℕ
  unfolding new_entry
  add_client cs c = let cs' = cs ++ new_entry c ∷ [] in (cs', length cs')

  pub keep : (C → Bool) → List (LbEntry C) → List (LbEntry C)
  keep rc [] = []
  keep rc (e ∷ cs) = let rest = keep rc cs in if rc e.client then rest else e ∷ rest

  -- `RemoveClients`, with the new number of clients.
  unfoldable pub remove_clients : (C → Bool) → List (LbEntry C) → List (LbEntry C) × ℕ
  unfolding keep
  remove_clients rc cs = let cs' = keep rc cs in (cs', length cs')

  -- `PendingRequests`
  unfoldable pub pending_requests : (C → ℕ) → LbEntry C → ℕ
  pending_requests pending e = pending e.client + e.penalty

  -- The loop of `get`, behind the least entry so far.
  pub least : (C → ℕ) → LbEntry C → List (LbEntry C) → LbEntry C
  unfolding pending_requests
  least pending best [] = best
  least pending best (e ∷ cs) =
      let n = pending_requests pending e in
      let min_n = pending_requests pending best in
      least pending (if ltb n min_n || (n == min_n && ltb e.total best.total) then e else best) cs

  -- `get`; `none` is the panic of an index out of range.
  unfoldable pub get : (C → ℕ) → List (LbEntry C) → Option (LbEntry C)
  unfolding least
  get pending [] = none
  get pending (e ∷ cs) = some (least pending e cs)

  -- `decPenalty`: the atomic addition of ^uint32(0).
  unfoldable pub dec_penalty : LbEntry C → LbEntry C
  dec_penalty e = record e { penalty = u32 (e.penalty + (2 ^ 32 - 1)) }

  -- The atomic addition of `incPenalty`, and its test: whether the penalty stays.
  unfoldable pub add_penalty : LbEntry C → LbEntry C × Bool
  add_penalty e = let m = u32 (e.penalty + 1) in (record e { penalty = m }, not (ltb max_penalty m))

  -- `incPenalty` of one goroutine alone.
  unfoldable pub inc_penalty : LbEntry C → LbEntry C × Bool
  unfolding add_penalty dec_penalty
  inc_penalty e =
      let (e', stays) = add_penalty e in if stays then (e', true) else (dec_penalty e', false)

  -- What `DoDeadline` does once its client has answered, `failed` if with an error: the entry, and
  -- whether `decPenalty` is due after the penalty's duration.
  unfoldable pub done : Option (Bool → Bool) → Bool → LbEntry C → LbEntry C × Bool
  unfolding inc_penalty is_healthy
  done check failed e =
      let (e', stays) = inc_penalty e in
      if not (is_healthy check failed)
      then (if stays then (e', true) else (record e' { total = u64 (e'.total + 1) }, false))
      else (record e { total = u64 (e.total + 1) }, false)
