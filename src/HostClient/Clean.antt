-- ===== src/HostClient/Clean.antt =====
-- `HostClient.Clean` (client.go): which connections have been idle for too long. `used` is the time of a
-- connection's last use, `max_idle` the duration that one may be idle, which is not negative, and `now`
-- and `later` are what the clock returns.
pub mod Search
use fasthttp.Base.{
  ℕ, zero, suc, ◌+◌, ◌-◌, ◌/◌, List, [], ◌∷◌, ◌≡◌, refl, Bool, true, false, ltb, leb, ◌==◌,
  if◌then◌else◌, length, get_or, take, drop, ℤ, pos, negsuc,
}
use fasthttp.HostClient.Pool.{HostClient}

module _ (used : ℕ → ℕ) (max_idle now : ℕ) where
  abbrev pub is_stale : ℕ → Bool
  is_stale conn = ltb max_idle (now - used conn)

  -- The binary search: `high` is r + 1. Each round makes the part between them smaller.
  unfoldable pub search : ℕ → List ℕ → ℕ → ℕ → ℕ
  search zero conns low high = high
  search (suc fuel) conns low high =
      let mid = (low + (high - 1)) / 2 in
      let right = search fuel conns (mid + 1) high in
      let left = search fuel conns low mid in
      if ltb low high then (if is_stale (get_or conns mid 0) then right else left) else high

  -- How many connections are closed.
  unfoldable pub stale_count : List ℕ → ℕ
  unfolding search
  stale_count conns = search (length conns) conns 0 (length conns)

-- `a - b`
abbrev pub difference : ℕ → ℕ → ℤ
difference a b = if leb b a then pos (a - b) else negsuc (b - a - 1)

-- Under the first lock: the client, the connections to close, and the duration.
unfoldable pub clean : (ℕ → ℕ) → ℕ → ℕ → ℕ → HostClient → HostClient × List ℕ × ℤ
unfolding stale_count
clean used max_idle now later h =
    let i = stale_count used max_idle now h.conns in
    if i == 0 then (h, [], pos 0) else (
      record h { conns = drop i h.conns },
      take i h.conns,
      if ltb i (length h.conns)
          then difference (max_idle + 1) (later - used (get_or h.conns (i - 1) 0))
          else pos max_idle,
    )

-- Under the second lock: whether the cleaner stops.
abbrev pub stops : HostClient → Bool
stops h = h.conns_count == 0
