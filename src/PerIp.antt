-- ===== src/PerIp.antt =====
-- peripconn.go: `perIPConnCounter`, the number of open connections of each address. Each method
-- runs under the lock, so a run of many goroutines is a sequence of calls.
pub mod Counting
use fasthttp.Base.{
  ℕ, ◌+◌, ◌-◌, Bool, true, false, ltb, ◌==◌, if◌then◌else◌, List, [], ◌∷◌, Option, none, some, ◌≡◌,
}

-- `none` is the nil map of a new counter; a key that is absent reads 0.
pub record Counter : Type 0 where
  pub m : Option (ℕ → ℕ)

abbrev pub new_counter : Counter
new_counter = record { m = none }

abbrev pub read : Option (ℕ → ℕ) → ℕ → ℕ
read none ip = 0
read (some m) ip = m ip

abbrev pub update : (ℕ → ℕ) → ℕ → ℕ → ℕ → ℕ
update m ip n j = if j == ip then n else m j

-- `make(map[uint32]int)`
abbrev make : Option (ℕ → ℕ) → ℕ → ℕ
make none = λ j. 0
make (some m) = m

unfoldable pub register : Counter → ℕ → Counter × ℕ
register cc ip = let m = make cc.m in let n = m ip + 1 in (record { m = some (update m ip n) }, n)

-- `n := cc.m[ip] - 1; if n < 0 { n = 0 }` on an int that is not negative.
abbrev dec_floor : ℕ → ℕ
dec_floor n = if ltb n 1 then 0 else n - 1

pub unregister_in : Option (ℕ → ℕ) → ℕ → Option Counter
unregister_in none ip = none
unregister_in (some m) ip = some (record { m = some (update m ip (dec_floor (m ip))) })

-- `none` is the panic of a counter on which `Register` was never called.
unfoldable pub unregister : Counter → ℕ → Option Counter
unfolding unregister_in
unregister cc ip = unregister_in cc.m ip

-- `wrapPerIPConn` (server.go) for a connection from `ip` while `limit` are allowed: the counter,
-- and whether the connection is served. `none` is a panic. An address that is not IPv4 reads 0
-- and is not counted.
unfoldable pub wrap_conn : ℕ → Counter → ℕ → Option (Counter × Bool)
wrap_conn limit cc ip =
    if ip == 0
    then some (cc, true)
    else (let (cc', n) = register cc ip in
        if ltb limit n
        then elim (unregister cc' ip) [ none ↦ none | some cc'' ↦ some (cc'', false) ]
        else some (cc', true))
