-- ===== src/Client/Attempts.antt =====
-- How many calls Do makes.
use fasthttp.Base.{
  ℕ, zero, suc, ◌+◌, ◌<◌, ◌≤◌, max, true, false, not, ◌&&◌, ◌||◌, leb, ◌==◌, if◌then◌else◌, Option,
  none, some, ◌≡◌, refl, ap, inl, inr, arith, Bool-cases, Option-cases,
}
use fasthttp.Header.Request.{RequestHeader}
use fasthttp.Client.{
  DoError, Call, Settings, time_out, is_idempotent, retries, do_behind, do_loop, do_request,
}

-- Two loops that agree on a number of calls below the limit.
do_behind-same :
    (go go' : ℕ → ℕ × Option DoError) (s : Settings) (h : RequestHeader) (calls : ℕ)
    (o : Option DoError)
    → (calls < s.attempts → go calls ≡ go' calls)
    → do_behind go s h calls o ≡ do_behind go' s h calls o
unfolding do_behind
do_behind-same go go' s h calls none same = refl
do_behind-same go go' s h calls (some e) same = elim (Bool-cases (leb s.attempts calls)) [
  | inl last ↦ elim (Bool-cases s.has_body_stream) [
    | inl stream ↦ rw stream refl
    | inr no_stream ↦ rw no_stream (rw last refl)
  ]
  | inr more ↦ let lt : calls < s.attempts = ground arith in rw (same lt) refl
]

-- Fuel for the attempts that are left, or for one, is enough for the loop.
do_loop-enough :
    (f g : ℕ) (s : Settings) (h : RequestHeader) (env : ℕ → Call) (calls : ℕ)
    → 0 < f
    → 0 < g
    → s.attempts ≤ calls + f
    → s.attempts ≤ calls + g
    → do_loop f s h env calls ≡ do_loop g s h env calls
unfolding do_loop
do_loop-enough zero g s h env calls pf pg lf lg = absurd (omega arith)
do_loop-enough (suc f) zero s h env calls pf pg lf lg = absurd (omega arith)
do_loop-enough (suc f) (suc g) s h env calls pf pg lf lg =
    ap (λ b. if s.has_timeout && (env calls).left == 0 then (calls, some time_out) else b)
      (do_behind-same (do_loop f s h env) (do_loop g s h env) s h (calls + 1) (env calls).failed
        λ lt.
          do_loop-enough f g s h env (calls + 1) (omega arith) (omega arith) (omega arith)
            (omega arith))

-- How many calls may be made from `calls` on.
do_behind-bounded :
    (go : ℕ → ℕ × Option DoError) (s : Settings) (h : RequestHeader) (calls limit : ℕ)
    (o : Option DoError)
    → calls ≤ limit
    → ((e : DoError)
        → s.has_body_stream ≡ false
        → calls < s.attempts
        → retries s h calls e ≡ true
        → (go calls).0 ≤ limit)
    → (do_behind go s h calls o).0 ≤ limit
unfolding do_behind
do_behind-bounded go s h calls limit none le more = le
do_behind-bounded go s h calls limit (some e) le more = elim (Bool-cases s.has_body_stream) [
  | inl stream ↦ rw stream le
  | inr no_stream ↦ elim (Bool-cases (leb s.attempts calls)) [
    | inl last ↦ rw no_stream (rw last le)
    | inr early ↦ elim (Bool-cases (retries s h calls e)) [
      | inl again ↦ rw no_stream (rw early (rw again (more e no_stream (ground arith) again)))
      | inr enough ↦ rw no_stream (rw early (rw enough le))
    ]
  ]
]

-- The most calls that Do makes: one where the request has a body stream, or where it is not
-- idempotent and the client has no RetryIf, and else the number of attempts.
abbrev pub most_calls : Settings → RequestHeader → ℕ
most_calls s h =
    if s.has_body_stream || elim s.retry_if [ none ↦ not (is_idempotent h) | some _ ↦ false ]
    then 1
    else max 1 s.attempts

retries-most :
    (s : Settings) (h : RequestHeader) (calls : ℕ) (e : DoError)
    → s.has_body_stream ≡ false
    → retries s h calls e ≡ true
    → most_calls s h ≡ max 1 s.attempts
unfolding retries
retries-most s h calls e no_stream again = elim (Option-cases s.retry_if) [
  | inl own ↦
      let idempotent : is_idempotent h ≡ true = rw own at again in
      rw no_stream (rw own (rw idempotent refl))
  | inr (f, own) ↦ rw no_stream (rw own refl)
]

do_loop-bounded :
    (fuel : ℕ) (s : Settings) (h : RequestHeader) (env : ℕ → Call) (calls : ℕ)
    → calls + 1 ≤ most_calls s h
    → (do_loop fuel s h env calls).0 ≤ most_calls s h
unfolding do_loop
do_loop-bounded zero s h env calls le = omega arith
do_loop-bounded (suc fuel) s h env calls le =
    elim (Bool-cases (s.has_timeout && (env calls).left == 0)) [
      | inl over ↦ rw over (omega arith)
      | inr on_time ↦ rw on_time (
          do_behind-bounded (do_loop fuel s h env) s h (calls + 1) (most_calls s h)
            (env calls).failed le
            λ e no_stream lt again.
              do_loop-bounded fuel s h env (calls + 1)
                (omega (arith, lt, retries-most s h (calls + 1) e no_stream again)))
    ]

-- Do makes at most as many calls as it may: one for a request with a body stream, or for one that is
-- not idempotent where the client has no RetryIf, and else its number of attempts, or one. The fuel of
-- its loop is enough: with any more the loop ends with the same number of calls and the same error.
pub do_request-bounded :
    (s : Settings) (h : RequestHeader) (env : ℕ → Call) (more : ℕ)
    → ((do_request s h env).0 ≤ most_calls s h)
      × (do_loop (max 1 s.attempts + more) s h env 0 ≡ do_loop (max 1 s.attempts) s h env 0)
unfolding do_request
do_request-bounded s h env more = (
  do_loop-bounded (max 1 s.attempts) s h env 0 (ground arith),
  do_loop-enough (max 1 s.attempts + more) (max 1 s.attempts) s h env 0 (omega arith) (omega arith)
      (omega arith) (omega arith),
)
