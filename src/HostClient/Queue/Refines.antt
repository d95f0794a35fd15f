-- ===== src/HostClient/Queue/Refines.antt =====
-- The two slices are a first-in first-out queue.
use mathlib.Core.List.{cons-ne-nil}
use fasthttp.Base.{
  ℕ, zero, suc, ◌+◌, ◌≤◌, ◌<◌, Bool, true, false, ltb, leb, if◌then◌else◌, List, [], ◌∷◌, ◌++◌, map,
  map-append, append_assoc, append-nil, Option, none, some, ◌||◌, ◌≡◌, refl, sym, ap, ◌∙◌, arith,
  length, get_or, set, drop, Bool-cases, inl, inr, length-append, length-drop,
}
use fasthttp.HostClient.Queue.{
  WantConnQueue, push_back, take_front, swap_front, pop_front, peek_front, drop_failed, first,
  clear_loop, clear_front,
}

module _ {W : Type 0} where
  abbrev pub tail_of : List W → List W
  tail_of [] = []
  tail_of (w ∷ ws) = ws

  pub length-map : (ws : List W) → length (map some ws) ≡ length ws
  length-map [] = refl
  length-map (w ∷ ws) = ap suc (length-map ws)

  -- The queue holds these waiters, the first one in front.
  pub record Holds (q : WantConnQueue W) (ws : List W) : Type 0 where
    pub waiters : drop q.head_pos q.head ++ q.tail ≡ map some ws

  drop-set : (i : ℕ) (xs : List (Option W)) → drop (suc i) (set xs i none) ≡ drop (suc i) xs
  drop-set i [] = refl
  drop-set zero (x ∷ xs) = refl
  drop-set (suc i) (x ∷ xs) = drop-set i xs

  drop-get_or :
      (i : ℕ) (xs : List (Option W))
      → i < length xs
      → drop i xs ≡ get_or xs i none ∷ drop (suc i) xs
  drop-get_or i [] h = absurd (omega arith)
  drop-get_or zero (x ∷ xs) h = refl
  drop-get_or (suc i) (x ∷ xs) h = drop-get_or i xs (omega arith)

  drop_all : (i : ℕ) (xs : List (Option W)) → length xs ≤ i → drop i xs ≡ []
  drop_all zero [] h = refl
  drop_all (suc i) [] h = refl
  drop_all zero (x ∷ xs) h = absurd (omega arith)
  drop_all (suc i) (x ∷ xs) h = drop_all i xs (omega arith)

  push_back-Holds :
      (q : WantConnQueue W) (w : W) (ws : List W)
      → Holds q ws
      → Holds (push_back q w) (ws ++ w ∷ [])
  unfolding push_back
  push_back-Holds q w ws h = record {
    waiters =
        sym (append_assoc _ q.tail (some w ∷ []))
        ∙ ap (λ l. l ++ some w ∷ []) h.waiters
        ∙ sym (map-append some ws (w ∷ []));
  }

  abbrev rest_of : List (Option W) → List (Option W)
  rest_of [] = []
  rest_of (x ∷ xs) = xs

  take_front-Holds :
      (q : WantConnQueue W) (w : W) (ws : List W)
      → q.head_pos < length q.head
      → Holds q (w ∷ ws)
      → ((take_front q).0 ≡ some w) × Holds (take_front q).1 ws
  take_front-Holds q w ws lt h =
      let e : q.head_pos + 1 ≡ suc q.head_pos = omega arith in
      let step = drop-get_or q.head_pos q.head lt in
      let all = ap (λ l. l ++ q.tail) (sym step) ∙ h.waiters in
      unfold take_front in
      (
        ap first all,
        record {
          waiters =
              ap (λ i. drop i (set q.head q.head_pos none) ++ q.tail) e
              ∙ ap (λ l. l ++ q.tail) (drop-set q.head_pos q.head)
              ∙ ap rest_of all;
        },
      )

  swap_front-Holds :
      (q : WantConnQueue W) (tail : List (Option W)) (w : W) (ws : List W)
      → tail ≡ map some (w ∷ ws)
      → ((swap_front q tail).0 ≡ some w) × Holds (swap_front q tail).1 ws
  swap_front-Holds q [] w ws h = absurd (cons-ne-nil _ _ (sym h))
  swap_front-Holds q (x ∷ tail) w ws h =
      unfold swap_front in
      take_front-Holds (record q { head = x ∷ tail; head_pos = 0; tail = [] }) w ws (omega arith)
        (record { waiters = append-nil (x ∷ tail) ∙ h })

  -- The queue holds `ws` and nothing is lost: what is popped is the oldest waiter, and those behind
  -- it stay in order.
  pub pop_front-Holds :
      (q : WantConnQueue W) (w : W) (ws : List W)
      → Holds q (w ∷ ws)
      → ((pop_front q).0 ≡ some w) × Holds (pop_front q).1 ws
  pop_front-Holds q w ws h = elim (Bool-cases (leb (length q.head) q.head_pos)) [
    | inl used ↦
        let gone = drop_all q.head_pos q.head (ground arith) in
        unfold pop_front in
        rw used (swap_front-Holds q q.tail w ws (ap (λ l. l ++ q.tail) (sym gone) ∙ h.waiters))
    | inr more ↦ unfold pop_front in rw more (take_front-Holds q w ws (ground arith) h)
  ]

  not-at_end : (q : WantConnQueue W) → Holds q [] → leb (length q.head) q.head_pos ≡ false → ⊥
  not-at_end q h e =
      let step = drop-get_or q.head_pos q.head (ground arith) in
      cons-ne-nil _ _ (ap (λ l. l ++ q.tail) (sym step) ∙ h.waiters)

  tail-nil : (q : WantConnQueue W) → Holds q [] → q.tail ≡ []
  tail-nil q h = elim (Bool-cases (leb (length q.head) q.head_pos)) [
    | inl used ↦ ap (λ l. l ++ q.tail) (sym (drop_all q.head_pos q.head (ground arith))) ∙ h.waiters
    | inr more ↦ absurd (not-at_end q h more)
  ]

  swap_front-failed :
      (q : WantConnQueue W) (tail : List (Option W))
      → (swap_front q tail).1.failed_waiters ≡ q.failed_waiters
  unfolding swap_front take_front
  swap_front-failed q [] = refl
  swap_front-failed q (x ∷ tail) = refl

  pub pop_front-failed : (q : WantConnQueue W) → (pop_front q).1.failed_waiters ≡ q.failed_waiters
  unfolding pop_front take_front
  pop_front-failed q = ground (arith, swap_front-failed q q.tail)

  -- An empty queue gives nil and stays as it is.
  pub pop_front-nil : (q : WantConnQueue W) → Holds q [] → pop_front q ≡ (none, q)
  pop_front-nil q h = elim (Bool-cases (leb (length q.head) q.head_pos)) [
    | inl used ↦
        unfold pop_front in rw used (ap (swap_front q) (tail-nil q h) ∙ (unfold swap_front in refl))
    | inr more ↦ absurd (not-at_end q h more)
  ]

  peek_front-Holds :
      (q : WantConnQueue W) (ws : List W) → Holds q ws → peek_front q ≡ first (map some ws)
  peek_front-Holds q ws h = elim (Bool-cases (ltb q.head_pos (length q.head))) [
    | inl more ↦
        let step = drop-get_or q.head_pos q.head (ground arith) in
        unfold peek_front in rw more (ap first (ap (λ l. l ++ q.tail) (sym step) ∙ h.waiters))
    | inr used ↦
        let gone = drop_all q.head_pos q.head (ground arith) in
        unfold peek_front in rw used (ap first (ap (λ l. l ++ q.tail) (sym gone) ∙ h.waiters))
  ]

  pub drop_failed-Holds :
      (q : WantConnQueue W) (ws : List W) → Holds q ws → Holds (drop_failed q) ws
  drop_failed-Holds q ws h = unfold drop_failed in record { waiters = h.waiters }

  -- The waiters from the first one on that still waits, and how many stand before it.
  abbrev pub from_waiting : (W → Bool) → List W → List W
  from_waiting waiting [] = []
  from_waiting waiting (w ∷ ws) = if waiting w then w ∷ ws else from_waiting waiting ws

  abbrev pub given_up : (W → Bool) → List W → ℕ
  given_up waiting [] = 0
  given_up waiting (w ∷ ws) = if waiting w then 0 else suc (given_up waiting ws)

  loop_at_nil :
      (fuel : ℕ) (waiting : W → Bool) (q : WantConnQueue W) (cleaned : Bool)
      → peek_front q ≡ none
      → clear_loop fuel waiting q cleaned ≡ (q, cleaned)
  unfolding clear_loop
  loop_at_nil zero waiting q cleaned e = refl
  loop_at_nil (suc fuel) waiting q cleaned e = rw (e, clear_loop)

  loop_at_waiter :
      (fuel : ℕ) (waiting : W → Bool) (q : WantConnQueue W) (cleaned : Bool) (w : W)
      → peek_front q ≡ some w
      → clear_loop (suc fuel) waiting q cleaned ≡ (
          if waiting w
          then (q, cleaned)
          else clear_loop fuel waiting (drop_failed (pop_front q).1) true)
  unfolding clear_loop
  loop_at_waiter fuel waiting q cleaned w e = ground (arith, e)

  clear_loop-Holds :
      (fuel : ℕ) (waiting : W → Bool) (q : WantConnQueue W) (cleaned : Bool) (ws : List W)
      → length ws ≤ fuel
      → Holds q ws
      → Holds (clear_loop fuel waiting q cleaned).0 (from_waiting waiting ws)
        × ((clear_loop fuel waiting q cleaned).1 ≡ (cleaned || ltb 0 (given_up waiting ws)))
  clear_loop-Holds fuel waiting q cleaned [] lt h =
      rw (loop_at_nil fuel waiting q cleaned (peek_front-Holds q [] h)) (h, ground arith)
  clear_loop-Holds zero waiting q cleaned (w ∷ ws) lt h = absurd (omega arith)
  clear_loop-Holds (suc fuel) waiting q cleaned (w ∷ ws) lt h =
      let (popped, left) = pop_front-Holds q w ws h in
      let q' = drop_failed (pop_front q).1 in
      let (holds, flag) =
        clear_loop-Holds fuel waiting q' true ws (omega arith) (drop_failed-Holds _ ws left) in
      rw (loop_at_waiter fuel waiting q cleaned w (peek_front-Holds q (w ∷ ws) h))
        (elim (Bool-cases (waiting w)) [
          | inl still ↦ rw still (h, ground arith)
          | inr done ↦ rw done (holds, flag ∙ ground arith)
        ])

  pub enough :
      (q : WantConnQueue W) (ws : List W) → Holds q ws → length ws ≤ length q.head + length q.tail
  enough q ws h = omega (
    arith,
    ap length h.waiters,
    length-append (drop q.head_pos q.head) q.tail,
    length-drop q.head_pos q.head,
    length-map ws,
  )

  -- `clearFront` takes away the waiters in front that have given up, stops at the first one that
  -- still waits, and reports whether it took any away.
  pub clear_front-Holds :
      (waiting : W → Bool) (q : WantConnQueue W) (ws : List W)
      → Holds q ws
      → Holds (clear_front waiting q).0 (from_waiting waiting ws)
        × ((clear_front waiting q).1 ≡ ltb 0 (given_up waiting ws))
  clear_front-Holds waiting q ws h =
      unfold clear_front in
      clear_loop-Holds (length q.head + length q.tail) waiting q false ws (enough q ws h) h

  -- The queue by the waiters that it holds, under every operation: a waiter goes to the back, the
  -- first one is seen and taken from the front, and nil comes from the empty queue alone.
  pub queue_lem :
      (q : WantConnQueue W) (w : W) (ws : List W)
      → Holds q ws
      → Holds (push_back q w) (ws ++ w ∷ [])
        × (peek_front q ≡ first (map some ws))
        × ((pop_front q).0 ≡ first (map some ws))
        × Holds (pop_front q).1 (tail_of ws)
  queue_lem q w [] h = (
    push_back-Holds q w [] h,
    peek_front-Holds q [] h,
    ap (λ p. p.0) (pop_front-nil q h),
    rw (pop_front-nil q h) h,
  )
  queue_lem q w (x ∷ ws) h =
      let (popped, left) = pop_front-Holds q x ws h in
      (push_back-Holds q w (x ∷ ws) h, peek_front-Holds q (x ∷ ws) h, popped, left)
