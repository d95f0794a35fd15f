-- ===== src/Cleaner.antt =====
-- The cleaner of idle clients (client_cleaner.go): a heap of four children a node, ordered by the
-- times at which its items are due. Times and durations are nanoseconds, as the patterns of 64 bits of
-- an int64: a sum wraps around, and a duration may be negative. The clock returns a pattern of a number
-- that is not negative. A time that is not positive panics in siftUp or siftDown before any other is
-- compared with it, so the heap compares the patterns of positive numbers. The timer is the duration
-- that it was last reset to. What the calls of Clean and of the clock return is an argument, and what is
-- between a Lock and the Unlock is one function.
pub mod Sift
pub mod Up
mod Down
pub mod Order
mod Due
pub mod Rounds
use fasthttp.Base.{
  ℕ, zero, suc, ◌+◌, ◌-◌, ◌*◌, ◌/◌, ◌%◌, ◌^◌, u64, int64_lt, not, List, [], ◌∷◌, ◌++◌, Option, none, some, ◌≡◌,
  refl, Bool, true, false, ltb, leb, ◌==◌, ◌&&◌, if◌then◌else◌, length, take, set, get_or,
}

pub record CleanItem {ℓ} (A : Type ℓ) : Type ℓ where
  pub client : Option A
  pub when : ℕ

pub record DurationCleaner {ℓ} (A : Type ℓ) : Type ℓ where
  pub items : List (CleanItem A)
  pub zero_when : ℕ
  pub num_items : ℕ
  pub clean_start : Bool
  pub timer : ℕ
  pub min_duration : ℕ

-- What a call of Clean returns, and the clock in `runOne` and in `update0When` after it.
pub record Cleaned : Type 0 where
  pub duration : ℕ
  pub stop : Bool
  pub now : ℕ
  pub later : ℕ

-- `when > 0`
abbrev pub is_time : ℕ → Bool
is_time w = int64_lt 0 w

-- `duration`, or `minDuration` where that is more
abbrev pub at_least : ℕ → ℕ → ℕ
at_least duration least = if int64_lt duration least then least else duration

module _ {ℓ} {A : Type ℓ} where
  abbrev pub absent : CleanItem A
  absent = record { client = none; when = 0 }

  abbrev pub item_at : List (CleanItem A) → ℕ → CleanItem A
  item_at items i = get_or items i absent

  abbrev pub when_at : List (CleanItem A) → ℕ → ℕ
  when_at items i = (item_at items i).when

  -- The loop of `siftUp`, and the index at which the item ends.
  unfoldable pub sift_up_loop : ℕ → List (CleanItem A) → CleanItem A → ℕ → List (CleanItem A) × ℕ
  sift_up_loop zero items tmp i = (set items i tmp, i)
  sift_up_loop (suc fuel) items tmp i =
      let p = (i - 1) / 4 in
      let rest = sift_up_loop fuel (set items i (item_at items p)) tmp p in
      if i == 0
      then (set items i tmp, i)
      else if leb (when_at items p) tmp.when
      then (set items i tmp, i)
      else rest

  -- `siftUp`; `none` is the panic of badHeap.
  unfoldable pub sift_up : List (CleanItem A) → ℕ → Option (List (CleanItem A) × ℕ)
  unfolding sift_up_loop
  sift_up items i =
      if leb (length items) i
      then none
      else if not (is_time (when_at items i))
      then none
      else some (sift_up_loop i items (item_at items i) i)

  -- The lesser of two neighbours, and of the four children from `c` on.
  unfoldable pub lesser : List (CleanItem A) → ℕ → ℕ
  lesser items c =
      if ltb (c + 1) (length items) && ltb (when_at items (c + 1)) (when_at items c)
      then c + 1
      else c

  unfoldable pub min_child : List (CleanItem A) → ℕ → ℕ
  unfolding lesser
  min_child items c =
      if ltb (c + 2) (length items)
        && ltb (when_at items (lesser items (c + 2))) (when_at items (lesser items c))
      then lesser items (c + 2)
      else lesser items c

  -- The loop of `siftDown`. The index grows in each round.
  unfoldable pub sift_down_loop : ℕ → List (CleanItem A) → CleanItem A → ℕ → List (CleanItem A)
  unfolding min_child
  sift_down_loop zero items tmp i = set items i tmp
  sift_down_loop (suc fuel) items tmp i =
      let c = min_child items (i * 4 + 1) in
      let rest = sift_down_loop fuel (set items i (item_at items c)) tmp c in
      if leb (length items) (i * 4 + 1)
      then set items i tmp
      else if leb tmp.when (when_at items c)
      then set items i tmp
      else rest

  -- `siftDown`; `none` is the panic of badHeap.
  unfoldable pub sift_down : List (CleanItem A) → ℕ → Option (List (CleanItem A))
  unfolding sift_down_loop
  sift_down items i =
      if leb (length items) i
      then none
      else if not (is_time (when_at items i))
      then none
      else some (sift_down_loop (length items) items (item_at items i) i)

  -- `update0When`, on the items
  unfoldable pub update0_at : DurationCleaner A → ℕ → List (CleanItem A) → DurationCleaner A
  update0_at cc now [] = record cc { zero_when = 0 }
  update0_at cc now (t ∷ _) =
      if cc.zero_when == t.when then cc else record cc { zero_when = t.when; timer = t.when - now }

  unfoldable pub update0_when : DurationCleaner A → ℕ → DurationCleaner A
  unfolding update0_at
  update0_when cc now = update0_at cc now cc.items

  -- `doAdd`, on the items with the new one at the end, behind siftUp. The item is the first one just
  -- if its index is 0, since no item stands in the heap twice.
  unfoldable pub add_at :
      DurationCleaner A → ℕ → Option (List (CleanItem A) × ℕ) → Option (DurationCleaner A)
  unfolding update0_when
  add_at cc now none = none
  add_at cc now (some (items, i)) =
      let added = record cc { items = items; num_items = (cc.num_items + 1) % 2 ^ 32 } in
      some (if i == 0 then update0_when added now else added)

  unfoldable pub do_add : DurationCleaner A → ℕ → Option (DurationCleaner A)
  unfolding sift_up add_at
  do_add cc now = add_at cc now (sift_up cc.items (length cc.items - 1))

  unfoldable pub started : Option (DurationCleaner A) → Option (DurationCleaner A)
  started none = none
  started (some cc) = some (record cc { clean_start = true })

  -- `Register`, with the clock at its start and in update0When. The spare items of the slice are
  -- overwritten where they are used again.
  unfoldable pub register : DurationCleaner A → Option A → ℕ → ℕ → ℕ → Option (DurationCleaner A)
  unfolding do_add started
  register cc none duration now later = some cc
  register cc (some client) duration now later =
      let item : CleanItem A = record { client = some client; when = u64 (now + duration) } in
      started (do_add (record cc { items = cc.items ++ item ∷ [] }) later)

  -- `doDel0`, behind siftDown
  unfoldable pub deleted :
      DurationCleaner A → ℕ → Option (List (CleanItem A)) → Option (DurationCleaner A)
  unfolding update0_when
  deleted cc now none = none
  deleted cc now (some items) =
      let left = update0_when (record cc { items = items }) now in
      some (record left { num_items = (left.num_items + (2 ^ 32 - 1)) % 2 ^ 32 })

  -- The first item is exchanged with the last one, at `last`, and cut off.
  unfoldable pub cut_first : List (CleanItem A) → ℕ → Option (List (CleanItem A))
  unfolding sift_down
  cut_first items last =
      let cut = take last (set items 0 (item_at items last)) in
      if last == 0 then some cut else sift_down cut 0

  unfoldable pub do_del0 : DurationCleaner A → ℕ → Option (DurationCleaner A)
  unfolding deleted cut_first
  do_del0 cc now =
      if length cc.items == 0
      then none
      else deleted cc now (cut_first cc.items (length cc.items - 1))

  unfoldable pub kept_on :
      DurationCleaner A → Option (List (CleanItem A)) → Option (DurationCleaner A)
  kept_on cc none = none
  kept_on cc (some items) = some (record cc { items = items })

  -- `runOne` on the first item, which is moved in time before it stops or goes on
  unfoldable pub run_end : DurationCleaner A → Bool → ℕ → Option (DurationCleaner A)
  unfolding do_del0 sift_down kept_on
  run_end moved true later = do_del0 moved later
  run_end moved false later = kept_on moved (sift_down moved.items 0)

  unfoldable pub run_one : DurationCleaner A → CleanItem A → Cleaned → Option (DurationCleaner A)
  unfolding run_end
  run_one cc item c =
      let due = record item { when = u64 (at_least c.duration cc.min_duration + c.now) } in
      run_end (record cc { items = set cc.items 0 due }) c.stop c.later

  -- The first item, if it is due, goes to `go`; else the time of the next item or 0.
  unfoldable pub check_first :
      (CleanItem A → Option (DurationCleaner A × ℕ))
      → DurationCleaner A
      → ℕ
      → List (CleanItem A)
      → Option (DurationCleaner A × ℕ)
  check_first go cc now [] = some (cc, 0)
  check_first go cc now (t ∷ _) = if ltb now t.when then some (cc, t.when) else go t

  unfoldable pub check_run :
      (DurationCleaner A → Option (DurationCleaner A × ℕ))
      → Option (DurationCleaner A)
      → Option (DurationCleaner A × ℕ)
  check_run go none = none
  check_run go (some cc) = go cc

  -- The loop of `checkItems` on what the calls of Clean return. `none` is a panic, or a call that is
  -- not listed.
  unfoldable pub check_loop : List Cleaned → DurationCleaner A → ℕ → Option (DurationCleaner A × ℕ)
  unfolding check_first check_run run_one
  check_loop [] cc now = check_first (λ _. none) cc now cc.items
  check_loop (c ∷ cs) cc now =
      check_first (λ t. check_run (λ cc'. check_loop cs cc' now) (run_one cc t c)) cc now cc.items

  -- `checkItems`; whether an item ran is not used by its caller.
  unfoldable pub check_items : List Cleaned → DurationCleaner A → ℕ → Option (DurationCleaner A × ℕ)
  unfolding check_loop
  check_items cs cc now =
      if ltb now cc.zero_when then some (cc, cc.zero_when) else check_loop cs cc now

  -- The end of a round of `startClen`; `none` is the panic "never happened".
  unfoldable pub reset_timer : ℕ → DurationCleaner A × ℕ → Option (DurationCleaner A)
  reset_timer now (cc, poll_until) =
      if poll_until == 0
      then some cc
      else if leb poll_until now
      then none
      else some (record cc { timer = poll_until - now })

  unfoldable pub finish_round : ℕ → Option (DurationCleaner A × ℕ) → Option (DurationCleaner A)
  unfolding reset_timer
  finish_round now none = none
  finish_round now (some r) = reset_timer now r

  -- A round of `startClen`, when the timer fires.
  unfoldable pub clean_round : List Cleaned → DurationCleaner A → ℕ → Option (DurationCleaner A)
  unfolding check_items finish_round
  clean_round cs cc now = finish_round now (check_items cs cc now)
