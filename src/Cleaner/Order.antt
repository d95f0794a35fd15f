-- ===== src/Cleaner/Order.antt =====
-- The state of a DurationCleaner that its operations keep.
use fasthttp.Base.{
  ℕ, suc, ◌+◌, ◌%◌, ◌^◌, ◌<◌, ◌≤◌, List, [], ◌∷◌, some, ◌≡◌, refl, arith, Bool, not, true, ◌==◌,
  ltb, if◌then◌else◌, length, Bool-cases, inl, inr,
}
use fasthttp.Cleaner.{
  CleanItem, DurationCleaner, is_time, absent, item_at, when_at, sift_up, sift_up_loop, sift_down,
  sift_down_loop, update0_at, update0_when,
}
use fasthttp.Cleaner.Sift.{tally, tally-none, tally-at, IsHeap, IsHeap-first}
use fasthttp.Cleaner.Up.{times}

module _ {ℓ} {A : Type ℓ} where
  abbrev pub is_zero : CleanItem A → Bool
  is_zero t = not (is_time t.when)

  abbrev pub is_before : ℕ → CleanItem A → Bool
  is_before z t = ltb t.when z

  -- The items are a heap of due times that are positive, `numItems` counts them in 32 bits, and none is
  -- due before `zeroWhen`.
  pub record IsOrdered (cc : DurationCleaner A) : Type ℓ where
    pub heap : IsHeap (length cc.items) (times cc.items)
    pub timed : tally is_zero cc.items ≡ 0
    pub counted : cc.num_items ≡ length cc.items % 2 ^ 32
    pub early : tally (is_before cc.zero_when) cc.items ≡ 0

  -- `siftUp` and `siftDown` do not panic on an item with a time.
  pub sift_up-some :
      (items : List (CleanItem A)) (i : ℕ)
      → i < length items
      → is_time (when_at items i) ≡ true
      → sift_up items i ≡ some (sift_up_loop i items (item_at items i) i)
  unfolding sift_up
  sift_up-some items i lt timed = ground arith

  pub sift_down-some :
      (items : List (CleanItem A)) (i : ℕ)
      → i < length items
      → is_time (when_at items i) ≡ true
      → sift_down items i ≡ some (sift_down_loop (length items) items (item_at items i) i)
  unfolding sift_down
  sift_down-some items i lt timed = ground arith

  -- A heap whose first item is not due before `z` has no item before `z`.
  pub IsHeap-early :
      (z : ℕ) (items : List (CleanItem A))
      → IsHeap (length items) (times items)
      → (0 < length items → z ≤ when_at items 0)
      → tally (is_before z) items ≡ 0
  IsHeap-early z items heap first = tally-none (is_before z) items absent λ j lt.
      let least = IsHeap-first (length items) (times items) j j heap lt (omega arith) in
      let bound = first (omega arith) in ground arith

  pub early-first :
      (z : ℕ) (items : List (CleanItem A))
      → tally (is_before z) items ≡ 0
      → 0 < length items
      → z ≤ when_at items 0
  early-first z items early lt =
      let not_before = tally-at (is_before z) items absent 0 early lt in ground arith

  -- What `update0When` leaves alone.
  pub update0_at-kept :
      (cc : DurationCleaner A) (now : ℕ) (xs : List (CleanItem A))
      → ((update0_at cc now xs).items ≡ cc.items)
        × ((update0_at cc now xs).num_items ≡ cc.num_items)
        × ((update0_at cc now xs).min_duration ≡ cc.min_duration)
  unfolding update0_at
  update0_at-kept cc now [] = (refl, refl, refl)
  update0_at-kept cc now (t ∷ xs) = elim (Bool-cases (cc.zero_when == t.when)) [
    | inl same ↦ rw same (refl, refl, refl)
    | inr other ↦ rw other (refl, refl, refl)
  ]

  update0_at-first :
      (cc : DurationCleaner A) (now : ℕ) (xs : List (CleanItem A))
      → 0 < length xs
      → (update0_at cc now xs).zero_when ≤ when_at xs 0
  unfolding update0_at
  update0_at-first cc now [] h = absurd (omega arith)
  update0_at-first cc now (t ∷ xs) h = elim (Bool-cases (cc.zero_when == t.when)) [
    | inl same ↦ rw same (ground arith)
    | inr other ↦ rw other (omega arith)
  ]

  pub update0_when-early :
      (cc : DurationCleaner A) (now : ℕ)
      → IsHeap (length cc.items) (times cc.items)
      → tally (is_before (update0_when cc now).zero_when) cc.items ≡ 0
  unfolding update0_when
  update0_when-early cc now heap =
      IsHeap-early (update0_at cc now cc.items).zero_when cc.items heap
        (update0_at-first cc now cc.items)

  -- What is known of the items after an item is added.
  record Added (items r : List (CleanItem A)) (item : CleanItem A) (k : ℕ) : Type ℓ where
    heap : IsHeap (length r) (times r)
    longer : length r ≡ suc (length items)
    more : (q : CleanItem A → Bool) → tally q r ≡ tally q items + (if q item then 1 else 0)
    first : 0 < k → (0 < length items) × (item_at r 0 ≡ item_at items 0)

  -- An item more, of which the heap keeps the order.
  pub record Registered (cc cc' : DurationCleaner A) (item : CleanItem A) : Type ℓ where
    pub ordered : IsOrdered cc'
    pub more :
        (q : CleanItem A → Bool) → tally q cc'.items ≡ tally q cc.items + (if q item then 1 else 0)
