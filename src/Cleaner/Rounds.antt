-- ===== src/Cleaner/Rounds.antt =====
-- A round of the cleaner: every item that is due runs, and the timer is set for the next one.
use fasthttp.Base.{ℕ, ◌+◌, ◌<◌, ◌≤◌, List, ◌≡◌, ◌≢◌, length}
use fasthttp.Cleaner.{CleanItem, DurationCleaner, when_at}
use fasthttp.Cleaner.Sift.{tally}
use fasthttp.Cleaner.Order.{is_before, IsOrdered}

module _ {ℓ} {A : Type ℓ} where
  -- How many items are due at `now`.
  abbrev pub overdue : ℕ → List (CleanItem A) → ℕ
  overdue now items = tally (is_before (now + 1)) items

  -- Nothing is due any more, and the time that is returned is that of the first item, or 0.
  record Checked (cc : DurationCleaner A) (now poll : ℕ) : Type ℓ where
    ordered : IsOrdered cc
    none_due : overdue now cc.items ≡ 0
    next : 0 < length cc.items → (now < poll) × (poll ≤ when_at cc.items 0)
    only_then : poll ≢ 0 → now < poll

  -- What a round of the cleaner leaves.
  pub record CleanedUp (cc : DurationCleaner A) (now : ℕ) : Type ℓ where
    pub ordered : IsOrdered cc
    pub none_due : overdue now cc.items ≡ 0
    pub next : 0 < length cc.items → (0 < cc.timer) × (now + cc.timer ≤ when_at cc.items 0)
