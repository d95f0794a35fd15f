-- ===== src/Cleaner/Due.antt =====
-- What `runOne` does to the first item of a DurationCleaner.
use fasthttp.Base.{
  ℕ, zero, suc, ◌+◌, ◌-◌, ◌%◌, ◌^◌, ◌/◌, ◌<◌, ◌≤◌, u64, int64_limit, int64_lt, List, [], ◌∷◌, none, some, ◌≡◌, ◌≢◌, refl,
  sym, ap, subst, ◌∙◌, arith, Bool, true, false, ◌==◌, if◌then◌else◌, length, length-take, take,
  set,
}
use fasthttp.Cleaner.{
  CleanItem, DurationCleaner, Cleaned, is_time, at_least, absent, item_at, when_at, sift_down, sift_down_loop,
  update0_at, update0_when, deleted, cut_first, do_del0, kept_on, run_end, run_one,
}
use fasthttp.Cleaner.Sift.{
  length-set, get_or-set, get_or-set_other, set-get_or, get_or-take, tally, tally-set,
  tally-take_last, tally-at, IsHeap, Sinks,
}
use fasthttp.Cleaner.Up.{times, Kept}
use fasthttp.Cleaner.Down.{sift_down_loop_lem}
use fasthttp.Cleaner.Order.{
  is_zero, is_before, IsOrdered, sift_down-some, early-first, update0_at-kept, update0_when-early,
}

int64_lt-zero : (n : ℕ) → 0 < n → n < int64_limit → int64_lt 0 n ≡ true
int64_lt-zero n h lt = ground arith

at_least-pos :
    (d m : ℕ) → 0 < m → m < int64_limit → at_least d m < int64_limit → 0 < at_least d m
at_least-pos d m h lt fits = ground arith

module _ {ℓ} {A : Type ℓ} where
  abbrev pub bit : (CleanItem A → Bool) → CleanItem A → ℕ
  bit q t = if q t then 1 else 0

  timed-at :
      (items : List (CleanItem A)) (j : ℕ)
      → tally is_zero items ≡ 0
      → j < length items
      → is_time (when_at items j) ≡ true
  timed-at items j timed lt =
      let some_time = tally-at is_zero items absent j timed lt in ground arith

  sift_down_first :
      (items : List (CleanItem A))
      → 0 < length items
      → tally is_zero items ≡ 0
      → Sinks (length items) 0 (times items)
      → (r : List (CleanItem A)) × (sift_down items 0 ≡ some r)
        × IsHeap (length r) (times r)
        × Kept items r
  sift_down_first items lt timed sinks =
      let first = item_at items 0 in
      let stay : set items 0 first ≡ items = set-get_or items 0 absent in
      let sifted =
        sift_down_loop_lem (length items) items first 0 (omega arith) lt
          (subst (λ v. Sinks (length items) 0 (times v)) (sym stay) sinks) in
      (
        sift_down_loop (length items) items first 0,
        sift_down-some items 0 lt (timed-at items 0 timed lt),
        sifted.heap,
        subst (λ v. Kept v (sift_down_loop (length items) items first 0)) stay sifted.kept,
      )

  -- The items with the last one in front, and without it behind.
  abbrev cut : List (CleanItem A) → ℕ → List (CleanItem A)
  cut items last = take last (set items 0 (item_at items last))

  set-front :
      (items : List (CleanItem A)) (last : ℕ)
      → 0 < length items
      → item_at (set items 0 (item_at items last)) last ≡ item_at items last
  set-front [] last lt = refl
  set-front (x ∷ xs) zero lt = refl
  set-front (x ∷ xs) (suc last) lt = refl

  tally-cut :
      (q : CleanItem A → Bool) (items : List (CleanItem A)) (last : ℕ)
      → length items ≡ suc last
      → tally q (cut items last) + bit q (item_at items 0) ≡ tally q items
  tally-cut q items last h =
      let front = set items 0 (item_at items last) in
      let one = tally-set q items 0 (item_at items last) absent (omega (arith, h)) in
      let two = tally-take_last q last front absent (length-set items 0 (item_at items last) ∙ h) in
      let same : item_at front last ≡ item_at items last =
        set-front items last (omega (arith, h)) in
      omega (arith, one, two, ap (bit q) same)

  length-cut :
      (items : List (CleanItem A)) (last : ℕ)
      → length items ≡ suc last
      → length (cut items last) ≡ last
  length-cut items last h =
      length-take last (set items 0 (item_at items last))
      ∙ omega (arith, length-set items 0 (item_at items last), h)

  Sinks-cut :
      (items : List (CleanItem A)) (last : ℕ)
      → length items ≡ suc last
      → Sinks (length items) 0 (times items)
      → Sinks (length (cut items last)) 0 (times (cut items last))
  Sinks-cut items last h s = record {
    others = λ j pj jn up.
        let lt : j < last = omega (arith, length-cut items last h) in
        let at : (i : ℕ) → i ≢ 0 → i < last → times (cut items last) i ≡ times items i = λ i ne il.
          ap (λ t. t.when) (get_or-take last (set items 0 (item_at items last)) i absent il)
          ∙ ap (λ t. t.when)
              (get_or-set_other items 0 i (item_at items last) absent (λ e. ne (sym e))) in
        omega (
          arith,
          s.others j pj (omega (arith, h)) up,
          at j (λ e. omega (arith, e)) lt,
          at ((j - 1) / 4) up (omega arith),
        );
    below = λ j pj jn zz e. absurd (omega arith);
  }

  cut_first_lem :
      (items : List (CleanItem A)) (last : ℕ)
      → length items ≡ suc last
      → tally is_zero items ≡ 0
      → Sinks (length items) 0 (times items)
      → (r : List (CleanItem A)) × (cut_first items last ≡ some r)
        × IsHeap (length r) (times r)
        × (length r ≡ last)
        × ((q : CleanItem A → Bool) → tally q r + bit q (item_at items 0) ≡ tally q items)
  unfolding cut_first
  cut_first_lem items zero h timed sinks =
      ([], refl, λ j pj jn. absurd (omega arith), refl, λ q. tally-cut q items 0 h)
  cut_first_lem items (suc last) h timed sinks =
      let c = cut items (suc last) in
      let none_zero : tally is_zero c ≡ 0 = omega (arith, tally-cut is_zero items (suc last) h) in
      let (r, down, heap, kept) =
        sift_down_first c (omega (arith, length-cut items (suc last) h)) none_zero
          (Sinks-cut items (suc last) h sinks) in
      (
        r,
        (let nz : (suc last == 0) ≡ false = ground arith in rw nz down),
        heap,
        kept.same_length ∙ length-cut items (suc last) h,
        λ q. omega (arith, kept.same_items q, tally-cut q items (suc last) h),
      )

  -- `due` is the first item with its next time.
  abbrev pub due : DurationCleaner A → Cleaned → CleanItem A
  due cc c = record {
    client = (item_at cc.items 0).client;
    when = u64 (at_least c.duration cc.min_duration + c.now);
  }

  abbrev moved_first : DurationCleaner A → Cleaned → DurationCleaner A
  moved_first cc c = record cc { items = set cc.items 0 (due cc c) }

  -- What a call of runOne leaves.
  pub record Ran (cc cc' : DurationCleaner A) (c : Cleaned) (stops : Bool) : Type ℓ where
    pub ordered : IsOrdered cc'
    pub same_duration : cc'.min_duration ≡ cc.min_duration
    pub left :
        (q : CleanItem A → Bool)
        → tally q cc'.items + bit q (item_at cc.items 0)
          ≡ tally q cc.items + (if stops then 0 else bit q (due cc c))

  module _ (cc : DurationCleaner A) (c : Cleaned) (o : IsOrdered cc)
      (some_items : 0 < length cc.items) (on_time : when_at cc.items 0 ≤ c.now)
      (pause : 0 < cc.min_duration) (small : cc.min_duration < int64_limit)
      (fits : at_least c.duration cc.min_duration + c.now < int64_limit) where
    pub due_later : c.now < (due cc c).when
    due_later =
        let more = at_least-pos c.duration cc.min_duration pause small (omega arith) in
        omega arith

    due_is_time : is_time (due cc c).when ≡ true
    due_is_time = int64_lt-zero (due cc c).when (omega (arith, due_later)) (omega arith)

    moved_items : List (CleanItem A)
    moved_items = set cc.items 0 (due cc c)

    tally-moved :
        (q : CleanItem A → Bool)
        → tally q moved_items + bit q (item_at cc.items 0) ≡ tally q cc.items + bit q (due cc c)
    unfolding moved_items
    tally-moved q = tally-set q cc.items 0 (due cc c) absent some_items

    moved-timed : tally is_zero moved_items ≡ 0
    moved-timed =
        let later : bit is_zero (due cc c) ≡ 0 = rw due_is_time refl in
        omega (arith, tally-moved is_zero, o.timed, later)

    moved-Sinks : Sinks (length moved_items) 0 (times moved_items)
    unfolding moved_items
    moved-Sinks = record {
      others = λ j pj jn up. omega (
        arith,
        o.heap j pj (omega (arith, length-set cc.items 0 (due cc c))),
        ap (λ t. t.when) (get_or-set_other cc.items 0 j (due cc c) absent (λ e. omega (arith, e))),
        ap (λ t. t.when)
            (get_or-set_other cc.items 0 ((j - 1) / 4) (due cc c) absent (λ e. up (sym e))),
      );
      below = λ j pj jn zz e. absurd (omega arith);
    }

    moved-early : tally (is_before cc.zero_when) moved_items ≡ 0
    moved-early =
        let first = early-first cc.zero_when cc.items o.early some_items in
        let after = due_later in let later : bit (is_before cc.zero_when) (due cc c) ≡ 0 = ground arith in
        omega (arith, tally-moved (is_before cc.zero_when), o.early, later)

    -- The item stops or goes on.
    run_end_lem :
        (stops : Bool)
        → (cc' : DurationCleaner A) × (run_end (moved_first cc c) stops c.later ≡ some cc')
          × Ran cc cc' c stops
    unfolding run_end kept_on do_del0 deleted update0_when moved_items
    run_end_lem false =
        let longer = length-set cc.items 0 (due cc c) in
        let (r, down, heap, kept) =
          sift_down_first moved_items (omega (arith, longer)) moved-timed moved-Sinks in
        (
          record cc { items = r },
          ap (kept_on (moved_first cc c)) down,
          record {
            ordered = record {
              heap = heap;
              timed = kept.same_items is_zero ∙ moved-timed;
              counted = omega (arith, o.counted, kept.same_length, longer);
              early = kept.same_items (is_before cc.zero_when) ∙ moved-early;
            };
            same_duration = refl;
            left = λ q. omega (arith, kept.same_items q, tally-moved q);
          },
        )
    run_end_lem true =
        let longer = length-set cc.items 0 (due cc c) in
        let last = length moved_items - 1 in
        let (r, cut_it, heap, shorter, fewer) =
          cut_first_lem moved_items last (omega (arith, longer)) moved-timed moved-Sinks in
        let cc1 : DurationCleaner A = record (moved_first cc c) { items = r } in
        let cc2 = update0_at cc1 c.later r in
        let (items, count, pause_kept) = update0_at-kept cc1 c.later r in
        let not_empty : (length moved_items == 0) ≡ false = ground (arith, longer) in
        let front : item_at moved_items 0 ≡ due cc c =
          get_or-set cc.items 0 (due cc c) absent some_items in
        (
          record cc2 { num_items = (cc2.num_items + (2 ^ 32 - 1)) % 2 ^ 32 },
          ap
                (λ b.
                  if b
                  then none
                  else deleted (moved_first cc c) c.later (cut_first moved_items last))
                not_empty
              ∙ ap (deleted (moved_first cc c) c.later) cut_it,
          record {
            ordered = record {
              heap = rw items heap;
              timed = rw items (omega (arith, fewer is_zero, moved-timed));
              counted = rw items (rw count (omega (arith, o.counted, shorter, longer)));
              early = rw items (update0_when-early cc1 c.later heap);
            };
            same_duration = pause_kept;
            left = λ q. rw items (omega (arith, fewer q, tally-moved q, ap (bit q) front));
          },
        )

    pub run_one_lem :
        (cc' : DurationCleaner A) × (run_one cc (item_at cc.items 0) c ≡ some cc')
        × Ran cc cc' c c.stop
    unfolding run_one
    run_one_lem = run_end_lem c.stop
