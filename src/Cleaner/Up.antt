-- ===== src/Cleaner/Up.antt =====
-- What `siftUp` does to a heap with one item that may be due too early.
use fasthttp.Base.{
  ℕ, zero, suc, ◌-◌, ◌/◌, ◌<◌, ◌≤◌, List, ◌≡◌, ◌≢◌, refl, sym, ap, subst, ◌∙◌, arith, Bool, ◌==◌,
  leb, if◌then◌else◌, length, set, Bool-cases, leb→le, inl, inr, ℕ_discrete,
}
use fasthttp.Cleaner.{CleanItem, absent, item_at, when_at, sift_up_loop}
use fasthttp.Cleaner.Sift.{
  length-set, get_or-set, get_or-set_other, tally, tally-set, IsHeap, Rises, Rises-swap, Swaps,
}

module _ {ℓ} {A : Type ℓ} where
  abbrev pub times : List (CleanItem A) → ℕ → ℕ
  times items j = when_at items j

  -- The same items in another order.
  pub record Kept (v r : List (CleanItem A)) : Type ℓ where
    pub same_length : length r ≡ length v
    pub same_items : (q : CleanItem A → Bool) → tally q r ≡ tally q v

  module _ (items : List (CleanItem A)) (tmp : CleanItem A) (i c : ℕ) (hi : i < length items)
      (hc : c < length items) (ne : i ≢ c) where
    abbrev pub moved : List (CleanItem A)
    moved = set items i (item_at items c)

    pub moved-Swaps : Swaps i c (times (set items i tmp)) (times (set moved c tmp))
    moved-Swaps = record {
      here =
          ap (λ t. t.when) (get_or-set_other moved c i tmp _ (λ q. ne (sym q)))
          ∙ ap (λ t. t.when) (get_or-set items i (item_at items c) _ hi)
          ∙ sym (ap (λ t. t.when) (get_or-set_other items i c tmp _ ne));
      there =
          ap (λ t. t.when)
            (get_or-set moved c tmp _ (omega (arith, length-set items i (item_at items c))))
          ∙ sym (ap (λ t. t.when) (get_or-set items i tmp _ hi));
      else_where = λ j ji jc.
          ap (λ t. t.when) (get_or-set_other moved c j tmp _ (λ q. jc (sym q)))
          ∙ ap (λ t. t.when) (get_or-set_other items i j (item_at items c) _ (λ q. ji (sym q)))
          ∙ sym (ap (λ t. t.when) (get_or-set_other items i j tmp _ (λ q. ji (sym q))));
    }

    pub moved-Kept : Kept (set items i tmp) (set moved c tmp)
    moved-Kept = record {
      same_length =
          length-set moved c tmp
          ∙ length-set items i (item_at items c)
          ∙ sym (length-set items i tmp);
      same_items = λ q.
          let one = tally-set q items i tmp absent hi in
          let two = tally-set q items i (item_at items c) absent hi in
          let three =
            tally-set q moved c tmp absent (omega (arith, length-set items i (item_at items c))) in
          let same =
            ap {B = ℕ} (λ t. if q t then 1 else 0)
              (get_or-set_other items i c (item_at items c) absent ne) in
          omega (arith, one, two, three, same);
    }

  -- What both loops promise of `v`, the items with the one that moves in its place.
  pub record Sifted (v r : List (CleanItem A)) : Type ℓ where
    pub heap : IsHeap (length r) (times r)
    pub kept : Kept v r

  pub Kept-refl : (v : List (CleanItem A)) → Kept v v
  Kept-refl v = record { same_length = refl; same_items = λ q. refl }

  pub Kept-trans : (u v r : List (CleanItem A)) → Kept u v → Kept v r → Kept u r
  Kept-trans u v r a b = record {
    same_length = b.same_length ∙ a.same_length;
    same_items = λ q. b.same_items q ∙ a.same_items q;
  }

  pub sift_up_loop_lem :
      (fuel : ℕ) (items : List (CleanItem A)) (tmp : CleanItem A) (i : ℕ)
      → i ≤ fuel
      → i < length items
      → Rises (length items) i (times (set items i tmp))
      → Sifted (set items i tmp) (sift_up_loop fuel items tmp i).0
        × (0 < (sift_up_loop fuel items tmp i).1
            → (0 < i) × (item_at (sift_up_loop fuel items tmp i).0 0 ≡ item_at items 0))
  unfolding sift_up_loop
  sift_up_loop_lem zero items tmp i le lt r = (
    record {
      heap = λ j pj jn. r.others j pj (omega (arith, length-set items i tmp)) (omega arith);
      kept = Kept-refl _;
    },
    λ h. absurd (omega arith),
  )
  sift_up_loop_lem (suc fuel) items tmp i le lt r =
      let p = (i - 1) / 4 in
      elim (Bool-cases (i == 0)) [
        | inl z ↦ rw z (
          record {
            heap = λ j pj jn. r.others j pj (omega (arith, length-set items i tmp)) (ground arith);
            kept = Kept-refl _;
          },
          λ h. absurd (ground arith),
        )
        | inr nz ↦
            let pos_i : 0 < i = ground arith in
            let up = get_or-set_other items i p tmp absent (λ q. omega (arith, q)) in
            let at = get_or-set items i tmp absent lt in
            elim (Bool-cases (leb (when_at items p) tmp.when)) [
              | inl small ↦ rw nz (
                  rw small (
                    record {
                      heap = λ j pj jn. elim (ℕ_discrete j i) [
                        | yes e ↦ omega (
                          arith,
                          ap (λ t. t.when) up,
                          ap (λ t. t.when) at,
                          ap (times (set items i tmp)) e,
                          ap (λ k. times (set items i tmp) ((k - 1) / 4)) e,
                          leb→le (when_at items p) tmp.when small,
                        )
                        | no ne ↦ r.others j pj (omega (arith, length-set items i tmp)) ne
                      ];
                      kept = Kept-refl _;
                    },
                    λ h. (pos_i, get_or-set_other items i 0 tmp _ (λ q. omega (arith, q))),
                  ))
              | inr large ↦ rw nz (
                  rw large (
                    let ne : i ≢ p = λ q. omega (arith, q) in
                    let hp : p < length items = omega arith in
                    let less : tmp.when < when_at items p = ground arith in
                    let swaps = moved-Swaps items tmp i p lt hp ne in
                    let rest =
                      sift_up_loop_lem fuel (set items i (item_at items p)) tmp p (omega arith)
                        (omega (arith, length-set items i (item_at items p)))
                        (subst (λ n. Rises n p (times (set (moved items tmp i p lt hp ne) p tmp)))
                          (sym (length-set items i (item_at items p)))
                          (Rises-swap (length items) i _ _ pos_i lt r swaps
                            (omega (arith, less, ap (λ t. t.when) up, ap (λ t. t.when) at)))) in
                    (
                      record {
                        heap = rest.0.heap;
                        kept = Kept-trans _ _ _ (moved-Kept items tmp i p lt hp ne) rest.0.kept;
                      },
                      λ h. (
                        pos_i,
                        (rest.1 h).1
                            ∙ get_or-set_other items i 0 (item_at items p) _
                                (λ q. omega (arith, q)),
                      ),
                    )))
            ]
      ]
