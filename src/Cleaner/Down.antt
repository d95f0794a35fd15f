-- ===== src/Cleaner/Down.antt =====
-- What `siftDown` does to a heap with one item that may be due too late.
use fasthttp.Base.{
  ℕ, zero, suc, ◌+◌, ◌-◌, ◌*◌, ◌/◌, ◌<◌, ◌≤◌, List, ◌≡◌, ◌≢◌, sym, ap, subst, arith, true, false,
  ◌&&◌, ltb, leb, length, set, Bool-cases, leb→le, dec_lt, inl, inr, ℕ_discrete,
}
use fasthttp.Cleaner.{CleanItem, absent, item_at, when_at, lesser, min_child, sift_down_loop}
use fasthttp.Cleaner.Sift.{length-set, get_or-set, get_or-set_other, Sinks, Sinks-swap}
use fasthttp.Cleaner.Up.{times, Kept-refl, Kept-trans, moved, moved-Swaps, moved-Kept, Sifted}

both_lt : (a b x y : ℕ) → (ltb a b && ltb x y) ≡ true → (a < b) × (x < y)
both_lt a b x y h = (ground arith, ground arith)

either_le : (a b x y : ℕ) → (ltb a b && ltb x y) ≡ false → a < b → y ≤ x
either_le a b x y h lt = ground arith

module _ {ℓ} {A : Type ℓ} where
  -- A choice among the neighbours from `c` on that are there.
  record IsLeast (items : List (CleanItem A)) (c width k : ℕ) : Type 0 where
    low : c ≤ k
    high : k < c + width
    inside : k < length items
    least : (j : ℕ) → c ≤ j → j < c + width → j < length items → when_at items k ≤ when_at items j

  lesser-IsLeast :
      (items : List (CleanItem A)) (c : ℕ) → c < length items → IsLeast items c 2 (lesser items c)
  unfolding lesser
  lesser-IsLeast items c lt =
      elim (Bool-cases
        (ltb (c + 1) (length items) && ltb (when_at items (c + 1)) (when_at items c))) [
          | inl yes_next ↦
              let (next, less) =
                both_lt (c + 1) (length items) (when_at items (c + 1)) (when_at items c) yes_next in
              rw yes_next (record {
                low = omega arith;
                high = omega arith;
                inside = next;
                least = λ j cj jc jn. elim (ℕ_discrete j c) [
                  | yes e ↦ omega (arith, less, ap (when_at items) e)
                  | no ne ↦
                      (let next_j : j ≡ c + 1 = omega arith in
                        omega (arith, ap (when_at items) next_j))
                ];
              })
          | inr no_next ↦ rw no_next (record {
            low = omega arith;
            high = omega arith;
            inside = lt;
            least = λ j cj jc jn. elim (ℕ_discrete j c) [
              | yes e ↦ omega (arith, ap (when_at items) e)
              | no ne ↦
                  (let next_j : j ≡ c + 1 = omega arith in
                    omega (
                      arith,
                      ap (when_at items) next_j,
                      either_le (c + 1) (length items) (when_at items (c + 1)) (when_at items c)
                          no_next (omega arith),
                    ))
            ];
          })
        ]

  min_child-IsLeast :
      (items : List (CleanItem A)) (c : ℕ)
      → c < length items
      → IsLeast items c 4 (min_child items c)
  unfolding min_child
  min_child-IsLeast items c lt =
      let a = lesser-IsLeast items c lt in
      elim (Bool-cases (
        ltb (c + 2) (length items)
        && ltb (when_at items (lesser items (c + 2))) (when_at items (lesser items c)))) [
          | inl right ↦ rw right (
              let (there, less) =
                both_lt (c + 2) (length items) (when_at items (lesser items (c + 2)))
                  (when_at items (lesser items c)) right in
              let b = lesser-IsLeast items (c + 2) there in
              record {
                low = omega (arith, b.low);
                high = omega (arith, b.high);
                inside = b.inside;
                least = λ j cj jc jn. elim (dec_lt j (c + 2)) [
                  | yes near ↦ omega (arith, less, a.least j cj near jn)
                  | no far ↦ b.least j (omega arith) (omega arith) jn
                ];
              })
          | inr left ↦ rw left (record {
            low = a.low;
            high = omega (arith, a.high);
            inside = a.inside;
            least = λ j cj jc jn. elim (dec_lt j (c + 2)) [
              | yes near ↦ a.least j cj near jn
              | no far ↦
                  (let there : c + 2 < length items = omega arith in
                    let b = lesser-IsLeast items (c + 2) there in
                    omega (
                      arith,
                      either_le (c + 2) (length items) (when_at items (lesser items (c + 2)))
                          (when_at items (lesser items c)) left there,
                      b.least j (omega arith) (omega arith) jn,
                    ))
            ];
          })
        ]

  pub sift_down_loop_lem :
      (fuel : ℕ) (items : List (CleanItem A)) (tmp : CleanItem A) (i : ℕ)
      → length items ≤ i + fuel
      → i < length items
      → Sinks (length items) i (times (set items i tmp))
      → Sifted (set items i tmp) (sift_down_loop fuel items tmp i)
  unfolding sift_down_loop
  sift_down_loop_lem zero items tmp i le lt r = absurd (omega arith)
  sift_down_loop_lem (suc fuel) items tmp i le lt r =
      let same = length-set items i tmp in
      elim (Bool-cases (leb (length items) (i * 4 + 1))) [
        | inl leaf ↦ rw leaf (record {
          heap = λ j pj jn. r.others j pj (omega (arith, same)) (λ q. ground (arith, q, same));
          kept = Kept-refl _;
        })
        | inr inner ↦
            let first : i * 4 + 1 < length items = ground arith in
            let c = min_child items (i * 4 + 1) in
            let m = min_child-IsLeast items (i * 4 + 1) first in
            let ne : i ≢ c = λ q. omega (arith, q, m.low) in
            let at_when = ap (λ t. t.when) (get_or-set items i tmp absent lt) in
            let least : (j : ℕ)
                → 0 < j
                → j < length items
                → (j - 1) / 4 ≡ i
                → when_at items c ≤ times (set items i tmp) j =
              λ j pj jn e. omega (
                arith,
                m.least j (omega arith) (omega arith) jn,
                ap (λ t. t.when) (get_or-set_other items i j tmp absent (λ q. omega (arith, q))),
              ) in
            elim (Bool-cases (leb tmp.when (when_at items c))) [
              | inl small ↦ rw inner (
                  rw small (record {
                    heap = λ j pj jn. elim (ℕ_discrete ((j - 1) / 4) i) [
                      | yes e ↦ omega (
                        arith,
                        at_when,
                        ap (times (set items i tmp)) e,
                        least j pj (omega (arith, same)) e,
                        leb→le tmp.when (when_at items c) small,
                      )
                      | no ne' ↦ r.others j pj (omega (arith, same)) ne'
                    ];
                    kept = Kept-refl _;
                  }))
              | inr large ↦
                  let less : when_at items c < tmp.when = ground arith in
                  let swaps = moved-Swaps items tmp i c lt m.inside ne in
                  let child : (c - 1) / 4 ≡ i = omega (arith, m.low, m.high) in
                  let here : times (set items i tmp) c ≡ when_at items c =
                    ap (λ t. t.when) (get_or-set_other items i c tmp absent ne) in
                  let sunk =
                    Sinks-swap (length items) i c (times (set items i tmp))
                      (times (set (moved items tmp i c lt m.inside ne) c tmp)) child
                      (omega (arith, m.low)) m.inside
                      (λ j pj jn e. omega (arith, here, least j pj jn e)) r swaps
                      (omega (arith, here, less, at_when)) in
                  let longer = length-set items i (item_at items c) in
                  let rest =
                    sift_down_loop_lem fuel (set items i (item_at items c)) tmp c
                      (omega (arith, longer, m.low)) (omega (arith, longer, m.inside))
                      (subst
                        (λ n. Sinks n c (times (set (moved items tmp i c lt m.inside ne) c tmp)))
                        (sym longer) sunk) in
                  rw inner (
                    rw large (record {
                      heap = rest.heap;
                      kept = Kept-trans _ _ _ (moved-Kept items tmp i c lt m.inside ne) rest.kept;
                    }))
            ]
      ]
