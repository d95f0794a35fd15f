-- ===== src/LbClient/Choice.antt =====
-- Which client `get` chooses.
use fasthttp.Base.{ℕ, ◌≤◌, ◌<◌, List, [], ◌∷◌, some, ◌≡◌, ◌⊎◌, inl, arith, All, refl, ◌≢◌}
use fasthttp.LbClient.{LbEntry, pending_requests, least, get}

module _ {C : Type 0} (pending : C → ℕ) where
  abbrev pub load : LbEntry C → ℕ
  load e = pending_requests pending e

  -- `a` is no more loaded than `b`, and has no more requests behind it where the loads are equal.
  abbrev pub NoWorse : LbEntry C → LbEntry C → Type 0
  NoWorse a b = (load a < load b) ⊎ ((load a ≡ load b) × (a.total ≤ b.total))

  abbrev pub IsIn : LbEntry C → List (LbEntry C) → Type 0
  IsIn a [] = ⊥
  IsIn a (e ∷ cs) = (a ≡ e) ⊎ IsIn a cs

  NoWorse-trans : (a b c : LbEntry C) → NoWorse a b → NoWorse b c → NoWorse a c
  NoWorse-trans a b c h k = ground arith

  least-IsIn : (best : LbEntry C) (cs : List (LbEntry C)) → IsIn (least pending best cs) (best ∷ cs)
  unfolding least
  least-IsIn best [] = inl refl
  least-IsIn best (e ∷ cs) = ground (arith, least-IsIn best cs, least-IsIn e cs)

  least-NoWorse :
      (best : LbEntry C) (cs : List (LbEntry C)) → All (NoWorse (least pending best cs)) (best ∷ cs)
  unfolding least
  least-NoWorse best [] = ground arith
  least-NoWorse best (e ∷ cs) = ground (
    arith,
    least-NoWorse best cs,
    least-NoWorse e cs,
    NoWorse-trans (least pending best cs) best e,
    NoWorse-trans (least pending e cs) e best,
  )

  -- `get` returns a client of the list, and none of the list has a smaller load, nor the same load
  -- and fewer requests behind it. It panics on an empty list alone.
  pub get_lem :
      (cs : List (LbEntry C))
      → cs ≢ []
      → (e : LbEntry C) × (get pending cs ≡ some e) × IsIn e cs × All (NoWorse e) cs
  unfolding get
  get_lem [] h = absurd (h refl)
  get_lem (e ∷ cs) h = (least pending e cs, refl, least-IsIn e cs, least-NoWorse e cs)
