-- ===== src/Base/Search.antt =====
-- Searches in byte strings that are put together, and where they are cut.
use Prim.Native.Nat.{ℕ, suc, ◌+◌}
use mathlib.Core.Path.{◌≡◌, refl, ap}
use mathlib.Core.Logic.{◌≢◌}
use mathlib.Core.List.{List, [], ◌∷◌, ◌++◌}
use mathlib.Core.Option.{none, some}
use native.Mathlib.Omega.{arith}
use fasthttp.Base.Lists.{All, length, take, drop}
use fasthttp.Base.Strings.{Bytes, index_byte, last_index_byte}

-- No byte of `s` is `c`.
abbrev pub Lacks : ℕ → Bytes → Type 0
Lacks c = All (λ x. x ≢ c)

pub index_byte-first :
    (c : ℕ) (xs ys : Bytes) → Lacks c xs → index_byte (xs ++ c ∷ ys) c ≡ some (length xs)
unfolding index_byte
index_byte-first c [] ys l = ground arith
index_byte-first c (x ∷ xs) ys (ne, l) = ground (arith, index_byte-first c xs ys l)

pub index_byte-Lacks : (c : ℕ) (xs : Bytes) → Lacks c xs → index_byte xs c ≡ none
unfolding index_byte
index_byte-Lacks c [] l = refl
index_byte-Lacks c (x ∷ xs) (ne, l) = ground (arith, index_byte-Lacks c xs l)

pub last_index_byte-Lacks : (c : ℕ) (xs : Bytes) → Lacks c xs → last_index_byte xs c ≡ none
unfolding last_index_byte
last_index_byte-Lacks c [] l = refl
last_index_byte-Lacks c (x ∷ xs) (ne, l) = ground (arith, last_index_byte-Lacks c xs l)

pub last_index_byte-last :
    (c : ℕ) (xs ys : Bytes) → Lacks c ys → last_index_byte (xs ++ c ∷ ys) c ≡ some (length xs)
unfolding last_index_byte
last_index_byte-last c [] ys l = ground (arith, last_index_byte-Lacks c ys l)
last_index_byte-last c (x ∷ xs) ys l = ground (arith, last_index_byte-last c xs ys l)

module _ {ℓ} {A : Type ℓ} where
  pub take_front : (xs ys : List A) → take (length xs) (xs ++ ys) ≡ xs
  take_front [] ys = refl
  take_front (x ∷ xs) ys = ap (λ t. x ∷ t) (take_front xs ys)

  pub drop_front : (xs ys : List A) → drop (length xs) (xs ++ ys) ≡ ys
  drop_front [] ys = refl
  drop_front (x ∷ xs) ys = drop_front xs ys

  pub drop_front_more : (k : ℕ) (xs ys : List A) → drop (length xs + k) (xs ++ ys) ≡ drop k ys
  drop_front_more k [] ys = let e : 0 + k ≡ k = omega arith in rw e refl
  drop_front_more k (x ∷ xs) ys =
      let e : suc (length xs) + k ≡ suc (length xs + k) = omega arith in
      rw e (drop_front_more k xs ys)
