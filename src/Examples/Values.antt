-- ===== src/Examples/Values.antt =====
-- User values and open connections.
use fasthttp.Base.{ℕ, ◌≤◌, List, [], ◌∷◌, some, ◌≡◌, refl, arith, ◌==◌, ==_iff}
use fasthttp.PerIp.{Counter, new_counter, read, register}
use fasthttp.PerIp.Counting.{accept, close, run, open_after, run-counts}
use fasthttp.UserData.{KeyEq, UserDataKv, get, remove}
use fasthttp.UserData.Laws.{Distinct, get-remove}

instance number_keys : KeyEq ℕ
number_keys = record { same = λ a b. a == b; same_iff = ==_iff }

abbrev three : List (UserDataKv ℕ ℕ)
three =
    record { key = 1; value = some 10 }
    ∷ record { key = 2; value = some 20 }
    ∷ record { key = 3; value = some 30 }
    ∷ []

three-Distinct : Distinct three
unfolding number_keys
three-Distinct = ((refl, (refl, tt)), ((refl, tt), (tt, tt)))

get-remove_example : get (remove three 1) 3 ≡ some 30
unfolding get number_keys
get-remove_example = get-remove three 1 3 three-Distinct

run-counts_example :
    (cc : Counter) × (run new_counter (accept 7 ∷ accept 7 ∷ close 7 ∷ []) ≡ some cc)
    × ((ip : ℕ) → read cc.m ip ≡ open_after ip 0 (accept 7 ∷ accept 7 ∷ close 7 ∷ []))
run-counts_example = run-counts (accept 7 ∷ accept 7 ∷ close 7 ∷ []) (omega arith, tt)

-- Address 7 has one connection, and two are allowed.
abbrev one_open : Counter
one_open = (register new_counter 7).0

one_open-le : (j : ℕ) → read one_open.m j ≤ 2
unfolding register
one_open-le j = ground arith
