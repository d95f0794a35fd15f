-- ===== src/Uri/Path/Fuel.antt =====
-- The length of the path is fuel enough for the first two loops of `normalizePath`.
use fasthttp.Base.{
  ℕ, zero, suc, ◌+◌, ◌≤◌, ◌++◌, none, some, ◌≡◌, refl, sym, ◌∙◌, arith, Bytes, length, take, drop,
  index, Option-cases, inl, inr, length-append, length-take, length-drop,
}
use fasthttp.Uri.Path.{str_slash_slash, str_slash_dot_slash, dedupe, remove_dot}
use fasthttp.Uri.Path.Search.{index-fits}

dedupe_end :
    (fuel : ℕ) (done b : Bytes) → index b str_slash_slash ≡ none → dedupe fuel done b ≡ done ++ b
unfolding dedupe
dedupe_end zero done b e = refl
dedupe_end (suc fuel) done b e = rw (e, dedupe) refl

dedupe_again :
    (fuel : ℕ) (done b : Bytes) (n : ℕ)
    → index b str_slash_slash ≡ some n
    → dedupe (suc fuel) done b ≡ dedupe fuel (done ++ take n b) (drop (n + 1) b)
unfolding dedupe
dedupe_again fuel done b n e = rw (e, dedupe) refl

-- More fuel than the length of the path changes nothing.
pub dedupe_lem :
    (fuel : ℕ) (done b : Bytes) → length b ≤ fuel → dedupe (suc fuel) done b ≡ dedupe fuel done b
dedupe_lem zero done b h = elim (Option-cases (index b str_slash_slash)) [
  | inl over ↦ dedupe_end 1 done b over ∙ sym (dedupe_end 0 done b over)
  | inr (n, e) ↦ absurd (omega (arith, h, index-fits b str_slash_slash n e))
]
dedupe_lem (suc fuel) done b h = elim (Option-cases (index b str_slash_slash)) [
  | inl over ↦ dedupe_end (suc (suc fuel)) done b over ∙ sym (dedupe_end (suc fuel) done b over)
  | inr (n, e) ↦
      let shorter : length (drop (n + 1) b) ≤ fuel =
        omega (arith, h, index-fits b str_slash_slash n e, length-drop (n + 1) b) in
      dedupe_again (suc fuel) done b n e
      ∙ dedupe_lem fuel (done ++ take n b) (drop (n + 1) b) shorter
      ∙ sym (dedupe_again fuel done b n e)
]

remove_dot_end : (fuel : ℕ) (b : Bytes) → index b str_slash_dot_slash ≡ none → remove_dot fuel b ≡ b
unfolding remove_dot
remove_dot_end zero b e = refl
remove_dot_end (suc fuel) b e = rw (e, remove_dot) refl

remove_dot_again :
    (fuel : ℕ) (b : Bytes) (n : ℕ)
    → index b str_slash_dot_slash ≡ some n
    → remove_dot (suc fuel) b ≡ remove_dot fuel (take n b ++ drop (n + 2) b)
unfolding remove_dot
remove_dot_again fuel b n e = rw (e, remove_dot) refl

-- With the length of the path as fuel no "/./" is left.
pub remove_dot-index :
    (fuel : ℕ) (b : Bytes) → length b ≤ fuel → index (remove_dot fuel b) str_slash_dot_slash ≡ none
remove_dot-index zero b h = elim (Option-cases (index b str_slash_dot_slash)) [
  | inl over ↦ rw (remove_dot_end 0 b over) over
  | inr (n, e) ↦ absurd (omega (arith, h, index-fits b str_slash_dot_slash n e))
]
remove_dot-index (suc fuel) b h = elim (Option-cases (index b str_slash_dot_slash)) [
  | inl over ↦ rw (remove_dot_end (suc fuel) b over) over
  | inr (n, e) ↦
      let shorter : length (take n b ++ drop (n + 2) b) ≤ fuel = omega (
        arith,
        h,
        index-fits b str_slash_dot_slash n e,
        length-append (take n b) (drop (n + 2) b),
        length-take n b,
        length-drop (n + 2) b,
      ) in
      rw (remove_dot_again fuel b n e) (remove_dot-index fuel (take n b ++ drop (n + 2) b) shorter)
]
