-- ===== src/Uri/Path/DotDot.antt =====
-- No ".." segment is left in a normalized path.
use fasthttp.Base.{
  ℕ, zero, suc, ◌+◌, ◌≤◌, [], ◌∷◌, ◌++◌, Option, none, some, ◌≡◌, ◌≢◌, refl, sym, ap, ◌∙◌, arith,
  ◌==◌, if◌then◌else◌, Bytes, length, take, drop, index, has_prefix, last_index_byte, Option-cases,
  Bool-cases, inl, inr, length-append, length-take, length-drop,
}
use fasthttp.Uri.Path.{
  str_slash_dot_dot_slash, str_slash_dot_dot, remove_dot_dot, slash_before, last_index, cut_last,
  remove_trailing, normalize_path, remove_dot, dedupe, add_leading_slash,
}
use fasthttp.Bytesconv.Quote.{decode_arg_append_no_plus}
use fasthttp.Uri.Path.Search.{
  index-fits, slash_before-le, index-take, last_index-suffix, last_or, last_or-dots,
  last_index_byte-take,
}

loop_end :
    (fuel : ℕ) (b : Bytes)
    → index b str_slash_dot_dot_slash ≡ none
    → remove_dot_dot (suc fuel) b ≡ b
unfolding remove_dot_dot
loop_end fuel b e = rw (e, remove_dot_dot) refl

loop_again :
    (fuel : ℕ) (b : Bytes) (n : ℕ)
    → index b str_slash_dot_dot_slash ≡ some n
    → remove_dot_dot (suc fuel) b
      ≡ remove_dot_dot fuel (take (slash_before (take n b)) b ++ drop (n + 3) b)
unfolding remove_dot_dot
loop_again fuel b n e = rw (e, remove_dot_dot) refl

-- The fuel is enough: no "/../" is left.
remove_dot_dot-index :
    (fuel : ℕ) (b : Bytes)
    → length b ≤ fuel
    → index (remove_dot_dot fuel b) str_slash_dot_dot_slash ≡ none
unfolding remove_dot_dot
remove_dot_dot-index zero [] h = unfold index in refl
remove_dot_dot-index zero (c ∷ b) h = absurd (omega arith)
remove_dot_dot-index (suc fuel) b h = elim (Option-cases (index b str_slash_dot_dot_slash)) [
  | inl none_left ↦
      ap (λ s. index s str_slash_dot_dot_slash) (loop_end fuel b none_left) ∙ none_left
  | inr (n, e) ↦
      let cut = take (slash_before (take n b)) b in
      let shorter : length (cut ++ drop (n + 3) b) ≤ fuel = omega (
        arith,
        h,
        index-fits b str_slash_dot_dot_slash n e,
        slash_before-le (take n b),
        length-append cut (drop (n + 3) b),
        length-take (slash_before (take n b)) b,
        length-take n b,
        length-drop (n + 3) b,
      ) in
      rw (loop_again fuel b n e) (remove_dot_dot-index fuel (cut ++ drop (n + 3) b) shorter)
]

-- The cases of `remove_trailing`.
trailing_none : (b : Bytes) → last_index b str_slash_dot_dot ≡ none → remove_trailing b ≡ b
unfolding remove_trailing
trailing_none b e = rw (e, remove_trailing) refl

trailing_some :
    (b : Bytes) (n : ℕ)
    → last_index b str_slash_dot_dot ≡ some n
    → remove_trailing b
      ≡ (if n + 3 == length b then cut_last b (last_index_byte (take n b) b'/') else b)
unfolding remove_trailing
trailing_some b n e = rw (e, remove_trailing) refl

-- A path that ends with "/.." is cut.
suffix-cut :
    (b p : Bytes)
    → b ≡ p ++ str_slash_dot_dot
    → (last_index b str_slash_dot_dot ≡ some (length p)) × (length p + 3 ≡ length b)
suffix-cut b p e = (
  ap (λ s. last_index s str_slash_dot_dot) e ∙ last_index-suffix p,
  sym (ap length e ∙ length-append p str_slash_dot_dot),
)

cut_last-end :
    (b p : Bytes) (n : ℕ) → cut_last b (last_index_byte (take n b) b'/') ≢ p ++ str_slash_dot_dot
unfolding cut_last
cut_last-end b p n e = elim (Option-cases (last_index_byte (take n b) b'/')) [
  | inl no_slash ↦
      let same : b'/' ≡ b'.' =
        ap (λ o. last_or 0 (cut_last b o)) (sym no_slash) ∙ ap (last_or 0) e ∙ last_or-dots 0 p in
      absurd (omega (arith, same))
  | inr (nn, slash) ↦
      let same : last_or 0 (take (nn + 1) b) ≡ b'.' =
        ap (λ o. last_or 0 (cut_last b o)) (sym slash) ∙ ap (last_or 0) e ∙ last_or-dots 0 p in
      absurd (omega (arith, same, last_index_byte-take b b'/' n nn slash))
]

-- Cutting off the last segment leaves no "/.." at the end.
remove_trailing-end : (b p : Bytes) → remove_trailing b ≢ p ++ str_slash_dot_dot
remove_trailing-end b p e = elim (Option-cases (last_index b str_slash_dot_dot)) [
  | inl none_left ↦
      let (found, fits) = suffix-cut b p (sym (trailing_none b none_left) ∙ e) in
      ground (arith, found, none_left)
  | inr (n, found) ↦
      let step = sym (trailing_some b n found) ∙ e in
      elim (Bool-cases (n + 3 == length b)) [
        | inl at_end ↦ cut_last-end b p n (simp at_end at step)
        | inr inside ↦
            let (found', fits) = suffix-cut b p (simp inside at step) in
            ground (arith, found, found', fits, inside)
      ]
]

cut_last-index :
    (b : Bytes) (o : Option ℕ)
    → index b str_slash_dot_dot_slash ≡ none
    → index (cut_last b o) str_slash_dot_dot_slash ≡ none
unfolding cut_last
cut_last-index b none h = unfold index has_prefix in refl
cut_last-index b (some nn) h = index-take (nn + 1) b b'/' (b'.' ∷ b'.' ∷ b'/' ∷ []) h

remove_trailing-index :
    (b : Bytes)
    → index b str_slash_dot_dot_slash ≡ none
    → index (remove_trailing b) str_slash_dot_dot_slash ≡ none
remove_trailing-index b h = elim (Option-cases (last_index b str_slash_dot_dot)) [
  | inl none_left ↦ rw (trailing_none b none_left) h
  | inr (n, found) ↦ rw (trailing_some b n found) (elim (Bool-cases (n + 3 == length b)) [
    | inl at_end ↦ rw at_end (cut_last-index b (last_index_byte (take n b) b'/') h)
    | inr inside ↦ rw inside h
  ])
]

-- Whatever the path is, and however its dots are encoded, the normalized path holds no "/../" and
-- does not end with "/..".
pub normalize_path-no-dot-dot :
    (src : Bytes)
    → (index (normalize_path src) str_slash_dot_dot_slash ≡ none)
      × ((p : Bytes) → normalize_path src ≢ p ++ str_slash_dot_dot)
unfolding normalize_path
normalize_path-no-dot-dot src =
    let no_dot = remove_dot (length (single src)) (single src) in
    (
      remove_trailing-index (remove_dot_dot (length no_dot) no_dot)
          (remove_dot_dot-index (length no_dot) no_dot (omega arith)),
      λ p. remove_trailing-end (remove_dot_dot (length no_dot) no_dot) p,
    )
  where
    decoded : Bytes → Bytes
    decoded s = decode_arg_append_no_plus (add_leading_slash [] s) s

    single : Bytes → Bytes
    single s = dedupe (length (decoded s)) [] (decoded s)
