-- ===== src/Uri/Path/Search.antt =====
-- Where a search finds what it looks for, and what a prefix of the text holds.
use fasthttp.Base.{
  ℕ, zero, suc, ◌+◌, ◌≤◌, ◌<◌, [], ◌∷◌, ◌++◌, none, some, ◌≡◌, refl, sym, ap, ◌∙◌, arith, true,
  Bytes, length, take, index, has_prefix, last_index_byte, Option-cases, inl, inr, length-take,
}
use fasthttp.Uri.Path.{str_slash_dot_dot, slash_before, last_index}

pub has_prefix-length : (s sep : Bytes) → has_prefix s sep ≡ true → length sep ≤ length s
unfolding has_prefix
has_prefix-length s [] h = omega arith
has_prefix-length [] (y ∷ sep) h = ground arith
has_prefix-length (x ∷ s) (y ∷ sep) h = ground (arith, has_prefix-length s sep)

pub index-fits : (s sep : Bytes) (n : ℕ) → index s sep ≡ some n → n + length sep ≤ length s
unfolding index
index-fits [] sep n h = ground (arith, has_prefix-length [] sep)
index-fits (x ∷ s) sep n h = elim (Option-cases (index s sep)) [
  | inl none_left ↦ ground (arith, has_prefix-length (x ∷ s) sep)
  | inr (m, e) ↦ ground (arith, has_prefix-length (x ∷ s) sep, index-fits s sep m e)
]

pub last_index_byte-lt : (s : Bytes) (c n : ℕ) → last_index_byte s c ≡ some n → n < length s
unfolding last_index_byte
last_index_byte-lt [] c n h = ground arith
last_index_byte-lt (x ∷ s) c n h = elim (Option-cases (last_index_byte s c)) [
  | inl none_left ↦ ground arith
  | inr (m, e) ↦ ground (arith, last_index_byte-lt s c m e)
]

pub slash_before-le : (s : Bytes) → slash_before s ≤ length s
unfolding slash_before
slash_before-le s = elim (Option-cases (last_index_byte s b'/')) [
  | inl none_left ↦ ground arith
  | inr (m, e) ↦ ground (arith, last_index_byte-lt s b'/' m e)
]

pub has_prefix-take :
    (k : ℕ) (s sep : Bytes) → has_prefix (take k s) sep ≡ true → has_prefix s sep ≡ true
unfolding has_prefix
has_prefix-take k s [] h = refl
has_prefix-take zero s (y ∷ sep) h = ground arith
has_prefix-take (suc k) [] (y ∷ sep) h = ground arith
has_prefix-take (suc k) (x ∷ s) (y ∷ sep) h = ground (arith, has_prefix-take k s sep)

pub index-take :
    (k : ℕ) (s : Bytes) (y : ℕ) (sep : Bytes)
    → index s (y ∷ sep) ≡ none
    → index (take k s) (y ∷ sep) ≡ none
unfolding index has_prefix
index-take zero s y sep h = refl
index-take (suc k) [] y sep h = refl
index-take (suc k) (x ∷ s) y sep h = elim (Option-cases (index s (y ∷ sep))) [
  | inl none_left ↦ ground (
    arith,
    h,
    none_left,
    has_prefix-take (suc k) (x ∷ s) (y ∷ sep),
    index-take k s y sep none_left,
  )
  | inr (m, e) ↦ ground (arith, h, e)
]

-- A path that ends with "/.." is seen to.
pub last_index-suffix :
    (p : Bytes) → last_index (p ++ str_slash_dot_dot) str_slash_dot_dot ≡ some (length p)
unfolding last_index has_prefix
last_index-suffix [] = refl
last_index-suffix (c ∷ p) = rw (last_index-suffix p) refl

abbrev pub last_or : ℕ → Bytes → ℕ
last_or d [] = d
last_or d (c ∷ s) = last_or c s

pub last_or-append : (d : ℕ) (s : Bytes) (c : ℕ) → last_or d (s ++ c ∷ []) ≡ c
last_or-append d [] c = refl
last_or-append d (x ∷ s) c = last_or-append x s c

pub last_or-dots : (d : ℕ) (s : Bytes) → last_or d (s ++ str_slash_dot_dot) ≡ b'.'
last_or-dots d [] = refl
last_or-dots d (x ∷ s) = last_or-dots x s

-- What is kept ends with the slash.
pub last_or-take :
    (s : Bytes) (c i d : ℕ) → last_index_byte s c ≡ some i → last_or d (take (i + 1) s) ≡ c
unfolding last_index_byte
last_or-take [] c i d h = ground arith
last_or-take (x ∷ s) c i d h = elim (Option-cases (last_index_byte s c)) [
  | inl none_left ↦
      let first : (i ≡ 0) × (x ≡ c) = ground (arith, h, none_left) in
      ap (λ k. last_or d (take (k + 1) (x ∷ s))) first.0 ∙ first.1
  | inr (m, e) ↦
      let later : i + 1 ≡ suc (m + 1) = ground (arith, h, e) in
      ap (λ k. last_or d (take k (x ∷ s))) later ∙ last_or-take s c m x e
]

pub take-take : (k n : ℕ) (s : Bytes) → k ≤ n → take k (take n s) ≡ take k s
take-take zero n s h = refl
take-take (suc k) zero s h = absurd (omega arith)
take-take (suc k) (suc n) [] h = refl
take-take (suc k) (suc n) (x ∷ s) h = ap (λ r. x ∷ r) (take-take k n s (omega arith))

pub last_index_byte-take :
    (s : Bytes) (c n i : ℕ) → last_index_byte (take n s) c ≡ some i → last_or 0 (take (i + 1) s) ≡ c
last_index_byte-take s c n i h =
    let short : i + 1 ≤ n = omega (arith, last_index_byte-lt (take n s) c i h, length-take n s) in
    ap (last_or 0) (sym (take-take (i + 1) n s short)) ∙ last_or-take (take n s) c i 0 h
