-- ===== src/Uri/Host/Unescape.antt =====
-- The bytes that a host can hold.
use mathlib.Core.Path.{subst}
use fasthttp.Base.{
  ℕ, ◌+◌, ◌*◌, ◌<◌, [], ◌∷◌, none, ◌≡◌, ◌⊎◌, refl, ap, ◌∙◌, arith, Bool, true, false, leb, ◌==◌,
  ◌&&◌, ◌||◌, not, Bytes, All, Bool-cases, Option-cases, inl, inr, bit_and_low4, bit_or_shifted,
}
use fasthttp.Bytesconv.Tables.{among, hex2int}
use fasthttp.Uri.Host.{
  Encoding, encode_host, encode_zone, should_escape, unhex, spelled, check_escape, check_plain,
  check, build, unescape,
}

-- A byte outside ASCII, a byte that a host may hold as it is, the '%' of a zone, or a space.
abbrev pub is_allowed : ℕ → Bool
is_allowed c = leb 0x80 c || not (should_escape c) || c == b'%' || c == b' '

abbrev pub IsAllowed : ℕ → Type 0
IsAllowed c = is_allowed c ≡ true

unhex-lt : (a : ℕ) → unhex a < 16
unfolding unhex
unhex-lt a = omega (arith, bit_and_low4 (hex2int a))

spelled-sum : (a b : ℕ) → spelled a b ≡ unhex a * 16 + unhex b
unfolding spelled
spelled-sum a b = ground (arith, bit_or_shifted 4 (unhex a) (unhex b), unhex-lt a, unhex-lt b)

percent-spelled : spelled b'2' b'5' ≡ b'%'
unfolding spelled unhex hex2int
percent-spelled = refl

not_percent :
    (mode : Encoding) (a b : ℕ)
    → check_escape mode a b ≡ none
    → (a == b'2' && b == b'5') ≡ false
    → IsAllowed (spelled a b)
unfolding check_escape
not_percent encode_host a b h other = ground (arith, spelled-sum a b)
not_percent encode_zone a b h other = ground arith

-- What the first loop lets through is a byte of the host.
check_escape-IsAllowed :
    (mode : Encoding) (a b : ℕ) → check_escape mode a b ≡ none → IsAllowed (spelled a b)
unfolding check_escape
check_escape-IsAllowed mode a b h = elim (Bool-cases (a == b'2' && b == b'5')) [
  | inl percent ↦
      let ea : a ≡ b'2' = ground arith in
      let eb : b ≡ b'5' = ground arith in
      let v = ap (λ x. spelled x b) ea ∙ ap (spelled b'2') eb ∙ percent-spelled in ground (arith, v)
  | inr other ↦ not_percent mode a b h other
]

check_plain-IsAllowed : (c : ℕ) → check_plain c ≡ none → IsAllowed c
unfolding check_plain
check_plain-IsAllowed c h = ground arith

-- The cases of the first loop, where it lets the text through.
check_last : (mode : Encoding) (c : ℕ) → check mode (c ∷ []) ≡ none → IsAllowed c
unfolding check
check_last mode c h = ground (arith, check_plain-IsAllowed c)

check_two :
    (mode : Encoding) (c a : ℕ)
    → check mode (c ∷ a ∷ []) ≡ none
    → IsAllowed c × (check mode (a ∷ []) ≡ none)
unfolding check
check_two mode c a h = elim (Bool-cases (c == b'%')) [
  | inl escape ↦ absurd (ground (arith, h, escape))
  | inr other ↦ elim (Option-cases (check_plain c)) [
    | inl fine ↦ (check_plain-IsAllowed c fine, ground (arith, h, other, fine))
    | inr (e, bad) ↦ absurd (ground (arith, h, other, bad))
  ]
]

check_three :
    (mode : Encoding) (c a b : ℕ) (s : Bytes)
    → check mode (c ∷ a ∷ b ∷ s) ≡ none
    → ((c ≡ b'%') × (check_escape mode a b ≡ none) × (check mode s ≡ none))
      ⊎ ((c == b'%' ≡ false) × IsAllowed c × (check mode (a ∷ b ∷ s) ≡ none))
unfolding check
check_three mode c a b s h = elim (Bool-cases (c == b'%')) [
  | inl escape ↦ elim (Option-cases (check_escape mode a b)) [
    | inl fine ↦ inl (ground arith, fine, ground (arith, h, escape, fine))
    | inr (e, bad) ↦ absurd (ground (arith, h, escape, bad))
  ]
  | inr other ↦ elim (Option-cases (check_plain c)) [
    | inl fine ↦ inr (other, check_plain-IsAllowed c fine, ground (arith, h, other, fine))
    | inr (e, bad) ↦ absurd (ground (arith, h, other, bad))
  ]
]

build_escape : (c a b : ℕ) (s : Bytes) → c ≡ b'%' → build (c ∷ a ∷ b ∷ s) ≡ spelled a b ∷ build s
unfolding build
build_escape c a b s e = ground arith

build_plain :
    (c a b : ℕ) (s : Bytes) → c == b'%' ≡ false → build (c ∷ a ∷ b ∷ s) ≡ c ∷ build (a ∷ b ∷ s)
unfolding build
build_plain c a b s e = rw e refl

build-IsAllowed : (mode : Encoding) (s : Bytes) → check mode s ≡ none → All IsAllowed (build s)
build-IsAllowed mode [] h = unfold build in tt
build-IsAllowed mode (c ∷ []) h = unfold build in (check_last mode c h, tt)
build-IsAllowed mode (c ∷ a ∷ []) h =
    let (hc, ha) = check_two mode c a h in unfold build in (hc, (check_last mode a ha, tt))
build-IsAllowed mode (c ∷ a ∷ b ∷ s) h = elim (check_three mode c a b s h) [
  | inl r ↦
      let more = build-IsAllowed mode s r.2 in
      rw (build_escape c a b s r.0) (check_escape-IsAllowed mode a b r.1, more)
  | inr r ↦
      let more = build-IsAllowed mode (a ∷ b ∷ s) r.2 in rw (build_plain c a b s r.0) (r.1, more)
]

-- With no '%' the text is what the second loop would build.
build-same : (s : Bytes) → among b'%' s ≡ false → build s ≡ s
unfolding build
build-same [] h = refl
build-same (c ∷ []) h = refl
build-same (c ∷ a ∷ []) h = refl
build-same (c ∷ a ∷ b ∷ s) h = ground (arith, build-same (a ∷ b ∷ s))

unescaped :
    (mode : Encoding) (s t : Bytes)
    → unescape s mode ≡ (t, none)
    → check mode s ≡ none
    → build s ≡ t
unfolding unescape
unescaped mode s t h fine = elim (Bool-cases (among b'%' s)) [
  | inl escapes ↦ ground (arith, h, fine, escapes)
  | inr none_there ↦ ground (arith, h, fine, none_there, build-same s none_there)
]

-- A text that `unescape` accepts, for a host or for a zone, gives bytes that may stand in a host:
-- bytes outside ASCII, those that need no escape, '%' and the space, and no other.
pub unescape-IsAllowed :
    (mode : Encoding) (s t : Bytes) → unescape s mode ≡ (t, none) → All IsAllowed t
unfolding unescape
unescape-IsAllowed mode s t h = elim (Option-cases (check mode s)) [
  | inl fine ↦ subst (All IsAllowed) (unescaped mode s t h fine) (build-IsAllowed mode s fine)
  | inr (e, bad) ↦ absurd (ground (arith, h, bad))
]
