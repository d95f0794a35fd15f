-- ===== src/Args/Scan/Split.antt =====
-- `ParseBytes` against a plain description: cut the text at each '&', each part at its first '=',
-- decode, and leave out what has neither key nor value.
use fasthttp.Base.{
  ℕ, zero, suc, ◌≤◌, ◌<◌, List, [], ◌∷◌, ◌++◌, append_assoc, append-nil, map, Option, none, some,
  ◌≡◌, refl, ap, ◌∙◌, arith, true, false, ◌==◌, if◌then◌else◌, Bytes, length, Bool-cases, inl, inr,
}
use fasthttp.Args.{ArgsKv, Args, alloc_arg}
use fasthttp.Args.Scan.{scan, next, has_content, parse_loop, parse_bytes}
use fasthttp.Bytesconv.Quote.{decode_arg_append}

-- What stands before the first `x`, and behind it if there is one.
abbrev pub cut : ℕ → Bytes → Bytes × Option Bytes
cut x [] = ([], none)
cut x (c ∷ s) = if c == x then ([], some s) else (c ∷ (cut x s).0, (cut x s).1)

abbrev pub or_nil : Option Bytes → Bytes
or_nil none = []
or_nil (some s) = s

-- An argument, its key behind the bytes `seg` of it that were read before.
abbrev pub argument : Bytes → Bytes × Option Bytes → ArgsKv
argument seg (k, none) = record {
  key = decode_arg_append [] (seg ++ k);
  value = [];
  no_value = true;
}
argument seg (k, some v) = record {
  key = decode_arg_append [] (seg ++ k);
  value = decode_arg_append [] v;
  no_value = false;
}

scan_value :
    (b seg : Bytes) (kv : ArgsKv)
    → scan false seg kv b
      ≡ (record kv { value = decode_arg_append [] (seg ++ (cut b'&' b).0) }, or_nil (cut b'&' b).1)
unfolding scan
scan_value [] seg kv = rw append-nil
scan_value (c ∷ b) seg kv = ground (
  arith,
  append-nil seg,
  scan_value b (seg ++ c ∷ []) kv,
  append_assoc seg (c ∷ []) (cut b'&' b).0,
)

argument-cons :
    (c : ℕ) (seg : Bytes) (p : Bytes × Option Bytes)
    → argument (seg ++ c ∷ []) p ≡ argument seg (c ∷ p.0, p.1)
argument-cons c seg (k, none) = rw append_assoc
argument-cons c seg (k, some v) = rw append_assoc

scan_key :
    (b seg : Bytes) (kv : ArgsKv)
    → kv.no_value ≡ false
    → scan true seg kv b ≡ (argument seg (cut b'=' (cut b'&' b).0), or_nil (cut b'&' b).1)
unfolding scan
scan_key [] seg kv h = rw append-nil
scan_key (c ∷ b) seg kv h = elim (Bool-cases (c == b'&')) [
  | inl amp ↦ rw (amp, append-nil)
  | inr other ↦ elim (Bool-cases (c == b'=')) [
    | inl eq ↦ rw (other, eq) (scan_value b [] _ ∙ ground (arith, append-nil seg))
    | inr more ↦
        rw (other, more)
          (scan_key b (seg ++ c ∷ []) kv h
            ∙ ap (λ a. (a, or_nil (cut b'&' b).1)) (argument-cons c seg _))
  ]
]

-- The parts of a text between the separators.
abbrev pub cons_first : ℕ → List Bytes → List Bytes
cons_first c [] = (c ∷ []) ∷ []
cons_first c (p ∷ ps) = (c ∷ p) ∷ ps

abbrev pub split : ℕ → Bytes → List Bytes
split x [] = [] ∷ []
split x (c ∷ s) = if c == x then [] ∷ split x s else cons_first c (split x s)

abbrev pub split_from : ℕ → Bytes × Option Bytes → List Bytes
split_from x (p, none) = p ∷ []
split_from x (p, some r) = p ∷ split x r

cons_first-split_from :
    (x c : ℕ) (p : Bytes × Option Bytes)
    → cons_first c (split_from x p) ≡ split_from x (c ∷ p.0, p.1)
cons_first-split_from x c (p, none) = refl
cons_first-split_from x c (p, some r) = refl

pub split-cut : (x : ℕ) (s : Bytes) → split x s ≡ split_from x (cut x s)
split-cut x [] = refl
split-cut x (c ∷ s) = elim (Bool-cases (c == x)) [
  | inl sep ↦ rw sep
  | inr other ↦ rw other (ap (cons_first c) (split-cut x s) ∙ cons_first-split_from x c (cut x s))
]

-- The arguments that a query spells.
abbrev pub keep : List ArgsKv → List ArgsKv
keep [] = []
keep (kv ∷ h) = if has_content kv then kv ∷ keep h else keep h

abbrev pub arguments : Bytes → List ArgsKv
arguments b = keep (map (λ p. argument [] (cut b'=' p)) (split b'&' b))

length-cut : (x : ℕ) (s r : Bytes) → (cut x s).1 ≡ some r → length r < length s
length-cut x [] r h = cc
length-cut x (c ∷ s) r h = ground (arith, length-cut x s r)

decode-nil : decode_arg_append [] [] ≡ []
unfolding decode_arg_append
decode-nil = refl

argument-nil : has_content (argument [] (cut b'=' [])) ≡ false
argument-nil = rw decode-nil

-- One round of the loop.
parse_loop_step :
    (fuel : ℕ) (live : List ArgsKv) (kv : ArgsKv) (spare : List ArgsKv) (c : ℕ) (b : Bytes)
    → let kv' = argument [] (cut b'=' (cut b'&' (c ∷ b)).0) in
      let b' = or_nil (cut b'&' (c ∷ b)).1 in
      parse_loop (suc fuel) live kv spare (c ∷ b) ≡ (
        if has_content kv'
        then parse_loop fuel (live ++ kv' ∷ []) (alloc_arg spare).0 (alloc_arg spare).1 b'
        else parse_loop fuel live kv' spare b')
unfolding parse_loop next
parse_loop_step fuel live kv spare c b =
    rw (scan_key (c ∷ b) [] (record kv { no_value = false }) refl)

pub arguments-nil : arguments [] ≡ []
arguments-nil = rw argument-nil

abbrev pub first_argument : Bytes → ArgsKv
first_argument p = argument [] (cut b'=' p)

keep-split_from :
    (p : Bytes × Option Bytes)
    → keep (map first_argument (split_from b'&' p)) ≡ (
        if has_content (first_argument p.0)
        then first_argument p.0 ∷ arguments (or_nil p.1)
        else arguments (or_nil p.1))
keep-split_from (p, none) = rw arguments-nil
keep-split_from (p, some r) = refl

pub arguments_step :
    (b : Bytes)
    → let p = cut b'&' b in
      arguments b ≡ (
        if has_content (first_argument p.0)
        then first_argument p.0 ∷ arguments (or_nil p.1)
        else arguments (or_nil p.1))
arguments_step b =
    ap (λ ps. keep (map first_argument ps)) (split-cut b'&' b) ∙ keep-split_from (cut b'&' b)

length-or_nil : (c : ℕ) (b : Bytes) → length (or_nil (cut b'&' (c ∷ b)).1) ≤ length b
length-or_nil c b = go (cut b'&' (c ∷ b)).1 refl
  where
    go : (o : Option Bytes) → (cut b'&' (c ∷ b)).1 ≡ o → length (or_nil o) ≤ length b
    go none e = omega arith
    go (some r) e = omega (arith, length-cut b'&' (c ∷ b) r e)

-- The slots that the loop was given do not show in what it returns.
parse_loop-arguments :
    (fuel : ℕ) (b : Bytes) (live : List ArgsKv) (kv : ArgsKv) (spare : List ArgsKv)
    → length b ≤ fuel
    → (parse_loop fuel live kv spare b).live ≡ live ++ arguments b
parse_loop-arguments zero [] live kv spare h = unfold parse_loop in rw (arguments-nil, append-nil)
parse_loop-arguments (suc fuel) [] live kv spare h =
    unfold parse_loop next in rw (arguments-nil, append-nil)
parse_loop-arguments zero (c ∷ b) live kv spare h = absurd (omega arith)
parse_loop-arguments (suc fuel) (c ∷ b) live kv spare h =
    let p = cut b'&' (c ∷ b) in
    let kv' = first_argument p.0 in
    let r = or_nil p.1 in
    let fits : length r ≤ fuel = omega (arith, length-or_nil c b) in
    ap (λ s. s.live) (parse_loop_step fuel live kv spare c b)
    ∙ elim (Bool-cases (has_content kv')) [
      | inl full ↦
          rw (full, arguments_step (c ∷ b), full)
            (parse_loop-arguments fuel r (live ++ kv' ∷ []) (alloc_arg spare).0 (alloc_arg spare).1
                fits
              ∙ rw append_assoc)
      | inr bare ↦
          rw (bare, arguments_step (c ∷ b), bare) (parse_loop-arguments fuel r live kv' spare fits)
    ]

-- `ParseBytes` gives the arguments that the text spells, in order, whatever the object and its
-- spare entries held.
pub parse_bytes-arguments : (a : Args) (b : Bytes) → (parse_bytes a b).args.live ≡ arguments b
parse_bytes-arguments a b =
    unfold parse_bytes in parse_loop-arguments (length b) b [] _ _ (omega arith)
