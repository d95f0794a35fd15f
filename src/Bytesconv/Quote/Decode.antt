-- ===== src/Bytesconv/Quote/Decode.antt =====
-- The decoders append to `dst` what a plain recursion over the text gives: the fast path and the
-- jump to the first special byte change nothing.
use fasthttp.Base.{
  ℕ, zero, suc, ◌*◌, ◌≤◌, [], ◌∷◌, ◌++◌, append_assoc, append-nil, Option, none, some, ◌≡◌, ◌≢◌,
  refl, sym, ◌∙◌, arith, Bool, true, false, ltb, Bytes, take, drop, index_byte, byte, bit_or,
  Bool-cases, inl, inr, All, take-append-drop,
}
use fasthttp.Bytesconv.Tables.{hex2int}
use fasthttp.Bytesconv.Quote.{
  plain, decode_slow, first_special, decode_from, decode_arg_append, decode_arg_append_no_plus,
}

-- A byte that starts no escape is copied.
pub decode_plain :
    (plus : Bool) (c : ℕ) (dst s : Bytes)
    → c ≢ b'%'
    → decode_slow plus dst (c ∷ s) ≡ decode_slow plus (dst ++ plain plus c ∷ []) s
unfolding decode_slow
decode_plain plus c dst [] h = ground arith
decode_plain plus c dst (x ∷ []) h = ground arith
decode_plain plus c dst (x ∷ y ∷ s) h = ground arith

abbrev IsPlain : Bool → ℕ → Type 0
IsPlain plus c = (c ≢ b'%') × (plus ≡ true → c ≢ b'+')

plain-IsPlain : (plus : Bool) (c : ℕ) → (plus ≡ true → c ≢ b'+') → plain plus c ≡ c
unfolding plain
plain-IsPlain plus c h = ground arith

decode_prefix :
    (plus : Bool) (p dst s : Bytes)
    → All (IsPlain plus) p
    → decode_slow plus dst (p ++ s) ≡ decode_slow plus (dst ++ p) s
decode_prefix plus [] dst s h = rw append-nil
decode_prefix plus (c ∷ p) dst s ((hp, hq), hs) =
    simp (decode_plain plus c dst (p ++ s) hp, plain-IsPlain plus c hq)
      (decode_prefix plus p (dst ++ c ∷ []) s hs ∙ rw append_assoc)

-- The bytes before the first occurrence of `x` are not `x`.
take-index_byte : (s : Bytes) (x i : ℕ) → index_byte s x ≡ some i → All (λ c. c ≢ x) (take i s)
unfolding index_byte
take-index_byte [] x i h = cc
take-index_byte (c ∷ s) x zero h = tt
take-index_byte (c ∷ s) x (suc i) h = ground (arith, take-index_byte s x i)

index_byte-none : (s : Bytes) (x : ℕ) → index_byte s x ≡ none → All (λ c. c ≢ x) s
unfolding index_byte
index_byte-none [] x h = tt
index_byte-none (c ∷ s) x h = ground (arith, index_byte-none s x)

All-both : (p : Bytes) → All (λ c. c ≢ b'%') p → All (λ c. c ≢ b'+') p → All (IsPlain true) p
All-both [] h k = tt
All-both (c ∷ p) (hc, h) (kc, k) = ((hc, λ _. kc), All-both p h k)

All-percent : (p : Bytes) → All (λ c. c ≢ b'%') p → All (IsPlain false) p
All-percent [] h = tt
All-percent (c ∷ p) (hc, h) = ((hc, λ e. cc), All-percent p h)

All-take_le : (P : ℕ → Type 0) (s : Bytes) (i j : ℕ) → i ≤ j → All P (take j s) → All P (take i s)
All-take_le P s zero j h a = tt
All-take_le P [] (suc i) j h a = tt
All-take_le P (c ∷ s) (suc i) zero h a = absurd (omega arith)
All-take_le P (c ∷ s) (suc i) (suc j) h (ac, a) = (ac, All-take_le P s i j (omega arith) a)

All-take : (P : ℕ → Type 0) (s : Bytes) (i : ℕ) → All P s → All P (take i s)
All-take P s zero a = tt
All-take P [] (suc i) a = tt
All-take P (c ∷ s) (suc i) (ac, a) = (ac, All-take P s i a)

-- Both decoders by the plain recursion.
pub decode : Bool → Bytes → Bytes
decode plus s = decode_slow plus [] s

pub decode_slow-append :
    (plus : Bool) (s dst p : Bytes) → decode_slow plus (dst ++ p) s ≡ dst ++ decode_slow plus p s
unfolding decode_slow
decode_slow-append plus [] dst p = refl
decode_slow-append plus (c ∷ []) dst p =
    ground (arith, append_assoc dst p (c ∷ []), append_assoc dst p (plain plus c ∷ []))
decode_slow-append plus (c ∷ h ∷ []) dst p = ground (
  arith,
  append_assoc dst p (c ∷ h ∷ []),
  append_assoc dst p (plain plus c ∷ []),
  decode_slow-append plus (h ∷ []) dst (p ++ plain plus c ∷ []),
)
decode_slow-append plus (c ∷ h ∷ l ∷ s) dst p =
    let x = bit_or (byte (hex2int h * 16)) (hex2int l) in
    ground (
      arith,
      append_assoc dst p (x ∷ []),
      append_assoc dst p (plain plus c ∷ []),
      decode_slow-append plus s dst (p ++ x ∷ []),
      decode_slow-append plus (h ∷ l ∷ s) dst (p ++ plain plus c ∷ []),
    )

decode_from_special :
    (plus : Bool) (i : ℕ) (dst s : Bytes)
    → All (IsPlain plus) (take i s)
    → decode_from plus (some i) dst s ≡ decode_slow plus dst s
unfolding decode_from
decode_from_special plus i dst s h =
    sym (decode_prefix plus (take i s) dst (drop i s) h) ∙ rw take-append-drop

decode_from-none :
    (plus : Bool) (dst s : Bytes)
    → All (IsPlain plus) s
    → decode_from plus none dst s ≡ decode_slow plus dst s
decode_from-none plus dst s h =
    unfold decode_from decode_slow in sym (rw append-nil at (decode_prefix plus s dst [] h))

decode_from-first_special :
    (dst s : Bytes) (e p : Option ℕ)
    → index_byte s b'%' ≡ e
    → index_byte s b'+' ≡ p
    → decode_from true (first_special e p) dst s ≡ decode_slow true dst s
unfolding first_special
decode_from-first_special dst s none none he hp =
    decode_from-none true dst s (All-both s (index_byte-none s _ he) (index_byte-none s _ hp))
decode_from-first_special dst s none (some j) he hp =
    decode_from_special true j dst s
      (All-both (take j s) (All-take _ s j (index_byte-none s _ he)) (take-index_byte s _ j hp))
decode_from-first_special dst s (some i) none he hp =
    decode_from_special true i dst s
      (All-both (take i s) (take-index_byte s _ i he) (All-take _ s i (index_byte-none s _ hp)))
decode_from-first_special dst s (some i) (some j) he hp =
    let before_e = take-index_byte s b'%' i he in
    let before_p = take-index_byte s b'+' j hp in
    elim (Bool-cases (ltb j i)) [
      | inl lt ↦ rw lt (
          decode_from_special true j dst s
            (All-both (take j s) (All-take_le _ s j i (ltb_le lt) before_e) before_p))
      | inr ge ↦ rw ge (
          decode_from_special true i dst s
            (All-both (take i s) before_e (All-take_le _ s i j (not_ltb_le ge) before_p)))
    ]
  where
    ltb_le : {a b : ℕ} → ltb a b ≡ true → a ≤ b
    ltb_le h = ground arith

    not_ltb_le : {a b : ℕ} → ltb a b ≡ false → b ≤ a
    not_ltb_le h = ground arith

-- Both decoders append the plain decoding to `dst`: the search for a first special byte and the
-- jump to it change nothing. '+' is a space in the one, and itself in the other.
pub decode_arg_append-decode_slow :
    (dst src : Bytes)
    → (decode_arg_append dst src ≡ dst ++ decode_slow true [] src)
      × (decode_arg_append_no_plus dst src ≡ dst ++ decode_slow false [] src)
unfolding decode_arg_append decode_arg_append_no_plus
decode_arg_append-decode_slow dst src = (
  decode_from-first_special dst src _ _ refl refl ∙ appended true,
  from_percent (index_byte src b'%') refl ∙ appended false,
)
  where
    appended : (plus : Bool) → decode_slow plus dst src ≡ dst ++ decode_slow plus [] src
    appended plus = rw append-nil at (decode_slow-append plus src dst [])

    from_percent :
        (e : Option ℕ)
        → index_byte src b'%' ≡ e
        → decode_from false e dst src ≡ decode_slow false dst src
    from_percent none h = decode_from-none false dst src (All-percent src (index_byte-none src _ h))
    from_percent (some i) h =
        decode_from_special false i dst src (All-percent (take i src) (take-index_byte src _ i h))
