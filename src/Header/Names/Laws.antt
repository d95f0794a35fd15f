-- ===== src/Header/Names/Laws.antt =====
-- A normal form is a normal form again, and a value that is cleaned holds no line break.
use fasthttp.Base.{
  ℕ, suc, zero, ◌≡◌, refl, [], ◌∷◌, Bool, true, false, Option, none, some, ◌==◌, min, arith, Bytes,
  map, drop, take, ◌++◌, index_byte, All, length, ap, ◌≤◌, ◌≢◌, Bool-cases, inl, inr, sym, ◌∙◌,
  map-append, take-append-drop, length-map,
}
use fasthttp.Bytesconv.Tables.{to_lower, to_upper}
use fasthttp.Header.Names.{
  r_char, n_char, normalize_rest, normalize_header_key, break_start, replace_from, blank_break,
  init_header_v,
}

to_upper-to_upper : (c : ℕ) → to_upper (to_upper c) ≡ to_upper c
unfolding to_upper
to_upper-to_upper c = ground arith

to_lower-to_lower : (c : ℕ) → to_lower (to_lower c) ≡ to_lower c
unfolding to_lower
to_lower-to_lower c = ground arith

to_lower-dash : (c : ℕ) → (to_lower c == b'-') ≡ (c == b'-')
unfolding to_lower
to_lower-dash c = ground arith

to_upper-dash : (c : ℕ) → (to_upper c == b'-') ≡ (c == b'-')
unfolding to_upper
to_upper-dash c = ground arith

normalize_rest-normalize_rest :
    (after_dash : Bool) (b : Bytes)
    → normalize_rest after_dash (normalize_rest after_dash b) ≡ normalize_rest after_dash b
unfolding normalize_rest
normalize_rest-normalize_rest true [] = refl
normalize_rest-normalize_rest false [] = refl
normalize_rest-normalize_rest true (c ∷ b) =
    rw (to_upper-to_upper c, normalize_rest-normalize_rest false b)
normalize_rest-normalize_rest false (c ∷ b) = elim (Bool-cases (c == b'-')) [
  | inl dash ↦ rw (dash, dash, normalize_rest-normalize_rest true b)
  | inr other ↦
      rw (other, to_lower-dash c, other, to_lower-to_lower c, normalize_rest-normalize_rest false b)
]

-- Normalizing a key twice is normalizing it once.
pub normalize_header_key-idempotent :
    (b : Bytes) → normalize_header_key (normalize_header_key b) ≡ normalize_header_key b
unfolding normalize_header_key
normalize_header_key-idempotent [] = refl
normalize_header_key-idempotent (c ∷ b) =
    rw (to_upper-to_upper c, normalize_rest-normalize_rest false b)

-- Where no byte is a break, cleaning changes nothing.
map-blank_break :
    (b : Bytes) → index_byte b r_char ≡ none → index_byte b n_char ≡ none → map blank_break b ≡ b
unfolding index_byte
map-blank_break [] hr hn = refl
map-blank_break (c ∷ b) hr hn = ground (arith, map-blank_break b)

index_byte-take-none :
    (b : Bytes) (c k : ℕ) → index_byte b c ≡ none → index_byte (take k b) c ≡ none
unfolding index_byte
index_byte-take-none b c zero h = refl
index_byte-take-none [] c (suc k) h = refl
index_byte-take-none (x ∷ b) c (suc k) h = ground (arith, index_byte-take-none b c k)

pub index_byte-take :
    (b : Bytes) (c k i : ℕ) → index_byte b c ≡ some i → k ≤ i → index_byte (take k b) c ≡ none
unfolding index_byte
index_byte-take b c zero i h le = refl
index_byte-take [] c (suc k) i h le = refl
index_byte-take (x ∷ b) c (suc k) zero h le = absurd (omega arith)
index_byte-take (x ∷ b) c (suc k) (suc i) h le = ground (arith, index_byte-take b c k i)

clean_prefix :
    (b : Bytes) (k : ℕ)
    → index_byte (take k b) r_char ≡ none
    → index_byte (take k b) n_char ≡ none
    → take k b ++ map blank_break (drop k b) ≡ map blank_break b
clean_prefix b k hr hn =
    ap (λ t. t ++ map blank_break (drop k b)) (sym (map-blank_break (take k b) hr hn))
    ∙ sym (map-append blank_break (take k b) (drop k b))
    ∙ ap (map blank_break) (take-append-drop k b)

replace_from-break_start :
    (raw : Bytes) (r n : Option ℕ)
    → index_byte raw r_char ≡ r
    → index_byte raw n_char ≡ n
    → replace_from (break_start r n) raw ≡ map blank_break raw
unfolding replace_from break_start
replace_from-break_start raw none none hr hn = sym (map-blank_break raw hr hn)
replace_from-break_start raw none (some n) hr hn = refl
replace_from-break_start raw (some r) none hr hn =
    clean_prefix raw r (index_byte-take raw r_char r r hr (omega arith))
      (index_byte-take-none raw n_char r hn)
replace_from-break_start raw (some r) (some n) hr hn =
    clean_prefix raw (min r n) (index_byte-take raw r_char (min r n) r hr (omega arith))
      (index_byte-take raw n_char (min r n) n hn (omega arith))

init_header_v-map : (raw : Bytes) → init_header_v raw ≡ map blank_break raw
unfolding init_header_v
init_header_v-map raw = replace_from-break_start raw _ _ refl refl

-- No byte that breaks a line.
abbrev pub IsClean : Bytes → Type 0
IsClean = All (λ c. (c ≢ r_char) × (c ≢ n_char))

blank-IsClean : (raw : Bytes) → IsClean (map blank_break raw)
blank-IsClean [] = tt
blank-IsClean (c ∷ raw) = (ground arith, blank-IsClean raw)

-- A cleaned value has the length of the value and no line break, whatever it held, and its other
-- bytes stand where they stood: it is the value with a space for each line break.
pub init_header_v-IsClean :
    (raw : Bytes)
    → (init_header_v raw ≡ map blank_break raw)
      × IsClean (init_header_v raw)
      × (length (init_header_v raw) ≡ length raw)
init_header_v-IsClean raw = (
  init_header_v-map raw,
  rw (init_header_v-map raw) (blank-IsClean raw),
  rw (init_header_v-map raw) (length-map blank_break raw),
)
