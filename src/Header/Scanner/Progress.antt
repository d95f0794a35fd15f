-- ===== src/Header/Scanner/Progress.antt =====
-- Each field that the scanner takes shortens what is left.
use fasthttp.Base.{
  ℕ, zero, suc, ◌+◌, [], ◌∷◌, Option, none, some, ◌≡◌, true, false, leb, Bytes, length, drop, take,
  length-drop, arith, ◌<◌, ◌≤◌, Bool-cases, inl, inr, subst,
}
use fasthttp.Header.Errors.{Result, ok, err}
use fasthttp.Header.Scanner.{
  HeaderScanner, Folded, take_key, fold_lines, trim_end, drop_cr, break_length,
  normalize_header_value, take_value, failed, scan_value, first_new_line, scan_behind, scan_at,
  scan_field, name_end, blank_line, initialize, next_at, next, blanks,
}

normalize-shrinks :
    (value ob : Bytes) (n : ℕ)
    → 0 < length ob
    → length (normalize_header_value value ob n).1 < length ob
unfolding normalize_header_value
normalize-shrinks [] ob n h = h
normalize-shrinks (c ∷ ov) ob n h = omega (
  arith,
  length-drop (break_length (drop (length (c ∷ ov)) ob)) (drop (length (c ∷ ov)) ob),
  length-drop (length (c ∷ ov)) ob,
)

take_value-shrinks :
    (s : HeaderScanner) (f : Folded) → f.end < length s.b → length (take_value s f).b < length s.b
unfolding take_value
take_value-shrinks s f h = elim (Bool-cases f.is_multi_line) [
  | inl multi ↦ rw multi (
      normalize-shrinks (trim_end (drop_cr (take f.end s.b))) s.b (s.h_len + f.end + 1)
        (omega arith))
  | inr single ↦ rw single (omega (arith, length-drop (f.end + 1) s.b))
]

scan_value-shrinks :
    (s : HeaderScanner) (o : Option ℕ)
    → (scan_value s o).1 ≡ true
    → length (scan_value s o).0.b < length s.b
unfolding scan_value failed
scan_value-shrinks s none h = cc
scan_value-shrinks s (some n) h =
    elim (Bool-cases (leb (length s.b) (fold_lines (length s.b) s.b n false).end)) [
      | inl past ↦ absurd (ground (arith, h))
      | inr within ↦
          rw within
            (take_value-shrinks s (fold_lines (length s.b) s.b n false) (ground (arith, within)))
    ]

take_key-shrinks : (s : HeaderScanner) (n : ℕ) → length (take_key s n).b ≤ length s.b
unfolding take_key
take_key-shrinks s n = omega (arith, length-drop (n + 1 + blanks (drop (n + 1) s.b)) s.b)

scan_behind-shrinks :
    (s : HeaderScanner) → (scan_behind s).1 ≡ true → length (scan_behind s).0.b < length s.b
unfolding scan_behind
scan_behind-shrinks s h =
    scan_value-shrinks (record s { next_new_line = none }) (first_new_line s) h

scan_at-shrinks :
    (s : HeaderScanner) (r : Result ℕ)
    → (scan_at s r).1 ≡ true
    → length (scan_at s r).0.b < length s.b
unfolding scan_at failed
scan_at-shrinks s (err e) h = cc
scan_at-shrinks s (ok n) h =
    omega (arith, take_key-shrinks s n, scan_behind-shrinks (take_key s n) h)

next_at-shrinks :
    (n : ℕ) (s : HeaderScanner) → (next_at n s).1 ≡ true → length (next_at n s).0.b < length s.b
unfolding next_at scan_field
next_at-shrinks zero s h = scan_at-shrinks s (name_end s.b s.next_colon) h
next_at-shrinks (suc n) s h = cc

initialize-b : (s : HeaderScanner) → (initialize s).b ≡ s.b
unfolding initialize
initialize-b s = ground arith

-- Whenever `next` reports a field, fewer bytes are left than before.
pub next-shrinks : (s : HeaderScanner) → (next s).1 ≡ true → length (next s).0.b < length s.b
unfolding next
next-shrinks s h =
    let less = next_at-shrinks (blank_line (initialize s).b) (initialize s) h in
    subst (λ b. length (next_at (blank_line (initialize s).b) (initialize s)).0.b < length b)
      (initialize-b s) less
