-- ===== src/Header/Lines/Raw.antt =====
-- The block of raw headers of a text with a line for each field is found.
use fasthttp.Base.{
  ℕ, zero, suc, ◌+◌, ◌<◌, ◌≤◌, List, [], ◌∷◌, ◌++◌, ◌≡◌, refl, sym, ap, ◌∙◌, append_assoc, false,
  some, Bytes, length, take, drop, length-append, index_byte, drop_front_more, arith, All,
}
use fasthttp.Header.Errors.{ok}
use fasthttp.Header.Lines.{
  is_empty_line, raw_line, raw_loop, raw_block, raw_first, read_raw_headers,
}
use fasthttp.Header.Names.{r_char, n_char}
use fasthttp.Header.Scanner.Line.{line_text, index_break}
use fasthttp.Header.Scanner.Lines.{IsField, lines}

-- A line without its '\n'.
abbrev line_before : Bytes → Bytes → Bytes
line_before key value = key ++ b':' ∷ b' ' ∷ (value ++ r_char ∷ [])

not_empty_line : (m : ℕ) (b : Bytes) → 3 ≤ m → is_empty_line m b ≡ false
unfolding is_empty_line
not_empty_line m [] h = ground arith
not_empty_line m (c ∷ b) h = ground arith

line_before-long : (key value : Bytes) → 3 ≤ length (line_before key value) + 1
line_before-long key value = omega (
  arith,
  length-append key (b':' ∷ b' ' ∷ (value ++ r_char ∷ [])),
  length-append {0} value (r_char ∷ []),
)

drop_line :
    (key value rest : Bytes)
    → drop (length (line_before key value) + 1) (line_text key value rest) ≡ rest
drop_line key value rest =
    ap (drop (length (line_before key value) + 1))
      (sym (append_assoc key (b':' ∷ b' ' ∷ (value ++ r_char ∷ [])) (n_char ∷ rest)))
    ∙ drop_front_more 1 (line_before key value) (n_char ∷ rest)

raw_loop-lines :
    (fuel n : ℕ) (fields : List (Bytes × Bytes)) (rest : Bytes)
    → length fields < fuel
    → All IsField fields
    → (m : ℕ) × (raw_loop fuel n (lines fields rest) ≡ some m)
unfolding raw_loop raw_line index_byte is_empty_line
raw_loop-lines zero n fields rest lt w = absurd (omega arith)
raw_loop-lines (suc fuel) n [] rest lt w = (n + (1 + 1), refl)
raw_loop-lines (suc fuel) n ((key, value) ∷ fields) rest lt (w, ws) =
    let text = line_text key value (lines fields rest) in
    let k = length (line_before key value) in
    let (m, e) = raw_loop-lines fuel (n + (k + 1)) fields rest (omega arith) ws in
    (
      m,
      ap (raw_line (raw_loop fuel) n text) (index_break key value (lines fields rest) w.0 w.2)
          ∙ rw (not_empty_line (k + 1) text (line_before-long key value))
              (rw (drop_line key value (lines fields rest)) e),
    )

length-lines :
    (fields : List (Bytes × Bytes)) (rest : Bytes) → length fields < length (lines fields rest)
length-lines [] rest = omega arith
length-lines ((key, value) ∷ fields) rest = omega (
  arith,
  length-lines fields rest,
  length-append key (b':' ∷ b' ' ∷ ((value ++ r_char ∷ []) ++ n_char ∷ lines fields rest)),
  length-append (value ++ r_char ∷ []) (n_char ∷ lines fields rest),
)

pub read_raw_headers-lines :
    (fields : List (Bytes × Bytes)) (rest : Bytes)
    → All IsField fields
    → (raw : Bytes) × (n : ℕ) × (read_raw_headers [] (lines fields rest) ≡ (raw, ok n))
unfolding read_raw_headers raw_first raw_block index_byte is_empty_line
read_raw_headers-lines [] rest w = ([], 2, refl)
read_raw_headers-lines ((key, value) ∷ fields) rest (w, ws) =
    let text = line_text key value (lines fields rest) in
    let k = length (line_before key value) in
    let (m, e) =
      raw_loop-lines (length text) (k + 1) fields rest
        (omega (arith, length-lines fields rest, length-lines ((key, value) ∷ fields) rest)) ws in
    (
      take m text,
      m,
      ap (raw_first [] text) (index_break key value (lines fields rest) w.0 w.2)
          ∙ rw (not_empty_line (k + 1) text (line_before-long key value))
              (rw (drop_line key value (lines fields rest)) (ap (raw_block [] text) e)),
    )
