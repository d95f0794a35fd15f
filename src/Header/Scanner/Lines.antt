-- ===== src/Header/Scanner/Lines.antt =====
-- The text of a header with one line for each field, and where the scanner stands behind it.
use fasthttp.Base.{
  ℕ, ◌+◌, List, [], ◌∷◌, ◌++◌, ◌≡◌, refl, Bool, true, if◌then◌else◌, Bytes, length, length-append,
  arith, All,
}
use fasthttp.Header.Names.{r_char, str_crlf, normalize_header_key}
use fasthttp.Header.Scanner.{HeaderScanner, blanks}
use fasthttp.Header.Scanner.Line.{IsName, IsPlain, at_line, line_text, GoesNoFurther}

-- A key and a value that stand in a line as they are.
abbrev pub IsField : Bytes × Bytes → Type 0
IsField kv = IsName kv.0 × (blanks kv.0 ≡ 0) × IsPlain kv.1

-- The lines of the fields, the empty line and `rest`.
abbrev pub lines : List (Bytes × Bytes) → Bytes → Bytes
lines [] rest = str_crlf ++ rest
lines ((key, value) ∷ fields) rest = line_text key value (lines fields rest)

abbrev pub written_key : Bool → Bytes → Bytes
written_key dn key = if dn then key else normalize_header_key key

-- The scanner behind the empty line.
abbrev pub behind : Bool → Bytes → Bytes → Bytes → ℕ → List (Bytes × Bytes) → HeaderScanner
behind dn rest k v n [] = at_line true rest k v (n + 2) dn
behind dn rest k v n ((key, value) ∷ fields) =
    behind dn rest (written_key dn key) value
      (n + (length key + 2) + length (value ++ r_char ∷ []) + 1) fields

blanks-key : (key text : Bytes) → blanks key ≡ 0 → blanks (key ++ b':' ∷ text) ≡ 0
unfolding blanks
blanks-key [] text h = refl
blanks-key (c ∷ key) text h = ground arith

pub lines-GoesNoFurther :
    (fields : List (Bytes × Bytes)) (rest : Bytes)
    → All IsField fields
    → GoesNoFurther (lines fields rest)
unfolding blanks
lines-GoesNoFurther [] rest w = refl
lines-GoesNoFurther ((key, value) ∷ fields) rest (w, _) =
    blanks-key key (b' ' ∷ ((value ++ r_char ∷ []) ++ 10 ∷ lines fields rest)) w.1

-- The scanner has read the whole text but `rest`, and the buffer behind it is as it was.
pub behind_lem :
    (dn : Bool) (rest k v : Bytes) (n : ℕ) (fields : List (Bytes × Bytes))
    → ((behind dn rest k v n fields).b ≡ rest)
      × ((behind dn rest k v n fields).stale ≡ [])
      × ((behind dn rest k v n fields).h_len + length rest ≡ n + length (lines fields rest))
behind_lem dn rest k v n [] = (refl, refl, omega (arith, length-append {0} str_crlf rest))
behind_lem dn rest k v n ((key, value) ∷ fields) =
    let (b, stale, len) =
      behind_lem dn rest (written_key dn key) value
        (n + (length key + 2) + length (value ++ r_char ∷ []) + 1) fields in
    (
      b,
      stale,
      omega (
        arith,
        len,
        length-append key (b':' ∷ b' ' ∷ ((value ++ r_char ∷ []) ++ 10 ∷ lines fields rest)),
        length-append (value ++ r_char ∷ []) (10 ∷ lines fields rest),
      ),
    )
