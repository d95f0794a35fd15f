-- ===== src/Header/Scanner/Line.antt =====
-- The scanner reads a line "Key: value" back as the key and the value.
use fasthttp.Base.{
  ℕ, suc, ◌+◌, ◌-◌, [], ◌∷◌, ◌++◌, none, some, ◌≡◌, refl, subst, sym, ap, ◌∙◌, Bool, true, false,
  leb, if◌then◌else◌, Bytes, length, drop, index_byte, Lacks, arith, index_byte-first, take_front,
  drop_front_more, append_assoc, length-append, All-append, ◌<◌,
}
use fasthttp.Header.Errors.{ok}
use fasthttp.Header.Names.{r_char, n_char, str_crlf, normalize_header_key}
use fasthttp.Header.Scanner.{
  HeaderScanner, blanks, name_end, take_key, fold_lines, trim_end, drop_cr, take_value, scan_value,
  first_new_line, scan_field, scan_at, scan_behind, next_at, blank_line, initialize, next,
}

-- A scanner in front of `b` that has looked no further.
abbrev pub at_line : Bool → Bytes → Bytes → Bytes → ℕ → Bool → HeaderScanner
at_line started b key value h_len dn = record {
  fault = none;
  b = b;
  key = key;
  value = value;
  h_len = h_len;
  next_colon = none;
  next_new_line = none;
  disable_normalizing = dn;
  initialized = started;
  stale = [];
}

-- A value that stands in a line as it is: no line break, and no blank at its ends.
pub record IsPlain (value : Bytes) : Type 0 where
  pub one_line : Lacks n_char value
  pub no_lead : blanks value ≡ 0
  pub no_trail : trim_end value ≡ value

-- The name of a field ends at the first colon.
pub record IsName (key : Bytes) : Type 0 where
  pub no_colon : Lacks b':' key
  pub no_break : Lacks n_char key

pub drop_cr-snoc : (b : Bytes) → drop_cr (b ++ r_char ∷ []) ≡ b
unfolding drop_cr
drop_cr-snoc [] = refl
drop_cr-snoc (c ∷ []) = refl
drop_cr-snoc (c ∷ d ∷ b) = rw (drop_cr-snoc (d ∷ b))

-- The text from the value on.
abbrev pub value_text : Bytes → Bytes → Bytes
value_text value rest = (value ++ r_char ∷ []) ++ n_char ∷ rest

abbrev pub line_text : Bytes → Bytes → Bytes → Bytes
line_text key value rest = key ++ b':' ∷ b' ' ∷ value_text value rest

blank_line-key : (key text : Bytes) → IsName key → blank_line (key ++ b':' ∷ text) ≡ 0
unfolding blank_line
blank_line-key [] [] n = refl
blank_line-key [] (c ∷ text) n = refl
blank_line-key (c ∷ []) text n = ground (arith, n.no_break)
blank_line-key (c ∷ d ∷ key) text n = ground (arith, n.no_break)

pub index_break :
    (key value rest : Bytes)
    → IsName key
    → IsPlain value
    → index_byte (line_text key value rest) n_char
      ≡ some (length (key ++ b':' ∷ b' ' ∷ (value ++ r_char ∷ [])))
index_break key value rest n p =
    ap (λ t. index_byte t n_char)
      (sym (append_assoc key (b':' ∷ b' ' ∷ (value ++ r_char ∷ [])) (n_char ∷ rest)))
    ∙ index_byte-first n_char (key ++ b':' ∷ b' ' ∷ (value ++ r_char ∷ [])) rest (
        All-append _ key (b':' ∷ b' ' ∷ (value ++ r_char ∷ [])) n.no_break (
          omega arith,
          (omega arith, All-append _ value (r_char ∷ []) p.one_line (omega arith, tt)),
        ))

name_end-line :
    (key value rest : Bytes)
    → IsName key
    → IsPlain value
    → name_end (line_text key value rest) none ≡ ok (length key)
unfolding name_end
name_end-line key value rest n p = ground (
  arith,
  index_break key value rest n p,
  index_byte-first b':' key (b' ' ∷ value_text value rest) n.no_colon,
  length-append key (b':' ∷ b' ' ∷ (value ++ r_char ∷ [])),
)

blanks-value : (value rest : Bytes) → IsPlain value → blanks (b' ' ∷ value_text value rest) ≡ 1
unfolding blanks
blanks-value [] rest p = refl
blanks-value (c ∷ value) rest p = ground (arith, p.no_lead)

take_key-line :
    (started : Bool) (key value rest k v : Bytes) (n : ℕ) (dn : Bool)
    → IsPlain value
    → take_key (at_line started (line_text key value rest) k v n dn) (length key)
      ≡ at_line started
          (value_text value rest)
          (if dn then key else normalize_header_key key)
          v
          (n + (length key + 2))
          dn
unfolding take_key
take_key-line started key value rest k v n dn p =
    rw (take_front key (b':' ∷ b' ' ∷ value_text value rest)) (
      rw (drop_front_more 1 key (b':' ∷ b' ' ∷ value_text value rest)) (
        rw (blanks-value value rest p) (
          let two : length key + 1 + 1 ≡ length key + 2 = omega arith in
          rw (two, drop_front_more 2 key (b':' ∷ b' ' ∷ value_text value rest)) refl)))

-- What comes behind a line does not go on with it.
abbrev pub GoesNoFurther : Bytes → Type 0
GoesNoFurther rest = blanks rest ≡ 0

fold_lines-stop :
    (fuel : ℕ) (b rest : Bytes) (n : ℕ)
    → drop (n + 1) b ≡ rest
    → GoesNoFurther rest
    → fold_lines (suc fuel) b n false
      ≡ record { end = n; is_multi_line = false; colon = none; new_line = none }
unfolding fold_lines blanks
fold_lines-stop fuel b [] n e g = rw (e, fold_lines) refl
fold_lines-stop fuel b (c ∷ rest) n e g = rw (e, fold_lines) (ground arith)

value_end :
    (value rest : Bytes)
    → IsPlain value
    → index_byte (value_text value rest) n_char ≡ some (length (value ++ r_char ∷ []))
value_end value rest p =
    index_byte-first n_char (value ++ r_char ∷ []) rest
      (All-append _ value (r_char ∷ []) p.one_line (omega arith, tt))

drop_value :
    (value rest : Bytes) → drop (length (value ++ r_char ∷ []) + 1) (value_text value rest) ≡ rest
drop_value value rest = drop_front_more 1 (value ++ r_char ∷ []) (n_char ∷ rest)

value_text-pos :
    (value rest : Bytes) → length (value ++ r_char ∷ []) < length (value_text value rest)
value_text-pos value rest = omega (arith, length-append {0} (value ++ r_char ∷ []) (n_char ∷ rest))

module _ (started dn : Bool) (value rest k v : Bytes) (n : ℕ) where
  take_value-line :
      IsPlain value
      → take_value (at_line started (value_text value rest) k v n dn) (record {
        end = length (value ++ r_char ∷ []);
        is_multi_line = false;
        colon = none;
        new_line = none;
      })
        ≡ at_line started rest k value (n + length (value ++ r_char ∷ []) + 1) dn
  unfolding take_value
  take_value-line p =
      rw (take_front (value ++ r_char ∷ []) (n_char ∷ rest))
        (rw (drop_cr-snoc value) (rw p.no_trail (rw (drop_value value rest) refl)))

  scan_value-line :
      IsPlain value
      → GoesNoFurther rest
      → scan_value
          (at_line started (value_text value rest) k v n dn)
          (some (length (value ++ r_char ∷ [])))
        ≡ (at_line started rest k value (n + length (value ++ r_char ∷ []) + 1) dn, true)
  unfolding scan_value
  scan_value-line p g =
      let text = value_text value rest in
      let one : length text ≡ suc (length text - 1) = omega (arith, value_text-pos value rest) in
      let stop : fold_lines (length text) text (length (value ++ r_char ∷ [])) false ≡ record {
        end = length (value ++ r_char ∷ []);
        is_multi_line = false;
        colon = none;
        new_line = none;
      } =
        subst
          (λ m. fold_lines m text (length (value ++ r_char ∷ [])) false ≡ record {
            end = length (value ++ r_char ∷ []);
            is_multi_line = false;
            colon = none;
            new_line = none;
          })
          (sym one)
          (fold_lines-stop (length text - 1) text rest (length (value ++ r_char ∷ []))
            (drop_value value rest) g) in
      let more : leb (length text) (length (value ++ r_char ∷ [])) ≡ false =
        ground (arith, value_text-pos value rest) in
      rw (stop) (rw more (rw (take_value-line p) refl))

initialize-line :
    (started dn : Bool) (b k v : Bytes) (n : ℕ)
    → initialize (at_line started b k v n dn) ≡ at_line true b k v n dn
unfolding initialize
initialize-line true dn b k v n = refl
initialize-line false dn b k v n = refl

scan_behind-line :
    (started dn : Bool) (value rest k v : Bytes) (n : ℕ)
    → IsPlain value
    → GoesNoFurther rest
    → scan_behind (at_line started (value_text value rest) k v n dn)
      ≡ (at_line started rest k value (n + length (value ++ r_char ∷ []) + 1) dn, true)
unfolding scan_behind first_new_line
scan_behind-line started dn value rest k v n p g =
    rw (value_end value rest p) (scan_value-line started dn value rest k v n p g)

scan_field-line :
    (started dn : Bool) (key value rest k v : Bytes) (n : ℕ)
    → IsName key
    → IsPlain value
    → GoesNoFurther rest
    → scan_field (at_line started (line_text key value rest) k v n dn) ≡ (
      at_line started rest
          (if dn then key else normalize_header_key key)
          value
          (n + (length key + 2) + length (value ++ r_char ∷ []) + 1)
          dn,
      true,
    )
unfolding scan_field scan_at
scan_field-line started dn key value rest k v n name p g =
    ap (scan_at (at_line started (line_text key value rest) k v n dn))
      (name_end-line key value rest name p)
    ∙ ap scan_behind (take_key-line started key value rest k v n dn p)
    ∙ scan_behind-line started dn value rest (if dn then key else normalize_header_key key) v
        (n + (length key + 2)) p g

-- A line is read back as its key, in the form that the scanner gives to keys, and its value; the
-- scanner stands behind the line, and has counted its bytes.
pub next-line :
    (started dn : Bool) (key value rest k v : Bytes) (n : ℕ)
    → IsName key
    → IsPlain value
    → GoesNoFurther rest
    → next (at_line started (line_text key value rest) k v n dn) ≡ (
      at_line true rest
          (if dn then key else normalize_header_key key)
          value
          (n + (length key + 2) + length (value ++ r_char ∷ []) + 1)
          dn,
      true,
    )
unfolding next
next-line started dn key value rest k v n name p g =
    rw (initialize-line started dn (line_text key value rest) k v n) (
      rw (blank_line-key key (b' ' ∷ value_text value rest) name)
        (unfold next_at in scan_field-line true dn key value rest k v n name p g))

-- The empty line at the end is taken.
pub next-end :
    (started dn : Bool) (rest k v : Bytes) (n : ℕ)
    → next (at_line started (str_crlf ++ rest) k v n dn) ≡ (at_line true rest k v (n + 2) dn, false)
unfolding next blank_line next_at
next-end started dn rest k v n = rw (initialize-line started dn (str_crlf ++ rest) k v n) refl
