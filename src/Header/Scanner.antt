-- ===== src/Header/Scanner.antt =====
-- `headerScanner` (header.go), which takes one field of a header at a time from the bytes that are
-- read, and joins the lines of a folded value.
--
-- The scanner works on the reader's buffer and moves the bytes behind a folded value to the front.
-- `stale` is what stands in the buffer behind `b`: copies of its last bytes.
pub mod Line
pub mod Progress
pub mod Lines
use fasthttp.Base.{
  ℕ, zero, suc, ◌+◌, ◌-◌, List, [], ◌∷◌, ◌++◌, Option, none, some, ◌≡◌, refl, Bool, true, false,
  ltb, leb, ◌==◌, ◌||◌, ◌&&◌, not, if◌then◌else◌, Bytes, codes, length, take, drop, index_byte,
}
use fasthttp.Header.Errors.{HeaderError, need_more, invalid_name, Result, ok, err}
use fasthttp.Header.Names.{r_char, n_char, tab, str_crlf, normalize_header_key}

pub record HeaderScanner : Type 0 where
  pub fault : Option HeaderError
  pub b : Bytes
  pub key : Bytes
  pub value : Bytes
  pub h_len : ℕ
  -- `none` is a negative number, of which the code asks nothing else.
  pub next_colon : Option ℕ
  pub next_new_line : Option ℕ
  pub disable_normalizing : Bool
  pub initialized : Bool
  pub stale : Bytes

abbrev pub is_blank : ℕ → Bool
is_blank c = c == b' ' || c == tab

-- How many blanks `b` begins with.
unfoldable pub blanks : Bytes → ℕ
blanks [] = 0
blanks (c ∷ b) = let more = suc (blanks b) in if is_blank c then more else 0

abbrev pub back : Option ℕ → ℕ → Option ℕ
back none k = none
back (some n) k = if ltb n k then none else some (n - k)

-- Where the name of the field ends.
pub name_end : Bytes → Option ℕ → Result ℕ
name_end b (some n) = ok n
name_end b none = elim (index_byte b n_char) [
  | none ↦ err need_more
  | some x ↦ elim (index_byte b b':') [
    | none ↦ err need_more
    | some n ↦ if ltb x n then err invalid_name else ok n
  ]
]

-- The name up to position `n`, and the colon and the blanks behind it.
pub take_key : HeaderScanner → ℕ → HeaderScanner
unfolding blanks normalize_header_key
take_key s n =
    let key = take n s.b in
    let k = blanks (drop (n + 1) s.b) in
    record s {
      key = if s.disable_normalizing then key else normalize_header_key key;
      b = drop (n + 1 + k) s.b;
      h_len = s.h_len + (n + 1 + k);
      next_colon = none;
      next_new_line = back s.next_new_line k;
    }

-- The end of the value, and what the loop found of the next field.
pub record Folded : Type 0 where
  pub end : ℕ
  pub is_multi_line : Bool
  pub colon : Option ℕ
  pub new_line : Option ℕ

-- The loop over the lines that begin with a blank; `n` is the end of the last line. Each round goes
-- forward, so that the length of `b` is fuel enough.
pub fold_lines : ℕ → Bytes → ℕ → Bool → Folded
fold_lines zero b n multi = record { end = n; is_multi_line = multi; colon = none; new_line = none }
fold_lines (suc fuel) b n multi = elim (drop (n + 1) b) [
  | [] ↦ record { end = n; is_multi_line = multi; colon = none; new_line = none }
  | c ∷ line ↦
      if not (is_blank c)
      then record { end = n; is_multi_line = multi; colon = none; new_line = none }
      else elim (index_byte (c ∷ line) n_char) [
        | none ↦ record { end = n; is_multi_line = multi; colon = none; new_line = none }
        | some d ↦
            if d == 0 || (d == 1 && c == r_char)
            then record { end = n; is_multi_line = multi; colon = none; new_line = none }
            else elim (index_byte (take d (c ∷ line)) b':') [
              | none ↦ fold_lines fuel b (n + d + 1) true
              | some k ↦ record {
                end = n;
                is_multi_line = multi;
                colon = some k;
                new_line = some (d - k - 1);
              }
            ]
      ]
]

-- The value without the blanks at its end.
unfoldable pub trim_end : Bytes → Bytes
trim_end [] = []
trim_end (c ∷ b) = elim (trim_end b) [
  | [] ↦ if is_blank c then [] else c ∷ []
  | x ∷ rest ↦ c ∷ x ∷ rest
]

unfoldable pub drop_cr : Bytes → Bytes
drop_cr [] = []
drop_cr (c ∷ []) = if c == r_char then [] else c ∷ []
drop_cr (c ∷ d ∷ b) = c ∷ drop_cr (d ∷ b)

-- The loop of `normalizeHeaderValue`: the bytes kept.
pub squeeze : Bool → Bool → Bytes → Bytes
squeeze once line_start [] = []
squeeze once line_start (c ∷ ov) =
    let breaks = c == r_char || c == n_char in
    let folds = line_start && is_blank c in
    let new_line = c == n_char in
    let rest =
      squeeze
        (if breaks then (if new_line then false else once) else (if folds then true else once))
        (if breaks then (if new_line then true else line_start) else folds) ov in
    if breaks then rest else if folds then (if once then rest else b' ' ∷ rest) else c ∷ rest

-- The line break that the value is followed by. The value is followed by a line, so that no index
-- is out of range.
pub break_length : Bytes → ℕ
break_length [] = 0
break_length (c ∷ []) = if c == r_char || c == n_char then 1 else 0
break_length (c ∷ d ∷ b) =
    if c == r_char then (if d == n_char then 2 else 1) else if c == n_char then 1 else 0

-- `normalizeHeaderValue`, on the value, the bytes from the value on and the length read so far; the
-- last result is what the bytes behind the others are afterwards.
unfoldable pub normalize_header_value : Bytes → Bytes → ℕ → Bytes × Bytes × ℕ × Bytes
unfolding squeeze break_length
normalize_header_value [] ob header_length = ([], [], 0, [])
normalize_header_value (c ∷ ov) ob header_length =
    let nv = squeeze false false (c ∷ ov) in
    let shrunk = length (c ∷ ov) - length nv in
    let rest = drop (length (c ∷ ov)) ob in
    (nv, drop (break_length rest) rest, header_length - shrunk, drop (length ob - shrunk) ob)

-- The value that ends at `f.end`, and the line break behind it.
pub take_value : HeaderScanner → Folded → HeaderScanner
unfolding trim_end drop_cr normalize_header_value
take_value s f =
    let value = trim_end (drop_cr (take f.end s.b)) in
    let (nv, nb, n, moved) = normalize_header_value value s.b (s.h_len + f.end + 1) in
    if f.is_multi_line
    then record s {
      value = nv;
      b = nb;
      h_len = n;
      next_colon = f.colon;
      next_new_line = f.new_line;
      stale = moved ++ s.stale;
    }
    else record s {
      value = value;
      b = drop (f.end + 1) s.b;
      h_len = s.h_len + f.end + 1;
      next_colon = f.colon;
      next_new_line = f.new_line;
    }

pub failed : HeaderScanner → HeaderError → HeaderScanner × Bool
failed s e = (record s { fault = some e }, false)

pub scan_value : HeaderScanner → Option ℕ → HeaderScanner × Bool
unfolding failed fold_lines take_value
scan_value s none = failed s need_more
scan_value s (some n) =
    let f = fold_lines (length s.b) s.b n false in
    if leb (length s.b) f.end then failed s need_more else (take_value s f, true)

pub first_new_line : HeaderScanner → Option ℕ
first_new_line s = elim s.next_new_line [ none ↦ index_byte s.b n_char | some n ↦ some n ]

-- The value behind a key that is taken.
pub scan_behind : HeaderScanner → HeaderScanner × Bool
unfolding scan_value first_new_line
scan_behind s = scan_value (record s { next_new_line = none }) (first_new_line s)

pub scan_at : HeaderScanner → Result ℕ → HeaderScanner × Bool
unfolding take_key failed scan_behind
scan_at s (err e) = failed s e
scan_at s (ok n) = scan_behind (take_key s n)

pub scan_field : HeaderScanner → HeaderScanner × Bool
unfolding name_end scan_at
scan_field s = scan_at s (name_end s.b s.next_colon)

-- How many bytes end the header here: an empty line.
pub blank_line : Bytes → ℕ
blank_line [] = 0
blank_line (c ∷ []) = if c == n_char then 1 else 0
blank_line (c ∷ d ∷ b) = if c == r_char && d == n_char then 2 else if c == n_char then 1 else 0

pub initialize : HeaderScanner → HeaderScanner
initialize s =
    if s.initialized
    then s
    else record s { next_colon = none; next_new_line = none; initialized = true }

-- What `next` does where an empty line of `n` bytes ends the header.
pub next_at : ℕ → HeaderScanner → HeaderScanner × Bool
unfolding scan_field
next_at zero s = scan_field s
next_at (suc n) s = (record s { b = drop (suc n) s.b; h_len = s.h_len + suc n }, false)

unfoldable pub next : HeaderScanner → HeaderScanner × Bool
unfolding next_at blank_line initialize
next s = next_at (blank_line (initialize s).b) (initialize s)

-- A scanner over `b`, as a caller makes it.
abbrev pub new_scanner : Bytes → Bool → HeaderScanner
new_scanner b disable_normalizing = record {
  fault = none;
  b = b;
  key = [];
  value = [];
  h_len = 0;
  next_colon = none;
  next_new_line = none;
  disable_normalizing = disable_normalizing;
  initialized = false;
  stale = [];
}

-- What the reader's buffer, of `size` bytes, holds when `n` bytes of it are discarded.
unfoldable pub unread : HeaderScanner → ℕ → ℕ → Bytes
unread s size n = drop (n - (size - length s.b - length s.stale)) (s.b ++ s.stale)

abbrev folded : Bytes
folded = codes "foo: bar" ++ str_crlf ++ codes " baz" ++ str_crlf ++ str_crlf ++ codes "BODY"

scanner_tests :
    ((next (new_scanner folded false)).0.key ≡ codes "Foo")
    × ((next (new_scanner folded false)).0.value ≡ codes "bar baz")
    × ((next (new_scanner folded false)).0.b ≡ str_crlf ++ codes "BODY")
    × ((next (new_scanner folded false)).0.stale ≡ codes "DY")
    × ((next (new_scanner folded false)).0.h_len ≡ 14)
unfolding next index_byte
scanner_tests = (refl, refl, refl, refl, refl)
