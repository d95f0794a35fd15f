-- ===== src/Header/Lines.antt =====
-- Lines, the block of raw headers, methods and Content-Length (header.go).
pub mod Raw
use fasthttp.Base.{
  ℕ, zero, suc, ◌+◌, ◌-◌, List, [], ◌∷◌, ◌++◌, Option, none, some, ◌≡◌, refl, Bool, true, false,
  ◌==◌, ◌||◌, ◌&&◌, if◌then◌else◌, Bytes, codes, length, take, drop, index_byte, ℤ, pos, negsuc,
}
use fasthttp.Bytesconv.Decimal.{IntError, parse_uint_buf}
use fasthttp.Bytesconv.Tables.{valid_method_value_byte}
use fasthttp.Header.Errors.{HeaderError, need_more, content_length_not_int, Result, ok, err}
use fasthttp.Header.Names.{r_char, n_char, str_crlf}
use fasthttp.Header.Scanner.{drop_cr}

unfoldable pub cut_line : Bytes → Option ℕ → Result (Bytes × Bytes)
unfolding drop_cr
cut_line b none = err need_more
cut_line b (some n) = ok (drop_cr (take n b), drop (n + 1) b)

-- `nextLine`: a line without its end, and what stands behind it.
unfoldable pub next_line : Bytes → Result (Bytes × Bytes)
unfolding cut_line
next_line b = cut_line b (index_byte b n_char)

-- `numLeadingCRorLF`
unfoldable pub num_leading_cr_or_lf : Bytes → ℕ
num_leading_cr_or_lf [] = 0
num_leading_cr_or_lf (b ∷ v) =
    let more = suc (num_leading_cr_or_lf v) in if b == r_char || b == n_char then more else 0

-- `isValidMethod`
unfoldable pub is_valid_method : Bytes → Bool
unfolding valid_method_value_byte
is_valid_method [] = true
is_valid_method (ch ∷ method) = valid_method_value_byte ch && is_valid_method method

-- `parseContentLength`
unfoldable pub parse_content_length : Bytes → Result ℤ
unfolding parse_uint_buf
parse_content_length b =
    let (v, n, e) = parse_uint_buf b in
    elim e [
      | some _ ↦ err content_length_not_int
      | none ↦ if n == length b then ok v else err content_length_not_int
    ]

-- Whether a line of `m` bytes, its end included, is empty.
pub is_empty_line : ℕ → Bytes → Bool
is_empty_line m [] = m == 1
is_empty_line m (c ∷ b) = m == 1 || (m == 2 && c == r_char)

-- One round of the loop of `readRawHeaders`, on the end of the line; `go` is the rest of the loop.
pub raw_line : (ℕ → Bytes → Option ℕ) → ℕ → Bytes → Option ℕ → Option ℕ
unfolding is_empty_line
raw_line go n b none = none
raw_line go n b (some m) =
    if is_empty_line (m + 1) b then some (n + (m + 1)) else go (n + (m + 1)) (drop (m + 1) b)

-- The loop over the lines behind the first one; `n` bytes stand before `b`, and the result is where
-- the block ends. Each round takes a byte at least.
pub raw_loop : ℕ → ℕ → Bytes → Option ℕ
unfolding raw_line
raw_loop zero n b = none
raw_loop (suc fuel) n b = raw_line (raw_loop fuel) n b (index_byte b n_char)

pub raw_block : Bytes → Bytes → Option ℕ → Bytes × Result ℕ
raw_block dst buf none = (dst, err need_more)
raw_block dst buf (some m) = (dst ++ take m buf, ok m)

pub raw_first : Bytes → Bytes → Option ℕ → Bytes × Result ℕ
unfolding is_empty_line raw_loop raw_block
raw_first dst buf none = ([], err need_more)
raw_first dst buf (some n) =
    if is_empty_line (n + 1) buf
    then (dst, ok (n + 1))
    else raw_block dst buf (raw_loop (length buf) (n + 1) (drop (n + 1) buf))

-- `readRawHeaders`: `dst` with the block behind it, and the length of the block.
unfoldable pub read_raw_headers : Bytes → Bytes → Bytes × Result ℕ
unfolding raw_first
read_raw_headers dst buf = raw_first dst buf (index_byte buf n_char)

lines_tests :
    (next_line (codes "ab" ++ str_crlf ++ codes "c") ≡ ok (codes "ab", codes "c"))
    × (read_raw_headers [] (codes "a: b" ++ str_crlf ++ str_crlf ++ codes "c")
        ≡ (codes "a: b" ++ str_crlf ++ str_crlf, ok 8))
    × (parse_content_length (codes "12") ≡ ok (pos 12))
    × (parse_content_length (codes "12a") ≡ err content_length_not_int)
unfolding next_line read_raw_headers parse_content_length index_byte
lines_tests = (refl, refl, refl, refl)
