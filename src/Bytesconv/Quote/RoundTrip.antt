-- ===== src/Bytesconv/Quote/RoundTrip.antt =====
-- What is encoded is decoded to itself, and the encoding holds no byte with a meaning in a query.
use fasthttp.Base.{
  ℕ, ◌*◌, ◌/◌, ◌≤◌, ◌<◌, [], ◌∷◌, ◌++◌, append_assoc, append-nil, ◌≡◌, ◌≢◌, refl, sym, ap, ◌∙◌,
  arith, Bool, true, false, not, leb, ltb, ◌==◌, ◌&&◌, ==_iff, all_below, all_below_sound, Bytes,
  AreBytes, codes, get_or, bit_and, bit_or, byte, All, All-append, Bool-cases, inl, inr,
}
use mathlib.Core.List.{flat_map}
use fasthttp.Bytesconv.Tables.{among, hex2int, quoted_arg_should_escape, quoted_path_should_escape}
use fasthttp.Bytesconv.Quote.{
  percent, quote_byte, append_quoted_arg, quote_path_byte, quote_path, append_quoted_path, plain,
  decode_slow, decode_arg_append, decode_arg_append_no_plus,
}
use fasthttp.Bytesconv.Quote.Decode.{decode_plain, decode_arg_append-decode_slow}

abbrev high : ℕ → ℕ
high c = get_or (codes "0123456789ABCDEF") (c / 16) 0

abbrev low : ℕ → ℕ
low c = get_or (codes "0123456789ABCDEF") (bit_and c 0xf) 0

-- For each byte: its escape is two hex digits that spell it.
abbrev spells : ℕ → Bool
spells c =
    ltb (hex2int (high c)) 16
    && ltb (hex2int (low c)) 16
    && bit_or (byte (hex2int (high c) * 16)) (hex2int (low c)) == c

spells_table : all_below 256 spells ≡ true
unfolding all_below hex2int
spells_table = refl

decode_slow-percent :
    (plus : Bool) (c : ℕ) (dst s : Bytes)
    → c < 256
    → decode_slow plus dst (percent c ++ s) ≡ decode_slow plus (dst ++ c ∷ []) s
unfolding decode_slow
decode_slow-percent plus c dst s h = ground (arith, all_below_sound 256 spells c spells_table h)

decode_slow-quote_byte :
    (c : ℕ) (dst s : Bytes)
    → c < 256
    → decode_slow true dst (quote_byte c ++ s) ≡ decode_slow true (dst ++ c ∷ []) s
unfolding quote_byte plain quoted_arg_should_escape
decode_slow-quote_byte c dst s h = ground (
  arith,
  decode_slow-percent true c dst s h,
  decode_plain true c dst s,
  decode_plain true b'+' dst s,
)

decode_slow-quote_path_byte :
    (c : ℕ) (dst s : Bytes)
    → c < 256
    → decode_slow false dst (quote_path_byte c ++ s) ≡ decode_slow false (dst ++ c ∷ []) s
unfolding quote_path_byte plain quoted_path_should_escape
decode_slow-quote_path_byte c dst s h =
    ground (arith, decode_slow-percent false c dst s h, decode_plain false c dst s)

pub append_quoted_arg-flat_map :
    (src dst : Bytes) → append_quoted_arg dst src ≡ dst ++ flat_map quote_byte src
unfolding append_quoted_arg flat_map
append_quoted_arg-flat_map [] dst = rw append-nil
append_quoted_arg-flat_map (c ∷ src) dst =
    simp (append_quoted_arg-flat_map src (dst ++ quote_byte c), append_assoc)

quote_path-flat_map : (src dst : Bytes) → quote_path dst src ≡ dst ++ flat_map quote_path_byte src
unfolding quote_path flat_map
quote_path-flat_map [] dst = rw append-nil
quote_path-flat_map (c ∷ src) dst =
    simp (quote_path-flat_map src (dst ++ quote_path_byte c), append_assoc)

pub decode_slow-flat_map :
    (src dst rest : Bytes)
    → AreBytes src
    → decode_slow true dst (flat_map quote_byte src ++ rest) ≡ decode_slow true (dst ++ src) rest
unfolding flat_map
decode_slow-flat_map [] dst rest h = rw append-nil
decode_slow-flat_map (c ∷ src) dst rest (hc, h) =
    simp (append_assoc, decode_slow-quote_byte, hc, decode_slow-flat_map src (dst ++ c ∷ []) rest h)

decode_slow-flat_map_path :
    (src dst rest : Bytes)
    → AreBytes src
    → decode_slow false dst (flat_map quote_path_byte src ++ rest)
      ≡ decode_slow false (dst ++ src) rest
unfolding flat_map
decode_slow-flat_map_path [] dst rest h = rw append-nil
decode_slow-flat_map_path (c ∷ src) dst rest (hc, h) = simp (
  append_assoc,
  decode_slow-quote_path_byte,
  hc,
  decode_slow-flat_map_path src (dst ++ c ∷ []) rest h,
)

-- Any byte string that is encoded as an argument is decoded to itself.
pub decode_arg_append-append_quoted_arg :
    (dst src : Bytes) → AreBytes src → decode_arg_append dst (append_quoted_arg [] src) ≡ dst ++ src
decode_arg_append-append_quoted_arg dst src h =
    (decode_arg_append-decode_slow dst (append_quoted_arg [] src)).0
    ∙ ap (λ s. dst ++ decode_slow true [] s)
        (append_quoted_arg-flat_map src [] ∙ sym (append-nil (flat_map quote_byte src)))
    ∙ ap (λ s. dst ++ s) (decode_slow-flat_map src [] [] h ∙ decoded)
  where
    decoded : decode_slow true src [] ≡ src
    decoded = unfold decode_slow in refl

decode_slow-quote_path :
    (src : Bytes) → AreBytes src → decode_slow false [] (quote_path [] src) ≡ src
decode_slow-quote_path src h =
    ap (decode_slow false [])
      (quote_path-flat_map src [] ∙ sym (append-nil (flat_map quote_path_byte src)))
    ∙ decode_slow-flat_map_path src [] [] h
    ∙ unfold decode_slow in refl

star_path : decode_slow false [] (codes "*") ≡ codes "*"
unfolding decode_slow plain
star_path = refl

decode_slow-append_quoted_path :
    (src : Bytes) → AreBytes src → decode_slow false [] (append_quoted_path [] src) ≡ src
decode_slow-append_quoted_path [] h = unfold append_quoted_path in decode_slow-quote_path [] h
decode_slow-append_quoted_path (c ∷ []) h =
    let path = decode_slow-quote_path (c ∷ []) h in
    elim (Bool-cases (c == b'*')) [
      | inl star ↦ unfold append_quoted_path in rw star (rw ((==_iff c b'*').0 star) star_path)
      | inr other ↦ unfold append_quoted_path in rw other path
    ]
decode_slow-append_quoted_path (c ∷ d ∷ src) h =
    unfold append_quoted_path in decode_slow-quote_path (c ∷ d ∷ src) h

-- Any byte string that is encoded as a path, "*" too, is decoded to itself.
pub decode_arg_append_no_plus-append_quoted_path :
    (dst src : Bytes)
    → AreBytes src
    → decode_arg_append_no_plus dst (append_quoted_path [] src) ≡ dst ++ src
decode_arg_append_no_plus-append_quoted_path dst src h =
    (decode_arg_append-decode_slow dst (append_quoted_path [] src)).1
    ∙ ap (λ s. dst ++ s) (decode_slow-append_quoted_path src h)

-- A byte that an encoded argument may hold: no separator, no control and no byte above ASCII.
abbrev pub IsUnreserved : ℕ → Type 0
IsUnreserved c =
    (b'!' ≤ c)
    × (c ≤ b'~')
    × (c ≢ b'&')
    × (c ≢ b'=')
    × (c ≢ b'#')
    × (c ≢ b'?')
    × (c ≢ b';')
    × (c ≢ b'/')

abbrev unreserved : ℕ → Bool
unreserved c = leb b'!' c && leb c b'~' && not (among c (codes "&=#?;/"))

hex_unreserved : all_below 256 (λ c. unreserved (high c) && unreserved (low c)) ≡ true
unfolding all_below
hex_unreserved = refl

quote_byte-IsUnreserved : (c : ℕ) → c < 256 → All IsUnreserved (quote_byte c)
unfolding quote_byte quoted_arg_should_escape
quote_byte-IsUnreserved c h = ground (arith, all_below_sound 256 _ c hex_unreserved h)

flat_map-IsUnreserved : (src : Bytes) → AreBytes src → All IsUnreserved (flat_map quote_byte src)
unfolding flat_map
flat_map-IsUnreserved [] h = tt
flat_map-IsUnreserved (c ∷ src) (hc, h) =
    All-append IsUnreserved (quote_byte c) _ (quote_byte-IsUnreserved c hc)
      (flat_map-IsUnreserved src h)

-- An encoded argument holds printable ASCII alone, and none of the bytes that separate the parts
-- of a URL or the arguments of a query.
pub append_quoted_arg-IsUnreserved :
    (src : Bytes) → AreBytes src → All IsUnreserved (append_quoted_arg [] src)
append_quoted_arg-IsUnreserved src h = rw append_quoted_arg-flat_map (flat_map-IsUnreserved src h)
