-- ===== src/Header/Values.antt =====
-- Values that are lists (header.go): `headerValueScanner`, the encodings of Accept-Encoding, the
-- parameters of a value, and the boundary of a multipart form.
use fasthttp.Base.{
  ℕ, zero, suc, ◌+◌, ◌-◌, List, [], ◌∷◌, Option, none, some, ◌≡◌, refl, Bool, true, false, leb, ltb,
  ◌==◌, ◌||◌, ◌&&◌, not, if◌then◌else◌, Bytes, codes, length, take, drop, index_byte, index,
  has_prefix, get_or,
}
use fasthttp.Bytesconv.Tables.{valid_header_field_byte}
use fasthttp.Cookie.Scan.{case_insensitive_compare}

abbrev quote : ℕ
quote = 34

abbrev back_slash : ℕ
back_slash = 92

pub drop_spaces : Bytes → Bytes
drop_spaces [] = []
drop_spaces (c ∷ b) = let rest = drop_spaces b in if c == b' ' then rest else c ∷ b

pub drop_end_spaces : Bytes → Bytes
drop_end_spaces [] = []
drop_end_spaces (c ∷ b) = elim (drop_end_spaces b) [
  | [] ↦ if c == b' ' then [] else c ∷ []
  | x ∷ rest ↦ c ∷ x ∷ rest
]

-- `stripSpace`
unfoldable pub strip_space : Bytes → Bytes
unfolding drop_spaces drop_end_spaces
strip_space b = drop_end_spaces (drop_spaces b)

-- The first item of a list, and what stands behind its comma.
unfoldable pub cut_comma : Bytes → Bytes × Bytes
cut_comma b = elim (index_byte b b',') [ none ↦ (b, []) | some n ↦ (take n b, drop (n + 1) b) ]

-- The loop of `hasHeaderValue` over `headerValueScanner.next`; each round takes a byte at least.
pub has_value_loop : ℕ → Bytes → Bytes → Bool
unfolding cut_comma strip_space
has_value_loop zero s value = false
has_value_loop (suc fuel) [] value = false
has_value_loop (suc fuel) (c ∷ s) value =
    let (item, rest) = cut_comma (c ∷ s) in
    let more = has_value_loop fuel rest value in
    if case_insensitive_compare (strip_space item) value then true else more

unfoldable pub has_header_value : Bytes → Bytes → Bool
unfolding has_value_loop case_insensitive_compare
has_header_value s value = has_value_loop (length s) s value

-- `HasAcceptEncodingBytes`, the function; the method calls the same on the header's value.
unfoldable pub has_accept_encoding_bytes : Bytes → Bytes → Bool
has_accept_encoding_bytes ae accept_encoding = elim (index ae accept_encoding) [
  | none ↦ false
  | some zero ↦ elim (drop (length accept_encoding) ae) [ [] ↦ true | c ∷ b ↦ c == b',' ]
  | some (suc n) ↦ elim (drop (suc n + length accept_encoding) ae) [
    | [] ↦ get_or ae n 0 == b' '
    | c ∷ b ↦ c == b',' && get_or ae n 0 == b' '
  ]
]

-- How many bytes of a token `b` begins with.
pub token_length : Bytes → ℕ
token_length [] = 0
token_length (c ∷ b) =
    let more = suc (token_length b) in if valid_header_field_byte c then more else 0

-- The position of the quote that ends a quoted value.
pub end_quote : Bool → Bytes → Option ℕ
end_quote escaping [] = none
end_quote escaping (c ∷ b) =
    let rest = end_quote (c == back_slash && not escaping) b in
    if c == quote && not escaping then some 0 else elim rest [ none ↦ none | some n ↦ some (suc n) ]

-- The value behind '=', and what stands behind it; `none` if it is no token and no quoted text.
pub param_value : Bytes → Option (Bytes × Bytes)
unfolding token_length end_quote
param_value [] = none
param_value (c ∷ b) =
    if valid_header_field_byte c
    then some (take (token_length (c ∷ b)) (c ∷ b), drop (token_length (c ∷ b)) (c ∷ b))
    else if c == quote
    then elim (end_quote false b) [ none ↦ none | some n ↦ some (take n b, drop (n + 1) b) ]
    else none

-- The parameter behind the next semicolon, its value, and what stands behind it.
pub next_param : Bytes → Option (Bytes × Bytes × Bytes)
unfolding param_value token_length drop_spaces
next_param b = elim (index_byte b b';') [
  | none ↦ none
  | some i ↦
      let p = drop_spaces (drop (i + 1) b) in
      let n = token_length p in
      if n == 0 || leb (length p) (n + 1) || not (get_or p n 0 == b'=')
      then none
      else elim (param_value (drop (n + 1) p)) [
        | none ↦ none
        | some (value, rest) ↦ some (take n p, value, rest)
      ]
]

-- `VisitHeaderParams`: the calls of `f`, which goes on while its result is true.
pub visit_params : ℕ → Bytes → (Bytes → Bytes → Bool) → List (Bytes × Bytes)
unfolding next_param
visit_params zero b f = []
visit_params (suc fuel) b f = elim (next_param b) [
  | none ↦ []
  | some (param, value, rest) ↦
      let more = visit_params fuel rest f in (param, value) ∷ (if f param value then more else [])
]

unfoldable pub visit_header_params : Bytes → (Bytes → Bytes → Bool) → List (Bytes × Bytes)
unfolding visit_params valid_header_field_byte
visit_header_params b f = visit_params (length b) b f

abbrev str_multipart_form_data : Bytes
str_multipart_form_data = codes "multipart/form-data"

abbrev str_boundary : Bytes
str_boundary = codes "boundary"

pub unquote : Bytes → Bytes
unquote b =
    if ltb 1 (length b) && get_or b 0 0 == quote && get_or b (length b - 1) 0 == quote
    then take (length b - 2) (drop 1 b)
    else b

-- What stands behind "boundary".
pub boundary_value : Bytes → Option Bytes
unfolding unquote cut_comma
boundary_value [] = none
boundary_value (c ∷ b) =
    if c == b'='
    then some (unquote (elim (index_byte b b';') [ none ↦ b | some n ↦ take n b ]))
    else none

-- The loop of `MultipartFormBoundary`, from the length `n` of what goes before the next semicolon.
pub boundary_loop : ℕ → ℕ → Bytes → Option Bytes
unfolding boundary_value drop_spaces
boundary_loop zero n b = none
boundary_loop (suc fuel) n [] = none
boundary_loop (suc fuel) n (c ∷ b) =
    let b' = drop_spaces (drop (n + 1) (c ∷ b)) in
    if has_prefix b' str_boundary
    then boundary_value (drop (length str_boundary) b')
    else elim (index_byte b' b';') [ none ↦ none | some m ↦ boundary_loop fuel m b' ]

-- `MultipartFormBoundary` of a Content-Type; `none` is nil.
unfoldable pub multipart_form_boundary : Bytes → Option Bytes
unfolding boundary_loop has_prefix
multipart_form_boundary b =
    if has_prefix b str_multipart_form_data
    then elim (drop (length str_multipart_form_data) b) [
      | [] ↦ none
      | c ∷ rest ↦ if c == b';' then boundary_loop (length b) 0 (c ∷ rest) else none
    ]
    else none

values_tests :
    (has_header_value (codes "a, Keep-Alive ,b") (codes "keep-alive") ≡ true)
    × (has_accept_encoding_bytes (codes "gzip, br") (codes "br") ≡ true)
    × (has_accept_encoding_bytes (codes "gzipx") (codes "gzip") ≡ false)
    × (visit_header_params (codes "x; a=b; c=\"d;e\"; f") (λ k v. true)
        ≡ (codes "a", codes "b") ∷ (codes "c", codes "d;e") ∷ [])
    × (multipart_form_boundary (codes "multipart/form-data; a=b; boundary=\"xy\";")
        ≡ some (codes "xy"))
unfolding has_header_value has_accept_encoding_bytes visit_header_params multipart_form_boundary
    index index_byte has_prefix
values_tests = (refl, refl, refl, refl, refl)
