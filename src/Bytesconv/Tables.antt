-- ===== src/Bytesconv/Tables.antt =====
-- The byte tables that bytesconv_table_gen.go prints into bytesconv_table.go, entry by entry.
use fasthttp.Base.{
  ℕ, ◌+◌, Bool, false, ◌&&◌, ◌||◌, not, leb, ◌==◌, if◌then◌else◌, byte, byte_sub, Bytes, codes, [],
  ◌∷◌,
}

abbrev within : ℕ → ℕ → ℕ → Bool
within lo hi c = leb lo c && leb c hi

-- 16 marks a byte that is no hex digit.
unfoldable pub hex2int : ℕ → ℕ
hex2int c =
    if within b'0' b'9' c
    then byte_sub c b'0'
    else if within b'a' b'f' c
    then byte (byte_sub c b'a' + 10)
    else if within b'A' b'F' c
    then byte (byte_sub c b'A' + 10)
    else 16

-- 'a' - 'A'
abbrev to_lower_offset : ℕ
to_lower_offset = 32

unfoldable pub to_lower : ℕ → ℕ
to_lower c = if within b'A' b'Z' c then byte (c + to_lower_offset) else c

unfoldable pub to_upper : ℕ → ℕ
to_upper c = if within b'a' b'z' c then byte_sub c to_lower_offset else c

-- `for _, v := range s { a[v] = 0 }`: whether `c` is one of the bytes of `s`.
abbrev pub among : ℕ → Bytes → Bool
among c [] = false
among c (v ∷ s) = c == v || among c s

unfoldable pub quoted_arg_should_escape : ℕ → Bool
quoted_arg_should_escape c =
    not (within b'a' b'z' c || within b'A' b'Z' c || within b'0' b'9' c || among c (codes "-_.~"))

unfoldable pub quoted_path_should_escape : ℕ → Bool
unfolding quoted_arg_should_escape
quoted_path_should_escape c = quoted_arg_should_escape c && not (among c (codes "$&+,/:;=@"))

unfoldable pub valid_header_field_byte : ℕ → Bool
valid_header_field_byte c =
    within b'0' b'9' c
    || within b'a' b'z' c
    || within b'A' b'Z' c
    || among c (codes "!#$%&'*+-.^_`|~")

unfoldable pub valid_header_value_byte : ℕ → Bool
valid_header_value_byte c = within 0x21 0x7e c || c == 0x20 || c == 0x09 || leb 0x80 c

unfoldable pub valid_method_value_byte : ℕ → Bool
valid_method_value_byte c =
    within b'0' b'9' c
    || within b'A' b'Z' c
    || within b'a' b'z' c
    || among c (codes "!#$%&'*+-.^_`|~")
