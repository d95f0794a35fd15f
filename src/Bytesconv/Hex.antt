-- ===== src/Bytesconv/Hex.antt =====
-- `readHexInt` and `writeHexInt` (bytesconv.go), the chunk sizes of a chunked body. A
-- `bufio.Reader` is the list of the bytes still to be read and the error that follows them.
pub mod RoundTrip
use fasthttp.Base.{
  ℕ, zero, suc, ◌+◌, ◌*◌, ◌/◌, [], ◌∷◌, ◌++◌, Option, none, some, ◌≡◌, refl, Bool, ltb, leb, ◌==◌,
  if◌then◌else◌, Bytes, codes, get_or, ℤ, pos, negsuc, u64, bit_and, bit_or,
}
use fasthttp.Bytesconv.Tables.{hex2int}

-- What `ReadByte` returns behind the last byte: `io.EOF` or another error.
pub data IoError : Type 0 where
  eof io_error : IoError

pub data HexError : Type 0 where
  empty_hex_num too_large_hex_num : HexError
  read_failed : IoError → HexError

-- bytesconv_64.go
abbrev pub max_hex_int_chars : ℕ
max_hex_int_chars = 15

abbrev lowerhex : Bytes
lowerhex = codes "0123456789abcdef"

-- At the end of the input, with `i` digits read.
pub at_end : IoError → ℕ → ℕ → ℤ × Option HexError × Bytes
at_end eof i n = if ltb 0 i then (pos n, none, []) else (negsuc 0, some (read_failed eof), [])
at_end io_error i n = (negsuc 0, some (read_failed io_error), [])

-- The result is the number, the error and the bytes left in the reader.
pub read_digits : IoError → Bytes → ℕ → ℕ → ℤ × Option HexError × Bytes
unfolding at_end
read_digits e [] i n = at_end e i n
read_digits e (c ∷ r) i n =
    let k = hex2int c in
    if k == 16
    then (if i == 0 then (negsuc 0, some empty_hex_num, r) else (pos n, none, c ∷ r))
    else if leb max_hex_int_chars i
    then (negsuc 0, some too_large_hex_num, r)
    else read_digits e r (i + 1) (bit_or (u64 (n * 16)) k)

unfoldable pub read_hex_int : IoError → Bytes → ℤ × Option HexError × Bytes
unfolding read_digits hex2int
read_hex_int e r = read_digits e r 0 0

-- The loop over the 16 bytes of the buffer, from its end; `none` is the panic of an index below
-- the buffer.
pub fill_hex : ℕ → ℕ → Bytes → Option Bytes
fill_hex zero n written = none
fill_hex (suc i) n written =
    let out = get_or lowerhex (bit_and n 0xf) 0 ∷ written in
    let rest = fill_hex i (n / 16) out in if n / 16 == 0 then some out else rest

-- What is handed to the writer; `none` is a panic.
unfoldable pub write_hex_int : ℤ → Option Bytes
unfolding fill_hex
write_hex_int (negsuc _) = none
write_hex_int (pos n) = fill_hex 16 n []

hex_tests :
    (write_hex_int (pos 0x1fa0) ≡ some (codes "1fa0"))
    × (read_hex_int eof (codes "1Fa0\r\n") ≡ (pos 0x1fa0, none, codes "\r\n"))
    × (read_hex_int eof (codes "x") ≡ (negsuc 0, some empty_hex_num, []))
    × (read_hex_int eof (codes "1234567890123456") ≡ (negsuc 0, some too_large_hex_num, []))
unfolding write_hex_int read_hex_int
hex_tests = (refl, refl, refl, refl)
