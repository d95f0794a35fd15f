-- ===== src/Body.antt =====
-- The bodies of http.go: fixed size, chunked, and up to the end of the connection. A `bufio.Reader`
-- is the list of the bytes still to be read and the error that follows them, as in Bytesconv/Hex: how
-- the bytes are cut into reads does not show in what these functions return.
pub mod RoundTrip
use fasthttp.Base.{
  ℕ, zero, suc, ◌+◌, ◌-◌, List, [], ◌∷◌, ◌++◌, Option, none, some, ◌≡◌, refl, Bool, true, false,
  ltb, leb, ◌==◌, ◌||◌, ◌&&◌, not, if◌then◌else◌, Bytes, codes, length, take, drop, equal, ℤ, pos,
  negsuc,
}
use fasthttp.Bytesconv.Hex.{IoError, eof, io_error, HexError, read_hex_int, write_hex_int}
use fasthttp.Header.Names.{r_char, n_char, str_crlf}

pub data BodyError : Type 0 where
  hex_error : HexError → BodyError
  read_error : IoError → BodyError
  broken_chunk body_too_large : BodyError

-- `readCrLf`
unfoldable pub read_cr_lf : IoError → Bytes → Option BodyError × Bytes
read_cr_lf e [] = (some (read_error e), [])
read_cr_lf e (c ∷ []) = if c == r_char then (some (read_error e), []) else (some broken_chunk, [])
read_cr_lf e (c ∷ d ∷ r) =
    if not (c == r_char)
    then (some broken_chunk, d ∷ r)
    else if not (d == n_char)
    then (some broken_chunk, r)
    else (none, r)

-- The loop of `parseChunkSize` over the extension of the chunk, up to the '\r'.
unfoldable pub skip_extension : Bytes → Option Bytes
skip_extension [] = none
skip_extension (c ∷ r) = let rest = skip_extension r in if c == r_char then some (c ∷ r) else rest

-- The end of the line of the size `n`.
unfoldable pub size_line : IoError → ℤ → Option Bytes → ℤ × Option BodyError × Bytes
unfolding read_cr_lf
size_line e n none = (negsuc 0, some (read_error e), [])
size_line e n (some r) = elim (read_cr_lf e r).0 [
  | some err ↦ (negsuc 0, some err, (read_cr_lf e r).1)
  | none ↦ (n, none, (read_cr_lf e r).1)
]

unfoldable pub size_behind : IoError → ℤ × Option HexError × Bytes → ℤ × Option BodyError × Bytes
unfolding size_line skip_extension
size_behind e (n, some err, r) = (negsuc 0, some (hex_error err), r)
size_behind e (n, none, r) = size_line e n (skip_extension r)

-- `parseChunkSize`
unfoldable pub parse_chunk_size : IoError → Bytes → ℤ × Option BodyError × Bytes
unfolding size_behind read_hex_int
parse_chunk_size e r = size_behind e (read_hex_int e r)

-- `appendBodyFixedSize`: `dst` with the bytes read, the error and the bytes left.
unfoldable pub append_body_fixed_size :
    IoError → Bytes → Bytes → ℕ → Bytes × Option BodyError × Bytes
append_body_fixed_size e r dst n =
    if ltb (length r) n
    then (dst ++ r, some (read_error e), [])
    else (dst ++ take n r, none, drop n r)

-- Whether a body of `n` bytes is too large; a limit that is not positive is none.
unfoldable pub exceeds : ℤ → ℕ → Bool
exceeds (negsuc _) n = false
exceeds (pos limit) n = ltb 0 limit && ltb limit n

-- `readBody`
unfoldable pub read_body : IoError → ℕ → ℤ → Bytes → Bytes → Bytes × Option BodyError × Bytes
unfolding exceeds append_body_fixed_size
read_body e content_length max_body_size dst r =
    if exceeds max_body_size content_length
    then (dst, some body_too_large, r)
    else append_body_fixed_size e r dst content_length

-- What the loop of `readBodyChunked` does with a chunk and its line end.
unfoldable pub chunk_behind :
    (Bytes → Bytes → Bytes × Option BodyError × Bytes)
    → Bytes × Option BodyError × Bytes
    → Bytes × Option BodyError × Bytes
chunk_behind go (dst, some err, r) = (dst, some err, r)
chunk_behind go (dst, none, r) =
    let n = length dst - 2 in
    if equal (drop n dst) str_crlf then go (take n dst) r else (dst, some broken_chunk, r)

-- One round of the loop on the size that is read; `go` is the rest of the loop.
unfoldable pub chunk :
    (Bytes → Bytes → Bytes × Option BodyError × Bytes)
    → IoError
    → ℤ
    → Bytes
    → ℤ × Option BodyError × Bytes
    → Bytes × Option BodyError × Bytes
unfolding chunk_behind exceeds append_body_fixed_size
chunk go e max dst (n, some err, r) = (dst, some err, r)
chunk go e max dst (negsuc n, none, r) = (dst, none, r)
chunk go e max dst (pos zero, none, r) = (dst, none, r)
chunk go e max dst (pos (suc n), none, r) =
    if exceeds max (length dst + suc n)
    then (dst, some body_too_large, r)
    else chunk_behind go (append_body_fixed_size e r dst (suc n + 2))

-- The loop. Each round takes a byte at least.
unfoldable pub chunks : ℕ → IoError → ℤ → Bytes → Bytes → Bytes × Option BodyError × Bytes
unfolding chunk parse_chunk_size
chunks zero e max dst r = (dst, none, r)
chunks (suc fuel) e max dst r = chunk (chunks fuel e max) e max dst (parse_chunk_size e r)

-- `readBodyChunked` into an empty buffer
unfoldable pub read_body_chunked : IoError → ℤ → Bytes → Bytes × Option BodyError × Bytes
unfolding chunks
read_body_chunked e max r = chunks (suc (length r)) e max [] r

-- `readBodyIdentity`: the reads up to the error `e`, of a byte or more each, and those left.
unfoldable pub read_body_identity :
    IoError → ℤ → Bytes → List Bytes → Bytes × Option BodyError × List Bytes
unfolding exceeds
read_body_identity eof max dst [] = (dst, none, [])
read_body_identity io_error max dst [] = (dst, some (read_error io_error), [])
read_body_identity e max dst (b ∷ reads) =
    let rest = read_body_identity e max (dst ++ b) reads in
    if exceeds max (length (dst ++ b)) then (dst ++ b, some body_too_large, reads) else rest

-- `writeChunk`, with the size that is written; `none` is the panic of writeHexInt.
unfoldable pub chunk_text : Bytes → Option Bytes → Option Bytes
chunk_text b none = none
chunk_text b (some size) = some (size ++ (str_crlf ++ (b ++ str_crlf)))

unfoldable pub write_chunk : Bytes → Option Bytes
unfolding write_hex_int chunk_text
write_chunk b = chunk_text b (write_hex_int (pos (length b)))

unfoldable pub both : Option Bytes → Option Bytes → Option Bytes
both none rest = none
both (some text) none = none
both (some text) (some rest) = some (text ++ rest)

abbrev pub chunked_end : Bytes
chunked_end = b'0' ∷ str_crlf

-- `writeBodyChunked` of what the body's stream returns, read by read; reads of no bytes are
-- repeated.
unfoldable pub write_body_chunked : List Bytes → Option Bytes
unfolding write_chunk both
write_body_chunked [] = some chunked_end
write_body_chunked ([] ∷ reads) = write_body_chunked reads
write_body_chunked ((c ∷ b) ∷ reads) = both (write_chunk (c ∷ b)) (write_body_chunked reads)

body_tests :
    (read_body_chunked eof
        (pos 0)
        (codes "3;x=y" ++ str_crlf ++ codes "abc" ++ str_crlf ++ chunked_end)
      ≡ (codes "abc", none, []))
    × (read_body_chunked eof (pos 2) (codes "3" ++ str_crlf ++ codes "abc" ++ str_crlf)
        ≡ ([], some body_too_large, codes "abc" ++ str_crlf))
    × (write_body_chunked (codes "ab" ∷ codes "c" ∷ [])
        ≡ some (
            codes "2"
            ++ str_crlf
            ++ codes "ab"
            ++ str_crlf
            ++ codes "1"
            ++ str_crlf
            ++ codes "c"
            ++ str_crlf
            ++ chunked_end))
unfolding read_body_chunked write_body_chunked equal
body_tests = (refl, refl, refl)
