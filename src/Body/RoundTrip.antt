-- ===== src/Body/RoundTrip.antt =====
-- A chunked body is read back from what is written, and a body that is too large is refused.
use fasthttp.Base.{
  ℕ, zero, suc, ◌+◌, ◌-◌, ◌<◌, ◌≤◌, ◌^◌, List, [], ◌∷◌, ◌++◌, append_assoc, append-nil, Option,
  none, some, ◌≡◌, refl, sym, ap, ap₂, subst, ◌∙◌, false, ltb, Bytes, length, equal_refl, ℤ, pos,
  negsuc, length-append, take_front, drop_front, All, arith, Option-cases, inl, inr,
}
use fasthttp.Bytesconv.Hex.{IoError, eof, write_hex_int}
use fasthttp.Bytesconv.Hex.RoundTrip.{Stops, read_hex_int-write_hex_int}
use fasthttp.Bytesconv.Tables.{hex2int}
use fasthttp.Body.{
  BodyError, size_behind, parse_chunk_size, append_body_fixed_size, exceeds, chunk_behind, chunk,
  chunks, read_body_chunked, write_chunk, chunk_text, both, chunked_end, write_body_chunked,
}
use fasthttp.Header.Names.{str_crlf}

-- A line end behind the size of a chunk.
size_behind-line :
    (e : IoError) (n : ℕ) (rest : Bytes)
    → size_behind e (pos n, none, str_crlf ++ rest) ≡ (pos n, none, rest)
unfolding size_behind
size_behind-line e n rest = refl

Stops-line : (e : IoError) (rest : Bytes) → Stops e (str_crlf ++ rest)
unfolding hex2int
Stops-line e rest = refl

parse_chunk_size-write :
    (e : IoError) (n : ℕ) (rest : Bytes)
    → n < 16 ^ 15
    → (size : Bytes) × (write_hex_int (pos n) ≡ some size)
      × (parse_chunk_size e (size ++ (str_crlf ++ rest)) ≡ (pos n, none, rest))
unfolding parse_chunk_size
parse_chunk_size-write e n rest h =
    let (size, written, read) =
      read_hex_int-write_hex_int e n (str_crlf ++ rest) h (Stops-line e rest) in
    (size, written, ap (size_behind e) read ∙ size_behind-line e n rest)

append_body_fixed_size-front :
    (e : IoError) (dst b rest : Bytes)
    → append_body_fixed_size e (b ++ rest) dst (length b) ≡ (dst ++ b, none, rest)
unfolding append_body_fixed_size
append_body_fixed_size-front e dst b rest =
    let enough : ltb (length (b ++ rest)) (length b) ≡ false =
      ground (arith, length-append b rest) in
    rw enough (rw (take_front b rest) (rw (drop_front b rest) refl))

chunk_behind-line :
    (go : Bytes → Bytes → Bytes × Option BodyError × Bytes) (dst rest : Bytes)
    → chunk_behind go (dst ++ str_crlf, none, rest) ≡ go dst rest
unfolding chunk_behind
chunk_behind-line go dst rest =
    let n : length (dst ++ str_crlf) - 2 ≡ length dst = omega (arith, length-append dst str_crlf) in
    rw n
      (rw (drop_front dst str_crlf) (rw (equal_refl str_crlf) (rw (take_front dst str_crlf) refl)))

abbrev pub joined : List Bytes → Bytes
joined [] = []
joined (b ∷ reads) = b ++ joined reads

exceeds_mono : (max : ℤ) (n k : ℕ) → k ≤ n → exceeds max n ≡ false → exceeds max k ≡ false
unfolding exceeds
exceeds_mono (negsuc m) n k le h = refl
exceeds_mono (pos m) n k le h = ground arith

-- One chunk in front of `rest`, read by the loop.
chunk-line :
    (go : Bytes → Bytes → Bytes × Option BodyError × Bytes) (e : IoError) (max : ℤ) (dst : Bytes)
    (c : ℕ) (b rest : Bytes)
    → exceeds max (length dst + length (c ∷ b)) ≡ false
    → chunk go e max dst (pos (length (c ∷ b)), none, (c ∷ b) ++ (str_crlf ++ rest))
      ≡ go (dst ++ c ∷ b) rest
unfolding chunk
chunk-line go e max dst c b rest small =
    let piece = (c ∷ b) ++ str_crlf in
    let size : length (c ∷ b) + 2 ≡ length piece = omega (arith, length-append b str_crlf) in
    rw small (
      ap (λ t. chunk_behind go (append_body_fixed_size e t dst (length (c ∷ b) + 2)))
        (sym (append_assoc (c ∷ b) str_crlf rest))
      ∙ ap (λ n. chunk_behind go (append_body_fixed_size e (piece ++ rest) dst n)) size
      ∙ ap (chunk_behind go) (append_body_fixed_size-front e dst piece rest)
      ∙ ap (λ t. chunk_behind go (t, none, rest)) (sym (append_assoc dst (c ∷ b) str_crlf))
      ∙ chunk_behind-line go (dst ++ c ∷ b) rest)

-- What reading a text that is written gives, whatever the buffer holds and as long as the limit is
-- kept.
abbrev Reads : Bytes → Bytes → Type 0
Reads text body =
    (fuel : ℕ) (e : IoError) (max : ℤ) (dst rest : Bytes)
    → length text < fuel
    → exceeds max (length dst + length body) ≡ false
    → chunks fuel e max dst (text ++ rest) ≡ (dst ++ body, none, rest)

Reads-end : Reads chunked_end []
unfolding chunks parse_chunk_size hex2int
Reads-end zero e max dst rest lt small = absurd (omega arith)
Reads-end (suc fuel) e max dst rest lt small = ap (λ d. (d, none, rest)) (sym (append-nil dst))

regroup :
    (size b text rest : Bytes)
    → ((size ++ (str_crlf ++ (b ++ str_crlf))) ++ text) ++ rest
      ≡ size ++ (str_crlf ++ (b ++ (str_crlf ++ (text ++ rest))))
regroup size b text rest = simp append_assoc

Reads-chunk :
    (c : ℕ) (b size text body : Bytes)
    → ((e : IoError) (rest : Bytes)
        → parse_chunk_size e (size ++ (str_crlf ++ rest)) ≡ (pos (length (c ∷ b)), none, rest))
    → Reads text body
    → Reads ((size ++ (str_crlf ++ ((c ∷ b) ++ str_crlf))) ++ text) ((c ∷ b) ++ body)
unfolding chunks
Reads-chunk c b size text body parsed reads zero e max dst rest lt small = absurd (omega arith)
Reads-chunk c b size text body parsed reads (suc fuel) e max dst rest lt small =
    ap (λ t. chunk (chunks fuel e max) e max dst (parse_chunk_size e t))
      (regroup size (c ∷ b) text rest)
    ∙ ap (chunk (chunks fuel e max) e max dst) (parsed e ((c ∷ b) ++ (str_crlf ++ (text ++ rest))))
    ∙ chunk-line (chunks fuel e max) e max dst c b (text ++ rest) (
        exceeds_mono max (length dst + length ((c ∷ b) ++ body)) _
          (omega (arith, length-append (c ∷ b) body)) small)
    ∙ reads fuel e max (dst ++ c ∷ b) rest
        (omega (
          arith,
          length-append (size ++ (str_crlf ++ ((c ∷ b) ++ str_crlf))) text,
          length-append size (str_crlf ++ ((c ∷ b) ++ str_crlf)),
        ))
        (exceeds_mono max (length dst + length ((c ∷ b) ++ body)) _
          (omega (arith, length-append (c ∷ b) body, length-append dst (c ∷ b))) small)
    ∙ ap (λ d. (d, none, rest)) (append_assoc dst (c ∷ b) body)

some-injective : (a b : Bytes) → ◌≡◌ {A = Option Bytes} (some a) (some b) → a ≡ b
some-injective a b h = cc

-- The size of a chunk is written, and read in front of anything.
size-written :
    (n : ℕ)
    → n < 16 ^ 15
    → (size : Bytes) × (write_hex_int (pos n) ≡ some size)
      × ((e : IoError) (rest : Bytes)
          → parse_chunk_size e (size ++ (str_crlf ++ rest)) ≡ (pos n, none, rest))
size-written n h = elim (Option-cases (write_hex_int (pos n))) [
  | inl no_room ↦
      let (size, written, read) = parse_chunk_size-write eof n [] h in
      absurd (cc (sym no_room ∙ written))
  | inr (size, written) ↦ (
    size,
    written,
    λ e rest.
        let (size', written', read) = parse_chunk_size-write e n rest h in
        subst (λ s. parse_chunk_size e (s ++ (str_crlf ++ rest)) ≡ (pos n, none, rest))
          (some-injective size' size (sym written' ∙ written)) read,
  )
]

text-Reads :
    (reads : List Bytes)
    → All (λ b. length b < 16 ^ 15) reads
    → (text : Bytes) × (write_body_chunked reads ≡ some text) × Reads text (joined reads)
unfolding write_body_chunked write_chunk both chunk_text
text-Reads [] small = (chunked_end, refl, Reads-end)
text-Reads ([] ∷ reads) (_, small) = text-Reads reads small
text-Reads ((c ∷ b) ∷ reads) (few, small) =
    let (size, written, parsed) = size-written (length (c ∷ b)) few in
    let (text, rest_written, read) = text-Reads reads small in
    (
      (size ++ (str_crlf ++ ((c ∷ b) ++ str_crlf))) ++ text,
      ap₂ (λ o r. both (chunk_text (c ∷ b) o) r) written rest_written,
      Reads-chunk c b size text (joined reads) parsed read,
    )

-- What a body's stream returns, in reads of any lengths below 16^15, is written in chunks, and read
-- back from in front of anything, which is left in the reader, if it is within the limit.
pub read_body_chunked-write_body_chunked :
    (reads : List Bytes) (e : IoError) (max : ℤ) (rest : Bytes)
    → All (λ b. length b < 16 ^ 15) reads
    → exceeds max (length (joined reads)) ≡ false
    → (text : Bytes) × (write_body_chunked reads ≡ some text)
      × (read_body_chunked e max (text ++ rest) ≡ (joined reads, none, rest))
unfolding read_body_chunked
read_body_chunked-write_body_chunked reads e max rest few small =
    let (text, written, read) = text-Reads reads few in
    (
      text,
      written,
      read (suc (length (text ++ rest))) e max [] rest (omega (arith, length-append text rest))
          (exceeds_mono max (length (joined reads)) _ (omega arith) small),
    )
