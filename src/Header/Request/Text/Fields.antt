-- ===== src/Header/Request/Text/Fields.antt =====
-- The fields that a request's header is written with, applied to a header that is empty.
use Prim.Native.Nat.{bit_or}
use fasthttp.Base.{
  ℕ, List, [], ◌∷◌, ◌++◌, ◌≡◌, refl, sym, ap, ap₂, ◌∙◌, Bool, true, false, Option, none, ◌||◌, not,
  Bytes, map, equal, All, ℤ, pos, arith, append_assoc, append-nil, ◌≢◌,
}
use fasthttp.Args.{ArgsKv, Slots, append_arg}
use fasthttp.Args.Scan.{is_empty}
use fasthttp.Bytesconv.Tables.{valid_header_field_byte, valid_header_value_byte}
use fasthttp.Header.Errors.{HeaderError, ok}
use fasthttp.Header.Lines.{parse_content_length}
use fasthttp.Header.Names.{
  str_close, header_host, header_user_agent, header_content_type, header_content_length,
  header_connection, header_transfer_encoding, header_trailer, normalize_header_key,
  head_name_compare,
}
use fasthttp.Header.Request.{RequestHeader}
use fasthttp.Header.Request.Fields.{
  field, field_at, field_when, field_h, field_u, field_c, field_t, all_valid, other,
}
use fasthttp.Header.Request.Parse.Lines.{apply, apply_then}
use fasthttp.Header.Request.Text.{pair, unless}

abbrev pub IsValidValue : Bytes → Type 0
IsValidValue value = all_valid valid_header_value_byte value ≡ true

-- A header that knows the special names in their normal form.
pub record IsUsual (h : RequestHeader) : Type 0 where
  pub special : h.disable_special_header ≡ false
  pub normal : h.disable_normalizing ≡ false

module _ (h : RequestHeader) (usual : IsUsual h) (value : Bytes) (valid : IsValidValue value) where
  field-host : field h header_host value ≡ (record h { host = value }, none)
  unfolding field equal
  field-host = rw valid (rw usual.special (rw usual.normal refl))

  field-user_agent : field h header_user_agent value ≡ (record h { user_agent = value }, none)
  unfolding field equal
  field-user_agent = rw valid (rw usual.special (rw usual.normal refl))

  field-content_type : field h header_content_type value ≡ (record h { content_type = value }, none)
  unfolding field equal
  field-content_type = rw valid (rw usual.special (rw usual.normal refl))

module _ (r : RequestHeader) (usual : IsUsual r) (off : Bool) (on : off ≡ false)
    (rest : List (Bytes × Bytes)) where
  pub apply-host :
      (value : Bytes)
      → IsValidValue value
      → r.host ≡ []
      → apply false r (unless (is_empty value || off) header_host value ++ rest)
        ≡ apply false (record r { host = value }) rest
  unfolding normalize_header_key
  apply-host [] valid empty = ap (λ x. apply false (record r { host = x }) rest) empty
  apply-host (c ∷ value) valid empty =
      rw on (ap (apply_then (λ h. apply false h rest)) (field-host r usual (c ∷ value) valid))

  pub apply-user_agent :
      (value : Bytes)
      → IsValidValue value
      → r.user_agent ≡ []
      → apply false r (unless (is_empty value || off) header_user_agent value ++ rest)
        ≡ apply false (record r { user_agent = value }) rest
  unfolding normalize_header_key
  apply-user_agent [] valid empty = ap (λ x. apply false (record r { user_agent = x }) rest) empty
  apply-user_agent (c ∷ value) valid empty =
      rw on (ap (apply_then (λ h. apply false h rest)) (field-user_agent r usual (c ∷ value) valid))

  pub apply-content_type :
      (value : Bytes)
      → IsValidValue value
      → r.content_type ≡ []
      → apply false r (unless (is_empty value || off) header_content_type value ++ rest)
        ≡ apply false (record r { content_type = value }) rest
  unfolding normalize_header_key
  apply-content_type [] valid empty =
      ap (λ x. apply false (record r { content_type = x }) rest) empty
  apply-content_type (c ∷ value) valid empty =
      rw on
        (ap (apply_then (λ h. apply false h rest)) (field-content_type r usual (c ∷ value) valid))

-- The bytes of a Content-Length and the number that they spell; no bytes for a length of 0.
abbrev pub IsSized : Bytes → ℤ → Type 0
IsSized [] n = n ≡ pos 0
IsSized (c ∷ value) n = IsValidValue (c ∷ value) × (parse_content_length (c ∷ value) ≡ ok n)

field-content_length :
    (h : RequestHeader) (value : Bytes) (n : ℤ)
    → IsUsual h
    → h.content_length ≡ pos 0
    → h.content_length_seen ≡ false
    → IsValidValue value
    → parse_content_length value ≡ ok n
    → field h header_content_length value ≡ (
      record h { content_length_seen = true; content_length = n; content_length_bytes = value },
      none,
    )
unfolding field equal
field-content_length h value n usual zero_length unseen valid parsed =
    simp (valid, usual.special, usual.normal, unseen, zero_length, parsed)

pub apply-content_length :
    (r : RequestHeader) (off : Bool) (value : Bytes) (n : ℤ) (rest : List (Bytes × Bytes))
    → IsUsual r
    → off ≡ false
    → r.content_length ≡ pos 0
    → r.content_length_seen ≡ false
    → r.content_length_bytes ≡ []
    → IsSized value n
    → apply false r (unless (is_empty value || off) header_content_length value ++ rest)
      ≡ apply false
          (record r {
            content_length_seen = not (is_empty value);
            content_length = n;
            content_length_bytes = value;
          })
          rest
unfolding normalize_header_key
apply-content_length r off [] n rest usual on zero_length unseen empty sized =
    ap₂ (λ b c. apply false (record r { content_length = b; content_length_bytes = c }) rest)
      (zero_length ∙ sym sized) empty
    ∙ ap
        (λ a.
          apply false
            (record r { content_length_seen = a; content_length = n; content_length_bytes = [] })
            rest)
        unseen
apply-content_length r off (c ∷ value) n rest usual on zero_length unseen empty (valid, sized) =
    rw on (
      ap (apply_then (λ h. apply false h rest))
        (field-content_length r (c ∷ value) n usual zero_length unseen valid sized))

field-close :
    (h : RequestHeader)
    → IsUsual h
    → field h header_connection str_close ≡ (record h { connection_close = true }, none)
unfolding field equal
field-close h usual = rw usual.special (rw usual.normal refl)

pub apply-connection_close :
    (r : RequestHeader) (off close : Bool)
    → IsUsual r
    → off ≡ false
    → r.connection_close ≡ false
    → apply false r (unless (not close || off) header_connection str_close ++ [])
      ≡ (record r { connection_close = close }, none)
unfolding normalize_header_key
apply-connection_close r off false usual on kept =
    ap (λ x. (record r { connection_close = x }, none)) kept
apply-connection_close r off true usual on kept =
    rw on (ap (apply_then (λ h. (h, none))) (field-close r usual))

-- A field that the header keeps in its list: its key is in normal form and no special name.
pub record IsGeneral (kv : ArgsKv) : Type 0 where
  pub named : kv.key ≢ []
  pub normal : normalize_header_key kv.key ≡ kv.key
  pub key_bytes : all_valid valid_header_field_byte kv.key ≡ true
  pub value_bytes : IsValidValue kv.value
  pub has_value : kv.no_value ≡ false
  pub not_host : equal kv.key header_host ≡ false
  pub not_user_agent : equal kv.key header_user_agent ≡ false
  pub not_content_type : equal kv.key header_content_type ≡ false
  pub not_content_length : equal kv.key header_content_length ≡ false
  pub not_connection : equal kv.key header_connection ≡ false
  pub not_transfer_encoding : equal kv.key header_transfer_encoding ≡ false
  pub not_trailer : equal kv.key header_trailer ≡ false

module _ (h : RequestHeader) (kv : ArgsKv) (usual : IsUsual h) (general : IsGeneral kv) where
  plain_field : RequestHeader × Option HeaderError
  plain_field = (other h kv.key kv.value, none)

  field_h-general : field_h h kv.key kv.value ≡ other h kv.key kv.value
  unfolding field_h head_name_compare
  field_h-general = simp (usual.normal, general.not_host)

  field_u-general : field_u h kv.key kv.value ≡ other h kv.key kv.value
  unfolding field_u head_name_compare
  field_u-general = simp (usual.normal, general.not_user_agent)

  field_c-general : field_c h kv.key kv.value ≡ plain_field
  unfolding field_c head_name_compare plain_field
  field_c-general =
      simp
        (usual.normal, general.not_content_type, general.not_content_length, general.not_connection)

  field_t-general : field_t h kv.key kv.value ≡ plain_field
  unfolding field_t head_name_compare plain_field
  field_t-general = simp (usual.normal, general.not_transfer_encoding, general.not_trailer)

  field_at-general : (c : ℕ) → field_at c h kv.key kv.value ≡ plain_field
  unfolding field_at plain_field
  field_at-general c =
      ground (arith, field_h-general, field_u-general, field_c-general, field_t-general)

field-at :
    (h : RequestHeader) (key value : Bytes) (x : RequestHeader × Option HeaderError)
    → key ≢ []
    → all_valid valid_header_field_byte key ≡ true
    → IsValidValue value
    → h.disable_special_header ≡ false
    → ((c : ℕ) → field_at c h key value ≡ x)
    → field h key value ≡ x
unfolding field
field-at h [] value x named valid valid' special at = absurd (named refl)
field-at h (c ∷ key) value x named valid valid' special at =
    rw (valid, valid')
      (ap (λ b. field_when b (bit_or c 32) h (c ∷ key) value) special ∙ at (bit_or c 32))

field-general :
    (h : RequestHeader) (kv : ArgsKv)
    → IsUsual h
    → IsGeneral kv
    → field h kv.key kv.value ≡ (other h kv.key kv.value, none)
field-general h kv usual general =
    field-at h kv.key kv.value _ general.named general.key_bytes general.value_bytes usual.special
      (unfold plain_field in field_at-general h kv usual general)

append_arg-live :
    (h : Slots) (kv : ArgsKv)
    → kv.no_value ≡ false
    → (append_arg h kv.key kv.value false).live ≡ h.live ++ kv ∷ []
unfolding append_arg
append_arg-live h kv has = ap (λ b. h.live ++ record kv { no_value = b } ∷ []) (sym has)

-- Fields of no special name are kept, in order, behind those that the header has.
pub apply-general :
    (r : RequestHeader) (kvs : List ArgsKv) (rest : List (Bytes × Bytes))
    → IsUsual r
    → All IsGeneral kvs
    → (h : Slots) × (apply false r (map pair kvs ++ rest) ≡ apply false (record r { h = h }) rest)
      × (h.live ≡ r.h.live ++ kvs)
apply-general r [] rest usual all = (r.h, refl, sym (append-nil r.h.live))
apply-general r (kv ∷ kvs) rest usual (general, all) =
    let (h, e, live) =
      apply-general (other r kv.key kv.value) kvs rest
        (record { special = usual.special; normal = usual.normal }) all in
    (
      h,
      ap (λ k. apply_then (λ h'. apply false h' (map pair kvs ++ rest)) (field r k kv.value))
            general.normal
          ∙ ap (apply_then (λ h'. apply false h' (map pair kvs ++ rest)))
              (field-general r kv usual general)
          ∙ e,
      live
          ∙ ap (λ t. t ++ kvs) (append_arg-live r.h kv general.has_value)
          ∙ append_assoc r.h.live (kv ∷ []) kvs,
    )
