-- ===== src/Header/Request/Fields.antt =====
-- The fields of a request's header (header.go): a round of the loop of `parseHeaders`.
use Prim.Native.Nat.{bit_or}
use fasthttp.Base.{
  ℕ, zero, [], ◌∷◌, Option, none, some, Bool, true, false, ◌==◌, ◌&&◌, not, if◌then◌else◌, Bytes,
  equal, negsuc,
}
use fasthttp.Args.{append_arg, set_arg}
use fasthttp.Bytesconv.Tables.{valid_header_field_byte, valid_header_value_byte}
use fasthttp.Header.Errors.{
  HeaderError, empty_header_key, invalid_key, invalid_value, content_length_not_int,
  multiple_content_length, unsupported_te, ok, err,
}
use fasthttp.Header.Lines.{parse_content_length}
use fasthttp.Header.Names.{
  str_chunked, str_close, header_host, header_user_agent, header_content_type,
  header_content_length, header_connection, header_transfer_encoding, header_trailer,
  head_name_compare,
}
use fasthttp.Header.Request.{RequestHeader}
use fasthttp.Header.Trailer.{request_set_trailer}

unfoldable pub all_valid : (ℕ → Bool) → Bytes → Bool
all_valid valid [] = true
all_valid valid (c ∷ b) = valid c && all_valid valid b

abbrev pub other : RequestHeader → Bytes → Bytes → RequestHeader
other h key value = record h { h = append_arg h.h key value false }

-- The cases of the loop of `parseHeaders`, by the first byte of the key.
unfoldable pub field_h : RequestHeader → Bytes → Bytes → RequestHeader
field_h h key value =
    if head_name_compare key header_host h.disable_normalizing
    then record h { host = value }
    else other h key value

unfoldable pub field_u : RequestHeader → Bytes → Bytes → RequestHeader
field_u h key value =
    if head_name_compare key header_user_agent h.disable_normalizing
    then record h { user_agent = value }
    else other h key value

unfoldable pub field_length : RequestHeader → Bytes → RequestHeader × Option HeaderError
unfolding parse_content_length
field_length h value =
    let seen = record h { content_length_seen = true } in
    if h.content_length_seen then (h, some multiple_content_length) else elim h.content_length [
      | negsuc zero ↦ (seen, none)
      | _ ↦ elim (parse_content_length value) [
        | err _ ↦ (record seen { content_length = negsuc 0 }, some content_length_not_int)
        | ok n ↦ (record seen { content_length = n; content_length_bytes = value }, none)
      ]
    ]

unfoldable pub field_connection : RequestHeader → Bytes → Bytes → RequestHeader
field_connection h key value =
    if equal value str_close
    then record h { connection_close = true }
    else record h { connection_close = false; h = append_arg h.h key value false }

unfoldable pub field_c : RequestHeader → Bytes → Bytes → RequestHeader × Option HeaderError
unfolding field_length field_connection
field_c h key value =
    let dn = h.disable_normalizing in
    if head_name_compare key header_content_type dn
    then (record h { content_type = value }, none)
    else if head_name_compare key header_content_length dn
    then field_length h value
    else if head_name_compare key header_connection dn
    then (field_connection h key value, none)
    else (other h key value, none)

unfoldable pub field_t : RequestHeader → Bytes → Bytes → RequestHeader × Option HeaderError
unfolding request_set_trailer
field_t h key value =
    let dn = h.disable_normalizing in
    if head_name_compare key header_transfer_encoding dn
    then if head_name_compare value str_chunked h.disable_special_header
      then (
        record h {
          content_length = negsuc 0;
          h = set_arg h.h header_transfer_encoding str_chunked false;
        },
        none,
      )
      else (h, some (unsupported_te value))
    else if head_name_compare key header_trailer dn
    then (
      record h { trailer = (request_set_trailer dn h.trailer value).0 },
      (request_set_trailer dn h.trailer value).1,
    )
    else (other h key value, none)

unfoldable pub field_at : ℕ → RequestHeader → Bytes → Bytes → RequestHeader × Option HeaderError
unfolding field_h field_u field_c field_t
field_at c h key value =
    if c == b'h'
    then (field_h h key value, none)
    else if c == b'u'
    then (field_u h key value, none)
    else if c == b'c'
    then field_c h key value
    else if c == b't'
    then field_t h key value
    else (other h key value, none)

unfoldable pub field_when :
    Bool → ℕ → RequestHeader → Bytes → Bytes → RequestHeader × Option HeaderError
unfolding field_at
field_when true c h key value = (other h key value, none)
field_when false c h key value = field_at c h key value

-- One round of the loop of `parseHeaders`, on the key and the value that the scanner has.
unfoldable pub field : RequestHeader → Bytes → Bytes → RequestHeader × Option HeaderError
unfolding field_when all_valid valid_header_field_byte valid_header_value_byte
field h [] value = (h, some empty_header_key)
field h (c ∷ key) value =
    if not (all_valid valid_header_field_byte (c ∷ key))
    then (h, some invalid_key)
    else if not (all_valid valid_header_value_byte value)
    then (h, some invalid_value)
    else field_when h.disable_special_header (bit_or c 32) h (c ∷ key) value
