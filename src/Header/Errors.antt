-- ===== src/Header/Errors.antt =====
-- The errors of header.go, without the texts of their messages, and results that may be one.
use fasthttp.Base.{Bytes}

pub data HeaderError : Type 0 where
  need_more invalid_name : HeaderError
  empty_header_key invalid_key invalid_value : HeaderError
  content_length_not_int multiple_content_length : HeaderError
  unsupported_te : Bytes → HeaderError
  bad_trailer bad_trailer_in_header bad_trailer_key : HeaderError
  invalid_trailer_key forbidden_trailer_key : HeaderError
  method_not_found invalid_method uri_not_found unsupported_version : HeaderError
  malformed_response : HeaderError
  eof unexpected_header_eof unexpected_trailer_eof : HeaderError
  buffer_full header_buffer_small trailer_buffer_small : HeaderError

pub data Result {ℓ} (A : Type ℓ) : Type ℓ where
  ok : A → Result A
  err : HeaderError → Result A

infixl 5 ◌>>=◌
abbrev pub ◌>>=◌ {ℓ κ} : {A : Type ℓ} {B : Type κ} → Result A → (A → Result B) → Result B
ok a >>= f = f a
err e >>= f = err e
