-- ===== src/Header/Trailer.antt =====
-- The names that a Trailer header may hold (header.go).
pub mod Forbidden
pub mod Stored
use Prim.Native.Nat.{bit_or}
use fasthttp.Base.{
  ℕ, zero, suc, ◌+◌, List, [], ◌∷◌, ◌++◌, Option, none, some, ◌≡◌, refl, Bool, true, false, ltb,
  ◌==◌, ◌||◌, ◌&&◌, if◌then◌else◌, Bytes, codes, length, take, drop, index_byte, equal,
}
use fasthttp.Args.{ArgsKv, Slots, append_arg}
use fasthttp.Header.Errors.{HeaderError, bad_trailer, bad_trailer_key}
use fasthttp.Header.Names.{
  header_content_type, header_content_encoding, header_content_length, header_content_range,
  header_connection, header_transfer_encoding, header_trailer, header_host, str_keep_alive,
  head_name_compare, init_header_k,
}
use fasthttp.Header.Values.{strip_space, cut_comma}

abbrev header_proxy_connection : Bytes
header_proxy_connection = codes "Proxy-Connection"

-- `isBadTrailer` on a key that begins with a 'c', a 'p', a 't' and the others.
pub is_bad_c : Bytes → Bool → Bool
is_bad_c key dn =
    if ltb (length header_content_type) (length key)
      && head_name_compare (take 8 key) (take 8 header_content_type) dn
    then head_name_compare (drop 8 key) (drop 8 header_content_encoding) dn
      || head_name_compare (drop 8 key) (drop 8 header_content_length) dn
      || head_name_compare (drop 8 key) (drop 8 header_content_type) dn
      || head_name_compare (drop 8 key) (drop 8 header_content_range) dn
    else head_name_compare key header_connection dn

pub is_bad_p : Bytes → Bool → Bool
is_bad_p key dn =
    if ltb (length header_proxy_connection) (length key)
      && head_name_compare (take 6 key) (take 6 header_proxy_connection) dn
    then head_name_compare (drop 6 key) (codes "Connection") dn
      || head_name_compare (drop 6 key) (codes "Authenticate") dn
      || head_name_compare (drop 6 key) (codes "Authorization") dn
    else false

pub is_bad_t : Bytes → Bool → Bool
is_bad_t key dn =
    head_name_compare key (codes "TE") dn
    || head_name_compare key header_trailer dn
    || head_name_compare key header_transfer_encoding dn

pub is_bad_at : ℕ → Bytes → Bool → Bool
unfolding is_bad_c is_bad_p is_bad_t
is_bad_at c key dn =
    if c == b'a'
    then head_name_compare key (codes "Authorization") dn
    else if c == b'c'
    then is_bad_c key dn
    else if c == b'e'
    then head_name_compare key (codes "Expect") dn
    else if c == b'h'
    then head_name_compare key header_host dn
    else if c == b'k'
    then head_name_compare key str_keep_alive dn
    else if c == b'm'
    then head_name_compare key (codes "Max-Forwards") dn
    else if c == b'p'
    then is_bad_p key dn
    else if c == b'r'
    then head_name_compare key (codes "Range") dn
    else if c == b't'
    then is_bad_t key dn
    else if c == b'w'
    then head_name_compare key (codes "WWW-Authenticate") dn
    else false

-- `isBadTrailer`
unfoldable pub is_bad_trailer : Bytes → Bool → Bool
unfolding is_bad_at head_name_compare
is_bad_trailer [] dn = true
is_bad_trailer (c ∷ key) dn = is_bad_at (bit_or c 32) (c ∷ key) dn

unfoldable pub key_unless : Bool → Bytes → Option Bytes
key_unless true key = none
key_unless false key = some key

-- The key that is stored for an item of the list, `none` if the item is refused. A response looks
-- at the key as it is given, a request at its normal form.
unfoldable pub response_trailer_key : Bool → Bytes → Option Bytes
unfolding is_bad_trailer init_header_k key_unless
response_trailer_key dn key = key_unless (is_bad_trailer key dn) (init_header_k key dn)

unfoldable pub request_trailer_key : Bool → Bytes → Option Bytes
unfolding is_bad_trailer init_header_k key_unless
request_trailer_key dn key =
    key_unless (is_bad_trailer (init_header_k key dn) dn) (init_header_k key dn)

-- One round of the loop of both `AddTrailerBytes`, on the key that is stored; `go` is the rest of
-- the loop.
pub add_key : (Slots → Bool → Slots × Bool) → Slots → Bool → Option Bytes → Slots × Bool
add_key go h bad none = go h true
add_key go h bad (some key) = go (append_arg h key [] true) bad

-- The loop: the items that are not refused are stored, and whether one was refused. Each round takes
-- a byte at least.
pub add_keys : ℕ → (Bytes → Option Bytes) → Bytes → Slots → Bool → Slots × Bool
unfolding strip_space cut_comma add_key
add_keys zero admit trailer h bad = (h, bad)
add_keys (suc fuel) admit [] h bad = (h, bad)
add_keys (suc fuel) admit (c ∷ trailer) h bad =
    add_key (add_keys fuel admit (cut_comma (c ∷ trailer)).1) h bad
      (admit (strip_space (cut_comma (c ∷ trailer)).0))

-- `AddTrailerBytes` on the trailers of a response and of a request.
unfoldable pub response_add_trailer : Bool → Slots → Bytes → Slots × Option HeaderError
unfolding add_keys response_trailer_key
response_add_trailer dn h trailer =
    let (h', bad) = add_keys (length trailer) (response_trailer_key dn) trailer h false in
    (h', if bad then some bad_trailer else none)

unfoldable pub request_add_trailer : Bool → Slots → Bytes → Slots × Option HeaderError
unfolding add_keys request_trailer_key
request_add_trailer dn h trailer =
    let (h', bad) = add_keys (length trailer) (request_trailer_key dn) trailer h false in
    (h', if bad then some bad_trailer_key else none)

abbrev emptied : Slots → Slots
emptied h = record { live = []; spare = h.live ++ h.spare }

-- `SetTrailerBytes`
unfoldable pub response_set_trailer : Bool → Slots → Bytes → Slots × Option HeaderError
unfolding response_add_trailer
response_set_trailer dn h trailer = response_add_trailer dn (emptied h) trailer

unfoldable pub request_set_trailer : Bool → Slots → Bytes → Slots × Option HeaderError
unfolding request_add_trailer
request_set_trailer dn h trailer = request_add_trailer dn (emptied h) trailer

abbrev no_slots : Slots
no_slots = record { live = []; spare = [] }

trailer_tests :
    (is_bad_trailer (codes "Content-Length") false ≡ true)
    × (is_bad_trailer (codes "Content-Type") false ≡ false)
    × (is_bad_trailer (codes "Keep-Alive") false ≡ false)
    × (request_set_trailer false no_slots (codes "foo, host") ≡ (
      record { live = record { key = codes "Foo"; value = []; no_value = true } ∷ []; spare = [] },
      some bad_trailer_key,
    ))
    × (response_set_trailer false no_slots (codes "host") ≡ (
      record { live = record { key = codes "Host"; value = []; no_value = true } ∷ []; spare = [] },
      none,
    ))
unfolding is_bad_trailer request_set_trailer response_set_trailer append_arg index_byte equal
trailer_tests = (refl, refl, refl, refl, refl)
