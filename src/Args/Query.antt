-- ===== src/Args/Query.antt =====
-- `Args.AppendBytes` and `Args.QueryString` (args.go).
pub mod RoundTrip
use fasthttp.Base.{
  List, [], ◌∷◌, ◌++◌, ◌≡◌, refl, Bool, true, false, if◌then◌else◌, Bytes, codes, not,
}
use fasthttp.Args.{ArgsKv, Slots, Args}
use fasthttp.Args.Scan.{is_empty, parse_bytes, next}
use fasthttp.Bytesconv.Quote.{append_quoted_arg}

-- One argument, without the '&' behind it.
pub append_kv : Bytes → ArgsKv → Bytes
append_kv dst kv =
    let keyed = append_quoted_arg dst kv.key in
    if not kv.no_value
    then (if not (is_empty kv.value)
        then append_quoted_arg (keyed ++ b'=' ∷ []) kv.value
        else keyed ++ b'=' ∷ [])
    else keyed

unfoldable pub append_bytes : Bytes → List ArgsKv → Bytes
unfolding append_kv
append_bytes dst [] = dst
append_bytes dst (kv ∷ []) = append_kv dst kv
append_bytes dst (kv ∷ kv' ∷ h) = append_bytes (append_kv dst kv ++ b'&' ∷ []) (kv' ∷ h)

unfoldable pub query_string : Args → Args × Bytes
unfolding append_bytes append_quoted_arg
query_string a = let out = append_bytes [] a.args.live in (record a { buf = out }, out)

abbrev empty_args : Args
empty_args = record { args = record { live = []; spare = [] }; buf = [] }

query_tests :
    (parse_bytes empty_args (codes "a=b%20c&&d&=&e=")).args.live
    ≡ record { key = codes "a"; value = codes "b c"; no_value = false }
      ∷ record { key = codes "d"; value = []; no_value = true }
      ∷ record { key = codes "e"; value = []; no_value = false }
      ∷ []
unfolding parse_bytes
query_tests = refl

query_string_test :
    (query_string (parse_bytes empty_args (codes "a=b%20c&&d&=&e="))).1 ≡ codes "a=b+c&d&e="
unfolding parse_bytes query_string
query_string_test = refl
