-- ===== src/Examples/Queries.antt =====
-- Query arguments.
use fasthttp.Base.{List, [], ◌∷◌, ◌≡◌, refl, arith, codes, true, false}
use fasthttp.Args.{ArgsKv, Args}
use fasthttp.Args.Query.{append_bytes}
use fasthttp.Args.Query.RoundTrip.{parse_bytes-append_bytes}
use fasthttp.Args.Scan.{parse_bytes}
use fasthttp.Args.Scan.Split.{arguments, parse_bytes-arguments}

abbrev kv_a : ArgsKv
kv_a = record { key = codes "a"; value = codes "1"; no_value = false }

abbrev kv_b : ArgsKv
kv_b = record { key = codes "b"; value = []; no_value = true }

-- An object that held another argument.
abbrev used : Args
used = record { args = record { live = kv_b ∷ kv_a ∷ []; spare = kv_a ∷ [] }; buf = codes "b" }

abbrev two : List ArgsKv
two = kv_a ∷ kv_b ∷ []

parse_bytes-append_bytes_example : (parse_bytes used (append_bytes [] two)).args.live ≡ two
parse_bytes-append_bytes_example = parse_bytes-append_bytes used two (
  record {
    key_bytes = (omega arith, tt);
    value_bytes = (omega arith, tt);
    tidy = λ e. absurd (ground (arith, e));
    content = refl;
  },
  (
    record { key_bytes = (omega arith, tt); value_bytes = tt; tidy = λ e. refl; content = refl },
    tt,
  ),
)

parse_bytes-arguments_example :
    (parse_bytes used (codes "a=1&&b")).args.live ≡ arguments (codes "a=1&&b")
parse_bytes-arguments_example = parse_bytes-arguments used (codes "a=1&&b")
