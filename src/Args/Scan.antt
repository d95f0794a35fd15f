-- ===== src/Args/Scan.antt =====
-- `argsScanner` and `Args.ParseBytes` (args.go).
pub mod Split
use fasthttp.Base.{
  ℕ, zero, suc, ◌+◌, ◌<◌, List, [], ◌∷◌, ◌++◌, Option, none, some, ◌≡◌, refl, Bool, true, false,
  ltb, ◌==◌, ◌&&◌, ◌||◌, not, if◌then◌else◌, Bytes, codes, length,
}
use fasthttp.Args.{ArgsKv, Slots, Args, alloc_arg, reset}
use fasthttp.Bytesconv.Quote.{decode_arg_append}

-- The end of an argument, at '&' or at the end of the input; `seg` is `s.b[k:i]`.
pub finish : Bool → Bytes → ArgsKv → ArgsKv
finish true seg kv = record kv { key = decode_arg_append [] seg; value = []; no_value = true }
finish false seg kv = record kv { value = decode_arg_append [] seg }

-- The loop of `next`; `seg` is `s.b[k:i]`, and the result has the bytes left.
pub scan : Bool → Bytes → ArgsKv → Bytes → ArgsKv × Bytes
unfolding finish
scan is_key seg kv [] = (finish is_key seg kv, [])
scan is_key seg kv (c ∷ b) =
    let key_ends = is_key && c == b'=' in
    let rest =
      scan (if key_ends then false else is_key) (if key_ends then [] else seg ++ c ∷ [])
        (if key_ends then record kv { key = decode_arg_append [] seg } else kv) b in
    if c == b'&' then (finish is_key seg kv, b) else rest

-- `next`; `none` is false.
unfoldable pub next : ArgsKv → Bytes → Option (ArgsKv × Bytes)
unfolding scan
next kv [] = none
next kv (c ∷ b) = some (scan true [] (record kv { no_value = false }) (c ∷ b))

-- `len(kv.key) > 0 || len(kv.value) > 0`
abbrev pub is_empty : Bytes → Bool
is_empty [] = true
is_empty (c ∷ s) = false

abbrev pub has_content : ArgsKv → Bool
has_content kv = not (is_empty kv.key) || not (is_empty kv.value)

-- The loop of `ParseBytes`. `kv` is the entry allocated last, which is not among `live` yet;
-- `releaseArg` gives it back at the end. The fuel bounds the calls of `next`.
pub parse_loop : ℕ → List ArgsKv → ArgsKv → List ArgsKv → Bytes → Slots
unfolding next
parse_loop zero live kv spare b = record { live = live; spare = kv ∷ spare }
parse_loop (suc fuel) live kv spare b = elim (next kv b) [
  | none ↦ record { live = live; spare = kv ∷ spare }
  | some (kv', b') ↦
      if has_content kv'
      then parse_loop fuel (live ++ kv' ∷ []) (alloc_arg spare).0 (alloc_arg spare).1 b'
      else parse_loop fuel live kv' spare b'
]

-- Each call of `next` takes a byte at least.
unfoldable pub parse_bytes : Args → Bytes → Args
unfolding parse_loop alloc_arg decode_arg_append reset
parse_bytes a b =
    let (kv, spare) = alloc_arg (reset a).args.spare in
    record a { args = parse_loop (length b) [] kv spare b }
