-- ===== src/Args/Methods.antt =====
-- The methods of `Args` (args.go), and `GetUint`, `SetUint` and `GetBool`. Keys and values of type
-- `string` and `[]byte` are alike byte strings here.
pub mod Typed
use fasthttp.Base.{
  ℕ, List, [], ◌∷◌, Option, none, some, ◌≡◌, refl, Bool, true, false, if◌then◌else◌, Bytes, codes,
  length, equal, replicate, ℤ, pos, negsuc, ◌||◌,
}
use fasthttp.Args.{
  ArgsKv, Slots, Args, append_arg, set_arg, del_all_args, has_arg, peek_arg, peek_all, copy_args,
}
use fasthttp.Bytesconv.Decimal.{IntError, append_uint_into, parse_uint}

-- `Add`, `AddBytesK`, `AddBytesV` and `AddBytesKV`
unfoldable pub add : Args → Bytes → Bytes → Args
unfolding append_arg
add a key value = record a { args = append_arg a.args key value false }

-- `AddNoValue` and `AddBytesKNoValue`
unfoldable pub add_no_value : Args → Bytes → Args
unfolding append_arg
add_no_value a key = record a { args = append_arg a.args key [] true }

-- `Set`, `SetBytesK`, `SetBytesV` and `SetBytesKV`
unfoldable pub set : Args → Bytes → Bytes → Args
unfolding set_arg
set a key value = record a { args = set_arg a.args key value false }

-- `SetNoValue` and `SetBytesKNoValue`
unfoldable pub set_no_value : Args → Bytes → Args
unfolding set_arg
set_no_value a key = record a { args = set_arg a.args key [] true }

-- `Del` and `DelBytes`
unfoldable pub del : Args → Bytes → Args
unfolding del_all_args
del a key = record a { args = del_all_args a.args key }

unfoldable pub peek : Args → Bytes → Option Bytes
unfolding peek_arg
peek a key = peek_arg a.args.live key

unfoldable pub peek_multi : Args → Bytes → List Bytes
unfolding peek_all
peek_multi a key = peek_all [] a.args.live key

unfoldable pub has : Args → Bytes → Bool
unfolding has_arg
has a key = has_arg a.args.live key

abbrev pub len : Args → ℕ
len a = length a.args.live

-- The result is the new destination.
unfoldable pub copy_to : Args → Args → Args
unfolding copy_args
copy_to a dst = record dst { args = copy_args dst.args a.args.live }

pub data ArgError : Type 0 where
  no_arg_value : ArgError
  bad_value : IntError → ArgError

-- nil has the length 0
abbrev bytes_of : Option Bytes → Bytes
bytes_of none = []
bytes_of (some v) = v

pub get_uint_of : Bytes → ℤ × Option ArgError
get_uint_of [] = (negsuc 0, some no_arg_value)
get_uint_of (c ∷ v) =
    let (n, err) = parse_uint (c ∷ v) in (n, elim err [ none ↦ none | some e ↦ some (bad_value e) ])

unfoldable pub get_uint : Args → Bytes → ℤ × Option ArgError
unfolding get_uint_of peek
get_uint a key = get_uint_of (bytes_of (peek a key))

unfoldable pub get_uint_or_zero : Args → Bytes → ℤ
unfolding get_uint
get_uint_or_zero a key = let (n, err) = get_uint a key in elim err [ none ↦ n | some e ↦ pos 0 ]

-- `none` is a panic.
unfoldable pub set_uint : Args → Bytes → ℤ → Option Args
set_uint a key value =
    let dst = replicate 20 0 in
    elim (append_uint_into dst value) [ none ↦ none | some v ↦ some (set a key v) ]

abbrev one_of : Bytes → List Bytes → Bool
one_of s [] = false
one_of s (t ∷ ts) = equal s t || one_of s ts

abbrev truths : List Bytes
truths =
    codes "1"
    ∷ codes "t"
    ∷ codes "T"
    ∷ codes "true"
    ∷ codes "TRUE"
    ∷ codes "True"
    ∷ codes "y"
    ∷ codes "yes"
    ∷ codes "Y"
    ∷ codes "YES"
    ∷ codes "Yes"
    ∷ []

unfoldable pub get_bool : Args → Bytes → Bool
unfolding peek equal
get_bool a key = one_of (bytes_of (peek a key)) truths
