-- ===== src/Uri/Path.antt =====
-- `normalizePath` (uri.go) with the `addLeadingSlash` of uri_unix.go: paths are separated by '/'
-- here, and the part for a `filepath.Separator` that is a backslash is left out.
pub mod Search
pub mod Fuel
pub mod DotDot
use fasthttp.Base.{
  ℕ, zero, suc, ◌+◌, ◌-◌, List, [], ◌∷◌, ◌++◌, Option, none, some, ◌≡◌, refl, Bool, true, false,
  ◌==◌, if◌then◌else◌, Bytes, length, take, drop, codes, index, has_prefix, last_index_byte, not,
}
use fasthttp.Bytesconv.Quote.{decode_arg_append_no_plus}

-- strings.go
abbrev pub str_slash_slash : Bytes
str_slash_slash = b'/' ∷ b'/' ∷ []

abbrev pub str_slash_dot_slash : Bytes
str_slash_dot_slash = b'/' ∷ b'.' ∷ b'/' ∷ []

abbrev pub str_slash_dot_dot_slash : Bytes
str_slash_dot_dot_slash = b'/' ∷ b'.' ∷ b'.' ∷ b'/' ∷ []

abbrev pub str_slash_dot_dot : Bytes
str_slash_dot_dot = b'/' ∷ b'.' ∷ b'.' ∷ []

pub add_leading_slash : Bytes → Bytes → Bytes
add_leading_slash dst [] = dst ++ b'/' ∷ []
add_leading_slash dst (c ∷ src) = if not (c == b'/') then dst ++ b'/' ∷ [] else dst

-- The removal of duplicate slashes; `done` is what stands before `b`.
pub dedupe : ℕ → Bytes → Bytes → Bytes
dedupe zero done b = done ++ b
dedupe (suc fuel) done b = elim (index b str_slash_slash) [
  | none ↦ done ++ b
  | some n ↦ dedupe fuel (done ++ take n b) (drop (n + 1) b)
]

-- The removal of "/./".
pub remove_dot : ℕ → Bytes → Bytes
remove_dot zero b = b
remove_dot (suc fuel) b = elim (index b str_slash_dot_slash) [
  | none ↦ b
  | some n ↦ remove_dot fuel (take n b ++ drop (n + 2) b)
]

-- `nn`: the slash before position `n`, or 0.
pub slash_before : Bytes → ℕ
slash_before b = elim (last_index_byte b b'/') [ none ↦ 0 | some i ↦ i ]

-- The removal of "/foo/../".
pub remove_dot_dot : ℕ → Bytes → Bytes
unfolding slash_before
remove_dot_dot zero b = b
remove_dot_dot (suc fuel) b = elim (index b str_slash_dot_dot_slash) [
  | none ↦ b
  | some n ↦ remove_dot_dot fuel (take (slash_before (take n b)) b ++ drop (n + 3) b)
]

-- `bytes.LastIndex`
pub last_index : Bytes → Bytes → Option ℕ
last_index [] sep = if has_prefix [] sep then some 0 else none
last_index (x ∷ xs) sep = elim (last_index xs sep) [
  | some i ↦ some (suc i)
  | none ↦ if has_prefix (x ∷ xs) sep then some 0 else none
]

-- The removal of a trailing "/foo/..".
pub cut_last : Bytes → Option ℕ → Bytes
cut_last b none = b'/' ∷ []
cut_last b (some nn) = take (nn + 1) b

pub remove_trailing : Bytes → Bytes
unfolding last_index cut_last
remove_trailing b = elim (last_index b str_slash_dot_dot) [
  | none ↦ b
  | some n ↦ if n + 3 == length b then cut_last b (last_index_byte (take n b) b'/') else b
]

-- Each loop shortens the path, so that its length is fuel enough.
unfoldable pub normalize_path : Bytes → Bytes
unfolding add_leading_slash dedupe remove_dot remove_dot_dot remove_trailing
    decode_arg_append_no_plus
normalize_path src =
    let decoded = decode_arg_append_no_plus (add_leading_slash [] src) src in
    let single = dedupe (length decoded) [] decoded in
    let no_dot = remove_dot (length single) single in
    remove_trailing (remove_dot_dot (length no_dot) no_dot)

normalize_tests :
    (normalize_path (codes "//f%20obar/baz/../zzz") ≡ codes "/f obar/zzz")
    × (normalize_path (codes "aa//bb/./c/..") ≡ codes "/aa/bb/")
    × (normalize_path (codes "/../../etc/%2e%2e/..") ≡ codes "/")
unfolding normalize_path index has_prefix last_index_byte
normalize_tests = (refl, refl, refl)
