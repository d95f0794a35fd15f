-- ===== src/Args.antt =====
-- args.go: `Args`, a list of query arguments with repeated keys.
--
-- A slice is its live entries and, behind them, the spare entries of its capacity with what they
-- last held: `allocArg` hands out a spare entry as it is, and `delAllArgs` and `releaseArg` give
-- entries back.
pub mod Scan
pub mod Laws
pub mod Query
pub mod Methods
use fasthttp.Base.{
  ℕ, zero, suc, ◌+◌, ◌<◌, List, [], ◌∷◌, ◌++◌, map, Option, none, some, ◌≡◌, refl, Bool, true,
  false, ltb, ◌==◌, ◌&&◌, ◌||◌, not, if◌then◌else◌, Bytes, codes, length, equal, drop,
}

pub record ArgsKv : Type 0 where
  pub key : Bytes
  pub value : Bytes
  pub no_value : Bool

pub record Slots : Type 0 where
  pub live : List ArgsKv
  pub spare : List ArgsKv

pub record Args : Type 0 where
  pub args : Slots
  pub buf : Bytes

abbrev pub cap : Slots → ℕ
cap h = length h.live + length h.spare

-- `Reset`
unfoldable pub reset : Args → Args
reset a = record a { args = record { live = []; spare = a.args.live ++ a.args.spare } }

-- The entry that `allocArg` returns, and the spare entries left.
unfoldable pub alloc_arg : List ArgsKv → ArgsKv × List ArgsKv
alloc_arg [] = (record { key = []; value = []; no_value = false }, [])
alloc_arg (kv ∷ spare) = (kv, spare)

-- What `appendArg` and `setArg` write into the value of an entry.
unfoldable pub stored : Bytes → Bool → Bytes
stored value no_value = if no_value then [] else value

unfoldable pub append_arg : Slots → Bytes → Bytes → Bool → Slots
unfolding alloc_arg stored
append_arg h key value no_value =
    let (kv, spare) = alloc_arg h.spare in
    record {
      live =
          h.live
          ++ record kv { key = key; value = stored value no_value; no_value = no_value } ∷ [];
      spare = spare;
    }

-- The loop of `setArg`; `none` if no entry has the key.
pub set_first : List ArgsKv → Bytes → Bytes → Bool → Option (List ArgsKv)
unfolding stored
set_first [] key value no_value = none
set_first (kv ∷ h) key value no_value =
    if equal key kv.key
    then some (record kv { value = stored value no_value; no_value = no_value } ∷ h)
    else elim (set_first h key value no_value) [ none ↦ none | some h' ↦ some (kv ∷ h') ]

unfoldable pub set_arg : Slots → Bytes → Bytes → Bool → Slots
unfolding append_arg set_first
set_arg h key value no_value = elim (set_first h.live key value no_value) [
  | some live ↦ record h { live = live }
  | none ↦ append_arg h key value no_value
]

-- The entries with the key go behind the live ones, the last one first.
pub delete : List ArgsKv → List ArgsKv → Bytes → Slots
delete [] spare key = record { live = []; spare = spare }
delete (kv ∷ live) spare key =
    let deleted = equal key kv.key in
    let rest = delete live (if deleted then kv ∷ spare else spare) key in
    if deleted then rest else record rest { live = kv ∷ rest.live }

unfoldable pub del_all_args : Slots → Bytes → Slots
unfolding delete
del_all_args h key = delete h.live h.spare key

unfoldable pub has_arg : List ArgsKv → Bytes → Bool
has_arg [] key = false
has_arg (kv ∷ h) key = if equal key kv.key then true else has_arg h key

-- `peekArgStr` and `peekArgBytes`; `none` is nil.
unfoldable pub peek_arg : List ArgsKv → Bytes → Option Bytes
peek_arg [] k = none
peek_arg (kv ∷ h) k = if equal kv.key k then some kv.value else peek_arg h k

-- `PeekMulti` and `peekAllArgBytesToDst`
unfoldable pub peek_all : List Bytes → List ArgsKv → Bytes → List Bytes
peek_all dst [] k = dst
peek_all dst (kv ∷ h) k = peek_all (if equal kv.key k then dst ++ kv.value ∷ [] else dst) h k

unfoldable pub peek_args_keys : List Bytes → List ArgsKv → List Bytes
peek_args_keys dst [] = dst
peek_args_keys dst (kv ∷ h) = peek_args_keys (dst ++ kv.key ∷ []) h

pub copy_kv : ArgsKv → ArgsKv
copy_kv src = record src { value = if src.no_value then [] else src.value }

-- `copyArgs`: every entry is overwritten; a larger slice is made where the capacity is too small.
unfoldable pub copy_args : Slots → List ArgsKv → Slots
unfolding copy_kv
copy_args dst src = record {
  live = map copy_kv src;
  spare = if ltb (cap dst) (length src) then [] else drop (length src) (dst.live ++ dst.spare);
}
