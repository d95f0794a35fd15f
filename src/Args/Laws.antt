-- ===== src/Args/Laws.antt =====
-- `Args` as a map from keys to values, and what becomes of the spare entries.
use mathlib.Core.List.{Perm, perm_middle}
use mathlib.Core.List.Perm
use fasthttp.Base.{
  List, [], ◌∷◌, ◌++◌, append_assoc, append-nil, map, none, some, ◌≡◌, refl, sym, ap₂, length-drop,
  ◌≤◌, ◌∙◌, arith, Bool, true, false, if◌then◌else◌, Bytes, length, length-append, equal, equal_iff,
  All, Bool-cases, inl, inr, Option-cases,
}
use fasthttp.Args.{
  ArgsKv, Slots, stored, append_arg, set_first, set_arg, delete, del_all_args, has_arg, peek_arg,
  peek_all, cap, copy_kv, copy_args,
}

peek_arg-append :
    (h : List ArgsKv) (kv : ArgsKv) (j : Bytes)
    → has_arg h j ≡ false
    → peek_arg (h ++ kv ∷ []) j ≡ (if equal kv.key j then some kv.value else none)
unfolding peek_arg has_arg
peek_arg-append [] kv j e = refl
peek_arg-append (x ∷ h) kv j e =
    ground (arith, equal_iff j x.key, equal_iff x.key j, peek_arg-append h kv j)

peek_arg-append_other :
    (h : List ArgsKv) (kv : ArgsKv) (j : Bytes)
    → equal kv.key j ≡ false
    → peek_arg (h ++ kv ∷ []) j ≡ peek_arg h j
unfolding peek_arg
peek_arg-append_other [] kv j e = ground arith
peek_arg-append_other (x ∷ h) kv j e = ground (arith, peek_arg-append_other h kv j)

set_first-none :
    (h : List ArgsKv) (k v : Bytes) (nv : Bool) → set_first h k v nv ≡ none → has_arg h k ≡ false
unfolding set_first has_arg
set_first-none [] k v nv e = refl
set_first-none (x ∷ h) k v nv e = ground (arith, set_first-none h k v nv)

peek_arg-set_first :
    (h h' : List ArgsKv) (k v : Bytes) (nv : Bool) (j : Bytes)
    → set_first h k v nv ≡ some h'
    → peek_arg h' j ≡ (if equal k j then some (stored v nv) else peek_arg h j)
unfolding set_first peek_arg
peek_arg-set_first [] h' k v nv j e = cc
peek_arg-set_first (x ∷ h) h' k v nv j e = elim (Option-cases (set_first h k v nv)) [
  | inl missing ↦ ground (arith, equal_iff k x.key, equal_iff k j, equal_iff x.key j)
  | inr (h'', found) ↦ ground (
    arith,
    equal_iff k x.key,
    equal_iff k j,
    equal_iff x.key j,
    peek_arg-set_first h h'' k v nv j found,
  )
]

peek_arg-append_arg :
    (h : Slots) (k v : Bytes) (nv : Bool) (j : Bytes)
    → has_arg h.live k ≡ false
    → peek_arg (append_arg h k v nv).live j
      ≡ (if equal k j then some (stored v nv) else peek_arg h.live j)
peek_arg-append_arg h k v nv j missing = elim (Bool-cases (equal k j)) [
  | inl same ↦
      let e = (equal_iff k j).0 same in
      unfold append_arg in rw same (peek_arg-append h.live _ j (rw e at missing) ∙ rw same)
  | inr other ↦ unfold append_arg in rw other (peek_arg-append_other h.live _ j other)
]

-- What `setArg` stores under the key is what is looked up there, whether the key is new, and every
-- other key keeps its value.
pub peek_arg-set_arg :
    (h : Slots) (k v : Bytes) (nv : Bool) (j : Bytes)
    → peek_arg (set_arg h k v nv).live j
      ≡ (if equal k j then some (stored v nv) else peek_arg h.live j)
unfolding set_arg
peek_arg-set_arg h k v nv j = elim (Option-cases (set_first h.live k v nv)) [
  | inr (live, found) ↦ rw (found, set_arg) (peek_arg-set_first h.live live k v nv j found)
  | inl missing ↦
      rw (missing, set_arg) (peek_arg-append_arg h k v nv j (set_first-none h.live k v nv missing))
]

delete-has_arg :
    (live spare : List ArgsKv) (k j : Bytes)
    → has_arg (delete live spare k).live j ≡ (if equal k j then false else has_arg live j)
unfolding delete has_arg
delete-has_arg [] spare k j = ground arith
delete-has_arg (x ∷ live) spare k j = ground (
  arith,
  equal_iff k x.key,
  equal_iff k j,
  equal_iff j x.key,
  delete-has_arg live (if equal k x.key then x ∷ spare else spare) k j,
)

delete-peek_arg :
    (live spare : List ArgsKv) (k j : Bytes)
    → peek_arg (delete live spare k).live j ≡ (if equal k j then none else peek_arg live j)
unfolding delete peek_arg
delete-peek_arg [] spare k j = ground arith
delete-peek_arg (x ∷ live) spare k j = ground (
  arith,
  equal_iff k x.key,
  equal_iff k j,
  equal_iff x.key j,
  delete-peek_arg live (if equal k x.key then x ∷ spare else spare) k j,
)

-- `delAllArgs` takes every entry of the key away and leaves every other key as it was.
pub del_all_args-peek_arg :
    (h : Slots) (k j : Bytes)
    → (has_arg (del_all_args h k).live j ≡ (if equal k j then false else has_arg h.live j))
      × (peek_arg (del_all_args h k).live j ≡ (if equal k j then none else peek_arg h.live j))
unfolding del_all_args
del_all_args-peek_arg h k j =
    (delete-has_arg h.live h.spare k j, delete-peek_arg h.live h.spare k j)

delete-perm :
    (live spare : List ArgsKv) (k : Bytes)
    → Perm ((delete live spare k).live ++ (delete live spare k).spare) (live ++ spare)
unfolding delete
delete-perm [] spare k = Perm.refl spare
delete-perm (x ∷ live) spare k = elim (Bool-cases (equal k x.key)) [
  | inl gone ↦ rw gone (Perm.trans (delete-perm live (x ∷ spare) k) (perm_middle live spare))
  | inr kept ↦ rw kept (Perm.cons x (delete-perm live spare k))
]

-- The entries that `delAllArgs` takes away are spare afterwards: none is lost, and none stands in
-- two places, where two arguments would share a buffer.
pub del_all_args-perm :
    (h : Slots) (k : Bytes)
    → Perm ((del_all_args h k).live ++ (del_all_args h k).spare) (h.live ++ h.spare)
unfolding del_all_args
del_all_args-perm h k = delete-perm h.live h.spare k

peek_all-append :
    (dst : List Bytes) (h : List ArgsKv) (k : Bytes) → peek_all dst h k ≡ dst ++ peek_all [] h k
unfolding peek_all
peek_all-append dst [] k = sym (append-nil dst)
peek_all-append dst (x ∷ h) k = ground (
  arith,
  peek_all-append (dst ++ x.value ∷ []) h k,
  peek_all-append (x.value ∷ []) h k,
  peek_all-append dst h k,
  append_assoc dst (x.value ∷ []) (peek_all [] h k),
)

peek_all-concat :
    (h g : List ArgsKv) (k : Bytes) → peek_all [] (h ++ g) k ≡ peek_all [] h k ++ peek_all [] g k
unfolding peek_all
peek_all-concat [] g k = refl
peek_all-concat (x ∷ h) g k = ground (
  arith,
  peek_all-append (x.value ∷ []) (h ++ g) k,
  peek_all-append (x.value ∷ []) h k,
  peek_all-concat h g k,
)

-- `appendArg` puts its value behind those that the key had, and changes no other key's values.
pub peek_all-append_arg :
    (h : Slots) (k v : Bytes) (nv : Bool) (j : Bytes)
    → peek_all [] (append_arg h k v nv).live j
      ≡ peek_all [] h.live j ++ (if equal k j then stored v nv ∷ [] else [])
unfolding append_arg peek_all
peek_all-append_arg h k v nv j =
    peek_all-concat h.live (record { key = k; value = stored v nv; no_value = nv } ∷ []) j ∙ refl

-- An entry with no value that stores none, as all of this file leave it.
abbrev pub IsTidy : ArgsKv → Type 0
IsTidy kv = kv.no_value ≡ true → kv.value ≡ []

copy_kv-IsTidy : (kv : ArgsKv) → IsTidy kv → copy_kv kv ≡ kv
unfolding copy_kv
copy_kv-IsTidy kv h = ground arith

map-copy_kv : (h : List ArgsKv) → All IsTidy h → map copy_kv h ≡ h
map-copy_kv [] t = refl
map-copy_kv (kv ∷ h) (tkv, t) = ap₂ ◌∷◌ (copy_kv-IsTidy kv tkv) (map-copy_kv h t)

-- `copyArgs` gives the entries of the source, whatever the destination held and whether its
-- capacity was enough, and gives up no capacity.
pub copy_args_lem :
    (dst : Slots) (src : List ArgsKv)
    → All IsTidy src
    → ((copy_args dst src).live ≡ src) × (cap dst ≤ cap (copy_args dst src))
unfolding copy_args
copy_args_lem dst src t = (
  map-copy_kv src t,
  rw (map-copy_kv src t) (
      ground (
        arith,
        length-drop (length src) (dst.live ++ dst.spare),
        length-append dst.live dst.spare,
      )),
)
