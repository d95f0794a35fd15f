-- ===== src/Header/Trailer/Forbidden.antt =====
-- Which names `isBadTrailer` refuses, and what the trailers of a message can be.
use Prim.Native.Nat.{bit_or}
use fasthttp.Base.{
  ℕ, List, [], ◌∷◌, ◌++◌, ◌≡◌, refl, sym, ap, ap₂, ◌∙◌, Bool, true, false, ltb, arith,
  if◌then◌else◌, Bytes, codes, length, take, drop, equal, equal_iff, take-append-drop, All,
  Bool-cases, inl, inr,
}
use fasthttp.Header.Names.{head_name_compare}
use fasthttp.Header.Trailer.{is_bad_c, is_bad_p, is_bad_t, is_bad_at, is_bad_trailer}

-- The names that are refused, in their normal form, but the empty one.
abbrev pub forbidden : List Bytes
forbidden =
    codes "Authorization"
    ∷ codes "Content-Encoding"
    ∷ codes "Content-Length"
    ∷ codes "Content-Range"
    ∷ codes "Connection"
    ∷ codes "Expect"
    ∷ codes "Host"
    ∷ codes "keep-alive"
    ∷ codes "Max-Forwards"
    ∷ codes "Proxy-Authenticate"
    ∷ codes "Proxy-Authorization"
    ∷ codes "Range"
    ∷ codes "TE"
    ∷ codes "Trailer"
    ∷ codes "Transfer-Encoding"
    ∷ codes "WWW-Authenticate"
    ∷ []

pub listed : List Bytes → Bytes → Bool
listed [] key = false
listed (name ∷ names) key = if equal key name then true else listed names key

-- What is compared piece by piece is compared whole.
equal-pieces :
    (k : ℕ) (key front back : Bytes)
    → equal (take k key) front ≡ true
    → equal (drop k key) back ≡ true
    → equal key (front ++ back) ≡ true
equal-pieces k key front back f b = (equal_iff key (front ++ back)).1 (
    sym (take-append-drop k key)
    ∙ ap₂ (λ x y. x ++ y) ((equal_iff (take k key) front).0 f) ((equal_iff (drop k key) back).0 b))

listed-All :
    (test : Bytes → Bool) (names : List Bytes) (key : Bytes)
    → All (λ name. test name ≡ true) names
    → listed names key ≡ true
    → test key ≡ true
unfolding listed
listed-All test [] key all h = cc
listed-All test (name ∷ names) key (bad, all) h = elim (Bool-cases (equal key name)) [
  | inl same ↦ ap test ((equal_iff key name).0 same) ∙ bad
  | inr other ↦ listed-All test names key all (rw other at h)
]

listed_complete : (key : Bytes) → listed forbidden key ≡ true → is_bad_trailer key false ≡ true
unfolding is_bad_trailer equal
listed_complete key =
    listed-All (λ k. is_bad_trailer k false) forbidden key
      (
        refl,
        (
          refl,
          (
            refl,
            (
              refl,
              (
                refl,
                (
                  refl,
                  (
                    refl,
                    (refl, (refl, (refl, (refl, (refl, (refl, (refl, (refl, (refl, tt))))))))),
                  ),
                ),
              ),
            ),
          ),
        ),
      )

-- "Content-Type" is not longer than itself.
type_short :
    (key : Bytes)
    → equal (take 8 key) (codes "Content-") ≡ true
    → equal (drop 8 key) (codes "Type") ≡ true
    → ltb 12 (length key) ≡ false
type_short key f b =
    let e = (equal_iff key (codes "Content-Type")).0 (equal-pieces 8 key _ _ f b) in
    ground (arith, ap length e)

proxy_short :
    (key : Bytes)
    → equal (take 6 key) (codes "Proxy-") ≡ true
    → equal (drop 6 key) (codes "Connection") ≡ true
    → ltb 16 (length key) ≡ false
proxy_short key f b =
    let e = (equal_iff key (codes "Proxy-Connection")).0 (equal-pieces 6 key _ _ f b) in
    ground (arith, ap length e)

is_bad_c_sound : (key : Bytes) → is_bad_c key false ≡ true → listed forbidden key ≡ true
unfolding is_bad_c head_name_compare listed
is_bad_c_sound key h = ground (
  arith,
  type_short key,
  equal-pieces 8 key (codes "Content-") (codes "Encoding"),
  equal-pieces 8 key (codes "Content-") (codes "Length"),
  equal-pieces 8 key (codes "Content-") (codes "Range"),
)

is_bad_p_sound : (key : Bytes) → is_bad_p key false ≡ true → listed forbidden key ≡ true
unfolding is_bad_p head_name_compare listed
is_bad_p_sound key h = ground (
  arith,
  proxy_short key,
  equal-pieces 6 key (codes "Proxy-") (codes "Authenticate"),
  equal-pieces 6 key (codes "Proxy-") (codes "Authorization"),
)

is_bad_t_sound : (key : Bytes) → is_bad_t key false ≡ true → listed forbidden key ≡ true
unfolding is_bad_t head_name_compare listed
is_bad_t_sound key h = ground arith

is_bad_at_sound : (c : ℕ) (key : Bytes) → is_bad_at c key false ≡ true → listed forbidden key ≡ true
unfolding is_bad_at head_name_compare listed
is_bad_at_sound c key h = ground (arith, is_bad_c_sound key, is_bad_p_sound key, is_bad_t_sound key)

listed_sound :
    (c : ℕ) (key : Bytes)
    → is_bad_trailer (c ∷ key) false ≡ true
    → listed forbidden (c ∷ key) ≡ true
unfolding is_bad_trailer
listed_sound c key h = is_bad_at_sound (bit_or c 32) (c ∷ key) h

bool_iff : (a b : Bool) → (a ≡ true → b ≡ true) → (b ≡ true → a ≡ true) → a ≡ b
bool_iff true true f g = refl
bool_iff true false f g = sym (f refl)
bool_iff false true f g = g refl
bool_iff false false f g = refl

-- With keys in normal form the names that are refused are the empty one and those of a fixed list:
-- Content-Type, Proxy-Connection and Keep-Alive are not among them.
pub is_bad_trailer-listed :
    (c : ℕ) (key : Bytes) → is_bad_trailer (c ∷ key) false ≡ listed forbidden (c ∷ key)
is_bad_trailer-listed c key =
    bool_iff (is_bad_trailer (c ∷ key) false) (listed forbidden (c ∷ key)) (listed_sound c key)
      (listed_complete (c ∷ key))
