-- ===== src/Header/Trailer/Stored.antt =====
-- Which trailers are stored: a request refuses the forbidden names however they are spelled, a
-- response does not.
use fasthttp.Base.{
  ℕ, zero, suc, List, [], ◌∷◌, ◌++◌, Option, none, some, ◌≡◌, refl, ap, subst, ◌∙◌, Bool, true,
  false, Bytes, length, All, All-append, Lacks, index_byte-Lacks,
}
use fasthttp.Args.{ArgsKv, Slots, append_arg, peek_args_keys}
use fasthttp.Header.Names.{normalize_header_key, init_header_k}
use fasthttp.Header.Trailer.{
  is_bad_trailer, key_unless, add_key, response_trailer_key, request_trailer_key, add_keys,
  request_add_trailer, request_set_trailer, response_add_trailer, response_set_trailer,
}
use fasthttp.Header.Values.{strip_space, cut_comma}

abbrev pub AreAllowed : Bool → List ArgsKv → Type 0
AreAllowed dn = All (λ kv. is_bad_trailer kv.key dn ≡ false)

key_unless-allowed :
    (b : Bool) (key key' : Bytes) → key_unless b key ≡ some key' → (b ≡ false) × (key ≡ key')
unfolding key_unless
key_unless-allowed true key key' h = cc
key_unless-allowed false key key' h = (refl, cc)

request_trailer_key-allowed :
    (dn : Bool) (item key : Bytes)
    → request_trailer_key dn item ≡ some key
    → is_bad_trailer key dn ≡ false
unfolding request_trailer_key
request_trailer_key-allowed dn item key h =
    let k = init_header_k item dn in
    let (good, same) = key_unless-allowed (is_bad_trailer k dn) k key h in
    subst (λ x. is_bad_trailer x dn ≡ false) same good

append_arg-allowed :
    (dn : Bool) (h : Slots) (key : Bytes)
    → AreAllowed dn h.live
    → is_bad_trailer key dn ≡ false
    → AreAllowed dn (append_arg h key [] true).live
unfolding append_arg
append_arg-allowed dn h key all ok = All-append _ h.live _ all (ok, tt)

add_key-allowed :
    (dn : Bool) (go : Slots → Bool → Slots × Bool) (h : Slots) (bad : Bool) (item : Bytes)
    (o : Option Bytes)
    → request_trailer_key dn item ≡ o
    → ((h' : Slots) (b : Bool) → AreAllowed dn h'.live → AreAllowed dn (go h' b).0.live)
    → AreAllowed dn h.live
    → AreAllowed dn (add_key go h bad o).0.live
unfolding add_key
add_key-allowed dn go h bad item none e keep all = keep h true all
add_key-allowed dn go h bad item (some key) e keep all =
    keep (append_arg h key [] true) bad
      (append_arg-allowed dn h key all (request_trailer_key-allowed dn item key e))

add_keys-allowed :
    (fuel : ℕ) (dn : Bool) (trailer : Bytes) (h : Slots) (bad : Bool)
    → AreAllowed dn h.live
    → AreAllowed dn (add_keys fuel (request_trailer_key dn) trailer h bad).0.live
unfolding add_keys
add_keys-allowed zero dn trailer h bad all = all
add_keys-allowed (suc fuel) dn [] h bad all = all
add_keys-allowed (suc fuel) dn (c ∷ trailer) h bad all =
    let (item, rest) = cut_comma (c ∷ trailer) in
    add_key-allowed dn (add_keys fuel (request_trailer_key dn) rest) h bad (strip_space item) _ refl
      (add_keys-allowed fuel dn rest) all

-- The trailers that a request stores, whatever the text of the Trailer header and however its names
-- are spelled, are none of the names that isBadTrailer refuses.
pub request_set_trailer-allowed :
    (dn : Bool) (h : Slots) (trailer : Bytes)
    → AreAllowed dn (request_set_trailer dn h trailer).0.live
unfolding request_set_trailer request_add_trailer
request_set_trailer-allowed dn h trailer =
    add_keys-allowed (length trailer) dn trailer (record { live = []; spare = h.live ++ h.spare })
      false tt

add_keys-nil :
    (fuel : ℕ) (admit : Bytes → Option Bytes) (h : Slots) (bad : Bool)
    → add_keys fuel admit [] h bad ≡ (h, bad)
unfolding add_keys
add_keys-nil zero admit h bad = refl
add_keys-nil (suc fuel) admit h bad = refl

cut_comma-Lacks : (b : Bytes) → Lacks b',' b → cut_comma b ≡ (b, [])
unfolding cut_comma
cut_comma-Lacks b lacks = rw (index_byte-Lacks b',' b lacks, cut_comma) refl

append_arg-key :
    (h : Slots) (key : Bytes)
    → h.live ≡ []
    → peek_args_keys [] (append_arg h key [] true).live ≡ key ∷ []
unfolding append_arg peek_args_keys
append_arg-key h key empty = rw empty refl

-- An item with neither a comma nor a space at its ends that isBadTrailer does not refuse is stored by
-- a response in its normal form, also where that form is a name that isBadTrailer refuses.
pub response_set_trailer-stores :
    (h : Slots) (c : ℕ) (item : Bytes)
    → Lacks b',' (c ∷ item)
    → strip_space (c ∷ item) ≡ c ∷ item
    → is_bad_trailer (c ∷ item) false ≡ false
    → peek_args_keys [] (response_set_trailer false h (c ∷ item)).0.live
      ≡ normalize_header_key (c ∷ item) ∷ []
unfolding response_set_trailer response_add_trailer add_keys add_key response_trailer_key
    init_header_k key_unless
response_set_trailer-stores h c item one solid good =
    let h0 : Slots = record { live = []; spare = h.live ++ h.spare } in
    let admit = response_trailer_key false in
    ap
      (λ p.
        peek_args_keys []
          (add_key (add_keys (length item) admit p.1) h0 false (admit (strip_space p.0))).0.live)
      (cut_comma-Lacks (c ∷ item) one)
    ∙ ap
        (λ b.
          peek_args_keys [] (add_key (add_keys (length item) admit []) h0 false (admit b)).0.live)
        solid
    ∙ ap
        (λ b.
          peek_args_keys []
            (add_key (add_keys (length item) admit []) h0 false
              (key_unless b (normalize_header_key (c ∷ item)))).0.live)
        good
    ∙ ap (λ r. peek_args_keys [] r.0.live)
        (add_keys-nil (length item) admit (append_arg h0 (normalize_header_key (c ∷ item)) [] true)
          false)
    ∙ append_arg-key h0 (normalize_header_key (c ∷ item)) refl
