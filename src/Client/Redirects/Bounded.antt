-- ===== src/Client/Redirects/Bounded.antt =====
-- How often doRequestFollowRedirects sends a request.
use fasthttp.Base.{
  ℕ, zero, suc, ◌+◌, ◌<◌, ◌≤◌, Bool, ltb, ◌==◌, ◌≡◌, refl, ◌⊎◌, inl, inr, arith, Bool-cases,
  Option-cases, Bytes, length,
}
use fasthttp.Uri.{Uri}
use fasthttp.Client.Redirects.{
  RedirectError, bad_uri, not_sent, Answer, Followed, status_code_is_redirect, get_redirect_url,
  go_on, follow, follow_loop, do_request_follow_redirects,
}

go_on-bounded :
    (go : Bytes → Followed) (requests code limit : ℕ) (o : RedirectError ⊎ Bytes)
    → requests ≤ limit
    → ((url : Bytes) → (go url).requests ≤ limit)
    → (go_on go requests code o).requests ≤ limit
unfolding go_on
go_on-bounded go requests code limit (inl e) le more = le
go_on-bounded go requests code limit (inr url) le more = more url

follow-bounded :
    (go : Bytes → Followed) (next : Bytes → RedirectError ⊎ Bytes) (max_redirects requests code : ℕ)
    (a : Answer)
    → requests ≤ max_redirects + 1
    → (requests ≤ max_redirects → (url : Bytes) → (go url).requests ≤ max_redirects + 1)
    → (follow go next max_redirects requests code a).requests ≤ max_redirects + 1
unfolding follow
follow-bounded go next max_redirects requests code a le more = elim (Option-cases a.fault) [
  | inr (bad_uri e, broken) ↦ rw broken le
  | inr (not_sent e, broken) ↦ rw broken le
  | inl fine ↦ elim (Bool-cases (status_code_is_redirect a.status_code)) [
    | inr last ↦ rw fine (rw last le)
    | inl redirect ↦ elim (Bool-cases (ltb max_redirects requests)) [
      | inl many ↦ rw fine (rw redirect (rw many le))
      | inr few ↦ elim (Bool-cases (length a.location == 0)) [
        | inl missing ↦ rw fine (rw redirect (rw few (rw missing le)))
        | inr there ↦ rw fine (
            rw redirect (
              rw few (
                rw there (
                  go_on-bounded go requests a.status_code (max_redirects + 1) (next a.location) le
                    (more (ground arith))))))
      ]
    ]
  ]
]

follow_loop-bounded :
    (fuel : ℕ) (next : ℕ → Bytes → Bytes → RedirectError ⊎ Bytes) (max_redirects : ℕ)
    (env : ℕ → Bytes → Answer) (requests code : ℕ) (url : Bytes)
    → requests ≤ max_redirects
    → (follow_loop fuel next max_redirects env requests code url).requests ≤ max_redirects + 1
unfolding follow_loop
follow_loop-bounded zero next max_redirects env requests code url le = omega arith
follow_loop-bounded (suc fuel) next max_redirects env requests code url le =
    follow-bounded _ (next requests url) max_redirects (requests + 1) code (env requests url) (omega arith)
      λ few url'. follow_loop-bounded fuel next max_redirects env (requests + 1) _ url' few

go_on-same :
    (go go' : Bytes → Followed) (requests code : ℕ) (o : RedirectError ⊎ Bytes)
    → ((url : Bytes) → go url ≡ go' url)
    → go_on go requests code o ≡ go_on go' requests code o
unfolding go_on
go_on-same go go' requests code (inl e) same = refl
go_on-same go go' requests code (inr url) same = same url

follow-same :
    (go go' : Bytes → Followed) (next : Bytes → RedirectError ⊎ Bytes)
    (max_redirects requests code : ℕ) (a : Answer)
    → (requests ≤ max_redirects → (url : Bytes) → go url ≡ go' url)
    → follow go next max_redirects requests code a ≡ follow go' next max_redirects requests code a
unfolding follow
follow-same go go' next max_redirects requests code a same = elim (Option-cases a.fault) [
  | inr (bad_uri e, broken) ↦ rw broken refl
  | inr (not_sent e, broken) ↦ rw broken refl
  | inl fine ↦ elim (Bool-cases (ltb max_redirects requests)) [
    | inl many ↦ rw fine (rw many refl)
    | inr few ↦
        rw fine (
          rw (go_on-same go go' requests a.status_code (next a.location) (same (ground arith)))
            refl)
  ]
]

follow_loop-enough :
    (f g : ℕ) (next : ℕ → Bytes → Bytes → RedirectError ⊎ Bytes) (max_redirects : ℕ)
    (env : ℕ → Bytes → Answer) (requests code : ℕ) (url : Bytes)
    → max_redirects < requests + f
    → max_redirects < requests + g
    → 0 < f
    → 0 < g
    → follow_loop f next max_redirects env requests code url
      ≡ follow_loop g next max_redirects env requests code url
unfolding follow_loop
follow_loop-enough zero g next max_redirects env requests code url hf hg pf pg =
    absurd (omega arith)
follow_loop-enough (suc f) zero next max_redirects env requests code url hf hg pf pg =
    absurd (omega arith)
follow_loop-enough (suc f) (suc g) next max_redirects env requests code url hf hg pf pg =
    follow-same _ _ (next requests url) max_redirects (requests + 1) code (env requests url) λ few url'.
      follow_loop-enough f g next max_redirects env (requests + 1) _ url' (omega arith)
        (omega arith) (omega arith) (omega arith)

-- Whatever the answers are, there are no more rounds than one and one for each redirect that may be
-- followed, and the fuel of the loop is enough: with any more it ends the same way.
pub do_request_follow_redirects-bounded :
    (u : Uri) (capacity : ℕ → ℕ) (off same : Bool) (max_redirects : ℕ) (env : ℕ → Bytes → Answer) (url : Bytes)
    (more : ℕ)
    → ((do_request_follow_redirects u capacity off same max_redirects env url).requests ≤ max_redirects + 1)
      × (follow_loop
            (max_redirects + 1 + more)
            (λ n base location. get_redirect_url u (capacity n) base location off same)
            max_redirects
            env
            0
            0
            url
          ≡ do_request_follow_redirects u capacity off same max_redirects env url)
unfolding do_request_follow_redirects
do_request_follow_redirects-bounded u capacity off same max_redirects env url more = (
  follow_loop-bounded (max_redirects + 1)
      (λ n base location. get_redirect_url u (capacity n) base location off same) max_redirects env 0 0 url
      (omega arith),
  follow_loop-enough (max_redirects + 1 + more) (max_redirects + 1)
      (λ n base location. get_redirect_url u (capacity n) base location off same) max_redirects env 0 0 url
      (omega arith) (omega arith) (omega arith) (omega arith),
)
