-- ===== src/Auth/Warm.antt =====
-- internal/auth/refresher.go: when the key cache that the loop keeps becomes ready.
use llmgateway_go.Prelude.{
  ℕ, List, [], ◌∷◌, ◌≡◌, refl, Bool, true, false, not, ◌||◌, ◌&&◌, arith, Bool-cases, inl, inr, ap,
  ◌∙◌,
}
use llmgateway_go.Prelude.Int.{ℤ, pos, ltz}
use llmgateway_go.Prelude.Results.{Result, ok, err, Result-cases}
use llmgateway_go.Auth.Token.{Codec}
use llmgateway_go.Auth.Jwks.{RsaKey, JwksCache, JwksError, Fetched, read_reply, refresh, is_ready}
use llmgateway_go.Auth.Static.{read_reply-Good}
use llmgateway_go.Auth.Issuer.{Turn, ended, tick, keep_turning, keep_fresh}

abbrev pub is_ok : {A : Type 0} → Result JwksError A → Bool
is_ok (ok a) = true
is_ok (err e) = false

-- A fetch whose document has usable keys.
abbrev pub is_good : Codec RsaKey → Fetched → Bool
is_good codec reply = is_ok (read_reply codec reply)

-- Some tick before the end of the context got such a document.
abbrev pub is_answered : Codec RsaKey → List Turn → Bool
is_answered codec [] = false
is_answered codec (ended ∷ rest) = false
is_answered codec (tick reply now ∷ rest) = is_good codec reply || is_answered codec rest

abbrev pub has_ended : List Turn → Bool
has_ended [] = false
has_ended (ended ∷ rest) = true
has_ended (tick reply now ∷ rest) = has_ended rest

or_assoc : (a b c : Bool) → (a || b) || c ≡ a || (b || c)
or_assoc a b c = ground arith

module _ (codec : Codec RsaKey) where
  refresh-readiness :
      (reply : Fetched) (now : ℕ) (c : JwksCache)
      → is_ready (refresh codec reply now c).1 ≡ is_ready c || is_good codec reply
  unfolding refresh
  refresh-readiness reply now c = elim (Result-cases (read_reply codec reply)) [
    | inr (e, q) ↦ rw q (ground arith)
    | inl (keys, q) ↦
        let (g, r) = read_reply-Good codec reply {keys = keys} q in rw q (rw r (ground arith))
  ]

  turning :
      (turns : List Turn) (c : JwksCache)
      → ((keep_turning codec turns c).0 ≡ has_ended turns)
        × (is_ready (keep_turning codec turns c).1 ≡ is_ready c || is_answered codec turns)
  unfolding keep_turning
  turning [] c = (refl, ground arith)
  turning (ended ∷ rest) c = (refl, ground arith)
  turning (tick reply now ∷ rest) c =
      let (r, a) = turning rest (refresh codec reply now c).1 in
      (
        r,
        a
            ∙ (ap (λ b. b || is_answered codec rest) (refresh-readiness reply now c)
                ∙ or_assoc (is_ready c) (is_good codec reply) (is_answered codec rest)),
      )

  -- The loop over the signing keys makes its cache ready at the first fetch whose document has usable
  -- keys, its first one at once and then one a tick, whatever the other fetches brought, and the cache
  -- stays so; and it returns at once exactly where the interval is not positive, and otherwise exactly
  -- at the end of its context.
  pub keep_fresh-ready :
      (interval : ℤ) (reply : Fetched) (now : ℕ) (turns : List Turn) (c : JwksCache)
      → (is_ready (keep_fresh codec interval reply now turns c).1
          ≡ is_ready c
            || (is_good codec reply || (ltz (pos 0) interval && is_answered codec turns)))
        × ((keep_fresh codec interval reply now turns c).0
            ≡ not (ltz (pos 0) interval) || has_ended turns)
  unfolding keep_fresh
  keep_fresh-ready interval reply now turns c =
      let c' = (refresh codec reply now c).1 in
      let g = refresh-readiness reply now c in
      elim (Bool-cases (ltz (pos 0) interval)) [
        | inl y ↦
            let (r, a) = turning turns c' in
            rw y (
              a
                  ∙ (ap (λ b. b || is_answered codec turns) g
                      ∙ or_assoc (is_ready c) (is_good codec reply) (is_answered codec turns)),
              r,
            )
        | inr n ↦ rw n (g ∙ ground arith, refl)
      ]
