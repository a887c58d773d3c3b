-- ===== src/Health.antt =====
-- internal/health/checker.go, and the two conditions that cmd/gateway/main.go registers.
use llmgateway_go.Prelude.{
  String, List, [], ◌∷◌, ◌≡◌, ◌↔◌, refl, Option, none, some, Bool, true, false, All, arith,
  if◌then◌else◌, Option-cases, inl, inr,
}
use llmgateway_go.Prelude.Maps.{insert}
use llmgateway_go.Auth.Jwks.{JwksCache, is_ready as keys_ready}
use llmgateway_go.ProviderKeys.{Cache, is_ready as credentials_ready}

-- A condition reads the process, and reports an error where it does not hold.
abbrev pub Check : Type 0 → Type 0 → Type 0
Check W E = W → Option E

abbrev pub first_error :
    {E : Type 0} → String → Option E → Option (String × E) → Option (String × E)
first_error name none rest = rest
first_error name (some e) rest = some (name, e)

module _ {W E : Type 0} where
  -- AddReadiness: a later condition of the same name replaces the one before.
  unfoldable pub add_readiness :
      String → Check W E → List (String × Check W E) → List (String × Check W E)
  unfolding insert
  add_readiness name check checks = insert name check checks

  -- Ready, over the conditions in the order that the range loop happens to take: the first that fails,
  -- with its name.
  unfoldable pub ready : List (String × Check W E) → W → Option (String × E)
  ready [] w = none
  ready ((name, check) ∷ rest) w = first_error name (check w) (ready rest w)

  ready-all :
      (checks : List (String × Check W E)) (w : W)
      → ready checks w ≡ none
      → All (λ c. c.1 w ≡ none) checks
  unfolding ready
  ready-all [] w h = tt
  ready-all ((name, check) ∷ rest) w h = elim (Option-cases (check w)) [
    | inl e ↦ (e, ready-all rest w (rw e at h))
    | inr (x, e) ↦ absurd (ground arith)
  ]

  all-ready :
      (checks : List (String × Check W E)) (w : W)
      → All (λ c. c.1 w ≡ none) checks
      → ready checks w ≡ none
  unfolding ready
  all-ready [] w h = refl
  all-ready ((name, check) ∷ rest) w h = rw h.0 (all-ready rest w h.1)

-- The two caches of a pod, as far as readiness asks.
pub record Pod : Type 0 where
  pub signing_keys : JwksCache
  pub credentials : Cache

pub data NotReady : Type 0 where
  no_signing_keys no_credentials : NotReady

abbrev unless : Bool → NotReady → Option NotReady
unless b e = if b then none else some e

unless-none : (b : Bool) (e : NotReady) → (unless b e ≡ none) ↔ (b ≡ true)
unless-none true e = (λ h. refl, λ h. refl)
unless-none false e = (λ h. cc, λ h. cc)

abbrev jwks_check : Check Pod NotReady
jwks_check p = unless (keys_ready p.signing_keys) no_signing_keys

abbrev credentials_check : Check Pod NotReady
credentials_check p = unless (credentials_ready p.credentials) no_credentials

-- What newAppDirectory and newProviderClient register.
unfoldable pub pod_checks : List (String × Check Pod NotReady)
unfolding add_readiness
pod_checks = add_readiness "provider-keys" credentials_check (add_readiness "jwks" jwks_check [])

-- A pod is ready exactly if its cache of signing keys is and its cache of credentials is, the two
-- conditions being independent.
pub pod-ready :
    (p : Pod)
    → (ready pod_checks p ≡ none)
      ↔ ((keys_ready p.signing_keys ≡ true) × (credentials_ready p.credentials ≡ true))
unfolding pod_checks
pod-ready p =
    let a = unless-none (keys_ready p.signing_keys) no_signing_keys in
    let b = unless-none (credentials_ready p.credentials) no_credentials in
    (
      λ h. let c = ready-all pod_checks p h in (a.0 c.0, b.0 c.1.0),
      λ h. all-ready pod_checks p (a.1 h.0, (b.1 h.1, tt)),
    )
