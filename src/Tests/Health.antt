-- ===== src/Tests/Health.antt =====
-- A pod with one cache loaded.
use llmgateway_go.Prelude.{[], ◌∷◌, ◌≡◌, ◌↔◌, refl, none, some, true}
use llmgateway_go.Auth.Jwks.{is_ready as keys_ready}
use llmgateway_go.ProviderKeys.{is_ready as credentials_ready}
use llmgateway_go.Health.{Pod, no_signing_keys, ready, pod_checks, pod-ready}

abbrev cold : Pod
cold = record { signing_keys = record { keys = []; loaded_at = none }; credentials = [] }

abbrev warm : Pod
warm = record {
  signing_keys = record {
    keys = ("k", record { modulus = 5; exponent = 3 }) ∷ [];
    loaded_at = some 1;
  };
  credentials = [];
}

refusal : (ready pod_checks cold ≡ some ("jwks", no_signing_keys)) × (ready pod_checks warm ≡ none)
unfolding ready pod_checks
refusal = (refl, refl)

pod-ready_example :
    (ready pod_checks warm ≡ none)
    ↔ ((keys_ready warm.signing_keys ≡ true) × (credentials_ready warm.credentials ≡ true))
pod-ready_example = pod-ready warm
