-- ===== src/Metrics/Attempts.antt =====
-- internal/metrics/gateway/providerclient.go: the attempts at each provider, and their failures by kind.
use llmgateway_go.Prelude.{
  ℕ, String, ◌==◌, eq_iff, eq_refl, List, [], ◌∷◌, ◌++◌, map, ◌≡◌, ◌↔◌, refl, sym, ap, ◌∙◌, Bool,
  true, ◌&&◌, eqb, arith, if◌then◌else◌,
}
use llmgateway_go.Prelude.Int.{ℤ, pos}
use llmgateway_go.Gateway.Domain.{ModelProvider, ChatRequest}
use llmgateway_go.Gateway.Faults.{
  FaultKind, unreachable, timeout, server_error, throttled, bad_response, rejected, AttemptError,
  fault, deadline_exceeded, other,
}
use llmgateway_go.Gateway.Ports.{Outcome, completed, failed}
use llmgateway_go.Metrics.Keyed.{Comparable, new_keyed_counter, fill_counters, add}
use llmgateway_go.Metrics.Recorder.{text_comparable}

-- The kinds of the core, and KindUnclassified.
pub data CountedKind : Type 0 where
  of_fault : FaultKind → CountedKind
  unclassified : CountedKind

pub record ProviderKind : Type 0 where
  pub provider : String
  pub kind : CountedKind

abbrev kind_number : CountedKind → ℕ
kind_number (of_fault unreachable) = 0
kind_number (of_fault timeout) = 1
kind_number (of_fault server_error) = 2
kind_number (of_fault throttled) = 3
kind_number (of_fault bad_response) = 4
kind_number (of_fault rejected) = 5
kind_number unclassified = 6

abbrev numbered : ℕ → CountedKind
numbered n =
    if eqb n 0
    then of_fault unreachable
    else if eqb n 1
    then of_fault timeout
    else if eqb n 2
    then of_fault server_error
    else if eqb n 3
    then of_fault throttled
    else if eqb n 4
    then of_fault bad_response
    else if eqb n 5
    then of_fault rejected
    else unclassified

numbered-kind_number : (k : CountedKind) → numbered (kind_number k) ≡ k
numbered-kind_number (of_fault unreachable) = refl
numbered-kind_number (of_fault timeout) = refl
numbered-kind_number (of_fault server_error) = refl
numbered-kind_number (of_fault throttled) = refl
numbered-kind_number (of_fault bad_response) = refl
numbered-kind_number (of_fault rejected) = refl
numbered-kind_number unclassified = refl

abbrev pub provider_kind : String → CountedKind → ProviderKind
provider_kind provider kind = record { provider = provider; kind = kind }

abbrev pub same_provider_kind : ProviderKind → ProviderKind → Bool
same_provider_kind a b = (a.provider == b.provider) && eqb (kind_number a.kind) (kind_number b.kind)

pub same_provider_kind_iff : (a b : ProviderKind) → (same_provider_kind a b ≡ true) ↔ (a ≡ b)
same_provider_kind_iff a b = (
  λ h.
      let p = (eq_iff a.provider b.provider).0 (ground arith) in
      let n : kind_number a.kind ≡ kind_number b.kind = ground arith in
      let q = sym (numbered-kind_number a.kind) ∙ ap numbered n ∙ numbered-kind_number b.kind in
      ap (λ t. provider_kind t a.kind) p ∙ ap (provider_kind b.provider) q,
  λ e. rw e (rw (eq_refl b.provider) (ground arith)),
)

instance abbrev pub provider_kind_comparable : Comparable ProviderKind
provider_kind_comparable = record { same = same_provider_kind; same_iff = same_provider_kind_iff }

-- FaultKinds
abbrev pub fault_kinds : List CountedKind
fault_kinds =
    of_fault unreachable
    ∷ of_fault timeout
    ∷ of_fault server_error
    ∷ of_fault throttled
    ∷ of_fault bad_response
    ∷ of_fault rejected
    ∷ unclassified
    ∷ []

unfoldable pub provider_kind_keys : List String → List ProviderKind
provider_kind_keys [] = []
provider_kind_keys (p ∷ rest) = map (provider_kind p) fault_kinds ++ provider_kind_keys rest

-- The counters, beside the state of what the next client changes.
pub record Metered (W : Type 0) : Type 0 where
  pub world : W
  pub attempts : List (String × ℤ)
  pub failures : List (ProviderKind × ℤ)

-- NewProviderClient, over the providers in sorted order
unfoldable pub new_provider_client : {W : Type 0} → List String → W → Metered W
unfolding fill_counters provider_kind_keys
new_provider_client own w = record {
  world = w;
  attempts = new_keyed_counter own;
  failures = new_keyed_counter (provider_kind_keys own);
}

abbrev pub fault_kind : AttemptError → CountedKind
fault_kind (fault f) = of_fault f.kind
fault_kind deadline_exceeded = unclassified
fault_kind other = unclassified

abbrev pub count_failure : String → Outcome → List (ProviderKind × ℤ) → List (ProviderKind × ℤ)
count_failure provider (completed c) m = m
count_failure provider (failed e) m = add (provider_kind provider (fault_kind e)) (pos 1) m

-- ProviderClient.Complete
unfoldable pub metered_complete :
    {W : Type 0}
    → (ModelProvider → ChatRequest → W → Outcome × W)
    → ModelProvider
    → ChatRequest
    → Metered W
    → Outcome × Metered W
unfolding add
metered_complete next mp req s =
    let (outcome, w) = next mp req s.world in
    (
      outcome,
      record {
        world = w;
        attempts = add mp.provider (pos 1) s.attempts;
        failures = count_failure mp.provider outcome s.failures;
      },
    )

-- ------------------------------------------------------------------ many attempts

module _ {W : Type 0} (next : ModelProvider → ChatRequest → W → Outcome × W) where
  -- The outcomes of attempts one after another, each with its provider, and the state afterwards.
  unfoldable pub plain_run : List (ModelProvider × ChatRequest) → W → List (String × Outcome) × W
  plain_run [] w = ([], w)
  plain_run ((mp, req) ∷ rest) w =
      let (outcome, w') = next mp req w in
      let (outcomes, w'') = plain_run rest w' in ((mp.provider, outcome) ∷ outcomes, w'')

  unfoldable pub metered_run :
      List (ModelProvider × ChatRequest) → Metered W → List (String × Outcome) × Metered W
  unfolding metered_complete
  metered_run [] s = ([], s)
  metered_run ((mp, req) ∷ rest) s =
      let (outcome, s') = metered_complete next mp req s in
      let (outcomes, s'') = metered_run rest s' in ((mp.provider, outcome) ∷ outcomes, s'')
