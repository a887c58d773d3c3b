-- ===== src/Providers.antt =====
-- internal/providers/router.go, and internal/shared/utils.go: one attempt, handed to the adapter of its
-- provider, and the classes of failures that all adapters use.
use llmgateway_go.Prelude.{
  ℕ, String, List, ◌≡◌, refl, Option, none, some, Bool, true, false, ◌||◌, eqb, arith,
  if◌then◌else◌,
}
use llmgateway_go.Prelude.Maps.{lookup}
use llmgateway_go.Gateway.Domain.{ModelProvider, ChatRequest, Usage}
use llmgateway_go.Gateway.Faults.{
  FaultKind, unreachable, timeout, server_error, throttled, bad_response, rejected, ProviderFault,
  fault, bills_despite_failure,
}
use llmgateway_go.Gateway.Ports.{Outcome, failed}

-- An error of the HTTP client: whether `errors.Is` finds a deadline in it, and whether it is a network
-- error that says it timed out.
pub record TransportError : Type 0 where
  pub is_deadline : Bool
  pub is_net_timeout : Bool

unfoldable pub transport_fault : TransportError → ProviderFault
transport_fault e = record {
  kind = if e.is_deadline || e.is_net_timeout then timeout else unreachable;
  observed_usage = none;
}

unfoldable pub status_fault : ℕ → ProviderFault
status_fault status = record {
  kind =
      if eqb status 429
      then throttled
      else if eqb status 401 || eqb status 403
      then rejected
      else server_error;
  observed_usage = none;
}

unfoldable pub bad_response_fault : Option Usage → ProviderFault
bad_response_fault observed = record { kind = bad_response; observed_usage = observed }

-- The adapters by the names of their providers, and the callback where one is wired.
pub record Router (W : Type 0) : Type 0 where
  pub adapters : List (String × (ModelProvider → ChatRequest → W → Outcome × W))
  pub on_rejected : Option (String → W → W)

-- rejected
abbrev is_rejected_kind : FaultKind → Bool
is_rejected_kind rejected = true
is_rejected_kind _ = false

abbrev pub is_rejected : Outcome → Bool
is_rejected (failed (fault f)) = is_rejected_kind f.kind
is_rejected _ = false

abbrev notify : {W : Type 0} → Option (String → W → W) → String → Outcome → W → W
notify none provider o w = w
notify (some call) provider o w = if is_rejected o then call provider w else w

abbrev dispatch :
    {W : Type 0}
    → Router W
    → ModelProvider
    → ChatRequest
    → Option (ModelProvider → ChatRequest → W → Outcome × W)
    → W
    → Outcome × W
dispatch r mp req none w =
    (failed (fault (record { kind = unreachable; observed_usage = none })), w)
dispatch r mp req (some adapter) w =
    let (o, w') = adapter mp req w in (o, notify r.on_rejected mp.provider o w')

-- Router.Complete
unfoldable pub complete : {W : Type 0} → Router W → ModelProvider → ChatRequest → W → Outcome × W
unfolding lookup
complete r mp req w = dispatch r mp req (lookup mp.provider r.adapters) w

status_fault_unbilled : (status : ℕ) → bills_despite_failure (fault (status_fault status)) ≡ false
unfolding status_fault bills_despite_failure
status_fault_unbilled status = ground arith

status_fault_rejected :
    (status : ℕ)
    → is_rejected (failed (fault (status_fault status))) ≡ (eqb status 401 || eqb status 403)
unfolding status_fault
status_fault_rejected status = ground arith

-- An adapter that answers with a status outside 2xx: the router passes its fault on unchanged, calls
-- back with the provider's name exactly if the status is 401 or 403, and the core counts no spend for it.
pub complete-refusal :
    {W : Type 0} (r : Router W) (mp : ModelProvider) (req : ChatRequest) (w w' : W) (status : ℕ)
    (adapter : ModelProvider → ChatRequest → W → Outcome × W) (call : String → W → W)
    → lookup mp.provider r.adapters ≡ some adapter
    → r.on_rejected ≡ some call
    → adapter mp req w ≡ (failed (fault (status_fault status)), w')
    → ((complete r mp req w).0 ≡ failed (fault (status_fault status)))
      × ((complete r mp req w).1
          ≡ (if eqb status 401 || eqb status 403 then call mp.provider w' else w'))
      × (bills_despite_failure (fault (status_fault status)) ≡ false)
unfolding complete
complete-refusal r mp req w w' status adapter call a c o =
    rw (a, o, c) (refl, rw (status_fault_rejected status) refl, status_fault_unbilled status)

-- A failure bills only where the provider may have worked: a refusal never, a request without an
-- answer if its time ran out, and an answer that cannot be used always.
pub faults_billed :
    (status : ℕ) (e : TransportError) (observed : Option Usage)
    → (bills_despite_failure (fault (status_fault status)) ≡ false)
      × (bills_despite_failure (fault (transport_fault e)) ≡ (e.is_deadline || e.is_net_timeout))
      × (bills_despite_failure (fault (bad_response_fault observed)) ≡ true)
unfolding transport_fault bad_response_fault bills_despite_failure
faults_billed status e observed = (status_fault_unbilled status, ground arith, refl)
