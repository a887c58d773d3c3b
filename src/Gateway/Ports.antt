-- ===== src/Gateway/Ports.antt =====
-- internal/gateway/llm_gateway.go, lines 18 to 136: the interfaces that the core declares, the
-- configuration, and the constructor's checks.
--
-- A port is a function over the state `W` of everything outside the core, which the environment
-- chooses: whatever other requests, the clock and the network do between two calls is a change of
-- that state. An error that the core only tests against nil is `down`.
use llmgateway_go.Prelude.{
  ℕ, String, List, Option, Bool, not, ◌||◌, ◌≡◌, true, arith, if◌then◌else◌,
}
use llmgateway_go.Prelude.Int.{ℤ, pos, lez, ◌<ℤ◌}
use llmgateway_go.Gateway.Domain.{App, ChatRequest, Completion, ModelProvider, RateDecision, Usage}
use llmgateway_go.Gateway.Faults.{AttemptError, ErrorCode}

pub data Answer (A : Type 0) : Type 0 where
  says : A → Answer A
  down : Answer A

-- TryAcquire: the release function of a granted slot, as the number of the grant, or the ceiling
-- that refused.
pub data Acquired : Type 0 where
  granted : ℕ → Acquired
  refused_at : ℤ → Acquired

pub data Outcome : Type 0 where
  completed : Completion → Outcome
  failed : AttemptError → Outcome

-- UsageRecorder: one constructor for each method.
pub data UsageEvent : Type 0 where
  completion : String → ModelProvider → Usage → ℕ → Bool → UsageEvent
  rejection : String → ErrorCode → UsageEvent
  rate_limiter_fail_open : String → UsageEvent
  double_spend_risk : String → ModelProvider → ℤ → UsageEvent
  client_disconnect : String → ModelProvider → ℤ → UsageEvent

pub record Config : Type 0 where
  pub model_providers : List ModelProvider
  pub failover_order : List String
  pub total_deadline : ℤ
  pub per_try_deadline : ℤ

pub record Ports (W : Type 0) : Type 0 where
  pub app_for_key : String → W → Option App × W
  pub allow : String → W → Answer RateDecision × W
  pub check : String → W → Answer RateDecision × W
  pub settle : String → ℤ → W → Answer (Unit {0}) × W
  pub try_acquire : String → W → Acquired × W
  pub release : ℕ → W → W
  -- the attempt, under the per-try timeout that its context carries
  pub complete : ℤ → ModelProvider → ChatRequest → W → Outcome × W
  pub record_usage : UsageEvent → W → W
  -- the standard library's contexts and clock: the total timeout is set, and later the caller's
  -- context is found canceled, or the request's own context done
  pub with_timeout : ℤ → W → W
  pub is_canceled : W → Bool
  pub is_done : W → Bool
  pub now : W → ℕ

-- Which ports a `Deps` literal fills.
pub record Deps : Type 0 where
  pub apps : Bool
  pub rate_limiter : Bool
  pub tokens : Bool
  pub slots : Bool
  pub provider : Bool
  pub usage : Bool

-- A nil recorder is replaced by `NopUsageRecorder`, which discards all events.
pub data Recorder : Type 0 where
  wired nop : Recorder

pub record Service : Type 0 where
  pub cfg : Config
  pub usage : Recorder

pub data NewError : Type 0 where
  apps_required rate_limiter_required tokens_required slots_required provider_required : NewError
  total_deadline_not_positive per_try_deadline_out_of_range : NewError

pub data Made : Type 0 where
  made : Service → Made
  refused : NewError → Made

unfoldable pub new : Config → Deps → Made
new cfg deps =
    if not deps.apps
    then refused apps_required
    else if not deps.rate_limiter
    then refused rate_limiter_required
    else if not deps.tokens
    then refused tokens_required
    else if not deps.slots
    then refused slots_required
    else if not deps.provider
    then refused provider_required
    else if lez cfg.total_deadline (pos 0)
    then refused total_deadline_not_positive
    else if lez cfg.per_try_deadline (pos 0) || lez cfg.total_deadline cfg.per_try_deadline
    then refused per_try_deadline_out_of_range
    else made (record { cfg = cfg; usage = if deps.usage then wired else nop })

-- A service that was made keeps its configuration, has every port that it needs, and each try is
-- shorter than the whole request.
pub new-made :
    (cfg : Config) (deps : Deps) {s : Service}
    → new cfg deps ≡ made s
    → (s.cfg ≡ cfg)
      × (deps.apps ≡ true)
      × (deps.rate_limiter ≡ true)
      × (deps.tokens ≡ true)
      × (deps.slots ≡ true)
      × (deps.provider ≡ true)
      × (pos 0 <ℤ cfg.per_try_deadline)
      × (cfg.per_try_deadline <ℤ cfg.total_deadline)
unfolding new
new-made cfg deps h = ground arith
