-- ===== src/Gateway/Faults.antt =====
-- internal/gateway/errors.go: what a caller is told, how a provider failure is classified, and what
-- a failed attempt may still cost.
use llmgateway_go.Prelude.{String, Option, none, some, Bool, true, false}
use llmgateway_go.Prelude.Int.{ℤ}
use llmgateway_go.Gateway.Domain.{Usage, ChatRequest, QuotaDetail}

pub data ErrorCode : Type 0 where
  invalid_request unauthorized quota_exceeded concurrency_ceiling : ErrorCode
  upstream_failed model_unavailable gateway_timeout : ErrorCode

-- A message is its format with the arguments; the text itself is not rendered.
pub data Text : Type 0 where
  missing_key : Text
  model_required messages_required max_tokens_required too_many_stops : Text
  over_rate_quota over_token_budget : String → Text
  at_ceiling : String → ℤ → Text
  no_model_provider : String → Text
  deadline_exhausted all_attempts_failed : Text

pub record Error : Type 0 where
  pub code : ErrorCode
  pub message : Text
  pub retry_after : ℤ
  pub quota : Option QuotaDetail
  pub max_in_flight : ℤ
  pub requested_model : String

pub data FaultKind : Type 0 where
  unreachable timeout server_error throttled bad_response rejected : FaultKind

-- A Go error as the gateway's `errors.As` and `errors.Is` see it: a fault, a bare error that wraps
-- `context.DeadlineExceeded`, or any other. The cause of a fault is for logs only.
pub record ProviderFault : Type 0 where
  pub kind : FaultKind
  pub observed_usage : Option Usage

pub data AttemptError : Type 0 where
  fault : ProviderFault → AttemptError
  deadline_exceeded : AttemptError
  other : AttemptError

is_billed : FaultKind → Bool
is_billed timeout = true
is_billed bad_response = true
is_billed _ = false

unfoldable pub bills_despite_failure : AttemptError → Bool
unfolding is_billed
bills_despite_failure (fault f) = is_billed f.kind
bills_despite_failure deadline_exceeded = true
bills_despite_failure other = false

observed_or : Option Usage → ℤ → ℤ
observed_or none cap = cap
observed_or (some u) cap = u.total_tokens

unfoldable pub unobserved_tokens : AttemptError → ChatRequest → ℤ
unfolding observed_or
unobserved_tokens (fault f) req = observed_or f.observed_usage req.max_tokens
unobserved_tokens _ req = req.max_tokens
