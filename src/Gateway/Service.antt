-- ===== src/Gateway/Service.antt =====
-- internal/gateway/llm_gateway.go, lines 137 to 369: one request through the whole contract.
--
-- A method is an action over the state of the ports and the trace of what the request did, newest
-- step first. An action that returns an error ends the method there, as a `return` does.
pub mod Accounting
mod Loop
mod Stages
pub mod Slots
pub mod Attempts
pub mod Settlement
pub mod Verdict
pub mod Wired
use llmgateway_go.Prelude.{
  ℕ, suc, ◌+◌, ◌-◌, String, ◌==◌, List, [], ◌∷◌, Option, none, some, Bool, true, false, not, ◌&&◌,
  any as any_of, eqb, ltb, if◌then◌else◌,
}
use llmgateway_go.Prelude.Int.{ℤ, pos, ltz, ◌+ℤ◌, wrap64}
use llmgateway_go.Gateway.Domain.{
  App, ChatRequest, ChatResult, Completion, ModelProvider, RateDecision, Usage,
}
use llmgateway_go.Gateway.Faults.{
  Error, ErrorCode, Text, AttemptError, unauthorized, quota_exceeded, concurrency_ceiling,
  upstream_failed, model_unavailable, gateway_timeout, invalid_request, missing_key,
  over_rate_quota, over_token_budget, at_ceiling, no_model_provider, deadline_exhausted,
  all_attempts_failed, bills_despite_failure, unobserved_tokens,
}
use llmgateway_go.Gateway.Request.{validate}
use llmgateway_go.Gateway.Fallback.{Candidates, is_nil, build_models_providers_fallback}
use llmgateway_go.Gateway.Ports.{
  Ports, Config, Answer, says, down, Acquired, granted, refused_at, Outcome, completed, failed,
  UsageEvent, completion, rejection, rate_limiter_fail_open, double_spend_risk, client_disconnect,
}

pub data Step : Type 0 where
  acquired released : ℕ → Step
  attempted : ModelProvider → Step
  settled : String → ℤ → Step
  recorded : UsageEvent → Step

pub record Run (W : Type 0) : Type 0 where
  pub world : W
  pub trace : List Step

-- What `Chat` returns: a value, an `*Error`, or the error of a caller that has gone.
pub data Reply (A : Type 0) : Type 0 where
  ok : A → Reply A
  refused : Error → Reply A
  disconnected : Reply A

abbrev pub Action : Type 0 → Type 0 → Type 0
Action W A = Run W → Reply A × Run W

module _ {W A B : Type 0} where
  abbrev pub continue : Reply A → (A → Action W B) → Action W B
  continue (ok a) f s = f a s
  continue (refused e) f s = (refused e, s)
  continue disconnected f s = (disconnected, s)

  infixl 5 ◌>>=◌ ◌>>◌
  abbrev pub ◌>>=◌ : Action W A → (A → Action W B) → Action W B
  ◌>>=◌ m f s = let (r, s') = m s in continue r f s'

  abbrev pub ◌>>◌ : Action W A → Action W B → Action W B
  m >> n = m >>= λ _. n

pub plain : ErrorCode → Text → Error
plain code text = record {
  code = code;
  message = text;
  retry_after = pos 0;
  quota = none;
  max_in_flight = pos 0;
  requested_model = "";
}

pub model_unavailable_error : String → Error
unfolding plain
model_unavailable_error model =
    let e = plain model_unavailable (no_model_provider model) in
    record e { requested_model = model }

-- time.Second, in nanoseconds
abbrev slot_retry_after : ℤ
slot_retry_after = pos 1_000_000_000

abbrev pub max_attempts : ℕ
max_attempts = 2

module _ {W : Type 0} (ports : Ports W) (cfg : Config) where
  open ports use {
    app_for_key, allow, check, settle, try_acquire, release, complete, record_usage, with_timeout,
    is_canceled, is_done, now,
  }

  pub note : UsageEvent → Run W → Run W
  note e s = record { world = record_usage e s.world; trace = recorded e ∷ s.trace }

  -- A refusal that is counted against the app.
  pub reject : {A : Type 0} → String → Error → Action W A
  unfolding note
  reject app e s = (refused e, note (rejection app e.code) s)

  or_unauthorized : Option App → Reply App
  unfolding plain
  or_unauthorized none = refused (plain unauthorized missing_key)
  or_unauthorized (some app) = ok app

  pub identify : String → Action W App
  unfolding or_unauthorized
  identify api_key s =
      let (app, w) = app_for_key api_key s.world in (or_unauthorized app, record s { world = w })

  reject_invalid : App → Option Error → Action W (Unit {0})
  unfolding reject
  reject_invalid app none s = (ok tt, s)
  reject_invalid app (some e) s = (refused e, note (rejection app.name invalid_request) s)

  pub check_request : App → ChatRequest → Action W (Unit {0})
  unfolding reject_invalid
  check_request app req = reject_invalid app (validate req)

  -- The two switches on a limiter's answer: an error of the limiter admits, and is counted.
  judge : App → Text → Answer RateDecision → Action W (Unit {0})
  unfolding note plain reject
  judge app text down s = (ok tt, note (rate_limiter_fail_open app.name) s)
  judge app text (says d) s =
      let e = plain quota_exceeded text in
      if d.is_allowed
      then (ok tt, s)
      else reject app.name (record e { retry_after = d.retry_after; quota = d.quota }) s

  pub meter_rate : App → Action W (Unit {0})
  unfolding judge
  meter_rate app s =
      let (answer, w) = allow app.name s.world in
      judge app (over_rate_quota app.name) answer (record s { world = w })

  pub meter_tokens : App → Action W (Unit {0})
  unfolding judge
  meter_tokens app s =
      let (answer, w) = check app.name s.world in
      judge app (over_token_budget app.name) answer (record s { world = w })

  or_ceiling : App → Acquired → Action W ℕ
  unfolding reject plain
  or_ceiling app (granted handle) s = (ok handle, record s { trace = acquired handle ∷ s.trace })
  or_ceiling app (refused_at ceiling) s =
      let e = plain concurrency_ceiling (at_ceiling app.name ceiling) in
      reject app.name (record e { retry_after = slot_retry_after; max_in_flight = ceiling }) s

  pub acquire : App → Action W ℕ
  unfolding or_ceiling
  acquire app s =
      let (answer, w) = try_acquire app.name s.world in
      or_ceiling app answer (record s { world = w })

  -- `defer release()` round the rest of the method.
  pub deferring : {A : Type 0} → ℕ → Action W A → Action W A
  deferring handle m s =
      let (r, s') = m s in
      (r, record { world = release handle s'.world; trace = released handle ∷ s'.trace })

  -- s.settle: the error of the limiter is dropped.
  pub settle_usage : String → Usage → Run W → Run W
  settle_usage app usage s =
      let tokens = wrap64 (usage.prompt_tokens +ℤ usage.completion_tokens) in
      let (_, w) = settle app tokens s.world in
      record { world = w; trace = settled app tokens ∷ s.trace }

  -- s.tryModelProvider
  pub try_model_provider : ModelProvider → ChatRequest → Run W → Outcome × Run W
  try_model_provider mp req s =
      let (outcome, w) = complete cfg.per_try_deadline mp req s.world in
      (outcome, record { world = w; trace = attempted mp ∷ s.trace })

  pub result_of : ChatRequest → ModelProvider → Completion → ChatResult
  result_of req mp c = record {
    model = mp.model;
    provider = mp.provider;
    substituted = not (mp.model == req.model);
    message = c.message;
    finish_reason = c.finish_reason;
    usage = c.usage;
  }

  module _ (app : App) (req : ChatRequest) (constrained : Bool) where
    -- The loop's body after the call: `retry` goes on with the rows that are left.
    pub after_attempt : ModelProvider → ℕ → ℕ → Action W ChatResult → Outcome → Action W ChatResult
    unfolding note reject plain settle_usage result_of bills_despite_failure unobserved_tokens
    after_attempt mp attempts start retry (completed c) s = (
      ok (result_of req mp c),
      settle_usage app.name c.usage
          (note (completion app.name mp c.usage (now s.world - start) (ltb 1 attempts)) s),
    )
    after_attempt mp attempts start retry (failed e) s =
        if is_canceled s.world
        then (disconnected, note (client_disconnect app.name mp (unobserved_tokens e req)) s)
        else if is_done s.world
        then reject app.name (plain gateway_timeout deadline_exhausted) s
        else if bills_despite_failure e
        then retry (note (double_spend_risk app.name mp (unobserved_tokens e req)) s)
        else retry s

    -- After the loop.
    pub exhausted : ℕ → Action W ChatResult
    unfolding reject plain model_unavailable_error
    exhausted attempts =
        if ltb attempts max_attempts && constrained
        then reject app.name (model_unavailable_error req.model)
        else reject app.name (plain upstream_failed all_attempts_failed)

    -- The loop over the plan; `tried` holds the providers tried so far.
    pub attempt_each : List ModelProvider → ℕ → List String → Action W ChatResult
    unfolding try_model_provider
    attempt_each [] attempts tried s = exhausted attempts s
    attempt_each (mp ∷ rest) attempts tried s =
        let skip = attempt_each rest attempts tried s in
        let retry = attempt_each rest (attempts + 1) (mp.provider ∷ tried) in
        if eqb attempts max_attempts
        then exhausted attempts s
        else if any_of (λ p. p == mp.provider) tried
        then skip
        else let (outcome, s') = try_model_provider mp req s in
          after_attempt mp (attempts + 1) (now s.world) retry outcome s'

  -- The part of `Chat` that runs with a slot in hand.
  pub serve : App → ChatRequest → Action W ChatResult
  unfolding reject model_unavailable_error
  serve app req s =
      let plan =
        build_models_providers_fallback req.model app.policy cfg.model_providers
          cfg.failover_order in
      let total =
        if ltz (pos 0) app.total_deadline then app.total_deadline else cfg.total_deadline in
      if is_nil plan.eligible
      then reject app.name (model_unavailable_error req.model) s
      else attempt_each app req plan.constrained plan.eligible 0 []
          (record s { world = with_timeout total s.world })

  pub chat : String → ChatRequest → Action W ChatResult
  unfolding identify check_request meter_rate meter_tokens acquire deferring serve
  chat api_key req = do
    app ← identify api_key
    check_request app req
    meter_rate app
    meter_tokens app
    handle ← acquire app
    deferring handle (serve app req)
