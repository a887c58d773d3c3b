-- ===== src/Metrics/Recorder.antt =====
-- internal/metrics/gateway/usagerecorder.go: every fact that the core reports, counted for the app.
use llmgateway_go.Prelude.{
  ℕ, String, ◌==◌, eq_iff, eq_refl, List, [], ◌∷◌, ◌++◌, map, ◌≡◌, ◌↔◌, refl, sym, ap, ◌∙◌, Bool,
  true, ◌&&◌, eqb, arith, if◌then◌else◌,
}
use llmgateway_go.Prelude.Int.{ℤ, pos, ltz}
use llmgateway_go.Gateway.Faults.{
  ErrorCode, invalid_request, unauthorized, quota_exceeded, concurrency_ceiling, upstream_failed,
  model_unavailable, gateway_timeout,
}
use llmgateway_go.Gateway.Ports.{
  UsageEvent, completion, rejection, rate_limiter_fail_open, double_spend_risk, client_disconnect,
}
use llmgateway_go.Metrics.Keyed.{Comparable, new_keyed_counter, add, get}

instance abbrev pub text_comparable : Comparable String
text_comparable = record { same = λ a b. a == b; same_iff = eq_iff }

pub record AppCode : Type 0 where
  pub app : String
  pub code : ErrorCode

abbrev code_number : ErrorCode → ℕ
code_number invalid_request = 0
code_number unauthorized = 1
code_number quota_exceeded = 2
code_number concurrency_ceiling = 3
code_number upstream_failed = 4
code_number model_unavailable = 5
code_number gateway_timeout = 6

abbrev numbered : ℕ → ErrorCode
numbered n =
    if eqb n 0
    then invalid_request
    else if eqb n 1
    then unauthorized
    else if eqb n 2
    then quota_exceeded
    else if eqb n 3
    then concurrency_ceiling
    else if eqb n 4
    then upstream_failed
    else if eqb n 5
    then model_unavailable
    else gateway_timeout

numbered-code_number : (c : ErrorCode) → numbered (code_number c) ≡ c
numbered-code_number invalid_request = refl
numbered-code_number unauthorized = refl
numbered-code_number quota_exceeded = refl
numbered-code_number concurrency_ceiling = refl
numbered-code_number upstream_failed = refl
numbered-code_number model_unavailable = refl
numbered-code_number gateway_timeout = refl

code_number-injective : (a b : ErrorCode) → code_number a ≡ code_number b → a ≡ b
code_number-injective a b h = sym (numbered-code_number a) ∙ ap numbered h ∙ numbered-code_number b

abbrev pub same_app_code : AppCode → AppCode → Bool
same_app_code a b = (a.app == b.app) && eqb (code_number a.code) (code_number b.code)

abbrev pub app_code : String → ErrorCode → AppCode
app_code app code = record { app = app; code = code }

pub same_app_code_iff : (a b : AppCode) → (same_app_code a b ≡ true) ↔ (a ≡ b)
same_app_code_iff a b = (
  λ h.
      let p = (eq_iff a.app b.app).0 (ground arith) in
      let q = code_number-injective a.code b.code (ground arith) in
      ap (λ t. app_code t a.code) p ∙ ap (app_code b.app) q,
  λ e. rw e (rw (eq_refl b.app) (ground arith)),
)

instance abbrev pub app_code_comparable : Comparable AppCode
app_code_comparable = record { same = same_app_code; same_iff = same_app_code_iff }

pub record UsageRecorder : Type 0 where
  pub apps : List String
  pub completions : List (String × ℤ)
  pub failed_overs : List (String × ℤ)
  pub prompt_tokens : List (String × ℤ)
  pub completion_tokens : List (String × ℤ)
  pub rejections : List (AppCode × ℤ)
  pub rate_limiter_fail_opens : List (String × ℤ)
  pub double_spend_risks : List (String × ℤ)
  pub double_spend_tokens : List (String × ℤ)
  pub client_disconnects : List (String × ℤ)
  pub client_disconnect_tokens : List (String × ℤ)

abbrev pub error_codes : List ErrorCode
error_codes =
    invalid_request ∷ unauthorized ∷ quota_exceeded ∷ concurrency_ceiling ∷ upstream_failed
    ∷ model_unavailable ∷ gateway_timeout ∷ []

-- The cross product of the apps and the codes.
unfoldable pub app_code_keys : List String → List AppCode
app_code_keys [] = []
app_code_keys (app ∷ rest) = map (app_code app) error_codes ++ app_code_keys rest

-- The apps in sorted order.
unfoldable pub new_usage_recorder : List String → UsageRecorder
new_usage_recorder own = record {
  apps = own;
  completions = new_keyed_counter own;
  failed_overs = new_keyed_counter own;
  prompt_tokens = new_keyed_counter own;
  completion_tokens = new_keyed_counter own;
  rejections = new_keyed_counter (app_code_keys own);
  rate_limiter_fail_opens = new_keyed_counter own;
  double_spend_risks = new_keyed_counter own;
  double_spend_tokens = new_keyed_counter own;
  client_disconnects = new_keyed_counter own;
  client_disconnect_tokens = new_keyed_counter own;
}

-- A number that is not positive is ignored.
unfoldable pub add_estimate : List (String × ℤ) → String → ℤ → List (String × ℤ)
add_estimate counters app tokens = if ltz (pos 0) tokens then add app tokens counters else counters

-- The five methods, without the call of `next`.
unfoldable pub count_event : UsageEvent → UsageRecorder → UsageRecorder
count_event (completion app mp usage latency failed_over) r = record r {
  completions = add app (pos 1) r.completions;
  prompt_tokens = add app usage.prompt_tokens r.prompt_tokens;
  completion_tokens = add app usage.completion_tokens r.completion_tokens;
  failed_overs = if failed_over then add app (pos 1) r.failed_overs else r.failed_overs;
}
count_event (rejection app code) r = record r {
  rejections = add (app_code app code) (pos 1) r.rejections;
}
count_event (rate_limiter_fail_open app) r = record r {
  rate_limiter_fail_opens = add app (pos 1) r.rate_limiter_fail_opens;
}
count_event (double_spend_risk app mp tokens) r = record r {
  double_spend_risks = add app (pos 1) r.double_spend_risks;
  double_spend_tokens = add_estimate r.double_spend_tokens app tokens;
}
count_event (client_disconnect app mp tokens) r = record r {
  client_disconnects = add app (pos 1) r.client_disconnects;
  client_disconnect_tokens = add_estimate r.client_disconnect_tokens app tokens;
}

-- Each method counts, and then calls `next` with what it was given.
unfoldable pub record_usage :
    {W : Type 0} → (UsageEvent → W → W) → UsageEvent → UsageRecorder × W → UsageRecorder × W
record_usage next e (r, w) = (count_event e r, next e w)

unfoldable pub record_all :
    {W : Type 0} → (UsageEvent → W → W) → List UsageEvent → UsageRecorder × W → UsageRecorder × W
record_all next [] s = s
record_all next (e ∷ rest) s = record_all next rest (record_usage next e s)

-- CompletionsByApp and its like
abbrev pub completions_by_app : UsageRecorder → String → ℤ
completions_by_app r app = get app r.completions

abbrev pub double_spend_tokens_by_app : UsageRecorder → String → ℤ
double_spend_tokens_by_app r app = get app r.double_spend_tokens

abbrev pub client_disconnect_tokens_by_app : UsageRecorder → String → ℤ
client_disconnect_tokens_by_app r app = get app r.client_disconnect_tokens

abbrev pub rejections_by : UsageRecorder → String → ErrorCode → ℤ
rejections_by r app code = get (app_code app code) r.rejections
