-- ===== src/Metrics/Sums.antt =====
-- The counters that grow without a test, against the sums of what the events report. The sums are the wrapped
-- ones of 64 bits, so that they need no bound.
use llmgateway_go.Prelude.{
  String, List, [], ◌∷◌, ◌≡◌, refl, ◌∙◌, ap, Option, none, some, true, false, Bool-cases, inl, inr,
  if◌then◌else◌,
}
use llmgateway_go.Prelude.Int.{ℤ, pos, ◌+ℤ◌, wrap64}
use llmgateway_go.Gateway.Ports.{
  UsageEvent, completion, rejection, rate_limiter_fail_open, double_spend_risk, client_disconnect,
}
use llmgateway_go.Metrics.Keyed.{Comparable, add, get, has, has-add, get-add}
use llmgateway_go.Metrics.Recorder.{
  UsageRecorder, AppCode, app_code, app_code_comparable, text_comparable, count_event, record_usage,
  record_all,
}

-- What an event adds: to a key, an amount, or nothing.
abbrev pub Sum : Type 0 → Type 0
Sum K = UsageEvent → Option (K × ℤ)

abbrev pub failed_overs_sum : Sum String
failed_overs_sum (completion app mp usage latency true) = some (app, pos 1)
failed_overs_sum _ = none

abbrev pub prompt_sum : Sum String
prompt_sum (completion app mp usage latency failed_over) = some (app, usage.prompt_tokens)
prompt_sum _ = none

abbrev pub completion_sum : Sum String
completion_sum (completion app mp usage latency failed_over) = some (app, usage.completion_tokens)
completion_sum _ = none

abbrev pub rejections_sum : Sum AppCode
rejections_sum (rejection app code) = some (app_code app code, pos 1)
rejections_sum _ = none

abbrev pub fail_opens_sum : Sum String
fail_opens_sum (rate_limiter_fail_open app) = some (app, pos 1)
fail_opens_sum _ = none

abbrev pub risks_sum : Sum String
risks_sum (double_spend_risk app mp tokens) = some (app, pos 1)
risks_sum _ = none

abbrev pub disconnects_sum : Sum String
disconnects_sum (client_disconnect app mp tokens) = some (app, pos 1)
disconnects_sum _ = none

module _ {K : Type 0} ⦃c : Comparable K⦄ where
  abbrev pub plus : K → Option (K × ℤ) → ℤ → ℤ
  plus key none sum = sum
  plus key (some (k, n)) sum = if c.same k key then wrap64 (sum +ℤ n) else sum

  -- The sum of what a list of events adds to a key, from a first value.
  abbrev pub sum_from : Sum K → K → ℤ → List UsageEvent → ℤ
  sum_from sum key total [] = total
  sum_from sum key total (e ∷ rest) = sum_from sum key (plus key (sum e) total) rest

  abbrev pub put_sum : Option (K × ℤ) → List (K × ℤ) → List (K × ℤ)
  put_sum none m = m
  put_sum (some (k, n)) m = add k n m

  get-put_sum :
      (o : Option (K × ℤ)) (key : K) (m : List (K × ℤ))
      → has key m ≡ true
      → (has key (put_sum o m) ≡ true) × (get key (put_sum o m) ≡ plus key o (get key m))
  get-put_sum none key m h = (h, refl)
  get-put_sum (some (k, n)) key m h = (
    has-add k key n m ∙ h,
    elim (Bool-cases (c.same k key)) [
      | inl s ↦ rw (get-add k key n m, s, h) refl
      | inr s ↦ rw (get-add k key n m, s) refl
    ],
  )

  pub summed :
      {W : Type 0} (next : UsageEvent → W → W) (field : UsageRecorder → List (K × ℤ)) (sum : Sum K)
      → ((e : UsageEvent) (r : UsageRecorder) → field (count_event e r) ≡ put_sum (sum e) (field r))
      → (events : List UsageEvent) (r : UsageRecorder) (w : W) (key : K) → has key (field r) ≡ true
      → get key (field (record_all next events (r, w)).0)
        ≡ sum_from sum key (get key (field r)) events
  unfolding record_all record_usage
  summed next field sum step [] r w key h = refl
  summed next field sum step (e ∷ rest) r w key h =
      let (h', g) = get-put_sum (sum e) key (field r) h in
      summed next field sum step rest (count_event e r) (next e w) key
        (ap (has key) (step e r) ∙ h')
      ∙ ap (λ t. sum_from sum key t rest) (ap (get key) (step e r) ∙ g)

pub count_event-failed_overs :
    (e : UsageEvent) (r : UsageRecorder)
    → (count_event e r).failed_overs ≡ put_sum (failed_overs_sum e) r.failed_overs
unfolding count_event
count_event-failed_overs (completion app mp usage latency true) r = refl
count_event-failed_overs (completion app mp usage latency false) r = refl
count_event-failed_overs (rejection app code) r = refl
count_event-failed_overs (rate_limiter_fail_open app) r = refl
count_event-failed_overs (double_spend_risk app mp tokens) r = refl
count_event-failed_overs (client_disconnect app mp tokens) r = refl

pub count_event-prompt_tokens :
    (e : UsageEvent) (r : UsageRecorder)
    → (count_event e r).prompt_tokens ≡ put_sum (prompt_sum e) r.prompt_tokens
unfolding count_event
count_event-prompt_tokens (completion app mp usage latency failed_over) r = refl
count_event-prompt_tokens (rejection app code) r = refl
count_event-prompt_tokens (rate_limiter_fail_open app) r = refl
count_event-prompt_tokens (double_spend_risk app mp tokens) r = refl
count_event-prompt_tokens (client_disconnect app mp tokens) r = refl

pub count_event-completion_tokens :
    (e : UsageEvent) (r : UsageRecorder)
    → (count_event e r).completion_tokens ≡ put_sum (completion_sum e) r.completion_tokens
unfolding count_event
count_event-completion_tokens (completion app mp usage latency failed_over) r = refl
count_event-completion_tokens (rejection app code) r = refl
count_event-completion_tokens (rate_limiter_fail_open app) r = refl
count_event-completion_tokens (double_spend_risk app mp tokens) r = refl
count_event-completion_tokens (client_disconnect app mp tokens) r = refl

pub count_event-rejections :
    (e : UsageEvent) (r : UsageRecorder)
    → (count_event e r).rejections ≡ put_sum (rejections_sum e) r.rejections
unfolding count_event
count_event-rejections (completion app mp usage latency failed_over) r = refl
count_event-rejections (rejection app code) r = refl
count_event-rejections (rate_limiter_fail_open app) r = refl
count_event-rejections (double_spend_risk app mp tokens) r = refl
count_event-rejections (client_disconnect app mp tokens) r = refl

pub count_event-rate_limiter_fail_opens :
    (e : UsageEvent) (r : UsageRecorder)
    → (count_event e r).rate_limiter_fail_opens
      ≡ put_sum (fail_opens_sum e) r.rate_limiter_fail_opens
unfolding count_event
count_event-rate_limiter_fail_opens (completion app mp usage latency failed_over) r = refl
count_event-rate_limiter_fail_opens (rejection app code) r = refl
count_event-rate_limiter_fail_opens (rate_limiter_fail_open app) r = refl
count_event-rate_limiter_fail_opens (double_spend_risk app mp tokens) r = refl
count_event-rate_limiter_fail_opens (client_disconnect app mp tokens) r = refl

pub count_event-double_spend_risks :
    (e : UsageEvent) (r : UsageRecorder)
    → (count_event e r).double_spend_risks ≡ put_sum (risks_sum e) r.double_spend_risks
unfolding count_event
count_event-double_spend_risks (completion app mp usage latency failed_over) r = refl
count_event-double_spend_risks (rejection app code) r = refl
count_event-double_spend_risks (rate_limiter_fail_open app) r = refl
count_event-double_spend_risks (double_spend_risk app mp tokens) r = refl
count_event-double_spend_risks (client_disconnect app mp tokens) r = refl

pub count_event-client_disconnects :
    (e : UsageEvent) (r : UsageRecorder)
    → (count_event e r).client_disconnects ≡ put_sum (disconnects_sum e) r.client_disconnects
unfolding count_event
count_event-client_disconnects (completion app mp usage latency failed_over) r = refl
count_event-client_disconnects (rejection app code) r = refl
count_event-client_disconnects (rate_limiter_fail_open app) r = refl
count_event-client_disconnects (double_spend_risk app mp tokens) r = refl
count_event-client_disconnects (client_disconnect app mp tokens) r = refl
