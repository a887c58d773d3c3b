-- ===== src/Metrics/Reported.antt =====
-- What the recorder of the metrics reports, after a list of events.
use llmgateway_go.Prelude.{
  ℕ, ◌<◌, ◌^◌, String, ◌==◌, eq_iff, eq_refl, List, [], ◌∷◌, ◌++◌, map, ◌≡◌, refl, ◌∙◌, ap, Option,
  none, some, Bool, true, false, any, arith, Bool-cases, inl, inr, if◌then◌else◌,
}
use llmgateway_go.Prelude.Int.{ℤ, pos}
use llmgateway_go.Gateway.Faults.{
  ErrorCode, invalid_request, unauthorized, quota_exceeded, concurrency_ceiling, upstream_failed,
  model_unavailable, gateway_timeout,
}
use llmgateway_go.Gateway.Ports.{UsageEvent}
use llmgateway_go.Metrics.Keyed.{
  Comparable, get, has, has-add, new_keyed_counter, has-fill_counters, get-fill_counters,
}
use llmgateway_go.Metrics.Recorder.{
  UsageRecorder, app_code, same_app_code, app_code_comparable, text_comparable, new_usage_recorder,
  record_all, count_event, app_code_keys, error_codes, completions_by_app,
  double_spend_tokens_by_app, client_disconnect_tokens_by_app, rejections_by,
}
use llmgateway_go.Metrics.Sums.{
  Sum, sum_from, put_sum, summed, failed_overs_sum, prompt_sum, completion_sum, rejections_sum,
  fail_opens_sum, risks_sum, disconnects_sum, count_event-failed_overs, count_event-prompt_tokens,
  count_event-completion_tokens, count_event-rate_limiter_fail_opens,
  count_event-double_spend_risks, count_event-client_disconnects, count_event-rejections,
}
use llmgateway_go.Metrics.Tally.{
  Credit, completions_credit, rejections_credit, double_spend_credit, disconnect_credit, amount,
  apply, apply_all, get-apply_all, record_all-Credited, Credited, forward,
}

module _ {K : Type 0} ⦃c : Comparable K⦄ where
  has-apply : (o : Option (K × ℕ)) (key : K) (m : List (K × ℤ)) → has key (apply o m) ≡ has key m
  has-apply none key m = refl
  has-apply (some (k, n)) key m = has-add k key (pos n) m

  has-apply_all :
      (credit : Credit K) (events : List UsageEvent) (key : K) (m : List (K × ℤ))
      → has key (apply_all credit events m) ≡ has key m
  has-apply_all credit [] key m = refl
  has-apply_all credit (e ∷ rest) key m =
      has-apply_all credit rest key (apply (credit e) m) ∙ has-apply (credit e) key m

  get-none : (key : K) (m : List (K × ℤ)) → has key m ≡ false → get key m ≡ pos 0
  unfolding get
  get-none key [] h = refl
  get-none key ((k, v) ∷ rest) h = ground (arith, get-none key rest)

  -- A counter over a set of keys, credited with events.
  counted :
      (keys : List K) (credit : Credit K) (events : List UsageEvent) (key : K)
      → any (λ k. c.same k key) keys ≡ true
      → amount credit key events < 2 ^ 63
      → get key (apply_all credit events (new_keyed_counter keys)) ≡ pos (amount credit key events)
  unfolding get
  counted keys credit events key h b =
      get-apply_all credit events key (new_keyed_counter keys) 0
        (rw (has-fill_counters keys key []) (rw h)) (get-fill_counters keys key [] refl)
        (omega arith)
      ∙ ap pos (omega arith)

  dropped :
      (keys : List K) (credit : Credit K) (events : List UsageEvent) (key : K)
      → any (λ k. c.same k key) keys ≡ false
      → get key (apply_all credit events (new_keyed_counter keys)) ≡ pos 0
  dropped keys credit events key h = get-none key _ (
      has-apply_all credit events key (new_keyed_counter keys)
      ∙ has-fill_counters keys key []
      ∙ rw h)

any-append :
    {A : Type 0} (p : A → Bool) (xs ys : List A)
    → any p (xs ++ ys) ≡ (if any p xs then true else any p ys)
any-append p [] ys = refl
any-append p (x ∷ xs) ys = ground (arith, any-append p xs ys)

-- Every code of an app has a key.
any_code :
    (app : String) (code : ErrorCode)
    → any (λ k. same_app_code k (app_code app code)) (map (app_code app) error_codes) ≡ true
any_code app invalid_request = rw (eq_refl app) refl
any_code app unauthorized = rw (eq_refl app) refl
any_code app quota_exceeded = rw (eq_refl app) refl
any_code app concurrency_ceiling = rw (eq_refl app) refl
any_code app upstream_failed = rw (eq_refl app) refl
any_code app model_unavailable = rw (eq_refl app) refl
any_code app gateway_timeout = rw (eq_refl app) refl

app_code_keys-all :
    (apps : List String) (app : String) (code : ErrorCode)
    → any (λ name. name == app) apps ≡ true
    → any (λ k. same_app_code k (app_code app code)) (app_code_keys apps) ≡ true
unfolding app_code_keys
app_code_keys-all [] app code h = cc
app_code_keys-all (name ∷ rest) app code h =
    rw
      (any-append (λ k. same_app_code k (app_code app code)) (map (app_code name) error_codes)
        (app_code_keys rest))
      (elim (Bool-cases (name == app)) [
        | inl e ↦ rw ((eq_iff name app).0 e) (rw (any_code app code))
        | inr e ↦ rw (app_code_keys-all rest app code (rw e at h)) (ground arith)
      ])

-- Whether an app is configured.
abbrev pub is_named : List String → String → Bool
is_named apps app = any (λ name. name == app) apps

-- What the counters say that grow without a test, by the wrapped sums of 64 bits.
pub record Summed (r : UsageRecorder) (app : String) (events : List UsageEvent) : Type 0 where
  pub failed_overs : get app r.failed_overs ≡ sum_from failed_overs_sum app (pos 0) events
  pub prompt_tokens : get app r.prompt_tokens ≡ sum_from prompt_sum app (pos 0) events
  pub completion_tokens : get app r.completion_tokens ≡ sum_from completion_sum app (pos 0) events
  pub rate_limiter_fail_opens :
      get app r.rate_limiter_fail_opens ≡ sum_from fail_opens_sum app (pos 0) events
  pub double_spend_risks : get app r.double_spend_risks ≡ sum_from risks_sum app (pos 0) events
  pub client_disconnects :
      get app r.client_disconnects ≡ sum_from disconnects_sum app (pos 0) events
  pub rejections :
      (code : ErrorCode)
      → rejections_by r app code ≡ sum_from rejections_sum (app_code app code) (pos 0) events

module _ {W : Type 0} (next : UsageEvent → W → W) (apps : List String) (events : List UsageEvent)
    (w : W) where
  abbrev pub after : UsageRecorder × W
  after = record_all next events (new_usage_recorder apps, w)

  credited : Credited events (new_usage_recorder apps) after.0 × (after.1 ≡ forward next events w)
  credited = record_all-Credited next events (new_usage_recorder apps) w

  -- A counter of the app starts at zero and is the sum of what the events add to it.
  from_new :
      {K : Type 0} ⦃c : Comparable K⦄ (field : UsageRecorder → List (K × ℤ)) (sum : Sum K)
      (keys : List K) (key : K)
      → field (new_usage_recorder apps) ≡ new_keyed_counter keys
      → ((e : UsageEvent) (r : UsageRecorder) → field (count_event e r) ≡ put_sum (sum e) (field r))
      → any (λ k. c.same k key) keys ≡ true
      → get key (field after.0) ≡ sum_from sum key (pos 0) events
  unfolding get
  from_new field sum keys key made step h =
      let there : has key (new_keyed_counter keys) ≡ true =
        has-fill_counters keys key [] ∙ rw h refl in
      summed next field sum step events (new_usage_recorder apps) w key (ap (has key) made ∙ there)
      ∙ ap (λ t. sum_from sum key t events) (ap (get key) made ∙ get-fill_counters keys key [] refl)

  record_all-Summed : (app : String) → is_named apps app ≡ true → Summed after.0 app events
  unfolding new_usage_recorder
  record_all-Summed app h = record {
    failed_overs =
        from_new (λ r. r.failed_overs) failed_overs_sum apps app refl count_event-failed_overs h;
    prompt_tokens =
        from_new (λ r. r.prompt_tokens) prompt_sum apps app refl count_event-prompt_tokens h;
    completion_tokens =
        from_new (λ r. r.completion_tokens) completion_sum apps app refl
          count_event-completion_tokens h;
    rate_limiter_fail_opens =
        from_new (λ r. r.rate_limiter_fail_opens) fail_opens_sum apps app refl
          count_event-rate_limiter_fail_opens h;
    double_spend_risks =
        from_new (λ r. r.double_spend_risks) risks_sum apps app refl count_event-double_spend_risks
          h;
    client_disconnects =
        from_new (λ r. r.client_disconnects) disconnects_sum apps app refl
          count_event-client_disconnects h;
    rejections = λ code.
        from_new (λ r. r.rejections) rejections_sum (app_code_keys apps) (app_code app code) refl
          count_event-rejections (app_code_keys-all apps app code h);
  }

  -- After any list of events, each counter of a configured app is what the events credit to it: one for each
  -- completion, and the positive estimates of its double-spend risks and of its disconnects, each while the
  -- sum is below 2 ^ 63; and, as sums of 64 bits that wrap, one for each failover among its completions, the
  -- prompt and the completion tokens of these, one for each refusal with a code, for each rate limit that
  -- failed open, for each double-spend risk and for each disconnect. Every event was passed on unchanged and
  -- in order.
  pub record_all-counts :
      (app : String)
      → is_named apps app ≡ true
      → amount completions_credit app events < 2 ^ 63
      → amount double_spend_credit app events < 2 ^ 63
      → amount disconnect_credit app events < 2 ^ 63
      → (completions_by_app after.0 app ≡ pos (amount completions_credit app events))
        × (double_spend_tokens_by_app after.0 app ≡ pos (amount double_spend_credit app events))
        × (client_disconnect_tokens_by_app after.0 app ≡ pos (amount disconnect_credit app events))
        × (after.1 ≡ forward next events w)
        × Summed after.0 app events
  unfolding new_usage_recorder
  record_all-counts app h a b d =
      let (c, f) = credited in
      (
        rw c.completions (counted apps completions_credit events app h a),
        rw c.double_spend_tokens (counted apps double_spend_credit events app h b),
        rw c.client_disconnect_tokens (counted apps disconnect_credit events app h d),
        f,
        record_all-Summed app h,
      )

  -- An app that is not configured has no counter, whatever is reported of it.
  pub record_all-dropped :
      (app : String)
      → is_named apps app ≡ false
      → (completions_by_app after.0 app ≡ pos 0)
        × (double_spend_tokens_by_app after.0 app ≡ pos 0)
        × (client_disconnect_tokens_by_app after.0 app ≡ pos 0)
        × (has app after.0.completions ≡ false)
  unfolding new_usage_recorder
  record_all-dropped app h =
      let (c, f) = credited in
      (
        rw c.completions (dropped apps completions_credit events app h),
        rw c.double_spend_tokens (dropped apps double_spend_credit events app h),
        rw c.client_disconnect_tokens (dropped apps disconnect_credit events app h),
        rw c.completions
            (has-apply_all completions_credit events app _ ∙ has-fill_counters apps app [] ∙ rw h),
      )

  -- After any list of events, the count of a configured app's refusals with a code is the number of
  -- events that report one, while that is below 2 ^ 63: no code of the core is dropped.
  pub record_all-rejections :
      (app : String) (code : ErrorCode)
      → is_named apps app ≡ true
      → amount rejections_credit (app_code app code) events < 2 ^ 63
      → rejections_by after.0 app code ≡ pos (amount rejections_credit (app_code app code) events)
  unfolding new_usage_recorder
  record_all-rejections app code h b =
      let (c, f) = credited in
      rw c.rejections (
        counted (app_code_keys apps) rejections_credit events (app_code app code)
          (app_code_keys-all apps app code h) b)
