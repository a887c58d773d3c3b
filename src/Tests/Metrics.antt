-- ===== src/Tests/Metrics.antt =====
-- A recorder of two apps.
use llmgateway_go.Prelude.{
  ℕ, suc, ◌==◌, none, any, count, String, List, [], ◌∷◌, ◌≡◌, refl, true, false, arith,
}
use llmgateway_go.Prelude.Int.{pos, negsuc, ◌+ℤ◌, wrap64}
use llmgateway_go.Gateway.Domain.{ModelProvider, ChatRequest}
use llmgateway_go.Gateway.Faults.{quota_exceeded, throttled, other}
use llmgateway_go.Gateway.Ports.{
  Outcome, failed, UsageEvent, completion, rejection, double_spend_risk,
}
use llmgateway_go.Metrics.Keyed.{add, get, fill_counters}
use llmgateway_go.Metrics.Recorder.{
  new_usage_recorder, record_all, record_usage, count_event, add_estimate, completions_by_app,
  double_spend_tokens_by_app, client_disconnect_tokens_by_app, text_comparable, app_code_comparable,
}
use llmgateway_go.Metrics.Attempts.{
  CountedKind, of_fault, unclassified, provider_kind, provider_kind_comparable, provider_kind_keys,
  Metered, new_provider_client, metered_complete, plain_run, metered_run,
}
use llmgateway_go.Metrics.Attempted.{is_failure_of, metered_run-counts}
use llmgateway_go.Metrics.Tally.{
  completions_credit, double_spend_credit, disconnect_credit, amount, forward,
}
use llmgateway_go.Metrics.Reported.{after, Summed, record_all-counts}

abbrev row : ModelProvider
row = record { model = "m"; provider = "p"; endpoint = "u" }

abbrev apps : List String
apps = "agent" ∷ "rag" ∷ []

abbrev events : List UsageEvent
events =
    completion "rag" row
      (record { prompt_tokens = pos 3; completion_tokens = pos 4; total_tokens = pos 7 }) 9 false
    ∷ double_spend_risk "rag" row (pos 50)
    ∷ double_spend_risk "rag" row (negsuc 6)
    ∷ rejection "rag" quota_exceeded
    ∷ completion "nobody" row
        (record { prompt_tokens = pos 3; completion_tokens = pos 4; total_tokens = pos 7 }) 9 true
    ∷ []

-- The next recorder keeps the events, newest first.
abbrev log : UsageEvent → List UsageEvent → List UsageEvent
log e w = e ∷ w

tokens : double_spend_tokens_by_app (after log apps events []).0 "rag" ≡ pos 50
unfolding new_usage_recorder record_all record_usage count_event add_estimate add get fill_counters
    ◌+ℤ◌ wrap64
tokens = refl

record_all-counts_example :
    (completions_by_app (after log apps events []).0 "rag"
      ≡ pos (amount completions_credit "rag" events))
    × (double_spend_tokens_by_app (after log apps events []).0 "rag"
        ≡ pos (amount double_spend_credit "rag" events))
    × (client_disconnect_tokens_by_app (after log apps events []).0 "rag"
        ≡ pos (amount disconnect_credit "rag" events))
    × ((after log apps events []).1 ≡ forward log events [])
    × Summed (after log apps events []).0 "rag" events
record_all-counts_example =
    record_all-counts log apps events [] "rag" refl (ground arith) (ground arith) (ground arith)

abbrev request : ChatRequest
request = record {
  model = "m";
  messages = [];
  max_tokens = pos 5;
  temperature = none;
  top_p = none;
  stop = [];
  tools = [];
  tool_choice = none;
}

-- Every attempt fails with an error of no kind; the world counts them.
abbrev next : ModelProvider → ChatRequest → ℕ → Outcome × ℕ
next mp req w = (failed other, suc w)

abbrev calls : List (ModelProvider × ChatRequest)
calls = (row, request) ∷ (record row { provider = "q" }, request) ∷ (row, request) ∷ []

abbrev plain : List (String × Outcome) × ℕ
plain = plain_run next calls 0

abbrev metered : List (String × Outcome) × Metered ℕ
metered = metered_run next calls (new_provider_client ("p" ∷ []) 0)

two_failures :
    (get (provider_kind "p" unclassified) metered.1.failures ≡ pos 2)
    × (get (provider_kind "p" (of_fault throttled)) metered.1.failures ≡ pos 0)
    × (get "q" metered.1.attempts ≡ pos 0)
unfolding metered_run metered_complete new_provider_client provider_kind_keys fill_counters add get
    ◌+ℤ◌ wrap64
two_failures = (refl, refl, refl)

metered_run-counts_example :
    (metered.0 ≡ plain.0)
    × (metered.1.world ≡ plain.1)
    × ((p : String)
        → any (λ q. q == p) ("p" ∷ []) ≡ true
        → (get p metered.1.attempts ≡ pos (count (λ o. o.0 == p) plain.0))
          × ((kind : CountedKind)
              → get (provider_kind p kind) metered.1.failures
                ≡ pos (count (is_failure_of (provider_kind p kind)) plain.0)))
metered_run-counts_example = metered_run-counts next ("p" ∷ []) calls 0 (omega arith)
