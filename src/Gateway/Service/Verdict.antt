-- ===== src/Gateway/Service/Verdict.antt =====
-- Which failures a refusal stands for.
use llmgateway_go.Prelude.{
  ℕ, ◌+◌, ◌≤◌, ◌<◌, String, List, [], ◌∷◌, ◌≡◌, refl, ◌⊎◌, inl, inr, some, Bool, true, false,
  length, arith, Bool-cases, All-every, ltb, ◌&&◌,
}
use llmgateway_go.Gateway.Domain.{App, ChatRequest, ChatResult, ModelProvider}
use llmgateway_go.Gateway.Faults.{Error, upstream_failed, model_unavailable, bills_despite_failure}
use llmgateway_go.Gateway.Fallback.{Candidates, is_nil, build_models_providers_fallback}
use llmgateway_go.Gateway.Ports.{Ports, Config, Outcome, completed, failed}
use llmgateway_go.Gateway.Service.Loop.{serve_rule_at}
use llmgateway_go.Gateway.Service.Stages.{chat_rule_of, is_early}
use llmgateway_go.Gateway.Service.Attempts.{attempts_of}
use llmgateway_go.Gateway.Service.{
  acquired, Run, Reply, refused, Action, deferring, after_attempt, exhausted, reject, serve, chat,
  max_attempts, plain, model_unavailable_error,
}

-- What the code of a refusal says of the attempts: a plan that is `constrained` holds back rows
-- that the policy excludes; `empty` says that no row serves the model.
pub record Verdict (constrained empty : Bool) (e : Error) (attempts : ℕ) : Type 0 where
  pub early : is_early e.code ≡ true → attempts ≡ 0
  pub failed_upstream : e.code ≡ upstream_failed → (attempts ≡ max_attempts) ⊎ (constrained ≡ false)
  pub unavailable :
      e.code ≡ model_unavailable
      → (attempts < max_attempts) × ((constrained ≡ true) ⊎ (empty ≡ true))

abbrev pub Judged : Bool → Bool → Reply ChatResult → ℕ → Type 0
Judged constrained empty (refused e) attempts = Verdict constrained empty e attempts
Judged constrained empty _ attempts = Unit

module _ {W : Type 0} (ports : Ports W) (cfg : Config) (app : App) (req : ChatRequest) where
  abbrev pub candidates : Candidates
  candidates =
      build_models_providers_fallback req.model app.policy cfg.model_providers cfg.failover_order

  abbrev pub Apt : Reply ChatResult × Run W → Type 0
  Apt p =
      Judged candidates.constrained (is_nil candidates.eligible) p.0
        (length (attempts_of p.1.trace))

  abbrev Counts : ℕ → List String → Run W → Type 0
  Counts attempts _ s = (length (attempts_of s.trace) ≡ attempts) × (attempts ≤ max_attempts)

  after_attempt-Apt :
      (b : Bool) (mp : ModelProvider) (attempts start : ℕ) (retry : Action W ChatResult)
      (outcome : Outcome) (s : Run W)
      → Counts attempts [] s
      → ((s' : Run W) → Counts attempts [] s' → Apt (retry s'))
      → Apt (after_attempt ports cfg app req b mp attempts start retry outcome s)
  unfolding after_attempt attempts_of reject plain
  after_attempt-Apt b mp attempts start retry (completed c) s d again = tt
  after_attempt-Apt b mp attempts start retry (failed x) s d again =
      elim (Bool-cases (ports.is_canceled s.world)) [
        | inl c ↦ rw c tt
        | inr c ↦ elim (Bool-cases (ports.is_done s.world)) [
          | inl e ↦ rw (c, e) (ground arith)
          | inr e ↦ elim (Bool-cases (bills_despite_failure x)) [
            | inl f ↦ rw (c, e, f) (again _ d)
            | inr f ↦ rw (c, e, f) (again s d)
          ]
        ]
      ]

  exhausted-Apt :
      (attempts : ℕ) (s : Run W)
      → Counts attempts [] s
      → Apt (exhausted ports cfg app req candidates.constrained attempts s)
  unfolding exhausted attempts_of
  exhausted-Apt attempts s d =
      elim (Bool-cases (ltb attempts max_attempts && candidates.constrained)) [
        | inl e ↦ rw e (ground arith)
        | inr e ↦ rw e (ground arith)
      ]

  serve-Apt : (s : Run W) → attempts_of s.trace ≡ [] → Apt (serve ports cfg app req s)
  unfolding attempts_of reject model_unavailable_error
  serve-Apt s d =
      serve_rule_at ports cfg app req Apt Counts (λ _. Unit {0}) s (λ e. ground arith)
        (λ w. rw d (refl, omega arith)) (All-every _ _ λ _. tt)
        (λ attempts _ s' d'. exhausted-Apt attempts s' d')
        λ mp attempts _ s' _ d' more _ start retry outcome s2 t again.
          after_attempt-Apt candidates.constrained mp (attempts + 1) start retry outcome s2
            (rw t (ground arith)) again

  -- A request of a known app that is refused for what it asks, who asks, or a limit has reached no
  -- provider. `upstream_failed` means that both attempts were spent, or that the policy held no row
  -- back; `model_unavailable` that an attempt was left, and that the policy held rows back or no
  -- row serves the model.
  pub chat-Verdict :
      (key : String) (s : Run W)
      → attempts_of s.trace ≡ []
      → (ports.app_for_key key s.world).0 ≡ some app
      → Apt (chat ports cfg key req s)
  unfolding attempts_of deferring
  chat-Verdict key s none_yet known =
      chat_rule_of ports cfg (λ t. attempts_of t ≡ []) (λ _ _ j. j) Apt
        (λ e s' j early. rw j (ground arith)) key req s app known none_yet
        λ h s' j. serve-Apt (record s' { trace = acquired h ∷ s'.trace }) j
