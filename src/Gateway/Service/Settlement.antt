-- ===== src/Gateway/Service/Settlement.antt =====
-- What a request debits from the token budget.
use llmgateway_go.Prelude.{
  ℕ, ◌+◌, String, List, [], ◌∷◌, ◌≡◌, refl, ap, ◌∙◌, some, Bool, Bool-cases, inl, inr, All-every,
  ltb, ◌&&◌,
}
use llmgateway_go.Prelude.Int.{ℤ, ◌+ℤ◌, wrap64}
use llmgateway_go.Gateway.Domain.{App, ChatRequest, ChatResult, ModelProvider}
use llmgateway_go.Gateway.Faults.{bills_despite_failure}
use llmgateway_go.Gateway.Ports.{Ports, Config, Outcome, completed, failed}
use llmgateway_go.Gateway.Service.Loop.{serve_rule}
use llmgateway_go.Gateway.Service.Stages.{chat_rule_of}
use llmgateway_go.Gateway.Service.{
  Step, acquired, settled, Run, Reply, ok, refused, disconnected, Action, deferring, after_attempt,
  exhausted, reject, serve, chat, max_attempts,
}

-- The debits of a trace, newest first.
unfoldable pub debits_of : List Step → List (String × ℤ)
debits_of [] = []
debits_of (settled app tokens ∷ t) = (app, tokens) ∷ debits_of t
debits_of (_ ∷ t) = debits_of t

-- The debit that a reply calls for.
abbrev pub due : String → Reply ChatResult → List (String × ℤ)
due app (ok r) = (app, wrap64 (r.usage.prompt_tokens +ℤ r.usage.completion_tokens)) ∷ []
due app (refused e) = []
due app disconnected = []

module _ {W : Type 0} (ports : Ports W) (cfg : Config) (app : App) (req : ChatRequest) where
  abbrev Paid : Reply ChatResult × Run W → Type 0
  Paid p = debits_of p.1.trace ≡ due app.name p.0

  abbrev Unpaid : ℕ → List String → Run W → Type 0
  Unpaid _ _ s = debits_of s.trace ≡ []

  after_attempt-Paid :
      (b : Bool) (mp : ModelProvider) (attempts start : ℕ) (retry : Action W ChatResult)
      (outcome : Outcome) (s : Run W)
      → debits_of s.trace ≡ []
      → ((s' : Run W) → debits_of s'.trace ≡ [] → Paid (retry s'))
      → Paid (after_attempt ports cfg app req b mp attempts start retry outcome s)
  unfolding after_attempt debits_of reject
  after_attempt-Paid b mp attempts start retry (completed c) s d again = rw d refl
  after_attempt-Paid b mp attempts start retry (failed x) s d again =
      elim (Bool-cases (ports.is_canceled s.world)) [
        | inl c ↦ rw c d
        | inr c ↦ elim (Bool-cases (ports.is_done s.world)) [
          | inl e ↦ rw (c, e) d
          | inr e ↦ elim (Bool-cases (bills_despite_failure x)) [
            | inl f ↦ rw (c, e, f) (again _ d)
            | inr f ↦ rw (c, e, f) (again s d)
          ]
        ]
      ]

  exhausted-Paid :
      (b : Bool) (attempts : ℕ) (s : Run W)
      → debits_of s.trace ≡ []
      → Paid (exhausted ports cfg app req b attempts s)
  unfolding exhausted debits_of
  exhausted-Paid b attempts s d = elim (Bool-cases (ltb attempts max_attempts && b)) [
    | inl e ↦ rw e d
    | inr e ↦ rw e d
  ]

  serve-Paid : (s : Run W) → debits_of s.trace ≡ [] → Paid (serve ports cfg app req s)
  unfolding debits_of reject
  serve-Paid s d =
      serve_rule ports cfg app req Paid Unpaid (λ _. Unit {0}) s d (λ w. d) (All-every _ _ λ _. tt)
        (λ b attempts _ s' d'. exhausted-Paid b attempts s' d')
        λ b mp attempts _ s' _ d' _ _ start retry outcome s2 t again.
          after_attempt-Paid b mp (attempts + 1) start retry outcome s2 (ap debits_of t ∙ d') again

  -- The app of a served request is debited once, for its prompt and completion tokens as a 64-bit
  -- sum; a request that is refused or abandoned debits nothing.
  pub chat-Paid :
      (key : String) (s : Run W)
      → debits_of s.trace ≡ []
      → (ports.app_for_key key s.world).0 ≡ some app
      → debits_of (chat ports cfg key req s).1.trace ≡ due app.name (chat ports cfg key req s).0
  unfolding debits_of deferring
  chat-Paid key s none_yet known =
      chat_rule_of ports cfg (λ t. debits_of t ≡ []) (λ _ _ j. j) Paid (λ e s' j _. j) key req s app
        known none_yet λ h s' j. serve-Paid (record s' { trace = acquired h ∷ s'.trace }) j
