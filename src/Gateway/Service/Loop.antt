-- ===== src/Gateway/Service/Loop.antt =====
-- Rules for proofs about the attempt loop and the parts of `Chat` round it.
use llmgateway_go.Prelude.{
  ℕ, ◌+◌, String, ◌==◌, List, [], ◌∷◌, ◌≡◌, refl, ◌⊎◌, inl, inr, Bool, true, false, eqb,
  any as any_of, Bool-cases, All,
}
use llmgateway_go.Prelude.Int.{ℤ}
use llmgateway_go.Gateway.Domain.{App, ChatRequest, ChatResult, ModelProvider}
use llmgateway_go.Gateway.Fallback.{Candidates, is_nil, build_models_providers_fallback}
use llmgateway_go.Gateway.Ports.{Ports, Config, Acquired, granted, refused_at, Outcome}
use llmgateway_go.Gateway.Service.{
  attempted, Run, Reply, Action, max_attempts, after_attempt, exhausted, attempt_each, reject,
  model_unavailable_error, serve,
}

pub Acquired-cases : (a : Acquired) → ((h : ℕ) × (a ≡ granted h)) ⊎ ((c : ℤ) × (a ≡ refused_at c))
Acquired-cases (granted h) = inl (h, refl)
Acquired-cases (refused_at c) = inr (c, refl)

module _ {W : Type 0} (ports : Ports W) (cfg : Config) (app : App) (req : ChatRequest)
    (P : Reply ChatResult × Run W → Type 0) (I : ℕ → List String → Run W → Type 0)
    (Q : ModelProvider → Type 0) where
  -- What a turn of the loop that makes an attempt has to show: `P` of what it returns, where going
  -- on from the invariant gives `P`.
  abbrev pub Turn : Bool → Type 0
  Turn constrained =
      (mp : ModelProvider) (attempts : ℕ) (tried : List String) (s : Run W)
      → Q mp
      → I attempts tried s
      → eqb attempts max_attempts ≡ false
      → any_of (λ p. p == mp.provider) tried ≡ false
      → (start : ℕ) (retry : Action W ChatResult) (outcome : Outcome) (s' : Run W)
      → s'.trace ≡ attempted mp ∷ s.trace
      → ((s'' : Run W) → I (attempts + 1) (mp.provider ∷ tried) s'' → P (retry s''))
      → P (after_attempt ports cfg app req constrained mp (attempts + 1) start retry outcome s')

  attempt_each_rule :
      (constrained : Bool)
      → ((attempts : ℕ) (tried : List String) (s : Run W)
          → I attempts tried s
          → P (exhausted ports cfg app req constrained attempts s))
      → Turn constrained
      → (plan : List ModelProvider) (attempts : ℕ) (tried : List String) (s : Run W) → All Q plan
      → I attempts tried s
      → P (attempt_each ports cfg app req constrained plan attempts tried s)
  unfolding attempt_each
  attempt_each_rule b stop turn [] attempts tried s q h = stop attempts tried s h
  attempt_each_rule b stop turn (mp ∷ rest) attempts tried s q h =
      elim (Bool-cases (eqb attempts max_attempts)) [
        | inl e ↦ rw e (stop attempts tried s h)
        | inr e ↦ elim (Bool-cases (any_of (λ p. p == mp.provider) tried)) [
          | inl f ↦ rw (e, f) (attempt_each_rule b stop turn rest attempts tried s q.1 h)
          | inr f ↦
              rw (e, f)
                (turn mp attempts tried s q.0 h e f _ _ _ _ refl
                  λ s'' h''. attempt_each_rule b stop turn rest (attempts + 1) _ s'' q.1 h'')
        ]
      ]

  abbrev plan : Candidates
  plan = build_models_providers_fallback req.model app.policy cfg.model_providers cfg.failover_order

  -- The rule where the conclusion depends on whether the plan is constrained.
  pub serve_rule_at :
      (s : Run W)
      → (is_nil plan.eligible ≡ true
          → P (reject ports cfg app.name (model_unavailable_error req.model) s))
      → ((w : W) → I 0 [] (record s { world = w }))
      → All Q plan.eligible
      → ((attempts : ℕ) (tried : List String) (s' : Run W)
          → I attempts tried s'
          → P (exhausted ports cfg app req plan.constrained attempts s'))
      → Turn plan.constrained
      → P (serve ports cfg app req s)
  unfolding serve
  serve_rule_at s empty start q stop turn = elim (Bool-cases (is_nil plan.eligible)) [
    | inl e ↦ rw (e, serve) (empty e)
    | inr e ↦
        rw (e, serve)
          (attempt_each_rule plan.constrained stop turn plan.eligible 0 [] _ q (start _))
  ]

  pub serve_rule :
      (s : Run W)
      → P (reject ports cfg app.name (model_unavailable_error req.model) s)
      → ((w : W) → I 0 [] (record s { world = w }))
      → All Q plan.eligible
      → ((constrained : Bool) (attempts : ℕ) (tried : List String) (s' : Run W)
          → I attempts tried s'
          → P (exhausted ports cfg app req constrained attempts s'))
      → ((constrained : Bool) → Turn constrained)
      → P (serve ports cfg app req s)
  serve_rule s empty start q stop turn =
      serve_rule_at s (λ _. empty) start q (stop plan.constrained) (turn plan.constrained)
