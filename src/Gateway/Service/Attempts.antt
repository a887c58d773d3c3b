-- ===== src/Gateway/Service/Attempts.antt =====
-- What a request sends to providers, and what it answers with.
use llmgateway_go.Prelude.{
  ℕ, ◌+◌, ◌≤◌, String, ◌==◌, List, [], ◌∷◌, ◌≡◌, refl, ap, some, Bool, true, false, not,
  any as any_of, map, length, All, All-both, arith, eqb, ltb, ◌&&◌, Bool-cases, inl, inr,
}
use llmgateway_go.Prelude.Maps.{Distinct, not-any-eq}
use llmgateway_go.Gateway.Domain.{App, ChatRequest, ChatResult, ModelProvider}
use llmgateway_go.Gateway.Faults.{bills_despite_failure}
use llmgateway_go.Gateway.Fallback.Listed.{is_listed, eligible-listed}
use llmgateway_go.Gateway.Fallback.Plan.{usable, eligible-usable}
use llmgateway_go.Gateway.Ports.{Ports, Config, Outcome, completed, failed}
use llmgateway_go.Gateway.Service.Loop.{serve_rule}
use llmgateway_go.Gateway.Service.Stages.{chat_rule_of}
use llmgateway_go.Gateway.Service.{
  Step, acquired, attempted, Run, Reply, ok, refused, disconnected, Action, deferring,
  after_attempt, exhausted, reject, serve, chat, max_attempts,
}

-- The attempts of a trace, newest first.
unfoldable pub attempts_of : List Step → List ModelProvider
attempts_of [] = []
attempts_of (attempted mp ∷ t) = mp ∷ attempts_of t
attempts_of (_ ∷ t) = attempts_of t

abbrev pub providers_of : List ModelProvider → List String
providers_of = map λ mp. mp.provider

-- The plan of a request, in the terms of the caller's policy.
abbrev pub may_use : Config → App → ChatRequest → ModelProvider → Bool
may_use cfg app req = usable req.model app.policy cfg.model_providers

abbrev Answered : ChatRequest → ChatResult → List ModelProvider → Type 0
Answered req r [] = ⊥
Answered req r (mp ∷ _) =
    (r.model ≡ mp.model)
    × (r.provider ≡ mp.provider)
    × (r.substituted ≡ not (mp.model == req.model))

-- A row of the table, all its fields taken, that the request may use.
abbrev pub Permitted : Config → App → ChatRequest → ModelProvider → Type 0
Permitted cfg app req mp =
    (may_use cfg app req mp ≡ true) × (is_listed cfg.model_providers mp ≡ true)

-- A value names the newest attempt, and says whether its model is the one that was asked for.
abbrev pub Disclosed : ChatRequest → Reply ChatResult → List ModelProvider → Type 0
Disclosed req (ok r) mps = Answered req r mps
Disclosed req (refused e) mps = Unit
Disclosed req disconnected mps = Unit

pub record Bounded (cfg : Config) (app : App) (req : ChatRequest) (r : Reply ChatResult)
    (mps : List ModelProvider) : Type 0 where
  pub few : length mps ≤ max_attempts
  pub distinct : Distinct (providers_of mps)
  pub permitted : All (Permitted cfg app req) mps
  pub disclosed : Disclosed req r mps

module _ (cfg : Config) (app : App) (req : ChatRequest) where
  -- The invariant of the loop, over the attempts made so far.
  record Looping (attempts : ℕ) (tried : List String) (mps : List ModelProvider) : Type 0 where
    counted : length mps ≡ attempts
    few : attempts ≤ max_attempts
    tried_ones : providers_of mps ≡ tried
    distinct : Distinct (providers_of mps)
    permitted : All (Permitted cfg app req) mps

  Looping-attempted :
      (mp : ModelProvider) (attempts : ℕ) (tried : List String) (mps : List ModelProvider)
      → Permitted cfg app req mp
      → Looping attempts tried mps
      → eqb attempts max_attempts ≡ false
      → any_of (λ p. p == mp.provider) tried ≡ false
      → Looping (attempts + 1) (mp.provider ∷ tried) (mp ∷ mps)
  Looping-attempted mp attempts tried mps q i more new = record {
    counted = let c = i.counted in omega arith;
    few = let c = i.few in ground arith;
    tried_ones = ap (◌∷◌ mp.provider) i.tried_ones;
    distinct = (rw i.tried_ones (not-any-eq mp.provider tried new), i.distinct);
    permitted = (q, i.permitted);
  }

  Looping-Bounded :
      (attempts : ℕ) (tried : List String) (mps : List ModelProvider) (r : Reply ChatResult)
      → Looping attempts tried mps
      → Disclosed req r mps
      → Bounded cfg app req r mps
  Looping-Bounded attempts tried mps r i d = record {
    few = let c = i.counted in let f = i.few in omega arith;
    distinct = i.distinct;
    permitted = i.permitted;
    disclosed = d;
  }

module _ {W : Type 0} (ports : Ports W) (cfg : Config) (app : App) (req : ChatRequest) where
  abbrev Fine : Reply ChatResult × Run W → Type 0
  Fine p = Bounded cfg app req p.0 (attempts_of p.1.trace)

  abbrev Loops : ℕ → List String → Run W → Type 0
  Loops attempts tried s = Looping cfg app req attempts tried (attempts_of s.trace)

  after_attempt-Fine :
      (b : Bool) (mp : ModelProvider) (attempts : ℕ) (tried : List String) (start : ℕ)
      (retry : Action W ChatResult) (outcome : Outcome) (s : Run W)
      → ((mps : List ModelProvider) × (attempts_of s.trace ≡ mp ∷ mps))
      → Loops attempts tried s
      → ((s' : Run W) → Loops attempts tried s' → Fine (retry s'))
      → Fine (after_attempt ports cfg app req b mp attempts start retry outcome s)
  unfolding after_attempt attempts_of reject
  after_attempt-Fine b mp attempts tried start retry (completed c) s (mps, e) i again =
      Looping-Bounded cfg app req attempts tried _ _ i (rw e (refl, refl, refl))
  after_attempt-Fine b mp attempts tried start retry (failed x) s e i again =
      elim (Bool-cases (ports.is_canceled s.world)) [
        | inl c ↦ rw c (Looping-Bounded cfg app req attempts tried _ _ i tt)
        | inr c ↦ elim (Bool-cases (ports.is_done s.world)) [
          | inl d ↦ rw (c, d) (Looping-Bounded cfg app req attempts tried _ _ i tt)
          | inr d ↦ elim (Bool-cases (bills_despite_failure x)) [
            | inl f ↦ rw (c, d, f) (again _ i)
            | inr f ↦ rw (c, d, f) (again s i)
          ]
        ]
      ]

  exhausted-Fine :
      (b : Bool) (attempts : ℕ) (tried : List String) (s : Run W)
      → Loops attempts tried s
      → Fine (exhausted ports cfg app req b attempts s)
  unfolding exhausted attempts_of
  exhausted-Fine b attempts tried s i = elim (Bool-cases (ltb attempts max_attempts && b)) [
    | inl e ↦ rw e (Looping-Bounded cfg app req attempts tried _ _ i tt)
    | inr e ↦ rw e (Looping-Bounded cfg app req attempts tried _ _ i tt)
  ]

  serve-Fine : (s : Run W) → attempts_of s.trace ≡ [] → Fine (serve ports cfg app req s)
  unfolding attempts_of reject
  serve-Fine s e =
      serve_rule ports cfg app req Fine Loops (Permitted cfg app req) s
        (Looping-Bounded cfg app req 0 [] _ _ (fresh s e) tt) (λ w. fresh s e)
        (All-both _ _ _
          (eligible-usable req.model app.policy cfg.model_providers cfg.failover_order)
          (eligible-listed req.model app.policy cfg.model_providers cfg.failover_order))
        (λ b attempts tried s' i. exhausted-Fine b attempts tried s' i)
        λ b mp attempts tried s' q i more new start retry outcome s2 t again.
          after_attempt-Fine b mp (attempts + 1) (mp.provider ∷ tried) start retry outcome s2
            (attempts_of s'.trace, ap attempts_of t)
            (rw t (Looping-attempted cfg app req mp attempts tried _ q i more new)) again
    where
      fresh : (s : Run W) → attempts_of s.trace ≡ [] → Loops 0 [] s
      fresh s e = rw e (record {
        counted = refl;
        few = omega arith;
        tried_ones = refl;
        distinct = tt;
        permitted = tt;
      })

  -- A request of a known app makes at most two attempts, at different providers, each at a row of
  -- the table, its endpoint included, that the app's policy permits; and an answer names the row of the newest attempt, and
  -- is marked substituted exactly when that row's model is not the one that was asked for.
  pub chat-Bounded :
      (key : String) (s : Run W)
      → attempts_of s.trace ≡ []
      → (ports.app_for_key key s.world).0 ≡ some app
      → Bounded cfg app req
          (chat ports cfg key req s).0
          (attempts_of (chat ports cfg key req s).1.trace)
  unfolding attempts_of deferring
  chat-Bounded key s none_yet known =
      chat_rule_of ports cfg (λ t. attempts_of t ≡ []) (λ _ _ j. j) Fine
        (λ e s' j _.
          rw j (record { few = omega arith; distinct = tt; permitted = tt; disclosed = tt }))
        key req s app known none_yet
        λ h s' j. serve-Fine (record s' { trace = acquired h ∷ s'.trace }) j
