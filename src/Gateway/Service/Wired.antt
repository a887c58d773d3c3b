-- ===== src/Gateway/Service/Wired.antt =====
-- `Chat` over the slot limiter of internal/slots: a request leaves the limiter's counters as they were.
use llmgateway_go.Prelude.{
  ℕ, ◌+◌, String, ◌==◌, List, [], ◌∷◌, ◌≡◌, refl, sym, ap, subst, ◌∙◌, ◌⊎◌, Option, none, some,
  Bool, eqb, ltb, inl, inr, ◌&&◌, any as any_of, arith, Bool-cases,
}
use llmgateway_go.Prelude.Int.{ℤ}
use llmgateway_go.Gateway.Domain.{App, ChatRequest, ChatResult, ModelProvider, RateDecision}
use llmgateway_go.Gateway.Faults.{Error, Text, bills_despite_failure}
use llmgateway_go.Gateway.Fallback.{is_nil, build_models_providers_fallback}
use llmgateway_go.Gateway.Ports.{
  Ports, Config, Answer, says, down, Acquired, granted, refused_at, Outcome, completed, failed,
  UsageEvent,
}
use llmgateway_go.Gateway.Service.{
  acquired, Run, Reply, ok, refused, disconnected, Action, ◌>>=◌, continue, note, reject,
  reject_invalid, identify, check_request, judge, meter_rate, meter_tokens, or_ceiling, acquire,
  deferring, settle_usage, try_model_provider, after_attempt, exhausted, attempt_each, serve, chat,
  max_attempts,
}
use llmgateway_go.Slots.{Limiter, held, try_acquire, release}
use llmgateway_go.Slots as Slots
use llmgateway_go.Slots.Release.{release-try_acquire}

-- The answer of the slot limiter, as the port's.
abbrev pub answer_of : Slots.Acquired → Acquired
answer_of (Slots.granted h) = granted h
answer_of (Slots.refused_at c) = refused_at c

-- The slot port is the limiter, which lies in the world at `limiter`; no other port touches it.
pub record OverSlots {W : Type 0} (ports : Ports W) (limiter : W → Limiter) : Type 0 where
  pub takes :
      (app : String) (w : W)
      → ((ports.try_acquire app w).0 ≡ answer_of (try_acquire (limiter w) app).0)
        × (limiter (ports.try_acquire app w).1 ≡ (try_acquire (limiter w) app).1)
  pub gives : (h : ℕ) (w : W) → limiter (ports.release h w) ≡ release (limiter w) h
  pub knows : (key : String) (w : W) → limiter (ports.app_for_key key w).1 ≡ limiter w
  pub allows : (app : String) (w : W) → limiter (ports.allow app w).1 ≡ limiter w
  pub checks : (app : String) (w : W) → limiter (ports.check app w).1 ≡ limiter w
  pub settles : (app : String) (n : ℤ) (w : W) → limiter (ports.settle app n w).1 ≡ limiter w
  pub completes :
      (t : ℤ) (mp : ModelProvider) (req : ChatRequest) (w : W)
      → limiter (ports.complete t mp req w).1 ≡ limiter w
  pub records : (e : UsageEvent) (w : W) → limiter (ports.record_usage e w) ≡ limiter w
  pub times : (t : ℤ) (w : W) → limiter (ports.with_timeout t w) ≡ limiter w

module _ {W : Type 0} (ports : Ports W) (cfg : Config) (limiter : W → Limiter)
    (o : OverSlots ports limiter) where
  -- The limiter of a run.
  abbrev at : Run W → Limiter
  at s = limiter s.world

  identify-at : (key : String) (s : Run W) → at (identify ports cfg key s).1 ≡ at s
  unfolding identify
  identify-at key s = o.knows key s.world

  reject_invalid-at :
      (app : App) (e : Option Error) (s : Run W) → at (reject_invalid ports cfg app e s).1 ≡ at s
  unfolding reject_invalid reject note
  reject_invalid-at app none s = refl
  reject_invalid-at app (some e) s = o.records _ s.world

  check_request-at :
      (app : App) (req : ChatRequest) (s : Run W) → at (check_request ports cfg app req s).1 ≡ at s
  unfolding check_request
  check_request-at app req s = reject_invalid-at app _ s

  judge-at :
      (app : App) (text : Text) (a : Answer RateDecision) (s : Run W)
      → at (judge ports cfg app text a s).1 ≡ at s
  unfolding judge reject note
  judge-at app text down s = o.records _ s.world
  judge-at app text (says d) s = elim (Bool-cases d.is_allowed) [
    | inl e ↦ rw e refl
    | inr e ↦ rw e (o.records _ s.world)
  ]

  meter_rate-at : (app : App) (s : Run W) → at (meter_rate ports cfg app s).1 ≡ at s
  unfolding meter_rate
  meter_rate-at app s = judge-at app _ _ _ ∙ o.allows app.name s.world

  meter_tokens-at : (app : App) (s : Run W) → at (meter_tokens ports cfg app s).1 ≡ at s
  unfolding meter_tokens
  meter_tokens-at app s = judge-at app _ _ _ ∙ o.checks app.name s.world

  exhausted-at :
      (app : App) (req : ChatRequest) (b : Bool) (n : ℕ) (s : Run W)
      → at (exhausted ports cfg app req b n s).1 ≡ at s
  unfolding exhausted reject note
  exhausted-at app req b n s = elim (Bool-cases (ltb n max_attempts && b)) [
    | inl e ↦ rw e (o.records _ s.world)
    | inr e ↦ rw e (o.records _ s.world)
  ]

  after_attempt-at :
      (app : App) (req : ChatRequest) (b : Bool) (mp : ModelProvider) (attempts start : ℕ)
      (retry : Action W ChatResult) (outcome : Outcome) (s : Run W)
      → ((s' : Run W) → at (retry s').1 ≡ at s')
      → at (after_attempt ports cfg app req b mp attempts start retry outcome s).1 ≡ at s
  unfolding after_attempt settle_usage reject note
  after_attempt-at app req b mp attempts start retry (completed c) s again =
      o.settles app.name _ _ ∙ o.records _ s.world
  after_attempt-at app req b mp attempts start retry (failed e) s again =
      elim (Bool-cases (ports.is_canceled s.world)) [
        | inl c ↦ rw c (o.records _ s.world)
        | inr c ↦ elim (Bool-cases (ports.is_done s.world)) [
          | inl d ↦ rw (c, d) (o.records _ s.world)
          | inr d ↦ elim (Bool-cases (bills_despite_failure e)) [
            | inl f ↦ rw (c, d, f) (again _ ∙ o.records _ s.world)
            | inr f ↦ rw (c, d, f) (again s)
          ]
        ]
      ]

  attempt_each-at :
      (app : App) (req : ChatRequest) (b : Bool) (plan : List ModelProvider) (attempts : ℕ)
      (tried : List String) (s : Run W)
      → at (attempt_each ports cfg app req b plan attempts tried s).1 ≡ at s
  unfolding attempt_each try_model_provider
  attempt_each-at app req b [] attempts tried s = exhausted-at app req b attempts s
  attempt_each-at app req b (mp ∷ rest) attempts tried s =
      elim (Bool-cases (eqb attempts max_attempts)) [
        | inl e ↦ rw e (exhausted-at app req b attempts s)
        | inr e ↦ elim (Bool-cases (any_of (λ p. p == mp.provider) tried)) [
          | inl f ↦ rw (e, f) (attempt_each-at app req b rest attempts tried s)
          | inr f ↦
              rw (e, f)
                (after_attempt-at app req b mp (attempts + 1) _ _ _ _
                    (λ s'. attempt_each-at app req b rest (attempts + 1) (mp.provider ∷ tried) s')
                  ∙ o.completes cfg.per_try_deadline mp req s.world)
        ]
      ]

  serve-at : (app : App) (req : ChatRequest) (s : Run W) → at (serve ports cfg app req s).1 ≡ at s
  unfolding serve reject note
  serve-at app req s =
      let plan =
        build_models_providers_fallback req.model app.policy cfg.model_providers
          cfg.failover_order in
      elim (Bool-cases (is_nil plan.eligible)) [
        | inl e ↦ rw (e, serve) (o.records _ s.world)
        | inr e ↦
            rw (e, serve)
              (attempt_each-at app req plan.constrained plan.eligible 0 [] _ ∙ o.times _ s.world)
      ]

refused_same :
    (l : Limiter) (app : String) {c : ℤ}
    → (try_acquire l app).0 ≡ Slots.refused_at c
    → (try_acquire l app).1 ≡ l
unfolding try_acquire
refused_same l app e = ground arith

claim_cases :
    (a : Slots.Acquired) → ((h : ℕ) × (a ≡ Slots.granted h)) ⊎ ((c : ℤ) × (a ≡ Slots.refused_at c))
claim_cases (Slots.granted h) = inl (h, refl)
claim_cases (Slots.refused_at c) = inr (c, refl)

-- The same counts: of each app, and of all.
abbrev pub Even : Limiter → Limiter → Type 0
Even l l' = (other : String) → (held l' other ≡ held l other) × (l'.total ≡ l.total)

same_counts : {l l' : Limiter} → l' ≡ l → Even l l'
same_counts p other = rw p (refl, refl)

module _ {W : Type 0} (ports : Ports W) (cfg : Config) (limiter : W → Limiter)
    (o : OverSlots ports limiter) where
  continue-Even :
      {A B : Type 0} (l : Limiter) (r : Reply A) (f : A → Action W B) (s : Run W)
      → limiter s.world ≡ l
      → ((a : A) → Even l (limiter (f a s).1.world))
      → Even l (limiter (continue r f s).1.world)
  continue-Even l (ok a) f s e g = g a
  continue-Even l (refused x) f s e g = λ other. rw e (refl, refl)
  continue-Even l disconnected f s e g = λ other. rw e (refl, refl)

  bind-Even :
      {A B : Type 0} (l : Limiter) (m : Action W A) (f : A → Action W B) (s : Run W)
      → limiter (m s).1.world ≡ l
      → ((a : A) (s' : Run W) → limiter s'.world ≡ l → Even l (limiter (f a s').1.world))
      → Even l (limiter ((m >>= f) s).1.world)
  bind-Even l m f s e g = continue-Even l (m s).0 f (m s).1 e (λ a. g a (m s).1 e)

  slot-Even :
      (app : App) (req : ChatRequest) (l : Limiter) (s : Run W)
      → limiter s.world ≡ l
      → Even l (
          limiter
            ((acquire ports cfg app >>= λ h. deferring ports cfg h (serve ports cfg app req))
              s).1.world)
  unfolding acquire or_ceiling reject note deferring
  slot-Even app req l s e other =
      let (answer, world) = o.takes app.name s.world in
      elim (claim_cases (try_acquire (limiter s.world) app.name).0) [
        | inr (c, q) ↦
            let a : (ports.try_acquire app.name s.world).0 ≡ refused_at c =
              answer ∙ ap answer_of q in
            rw a (
              same_counts (o.records _ _ ∙ world ∙ refused_same (limiter s.world) app.name q ∙ e)
                other)
        | inl (h, q) ↦
            let a : (ports.try_acquire app.name s.world).0 ≡ granted h = answer ∙ ap answer_of q in
            let s1 : Run W = record {
              world = (ports.try_acquire app.name s.world).1;
              trace = acquired h ∷ s.trace;
            } in
            let p =
              o.gives h (serve ports cfg app req s1).1.world
              ∙ ap (λ x. release x h) (serve-at ports cfg limiter o app req s1 ∙ world) in
            rw a (
              subst (λ x. (held x other ≡ held l other) × (x.total ≡ l.total)) (sym p)
                (rw (← e) (release-try_acquire (limiter s.world) app.name other q)))
      ]

  -- Over the slot limiter, a request leaves the counts of every app and of all together as they were,
  -- however it ends and whatever the other ports answer: no slot leaks.
  pub chat-Even :
      (key : String) (req : ChatRequest) (s : Run W)
      → Even (limiter s.world) (limiter (chat ports cfg key req s).1.world)
  unfolding chat
  chat-Even key req s =
      let l = limiter s.world in
      bind-Even l (identify ports cfg key) _ s (identify-at ports cfg limiter o key s) λ app s1 e1.
        bind-Even l (check_request ports cfg app req) _ s1
          (check_request-at ports cfg limiter o app req s1 ∙ e1)
          λ _ s2 e2.
            bind-Even l (meter_rate ports cfg app) _ s2
              (meter_rate-at ports cfg limiter o app s2 ∙ e2)
              λ _ s3 e3.
                bind-Even l (meter_tokens ports cfg app) _ s3
                  (meter_tokens-at ports cfg limiter o app s3 ∙ e3)
                  λ _ s4 e4. slot-Even app req l s4 e4
