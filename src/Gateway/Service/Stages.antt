-- ===== src/Gateway/Service/Stages.antt =====
-- A rule for proofs about `Chat`: what holds of each early refusal and of each run with a slot in
-- hand holds of every request.
use mathlib.Core.Option.{some-injective}
use llmgateway_go.Prelude.{
  ℕ, String, List, ◌∷◌, ◌≡◌, refl, sym, ◌∙◌, subst, inl, inr, Bool, true, false, Bool-cases,
  Option-cases, some, none, arith,
}
use llmgateway_go.Gateway.Domain.{App, RateDecision, ChatRequest, ChatResult}
use llmgateway_go.Gateway.Faults.{
  Error, ErrorCode, Text, invalid_request, unauthorized, quota_exceeded, concurrency_ceiling,
}
use llmgateway_go.Gateway.Request.{validate}
use llmgateway_go.Gateway.Ports.{
  Ports, Config, Acquired, granted, refused_at, UsageEvent, Answer, says, down,
}
use llmgateway_go.Gateway.Service.{
  Step, Run, Reply, Action, serve, recorded, ok, refused, disconnected, identify, check_request,
  meter_rate, meter_tokens, acquire, deferring, chat, judge, or_ceiling, plain, note, acquired,
  ◌>>=◌, continue,
}

-- The codes of a refusal before a slot is in hand.
abbrev pub is_early : ErrorCode → Bool
is_early invalid_request = true
is_early unauthorized = true
is_early quota_exceeded = true
is_early concurrency_ceiling = true
is_early _ = false

abbrev Staged : {A : Type 0} → (List Step → Type 0) → Reply A → List Step → Type 0
Staged J (ok _) t = J t
Staged J (refused e) t = J t × (is_early e.code ≡ true)
Staged J disconnected t = ⊥

invalid_code : (req : ChatRequest) (e : Error) → validate req ≡ some e → e.code ≡ invalid_request
unfolding validate
invalid_code req e h = ground arith

module _ {W : Type 0} (ports : Ports W) (cfg : Config) (J : List Step → Type 0)
    (J-recorded : (e : UsageEvent) (t : List Step) → J t → J (recorded e ∷ t)) where
  identify-Staged :
      (key : String) (s : Run W)
      → J s.trace
      → Staged J (identify ports cfg key s).0 (identify ports cfg key s).1.trace
  unfolding identify plain
  identify-Staged key s j = elim (Option-cases (ports.app_for_key key s.world).0) [
    | inl e ↦ rw (e, identify) (j, refl)
    | inr (app, e) ↦ rw (e, identify) j
  ]

  check_request-Staged :
      (app : App) (req : ChatRequest) (s : Run W)
      → J s.trace
      → Staged J (check_request ports cfg app req s).0 (check_request ports cfg app req s).1.trace
  unfolding check_request note
  check_request-Staged app req s j = elim (Option-cases (validate req)) [
    | inl e ↦ rw (e, check_request) j
    | inr (x, e) ↦ rw (e, check_request) (J-recorded _ _ j, rw (invalid_code req x e))
  ]

  judge-Staged :
      (app : App) (text : Text) (answer : Answer RateDecision) (s : Run W)
      → J s.trace
      → Staged J (judge ports cfg app text answer s).0 (judge ports cfg app text answer s).1.trace
  unfolding judge
  judge-Staged app text down s j = J-recorded _ _ j
  judge-Staged app text (says d) s j = elim (Bool-cases d.is_allowed) [
    | inl e ↦ rw e j
    | inr e ↦ rw e (J-recorded _ _ j, refl)
  ]

  meter_rate-Staged :
      (app : App) (s : Run W)
      → J s.trace
      → Staged J (meter_rate ports cfg app s).0 (meter_rate ports cfg app s).1.trace
  unfolding meter_rate
  meter_rate-Staged app s j = judge-Staged app _ (ports.allow app.name s.world).0 _ j

  meter_tokens-Staged :
      (app : App) (s : Run W)
      → J s.trace
      → Staged J (meter_tokens ports cfg app s).0 (meter_tokens ports cfg app s).1.trace
  unfolding meter_tokens
  meter_tokens-Staged app s j = judge-Staged app _ (ports.check app.name s.world).0 _ j

  identified :
      (key : String) (s : Run W) {app : App}
      → (identify ports cfg key s).0 ≡ ok app
      → (ports.app_for_key key s.world).0 ≡ some app
  unfolding identify
  identified key s h = ground arith

  was_valid :
      (app : App) (req : ChatRequest) (s : Run W) {u : Unit {0}}
      → (check_request ports cfg app req s).0 ≡ ok u
      → validate req ≡ none
  unfolding check_request
  was_valid app req s h = ground arith

  module _ (P : Reply ChatResult × Run W → Type 0)
      (early : (e : Error) (s : Run W)
        → J s.trace
        → is_early e.code ≡ true
        → P (refused e, s)) where
    continue_rule :
        {A : Type 0} (r : Reply A) (s : Run W) (f : A → Action W ChatResult)
        → Staged J r s.trace
        → ((a : A) → r ≡ ok a → J s.trace → P (f a s))
        → P (continue r f s)
    continue_rule (ok a) s f j g = g a refl j
    continue_rule (refused e) s f j g = early e s j.0 j.1
    continue_rule disconnected s f j g = absurd j

    bind_rule :
        {A : Type 0} (m : Action W A) (f : A → Action W ChatResult) (s : Run W)
        → Staged J (m s).0 (m s).1.trace
        → ((a : A) (s' : Run W) → (m s).0 ≡ ok a → J s'.trace → P (f a s'))
        → P ((m >>= f) s)
    bind_rule m f s j g = continue_rule (m s).0 (m s).1 f j λ a. g a (m s).1

    or_ceiling_rule :
        (app : App) (answer : Acquired) (f : ℕ → Action W ChatResult) (s : Run W)
        → J s.trace
        → ((h : ℕ) → P (f h (record s { trace = acquired h ∷ s.trace })))
        → P (continue (or_ceiling ports cfg app answer s).0 f (or_ceiling ports cfg app answer s).1)
    unfolding or_ceiling
    or_ceiling_rule app (granted h) f s j g = g h
    or_ceiling_rule app (refused_at c) f s j g = early _ _ (J-recorded _ _ j) refl

    acquire_rule :
        (app : App) (f : ℕ → Action W ChatResult) (s : Run W)
        → J s.trace
        → ((h : ℕ) (w : W) → P (f h (record { world = w; trace = acquired h ∷ s.trace })))
        → P ((acquire ports cfg app >>= f) s)
    unfolding acquire
    acquire_rule app f s j g =
        or_ceiling_rule app (ports.try_acquire app.name s.world).0 f
          (record s { world = (ports.try_acquire app.name s.world).1 }) j λ h. g h _

    pub chat_rule :
        (key : String) (req : ChatRequest) (s : Run W)
        → J s.trace
        → ((app : App) (h : ℕ) (s' : Run W)
            → (ports.app_for_key key s.world).0 ≡ some app
            → validate req ≡ none
            → J s'.trace
            → P (
                deferring ports cfg h
                  (serve ports cfg app req)
                  (record s' { trace = acquired h ∷ s'.trace })))
        → P (chat ports cfg key req s)
    unfolding chat
    chat_rule key req s j body =
        bind_rule (identify ports cfg key) _ s (identify-Staged key s j) λ app s1 known j1.
          bind_rule (check_request ports cfg app req) _ s1 (check_request-Staged app req s1 j1)
            λ _ s2 checked j2.
              bind_rule (meter_rate ports cfg app) _ s2 (meter_rate-Staged app s2 j2) λ _ s3 _ j3.
                bind_rule (meter_tokens ports cfg app) _ s3 (meter_tokens-Staged app s3 j3)
                  λ _ s4 _ j4. acquire_rule app _ s4 j4 λ h w.
                    body app h (record s4 { world = w }) (identified key s known)
                      (was_valid app req s1 checked) j4

    -- The rule for a caller whose app is known.
    pub chat_rule_of :
        (key : String) (req : ChatRequest) (s : Run W) (app : App)
        → (ports.app_for_key key s.world).0 ≡ some app
        → J s.trace
        → ((h : ℕ) (s' : Run W)
            → J s'.trace
            → P (
                deferring ports cfg h
                  (serve ports cfg app req)
                  (record s' { trace = acquired h ∷ s'.trace })))
        → P (chat ports cfg key req s)
    chat_rule_of key req s app known j body = chat_rule key req s j λ app' h s' known' _ j'.
        subst
          (λ a. P (
            deferring ports cfg h (serve ports cfg a req)
              (record s' { trace = acquired h ∷ s'.trace })))
          (some-injective app app' (sym known ∙ known')) (body h s' j')
