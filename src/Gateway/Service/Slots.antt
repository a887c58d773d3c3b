-- ===== src/Gateway/Service/Slots.antt =====
-- Service.Chat: how it takes and gives back its slot.
use llmgateway_go.Prelude.{
  ℕ, ◌+◌, ◌≤◌, String, List, [], ◌∷◌, ◌≡◌, Option, none, some, Bool, true, false, eqb, not, inl,
  inr, ◌&&◌, arith, All-every,
}
use llmgateway_go.Gateway.Domain.{App, ChatRequest}
use llmgateway_go.Gateway.Ports.{Ports, Config}
use llmgateway_go.Gateway.Service.Loop.{Acquired-cases, serve_rule}
use llmgateway_go.Gateway.Service.{
  Step, acquired, released, attempted, settled, recorded, Run, Reply, ok, refused, disconnected,
  Action, ◌>>=◌, continue, identify, check_request, meter_rate, meter_tokens, acquire, deferring,
  after_attempt, exhausted, serve, chat, reject,
}

-- The slot in hand after a trace.
unfoldable pub holding : List Step → Option ℕ
holding [] = none
holding (acquired h ∷ t) = some h
holding (released h ∷ t) = none
holding (attempted _ ∷ t) = holding t
holding (settled _ _ ∷ t) = holding t
holding (recorded _ ∷ t) = holding t

abbrev is_held : Option ℕ → Bool
is_held none = false
is_held (some _) = true

abbrev is_held_as : ℕ → Option ℕ → Bool
is_held_as h none = false
is_held_as h (some k) = eqb h k

-- The discipline of slots: no slot is taken while one is in hand, only the slot in hand is given
-- back, and attempts and debits happen with a slot in hand.
unfoldable pub is_disciplined : List Step → Bool
unfolding holding
is_disciplined [] = true
is_disciplined (acquired h ∷ t) = not (is_held (holding t)) && is_disciplined t
is_disciplined (released h ∷ t) = is_held_as h (holding t) && is_disciplined t
is_disciplined (attempted _ ∷ t) = is_held (holding t) && is_disciplined t
is_disciplined (settled _ _ ∷ t) = is_held (holding t) && is_disciplined t
is_disciplined (recorded _ ∷ t) = is_disciplined t

-- How many slots were taken.
unfoldable pub grants : List Step → ℕ
grants [] = 0
grants (acquired h ∷ t) = grants t + 1
grants (released h ∷ t) = grants t
grants (attempted _ ∷ t) = grants t
grants (settled _ _ ∷ t) = grants t
grants (recorded _ ∷ t) = grants t

-- So many slots were taken at most, with discipline, and this one is in hand.
pub record Holds (most : ℕ) (h : Option ℕ) (t : List Step) : Type 0 where
  pub disciplined : is_disciplined t ≡ true
  pub in_hand : holding t ≡ h
  pub taken : grants t ≤ most

-- What a part of `Chat` that takes no slot leaves in hand, where one more may be taken before it ends.
module _ {W : Type 0} (ports : Ports W) (cfg : Config) (most : ℕ) where
  Holds-later : {t : List Step} → Holds most none t → Holds (most + 1) none t
  Holds-later v = record {
    disciplined = v.disciplined;
    in_hand = v.in_hand;
    taken = omega (arith, v.taken);
  }

  continue-Holds :
      {A B : Type 0} (r : Reply A) (s : Run W) (f : A → Action W B)
      → Holds most none s.trace
      → ((a : A) → Holds (most + 1) none (f a s).1.trace)
      → Holds (most + 1) none (continue r f s).1.trace
  continue-Holds (ok a) s f h g = g a
  continue-Holds (refused e) s f h g = Holds-later h
  continue-Holds disconnected s f h g = Holds-later h

  bind-Holds :
      {A B : Type 0} (m : Action W A) (f : A → Action W B) (s : Run W)
      → Holds most none (m s).1.trace
      → ((a : A) (s' : Run W) → Holds most none s'.trace → Holds (most + 1) none (f a s').1.trace)
      → Holds (most + 1) none ((m >>= f) s).1.trace
  bind-Holds m f s h g = continue-Holds (m s).0 (m s).1 f h λ a. g a (m s).1 h

  identify-Holds :
      (key : String) (s : Run W)
      → Holds most none s.trace
      → Holds most none (identify ports cfg key s).1.trace
  unfolding identify
  identify-Holds key s h = h

  check_request-Holds :
      (app : App) (req : ChatRequest) (s : Run W)
      → Holds most none s.trace
      → Holds most none (check_request ports cfg app req s).1.trace
  unfolding check_request is_disciplined grants
  check_request-Holds app req s h = ground arith

  meter_rate-Holds :
      (app : App) (s : Run W)
      → Holds most none s.trace
      → Holds most none (meter_rate ports cfg app s).1.trace
  unfolding meter_rate is_disciplined grants
  meter_rate-Holds app s h = ground arith

  meter_tokens-Holds :
      (app : App) (s : Run W)
      → Holds most none s.trace
      → Holds most none (meter_tokens ports cfg app s).1.trace
  unfolding meter_tokens is_disciplined grants
  meter_tokens-Holds app s h = ground arith

  serve-Holds :
      (app : App) (req : ChatRequest) (h : ℕ) (s : Run W)
      → Holds (most + 1) (some h) s.trace
      → Holds (most + 1) (some h) (serve ports cfg app req s).1.trace
  unfolding after_attempt exhausted reject is_disciplined grants
  serve-Holds app req h s v =
      serve_rule ports cfg app req (λ r. Holds (most + 1) (some h) r.1.trace)
        (λ _ _ s'. Holds (most + 1) (some h) s'.trace) (λ _. Unit {0}) s (ground arith) (λ w. v)
        (All-every _ _ λ _. tt) (λ b attempts tried s' v'. ground arith)
        (λ b mp attempts tried s' _ v' few new start retry outcome s2 t again. grind arith)

  acquire_then-Holds :
      {B : Type 0} (app : App) (f : ℕ → Action W B) (s : Run W)
      → Holds most none s.trace
      → ((h : ℕ) (s' : Run W)
          → Holds (most + 1) (some h) s'.trace
          → Holds (most + 1) none (f h s').1.trace)
      → Holds (most + 1) none ((acquire ports cfg app >>= f) s).1.trace
  unfolding acquire is_disciplined grants
  acquire_then-Holds app f s v g = elim (Acquired-cases (ports.try_acquire app.name s.world).0) [
    | inl (h, e) ↦ rw (e, acquire) (g h _ (ground arith))
    | inr (c, e) ↦ rw (e, acquire) (ground arith)
  ]

  deferring-Holds :
      {A : Type 0} (h : ℕ) (m : Action W A) (s : Run W)
      → Holds (most + 1) (some h) (m s).1.trace
      → Holds (most + 1) none (deferring ports cfg h m s).1.trace
  unfolding deferring is_disciplined grants
  deferring-Holds h m s v = ground arith

  -- However a request ends, it follows the discipline, has taken at most one slot more than were taken
  -- before it, and has no slot in hand: a slot that was acquired is released once, with the handle that was
  -- granted, and nothing is sent to a provider or debited without one.
  pub chat-Holds :
      (key : String) (req : ChatRequest) (s : Run W)
      → Holds most none s.trace
      → Holds (most + 1) none (chat ports cfg key req s).1.trace
  unfolding chat
  chat-Holds key req s v =
      bind-Holds (identify ports cfg key) _ s (identify-Holds key s v) λ app s1 v1.
        bind-Holds (check_request ports cfg app req) _ s1 (check_request-Holds app req s1 v1)
          λ _ s2 v2.
            bind-Holds (meter_rate ports cfg app) _ s2 (meter_rate-Holds app s2 v2) λ _ s3 v3.
              bind-Holds (meter_tokens ports cfg app) _ s3 (meter_tokens-Holds app s3 v3) λ _ s4 v4.
                acquire_then-Holds app _ s4 v4 λ h s5 v5.
                  deferring-Holds h (serve ports cfg app req) s5 (serve-Holds app req h s5 v5)
