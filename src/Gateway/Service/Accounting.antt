-- ===== src/Gateway/Service/Accounting.antt =====
-- Every outcome of a request is recorded once.
use llmgateway_go.Prelude.{
  ℕ, ◌+◌, String, List, [], ◌∷◌, ◌≡◌, Bool, true, false, num, count, if◌then◌else◌, arith,
}
use llmgateway_go.Gateway.Domain.{App, ChatRequest, ModelProvider}
use llmgateway_go.Gateway.Faults.{ErrorCode, unauthorized}
use llmgateway_go.Gateway.Request.{validate}
use llmgateway_go.Gateway.Ports.{Ports, Config, completion, rejection, client_disconnect}
use llmgateway_go.Gateway.Service.{
  Step, recorded, Run, Reply, ok, refused, disconnected, Action, ◌>>=◌, continue, identify,
  check_request, meter_rate, meter_tokens, acquire, deferring, attempt_each, after_attempt,
  exhausted, serve, chat, reject,
}

abbrev pub rejected_with : (ErrorCode → Bool) → Step → Bool
rejected_with p (recorded (rejection _ code)) = p code
rejected_with p _ = false

abbrev pub is_served : Step → Bool
is_served (recorded (completion _ _ _ _ _)) = true
is_served _ = false

abbrev pub is_gone : Step → Bool
is_gone (recorded (client_disconnect _ _ _)) = true
is_gone _ = false

abbrev is_unauthorized : ErrorCode → Bool
is_unauthorized unauthorized = true
is_unauthorized _ = false

-- The rejections that a reply calls for: one with its code, but none for a caller that no app is
-- known for.
abbrev pub owed : {A : Type 0} → (ErrorCode → Bool) → Reply A → ℕ
owed p (refused e) = if is_unauthorized e.code then 0 else num (p e.code)
owed p _ = 0

abbrev pub weight : {A : Type 0} → ℕ → Reply A → ℕ
weight k (ok _) = k
weight k _ = 0

abbrev pub gone : {A : Type 0} → Reply A → ℕ
gone disconnected = 1
gone _ = 0

-- From trace `t` to trace `t'`, the reply `r` is accounted for; a value counts as `k` completions.
pub record Accounts (p : ErrorCode → Bool) {A : Type 0} (k : ℕ) (t : List Step) (r : Reply A)
    (t' : List Step) : Type 0 where
  pub rejections : count (rejected_with p) t' ≡ count (rejected_with p) t + owed p r
  pub completions : count is_served t' ≡ count is_served t + weight k r
  pub disconnects : count is_gone t' ≡ count is_gone t + gone r

module _ {W : Type 0} (ports : Ports W) (cfg : Config) (p : ErrorCode → Bool) where
  abbrev Good : {A : Type 0} → ℕ → Action W A → Run W → Type 0
  Good k m s = Accounts p k s.trace (m s).0 (m s).1.trace

  continue-Good :
      {A B : Type 0} (k : ℕ) (t : List Step) (r : Reply A) (s : Run W) (f : A → Action W B)
      → Accounts p 0 t r s.trace
      → ((a : A) → Good k (f a) s)
      → Accounts p k t (continue r f s).0 (continue r f s).1.trace
  continue-Good k t (ok a) s f h g = let g' = g a in ground arith
  continue-Good k t (refused e) s f h g = ground arith
  continue-Good k t disconnected s f h g = ground arith

  bind-Good :
      {A B : Type 0} (k : ℕ) (m : Action W A) (f : A → Action W B) (s : Run W)
      → Good 0 m s
      → ((a : A) (s' : Run W) → Good k (f a) s')
      → Good k (m >>= f) s
  bind-Good k m f s h g = continue-Good k s.trace (m s).0 (m s).1 f h λ a. g a (m s).1

  identify-Good : (key : String) (s : Run W) → Good 0 (identify ports cfg key) s
  unfolding identify
  identify-Good key s = ground arith

  check_request-Good :
      (app : App) (req : ChatRequest) (s : Run W) → Good 0 (check_request ports cfg app req) s
  unfolding check_request validate
  check_request-Good app req s = ground arith

  meter_rate-Good : (app : App) (s : Run W) → Good 0 (meter_rate ports cfg app) s
  unfolding meter_rate
  meter_rate-Good app s = ground arith

  meter_tokens-Good : (app : App) (s : Run W) → Good 0 (meter_tokens ports cfg app) s
  unfolding meter_tokens
  meter_tokens-Good app s = ground arith

  acquire-Good : (app : App) (s : Run W) → Good 0 (acquire ports cfg app) s
  unfolding acquire
  acquire-Good app s = ground arith

  deferring-Good :
      {A : Type 0} (k handle : ℕ) (m : Action W A) (s : Run W)
      → Good k m s
      → Good k (deferring ports cfg handle m) s
  unfolding deferring
  deferring-Good k handle m s h = ground arith

  attempt_each-Good :
      (app : App) (req : ChatRequest) (constrained : Bool) (plan : List ModelProvider)
      (attempts : ℕ) (tried : List String) (s : Run W)
      → Good 1 (attempt_each ports cfg app req constrained plan attempts tried) s
  unfolding attempt_each after_attempt exhausted
  attempt_each-Good app req constrained [] attempts tried s = ground arith
  attempt_each-Good app req constrained (mp ∷ rest) attempts tried s =
      grind (arith, attempt_each-Good app req constrained rest)

  serve-Good : (app : App) (req : ChatRequest) (s : Run W) → Good 1 (serve ports cfg app req) s
  unfolding serve reject
  serve-Good app req s = grind (arith, attempt_each-Good)

  -- Whatever the ports answer, and whatever test `p` the codes are counted by: a served request adds
  -- one completion, a caller that left one disconnect, and a refusal one rejection with its code;
  -- an unknown caller is not counted. Nothing else of these kinds is recorded.
  pub chat-Accounts :
      (key : String) (req : ChatRequest) (s : Run W)
      → Accounts p 1 s.trace (chat ports cfg key req s).0 (chat ports cfg key req s).1.trace
  unfolding chat
  chat-Accounts key req s = bind-Good 1 (identify ports cfg key) _ s (identify-Good key s) λ app s1.
      bind-Good 1 (check_request ports cfg app req) _ s1 (check_request-Good app req s1) λ _ s2.
        bind-Good 1 (meter_rate ports cfg app) _ s2 (meter_rate-Good app s2) λ _ s3.
          bind-Good 1 (meter_tokens ports cfg app) _ s3 (meter_tokens-Good app s3) λ _ s4.
            bind-Good 1 (acquire ports cfg app) _ s4 (acquire-Good app s4) λ handle s5.
              deferring-Good 1 handle (serve ports cfg app req) s5 (serve-Good app req s5)
