-- ===== src/Tests/Chat.antt =====
-- Requests through the whole service, with ports that are small functions.
use llmgateway_go.Prelude.{
  arith, ◌==◌, ◌≡◌, refl, String, [], ◌∷◌, none, some, Bool, true, false, ℕ, suc, if◌then◌else◌,
  length,
}
use llmgateway_go.Prelude.Int.{pos}
use llmgateway_go.Gateway.Domain.{
  App, ChatRequest, ChatResult, Completion, ModelProvider, Usage, assistant, user, stop, allowlist,
}
use llmgateway_go.Gateway.Faults.{ErrorCode, fault, timeout, quota_exceeded}
use llmgateway_go.Gateway.Ports.{
  Ports, Config, Outcome, completed, failed, granted, says, down, Deps, Service, nop,
}
use llmgateway_go.Gateway.Service.{Run, Reply, chat}
use llmgateway_go.Gateway.Service.Accounting.{Accounts, chat-Accounts}
use llmgateway_go.Gateway.Service.Slots.{Holds, grants, holding, is_disciplined, chat-Holds}
use llmgateway_go.Gateway.Service.Attempts.{Bounded, attempts_of, chat-Bounded}
use llmgateway_go.Gateway.Service.Settlement.{debits_of, due, chat-Paid}
use llmgateway_go.Gateway.Service.Verdict.{Judged, candidates, chat-Verdict}
use llmgateway_go.Gateway.Fallback.{is_nil}

abbrev row : String → String → ModelProvider
row m p = record { model = m; provider = p; endpoint = "https://" }

abbrev cfg : Config
cfg = record {
  model_providers = row "large" "openai" ∷ row "large" "ollama" ∷ row "small" "openai" ∷ [];
  failover_order = "openai" ∷ "ollama" ∷ [];
  total_deadline = pos 90;
  per_try_deadline = pos 30;
}

abbrev agent : App
agent = record {
  name = "agent";
  policy = record { kind = allowlist; allowed = "small" ∷ [] };
  total_deadline = pos 0;
}

abbrev spent : Usage
spent = record { prompt_tokens = pos 7; completion_tokens = pos 5; total_tokens = pos 12 }

abbrev answer : Completion
answer = record {
  message = record { role = assistant; content = "hi"; tool_calls = []; tool_call_id = "" };
  finish_reason = stop;
  usage = spent;
}

abbrev question : ChatRequest
question = record {
  model = "large";
  messages = record { role = user; content = "hello"; tool_calls = []; tool_call_id = "" } ∷ [];
  max_tokens = pos 100;
  temperature = none;
  top_p = none;
  stop = [];
  tools = [];
  tool_choice = none;
}

-- The first provider times out, the others answer; the rate limiter is down.
outcome_at : String → Outcome
outcome_at p =
    if p == "openai"
    then failed (fault (record { kind = timeout; observed_usage = none }))
    else completed answer

abbrev ports : Ports ℕ
ports = record {
  app_for_key = λ key w. (if key == "token" then some agent else none, w);
  allow = λ app w. (down, w);
  check = λ app w. (says (record { is_allowed = true; retry_after = pos 0; quota = none }), w);
  settle = λ app n w. (says tt, w);
  try_acquire = λ app w. (granted w, suc w);
  release = λ h w. w;
  complete = λ t mp req w. (outcome_at mp.provider, w);
  record_usage = λ e w. w;
  with_timeout = λ t w. w;
  is_canceled = λ w. false;
  is_done = λ w. false;
  now = λ w. w;
}

abbrev start : Run ℕ
start = record { world = 0; trace = [] }

abbrev reply : Reply ChatResult
reply = (chat ports cfg "token" question start).0

abbrev after : Run ℕ
after = (chat ports cfg "token" question start).1

abbrev is_quota : ErrorCode → Bool
is_quota quota_exceeded = true
is_quota _ = false

chat-Accounts_example : Accounts is_quota 1 [] reply after.trace
chat-Accounts_example = chat-Accounts ports cfg is_quota "token" question start

chat-Holds_example : Holds 1 none after.trace
unfolding holding is_disciplined grants
chat-Holds_example =
    chat-Holds ports cfg 0 "token" question start
      (record { disciplined = refl; in_hand = refl; taken = omega arith })

chat-Bounded_example : Bounded cfg agent question reply (attempts_of after.trace)
unfolding attempts_of
chat-Bounded_example = chat-Bounded ports cfg agent question "token" start refl refl

chat-Paid_example : debits_of after.trace ≡ due "agent" reply
unfolding debits_of
chat-Paid_example = chat-Paid ports cfg agent question "token" start refl refl

chat-Verdict_example :
    Judged
      (candidates ports cfg agent question).constrained
      (is_nil (candidates ports cfg agent question).eligible)
      reply
      (length (attempts_of after.trace))
unfolding attempts_of
chat-Verdict_example = chat-Verdict ports cfg agent question "token" start refl refl

abbrev all_wired : Deps
all_wired = record {
  apps = true;
  rate_limiter = true;
  tokens = true;
  slots = true;
  provider = true;
  usage = false;
}

abbrev quiet : Service
quiet = record { cfg = cfg; usage = nop }
