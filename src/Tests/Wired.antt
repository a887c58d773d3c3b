-- ===== src/Tests/Wired.antt =====
-- The service over the slot limiter.
use llmgateway_go.Prelude.{[], ◌∷◌, refl, some, none, true, false}
use llmgateway_go.Prelude.Int.{pos}
use llmgateway_go.Gateway.Domain.{App, ChatRequest, any, user}
use llmgateway_go.Gateway.Faults.{fault, unreachable}
use llmgateway_go.Gateway.Ports.{Ports, Config, failed, says}
use llmgateway_go.Gateway.Service.{Run, chat}
use llmgateway_go.Gateway.Service.Wired.{OverSlots, answer_of, Even, chat-Even}
use llmgateway_go.Slots.{Limiter, new, try_acquire, release}

abbrev agent : App
agent = record {
  name = "agent";
  policy = record { kind = any; allowed = [] };
  total_deadline = pos 0;
}

-- Every provider is unreachable, so that the request is refused with a slot in hand.
abbrev ports : Ports Limiter
ports = record {
  app_for_key = λ key w. (some agent, w);
  allow = λ app w. (says (record { is_allowed = true; retry_after = pos 0; quota = none }), w);
  check = λ app w. (says (record { is_allowed = true; retry_after = pos 0; quota = none }), w);
  settle = λ app n w. (says tt, w);
  try_acquire = λ app w. let (a, w') = try_acquire w app in (answer_of a, w');
  release = λ h w. release w h;
  complete =
      λ t mp req w. (failed (fault (record { kind = unreachable; observed_usage = none })), w);
  record_usage = λ e w. w;
  with_timeout = λ t w. w;
  is_canceled = λ w. false;
  is_done = λ w. false;
  now = λ w. 0;
}

abbrev limiter_of : Limiter → Limiter
limiter_of w = w

ports-OverSlots : OverSlots ports limiter_of
ports-OverSlots = record {
  takes = λ app w. (refl, refl);
  gives = λ h w. refl;
  knows = λ key w. refl;
  allows = λ app w. refl;
  checks = λ app w. refl;
  settles = λ app n w. refl;
  completes = λ t mp req w. refl;
  records = λ e w. refl;
  times = λ t w. refl;
}

abbrev cfg : Config
cfg = record {
  model_providers = record { model = "large"; provider = "openai"; endpoint = "u" } ∷ [];
  failover_order = [];
  total_deadline = pos 90;
  per_try_deadline = pos 30;
}

abbrev question : ChatRequest
question = record {
  model = "large";
  messages = record { role = user; content = "hello"; tool_calls = []; tool_call_id = "" } ∷ [];
  max_tokens = pos 100;
  temperature = none;
  top_p = none;
  stop = [];
  tools = [];
  tool_choice = none;
}

abbrev start : Run Limiter
start = record { world = new (pos 2) (("agent", pos 1) ∷ []); trace = [] }

chat-Even_example : Even start.world (chat ports cfg "token" question start).1.world
chat-Even_example = chat-Even ports cfg limiter_of ports-OverSlots "token" question start
