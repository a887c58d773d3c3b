-- ===== src/Tests/Providers.antt =====
-- A router of one adapter that is refused.
use llmgateway_go.Prelude.{
  String, List, [], ◌∷◌, ◌≡◌, refl, none, some, false, ◌||◌, eqb, if◌then◌else◌,
}
use llmgateway_go.Prelude.Int.{pos}
use llmgateway_go.Prelude.Maps.{lookup}
use llmgateway_go.Gateway.Domain.{ModelProvider, ChatRequest}
use llmgateway_go.Gateway.Faults.{fault, bills_despite_failure}
use llmgateway_go.Gateway.Ports.{Outcome, failed}
use llmgateway_go.Providers.{Router, complete, status_fault, complete-refusal}

abbrev row : ModelProvider
row = record { model = "gpt"; provider = "openai"; endpoint = "u" }

abbrev request : ChatRequest
request = record {
  model = "gpt";
  messages = [];
  max_tokens = pos 5;
  temperature = none;
  top_p = none;
  stop = [];
  tools = [];
  tool_choice = none;
}

-- The world is the list of providers that the callback heard of.
abbrev refuse : ModelProvider → ChatRequest → List String → Outcome × List String
refuse mp req w = (failed (fault (status_fault 401)), w)

abbrev hear : String → List String → List String
hear p w = p ∷ w

abbrev router : Router (List String)
router = record { adapters = ("openai", refuse) ∷ []; on_rejected = some hear }

heard : (complete router row request []).1 ≡ "openai" ∷ []
unfolding complete lookup status_fault
heard = refl

complete-refusal_example :
    ((complete router row request []).0 ≡ failed (fault (status_fault 401)))
    × ((complete router row request []).1
        ≡ (if eqb 401 401 || eqb 401 403 then hear "openai" [] else []))
    × (bills_despite_failure (fault (status_fault 401)) ≡ false)
unfolding lookup
complete-refusal_example = complete-refusal router row request [] [] 401 refuse hear refl refl refl
