-- ===== src/Tests/Adapters.antt =====
-- One request to each provider, over a client that answers 200 with a body or refuses.
use llmgateway_go.Prelude.{
  ℕ, ◌+◌, ◌<◌, ◌==◌, ◌≡◌, ◌↔◌, refl, [], ◌∷◌, map, none, some, true, not, length as count_of,
}
use llmgateway_go.Prelude.Int.{pos}
use llmgateway_go.Prelude.Results.{ok}
use llmgateway_go.Prelude.Maps.{Distinct}
use llmgateway_go.Gateway.Domain.{
  ChatRequest, ModelProvider, Message, ToolCall, Completion, system, assistant, tool, tool_calls,
}
use llmgateway_go.Gateway.Faults.{AttemptError, bills_despite_failure, unobserved_tokens}
use llmgateway_go.Gateway.Ports.{failed}
use llmgateway_go.Adapters.Exchange.{Http, HttpRequest, Response, replied, Codec}
use llmgateway_go.Adapters.OpenAi.{OpenaiChatResponse, openai_request_message, openai_to_domain}
use llmgateway_go.Adapters.Anthropic.{
  AnthropicChatResponse, anthropic_request, anthropic_request_message, anthropic_to_domain,
  anthropic_usage,
}
use llmgateway_go.Adapters.Ollama.{
  OllamaChatRequest, OllamaChatResponse, ollama_request, ollama_to_domain,
}
use llmgateway_go.Adapters.Accounts.{Adapter, ollama, complete_with, unencodable_billed}
use llmgateway_go.Adapters.Turns.{Says, ollama_request-Says}
use llmgateway_go.Adapters.Calls.{
  openai_repeats, turn_of, calls_return, made_call, sent_call, ollama_to_domain-calls,
}

abbrev row : ModelProvider
row = record { model = "llama"; provider = "ollama"; endpoint = "http://o/" }

abbrev weather : ToolCall
weather = record { id = "c1"; name = "weather"; arguments = "{}" }

abbrev says : Message
says = record { role = system; content = "be brief"; tool_calls = []; tool_call_id = "" }

abbrev calls : Message
calls = record { role = assistant; content = "so"; tool_calls = weather ∷ []; tool_call_id = "" }

abbrev answers : Message
answers = record { role = tool; content = "sun"; tool_calls = []; tool_call_id = "c1" }

abbrev request : ChatRequest
request = record {
  model = "llama";
  messages = says ∷ calls ∷ answers ∷ [];
  max_tokens = pos 50;
  temperature = none;
  top_p = none;
  stop = [];
  tools = [];
  tool_choice = none;
}

abbrev reply : OllamaChatResponse
reply = record {
  message = record {
    role = "assistant";
    content = "";
    tool_calls =
        (record { function = record { name = "weather"; arguments = "{}" } })
        ∷ (record { function = record { name = "news"; arguments = "{}" } })
        ∷ [];
  };
  done = true;
  done_reason = "stop";
  prompt_eval_count = pos 3;
  eval_count = pos 4;
}

abbrev codec : Codec OllamaChatRequest OllamaChatResponse
codec = record { marshal = λ r. some r.model; unmarshal = λ s. some reply }

-- The world counts the requests.
abbrev answer_200 : HttpRequest → ℕ → Response × ℕ
answer_200 r n = (replied 200 (λ limit. ok "body"), n + 1)

abbrev http : Http ℕ
http = record { is_url = λ u. not (u == ""); send = answer_200 }

abbrev adapter : Adapter ℕ
adapter = ollama codec (λ n. "")

abbrev no_json : Codec OllamaChatRequest OllamaChatResponse
no_json = record { marshal = λ r. none; unmarshal = λ s. none }

unencodable_billed_example :
    (f : AttemptError) × (complete_with http (ollama no_json (λ n. "")) row request 0
      ≡ (failed f, 0))
    × (bills_despite_failure f ≡ true)
    × (unobserved_tokens f request ≡ pos 50)
unencodable_billed_example = unencodable_billed http (ollama no_json (λ n. "")) row request 0 refl

abbrev no_choices : OpenaiChatResponse
no_choices = record {
  choices = [];
  usage = record { prompt_tokens = pos 1; completion_tokens = pos 2; total_tokens = pos 3 };
}

abbrev used_tool : AnthropicChatResponse
used_tool = record {
  content = (anthropic_request_message calls).content;
  stop_reason = "tool_use";
  input_tokens = pos 1;
  output_tokens = pos 2;
}

anthropic_request_system : (anthropic_request "claude" request).system ≡ "be brief"
unfolding anthropic_request
anthropic_request_system = refl

ollama_request-Says_example : Says [] request.messages (ollama_request "llama" request).messages
ollama_request-Says_example = ollama_request-Says "llama" request

calls_return_example :
    (openai_to_domain (openai_repeats (openai_request_message calls) no_choices.usage)
      ≡ ok (turn_of calls no_choices.usage))
    × (anthropic_to_domain used_tool ≡ ok (turn_of calls (anthropic_usage used_tool)))
calls_return_example = calls_return calls no_choices.usage used_tool refl refl refl

ollama_to_domain-calls_example :
    (c : Completion) × (ollama_to_domain reply ≡ ok c)
    × (map made_call c.message.tool_calls ≡ map sent_call reply.message.tool_calls)
    × Distinct (map (λ t. t.id) c.message.tool_calls)
    × ((c.finish_reason ≡ tool_calls) ↔ (0 < count_of reply.message.tool_calls))
ollama_to_domain-calls_example = ollama_to_domain-calls reply refl
