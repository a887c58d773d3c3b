-- ===== src/Adapters/Ollama.antt =====
-- internal/ollama: the /api/chat dialect. A tool result is matched to its call by the name of the tool,
-- and the ids of the calls in an answer are made here.
use Prim.Native.String.{◌++◌ as ◌with◌}
use llmgateway_go.Prelude.{
  ℕ, ◌+◌, String, ◌==◌, List, [], ◌∷◌, map, Option, none as absent, some, Bool, true, false, not,
  if◌then◌else◌,
}
use llmgateway_go.Prelude.Int.{ℤ, ◌+ℤ◌, wrap64}
use llmgateway_go.Prelude.Results.{Result, ok, err}
use llmgateway_go.Prelude.Texts.{trim_suffix, number_text}
use llmgateway_go.Prelude.Maps.{lookup, insert, get_or}
use llmgateway_go.Gateway.Domain.{
  ChatRequest, Message, Role, assistant, tool, ToolCall, Tool, ToolChoice, ToolChoiceMode, none,
  FinishReason, stop, length, tool_calls, Usage, Completion, ModelProvider,
}
use llmgateway_go.Gateway.Faults.{ProviderFault}
use llmgateway_go.Gateway.Ports.{Outcome}
use llmgateway_go.Providers.{bad_response_fault}
use llmgateway_go.Adapters.Exchange.{Http, Codec, role_text, exchange}

pub record OllamaFunctionCall : Type 0 where
  pub name : String
  pub arguments : String

pub record OllamaToolCall : Type 0 where
  pub function : OllamaFunctionCall

pub record OllamaMessage : Type 0 where
  pub role : String
  pub content : String
  pub tool_name : String
  pub tool_calls : List OllamaToolCall

pub record OllamaToolFunction : Type 0 where
  pub name : String
  pub description : String
  pub parameters : String

pub record OllamaTool : Type 0 where
  pub type : String
  pub function : OllamaToolFunction

pub record OllamaOptions : Type 0 where
  pub temperature : Option String
  pub top_p : Option String
  pub stop : List String
  pub num_predict : ℤ

pub record OllamaChatRequest : Type 0 where
  pub model : String
  pub messages : List OllamaMessage
  pub stream : Bool
  pub tools : List OllamaTool
  pub options : OllamaOptions

abbrev pub ollama_call : ToolCall → OllamaToolCall
ollama_call tc = record { function = record { name = tc.name; arguments = tc.arguments } }

-- toolNames, after the calls of one message.
unfoldable pub learn : List ToolCall → List (String × String) → List (String × String)
unfolding insert
learn [] names = names
learn (tc ∷ rest) names = learn rest (insert tc.id tc.name names)

abbrev pub answered_tool : Message → List (String × String) → Role → String
answered_tool m names tool = get_or m.tool_call_id "" names
answered_tool m names _ = ""

abbrev ollama_message : Message → List (String × String) → OllamaMessage
ollama_message m names = record {
  role = role_text m.role;
  content = m.content;
  tool_name = answered_tool m names m.role;
  tool_calls = map ollama_call m.tool_calls;
}

-- The loop over the messages, with the names of the calls so far.
unfoldable pub ollama_messages : List Message → List (String × String) → List OllamaMessage
unfolding learn lookup
ollama_messages [] names = []
ollama_messages (m ∷ rest) names =
    ollama_message m names ∷ ollama_messages rest (learn m.tool_calls names)

abbrev ollama_tool : Tool → OllamaTool
ollama_tool t = record {
  type = "function";
  function = record { name = t.name; description = t.description; parameters = t.parameters };
}

abbrev is_none_mode : ToolChoiceMode → Bool
is_none_mode none = true
is_none_mode _ = false

abbrev ollama_tools : Option ToolChoice → List Tool → List OllamaTool
ollama_tools absent tools = map ollama_tool tools
ollama_tools (some c) tools = if is_none_mode c.mode then [] else map ollama_tool tools

-- ollamaRequest
unfoldable pub ollama_request : String → ChatRequest → OllamaChatRequest
unfolding ollama_messages
ollama_request model req = record {
  model = model;
  messages = ollama_messages req.messages [];
  stream = false;
  tools = ollama_tools req.tool_choice req.tools;
  options = record {
    temperature = req.temperature;
    top_p = req.top_p;
    stop = req.stop;
    num_predict = req.max_tokens;
  };
}

pub record OllamaReplyMessage : Type 0 where
  pub role : String
  pub content : String
  pub tool_calls : List OllamaToolCall

pub record OllamaChatResponse : Type 0 where
  pub message : OllamaReplyMessage
  pub done : Bool
  pub done_reason : String
  pub prompt_eval_count : ℤ
  pub eval_count : ℤ

abbrev pub ollama_usage : OllamaChatResponse → Usage
ollama_usage r = record {
  prompt_tokens = r.prompt_eval_count;
  completion_tokens = r.eval_count;
  total_tokens = wrap64 (r.prompt_eval_count +ℤ r.eval_count);
}

-- The loop over the calls of an answer, from the index i.
unfoldable pub mint_calls : ℕ → List OllamaToolCall → List ToolCall
unfolding number_text
mint_calls i [] = []
mint_calls i (tc ∷ rest) =
    (record {
      id = "call_" with number_text (i + 1);
      name = tc.function.name;
      arguments = tc.function.arguments;
    })
    ∷ mint_calls (i + 1) rest

abbrev pub ollama_finish : List ToolCall → String → FinishReason
ollama_finish [] reason = if reason == "length" then length else stop
ollama_finish (tc ∷ rest) reason = tool_calls

-- ollamaChatResponse.toDomain
unfoldable pub ollama_to_domain : OllamaChatResponse → Result ProviderFault Completion
unfolding mint_calls
ollama_to_domain r =
    let calls = mint_calls 0 r.message.tool_calls in
    if not r.done
    then err (bad_response_fault (some (ollama_usage r)))
    else ok (record {
      message = record {
        role = assistant;
        content = r.message.content;
        tool_calls = calls;
        tool_call_id = "";
      };
      finish_reason = ollama_finish calls r.done_reason;
      usage = ollama_usage r;
    })

abbrev authorization : String → List (String × String)
authorization key = if key == "" then [] else ("Authorization", "Bearer " with key) ∷ []

-- Ollama.Complete. The key is resolved at each request; an empty one sends no credential. NewOllama
-- has no default for a key that is nil, as the other two have, so one is a parameter here.
unfoldable pub complete_ollama :
    {W : Type 0}
    → Codec OllamaChatRequest OllamaChatResponse
    → Http W
    → (W → String)
    → ModelProvider
    → ChatRequest
    → W
    → Outcome × W
unfolding exchange ollama_request ollama_to_domain trim_suffix
complete_ollama codec http key mp req w =
    exchange codec http ollama_to_domain (trim_suffix b'/' mp.endpoint with "/api/chat")
      (("Content-Type", "application/json") ∷ authorization (key w)) (ollama_request mp.model req) w
