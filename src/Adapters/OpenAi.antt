-- ===== src/Adapters/OpenAi.antt =====
-- internal/openai: the /v1/chat/completions dialect.
use Prim.Native.String.{◌++◌ as ◌with◌}
use llmgateway_go.Prelude.{String, List, [], ◌∷◌, map, Option, none as absent, some}
use llmgateway_go.Prelude.Int.{ℤ}
use llmgateway_go.Prelude.Results.{Result, ok, err}
use llmgateway_go.Prelude.Texts.{trim_suffix}
use llmgateway_go.Prelude.Maps.{lookup}
use llmgateway_go.Gateway.Domain.{
  ChatRequest, Message, ToolCall, Tool, ToolChoice, ToolChoiceMode, none, auto, function, assistant,
  FinishReason, stop, length, tool_calls, Usage, Completion, ModelProvider,
}
use llmgateway_go.Gateway.Faults.{ProviderFault}
use llmgateway_go.Gateway.Ports.{Outcome}
use llmgateway_go.Providers.{bad_response_fault}
use llmgateway_go.Adapters.Exchange.{Http, Codec, role_text, exchange}

pub record OpenaiFunctionCall : Type 0 where
  pub name : String
  pub arguments : String

pub record OpenaiToolCall : Type 0 where
  pub id : String
  pub type : String
  pub function : OpenaiFunctionCall

pub record OpenaiMessage : Type 0 where
  pub role : String
  pub content : String
  pub tool_calls : List OpenaiToolCall
  pub tool_call_id : String

pub record OpenaiToolFunction : Type 0 where
  pub name : String
  pub description : String
  pub parameters : String

pub record OpenaiTool : Type 0 where
  pub type : String
  pub function : OpenaiToolFunction

-- tool_choice: a text, or an object that names a function.
pub data OpenaiToolChoice : Type 0 where
  text : String → OpenaiToolChoice
  object : String → String → OpenaiToolChoice

pub record OpenaiChatRequest : Type 0 where
  pub model : String
  pub messages : List OpenaiMessage
  pub max_completion_tokens : ℤ
  pub temperature : Option String
  pub top_p : Option String
  pub stop : List String
  pub tools : List OpenaiTool
  pub tool_choice : Option OpenaiToolChoice

abbrev pub openai_call : ToolCall → OpenaiToolCall
openai_call tc = record {
  id = tc.id;
  type = "function";
  function = record { name = tc.name; arguments = tc.arguments };
}

-- openaiRequestMessage
unfoldable pub openai_request_message : Message → OpenaiMessage
openai_request_message m = record {
  role = role_text m.role;
  content = m.content;
  tool_calls = map openai_call m.tool_calls;
  tool_call_id = m.tool_call_id;
}

abbrev openai_tool : Tool → OpenaiTool
openai_tool t = record {
  type = "function";
  function = record { name = t.name; description = t.description; parameters = t.parameters };
}

abbrev openai_mode : ToolChoiceMode → String → OpenaiToolChoice
openai_mode none name = text "none"
openai_mode auto name = text "auto"
openai_mode function name = object "function" name

abbrev openai_choice : Option ToolChoice → Option OpenaiToolChoice
openai_choice absent = absent
openai_choice (some c) = some (openai_mode c.mode c.function)

-- openaiRequest
unfoldable pub openai_request : String → ChatRequest → OpenaiChatRequest
unfolding openai_request_message
openai_request model req = record {
  model = model;
  messages = map openai_request_message req.messages;
  max_completion_tokens = req.max_tokens;
  temperature = req.temperature;
  top_p = req.top_p;
  stop = req.stop;
  tools = map openai_tool req.tools;
  tool_choice = openai_choice req.tool_choice;
}

-- The answer, with the fields that the struct reads.
pub record OpenaiReplyCall : Type 0 where
  pub id : String
  pub function : OpenaiFunctionCall

pub record OpenaiReplyMessage : Type 0 where
  pub role : String
  pub content : String
  pub tool_calls : List OpenaiReplyCall

pub record OpenaiReplyChoice : Type 0 where
  pub message : OpenaiReplyMessage
  pub finish_reason : String

pub record OpenaiChatResponse : Type 0 where
  pub choices : List OpenaiReplyChoice
  pub usage : Usage

abbrev pub openai_finish : List (String × FinishReason)
openai_finish = ("stop", stop) ∷ ("length", length) ∷ ("tool_calls", tool_calls) ∷ []

abbrev pub openai_call_of : OpenaiReplyCall → ToolCall
openai_call_of tc = record {
  id = tc.id;
  name = tc.function.name;
  arguments = tc.function.arguments;
}

abbrev pub openai_answer :
    Usage → OpenaiReplyChoice → Option FinishReason → Result ProviderFault Completion
openai_answer usage choice absent = err (bad_response_fault (some usage))
openai_answer usage choice (some finish) = ok (record {
  message = record {
    role = assistant;
    content = choice.message.content;
    tool_calls = map openai_call_of choice.message.tool_calls;
    tool_call_id = "";
  };
  finish_reason = finish;
  usage = usage;
})

abbrev pub openai_first : Usage → List OpenaiReplyChoice → Result ProviderFault Completion
openai_first usage [] = err (bad_response_fault (some usage))
openai_first usage (choice ∷ rest) =
    openai_answer usage choice (lookup choice.finish_reason openai_finish)

-- openaiChatResponse.toDomain
unfoldable pub openai_to_domain : OpenaiChatResponse → Result ProviderFault Completion
unfolding lookup
openai_to_domain r = openai_first r.usage r.choices

-- OpenAI.Complete. The key is resolved at each request.
unfoldable pub complete_openai :
    {W : Type 0}
    → Codec OpenaiChatRequest OpenaiChatResponse
    → Http W
    → (W → String)
    → ModelProvider
    → ChatRequest
    → W
    → Outcome × W
unfolding exchange openai_request openai_to_domain trim_suffix
complete_openai codec http key mp req w =
    exchange codec http openai_to_domain (trim_suffix b'/' mp.endpoint with "/chat/completions")
      (("Content-Type", "application/json") ∷ ("Authorization", "Bearer " with key w) ∷ [])
      (openai_request mp.model req) w
