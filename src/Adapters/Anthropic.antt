-- ===== src/Adapters/Anthropic.antt =====
-- internal/anthropic: the /v1/messages dialect. The system prompt is a field of its own, and there is
-- no tool role.
use Prim.Native.String.{◌++◌ as ◌with◌}
use llmgateway_go.Prelude.{
  String, ◌==◌, List, [], ◌∷◌, ◌++◌, map, Option, none as absent, some, Bool, true, false,
  if◌then◌else◌,
}
use llmgateway_go.Prelude.Int.{ℤ, ◌+ℤ◌, wrap64}
use llmgateway_go.Prelude.Results.{Result, ok, err}
use llmgateway_go.Prelude.Texts.{trim_suffix, join}
use llmgateway_go.Prelude.Maps.{lookup}
use llmgateway_go.Gateway.Domain.{
  ChatRequest, Message, Role, system, assistant, tool, ToolCall, Tool, ToolChoice, ToolChoiceMode,
  none, auto, function, FinishReason, stop, length, tool_calls, Usage, Completion, ModelProvider,
}
use llmgateway_go.Gateway.Faults.{ProviderFault}
use llmgateway_go.Gateway.Ports.{Outcome}
use llmgateway_go.Providers.{bad_response_fault}
use llmgateway_go.Adapters.Exchange.{Http, Codec, role_text, exchange}

-- One block of content: its type says which of the other fields it uses.
pub record AnthropicContent : Type 0 where
  pub type : String
  pub text : String
  pub id : String
  pub name : String
  pub input : String
  pub tool_use_id : String
  pub content : String

pub record AnthropicMessage : Type 0 where
  pub role : String
  pub content : List AnthropicContent

pub record AnthropicTool : Type 0 where
  pub name : String
  pub description : String
  pub input_schema : String

pub record AnthropicToolChoice : Type 0 where
  pub type : String
  pub name : String

pub record AnthropicChatRequest : Type 0 where
  pub model : String
  pub max_tokens : ℤ
  pub system : String
  pub messages : List AnthropicMessage
  pub temperature : Option String
  pub top_p : Option String
  pub stop_sequences : List String
  pub tools : List AnthropicTool
  pub tool_choice : Option AnthropicToolChoice

abbrev pub block : String → AnthropicContent
block kind = record {
  type = kind;
  text = "";
  id = "";
  name = "";
  input = "";
  tool_use_id = "";
  content = "";
}

abbrev pub use_block : ToolCall → AnthropicContent
use_block tc = record (block "tool_use") { id = tc.id; name = tc.name; input = tc.arguments }

abbrev pub text_blocks : String → List AnthropicContent
text_blocks content = if content == "" then [] else record (block "text") { text = content } ∷ []

abbrev pub result_message : Message → AnthropicMessage
result_message m = record {
  role = "user";
  content = record (block "tool_result") { tool_use_id = m.tool_call_id; content = m.content } ∷ [];
}

abbrev pub turn_message : Message → AnthropicMessage
turn_message m = record {
  role = role_text m.role;
  content = text_blocks m.content ++ map use_block m.tool_calls;
}

abbrev pub is_tool : Role → Bool
is_tool tool = true
is_tool _ = false

-- anthropicRequestMessage
unfoldable pub anthropic_request_message : Message → AnthropicMessage
anthropic_request_message m = if is_tool m.role then result_message m else turn_message m

abbrev pub is_system : Role → Bool
is_system system = true
is_system _ = false

-- The loop over the messages: the system texts so far, and the other turns so far.
unfoldable pub place :
    List Message → List String → List AnthropicMessage → List String × List AnthropicMessage
unfolding anthropic_request_message
place [] texts turns = (texts, turns)
place (m ∷ rest) texts turns =
    place rest (if is_system m.role then texts ++ m.content ∷ [] else texts)
      (if is_system m.role then turns else turns ++ anthropic_request_message m ∷ [])

abbrev anthropic_tool : Tool → AnthropicTool
anthropic_tool t = record {
  name = t.name;
  description = t.description;
  input_schema = t.parameters;
}

abbrev anthropic_mode : ToolChoiceMode → String → AnthropicToolChoice
anthropic_mode none name = record { type = "none"; name = "" }
anthropic_mode auto name = record { type = "auto"; name = "" }
anthropic_mode function name = record { type = "tool"; name = name }

abbrev anthropic_choice : Option ToolChoice → Option AnthropicToolChoice
anthropic_choice absent = absent
anthropic_choice (some c) = some (anthropic_mode c.mode c.function)

-- anthropicRequest
unfoldable pub anthropic_request : String → ChatRequest → AnthropicChatRequest
unfolding place join
anthropic_request model req =
    let (texts, turns) = place req.messages [] [] in
    record {
      model = model;
      max_tokens = req.max_tokens;
      system = join "\n\n" texts;
      messages = turns;
      temperature = req.temperature;
      top_p = req.top_p;
      stop_sequences = req.stop;
      tools = map anthropic_tool req.tools;
      tool_choice = anthropic_choice req.tool_choice;
    }

pub record AnthropicChatResponse : Type 0 where
  pub content : List AnthropicContent
  pub stop_reason : String
  pub input_tokens : ℤ
  pub output_tokens : ℤ

abbrev pub anthropic_finish : List (String × FinishReason)
anthropic_finish =
    ("end_turn", stop)
    ∷ ("stop_sequence", stop)
    ∷ ("max_tokens", length)
    ∷ ("tool_use", tool_calls)
    ∷ []

abbrev pub call_of : AnthropicContent → ToolCall
call_of b = record { id = b.id; name = b.name; arguments = b.input }

-- One block of an answer, added to the message.
abbrev pub add_block : AnthropicContent → Message → Message
add_block b msg =
    if b.type == "text"
    then record msg { content = msg.content with b.text }
    else if b.type == "tool_use"
    then record msg { tool_calls = msg.tool_calls ++ call_of b ∷ [] }
    else msg

unfoldable pub add_blocks : List AnthropicContent → Message → Message
add_blocks [] msg = msg
add_blocks (b ∷ rest) msg = add_blocks rest (add_block b msg)

abbrev pub empty_answer : Message
empty_answer = record { role = assistant; content = ""; tool_calls = []; tool_call_id = "" }

abbrev pub anthropic_usage : AnthropicChatResponse → Usage
anthropic_usage r = record {
  prompt_tokens = r.input_tokens;
  completion_tokens = r.output_tokens;
  total_tokens = wrap64 (r.input_tokens +ℤ r.output_tokens);
}

abbrev pub anthropic_answer :
    Usage → Message → Option FinishReason → Result ProviderFault Completion
anthropic_answer usage msg absent = err (bad_response_fault (some usage))
anthropic_answer usage msg (some finish) =
    ok (record { message = msg; finish_reason = finish; usage = usage })

-- anthropicChatResponse.toDomain
unfoldable pub anthropic_to_domain : AnthropicChatResponse → Result ProviderFault Completion
unfolding add_blocks lookup
anthropic_to_domain r =
    anthropic_answer (anthropic_usage r) (add_blocks r.content empty_answer)
      (lookup r.stop_reason anthropic_finish)

-- Anthropic.Complete. The key is resolved at each request.
unfoldable pub complete_anthropic :
    {W : Type 0}
    → Codec AnthropicChatRequest AnthropicChatResponse
    → Http W
    → (W → String)
    → ModelProvider
    → ChatRequest
    → W
    → Outcome × W
unfolding exchange anthropic_request anthropic_to_domain trim_suffix
complete_anthropic codec http key mp req w =
    exchange codec http anthropic_to_domain (trim_suffix b'/' mp.endpoint with "/messages")
      (("Content-Type", "application/json")
        ∷ ("x-api-key", key w)
        ∷ ("anthropic-version", "2023-06-01")
        ∷ [])
      (anthropic_request mp.model req) w
