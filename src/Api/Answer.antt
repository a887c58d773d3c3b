-- ===== src/Api/Answer.antt =====
-- internal/api/openapi.go: the body of an answer.
use Prim.Native.String.{◌++◌ as ◌with◌}
use llmgateway_go.Prelude.{
  String, ◌==◌, List, [], ◌∷◌, map, none as absent, some, ◌||◌, not, eqb, if◌then◌else◌,
  length as count_of,
}
use llmgateway_go.Prelude.Int.{ℤ, pos}
use llmgateway_go.Gateway.Domain.{
  ChatResult, Message, Role, system, user, assistant, tool, ToolCall, FinishReason, stop, length,
  tool_calls,
}
use llmgateway_go.Api.Wire.{MessageWire, ToolCallWire}

pub record UsageWire : Type 0 where
  pub prompt_tokens : ℤ
  pub completion_tokens : ℤ
  pub total_tokens : ℤ

pub record ChoiceWire : Type 0 where
  pub index : ℤ
  pub message : MessageWire
  pub finish_reason : String

pub record ChatResponseWire : Type 0 where
  pub id : String
  pub object : String
  pub created : ℤ
  pub model : String
  pub choices : List ChoiceWire
  pub usage : UsageWire

abbrev finish_text : FinishReason → String
finish_text stop = "stop"
finish_text length = "length"
finish_text tool_calls = "tool_calls"

abbrev role_text : Role → String
role_text system = "system"
role_text user = "user"
role_text assistant = "assistant"
role_text tool = "tool"

abbrev pub call_to_wire : ToolCall → ToolCallWire
call_to_wire tc = record {
  id = tc.id;
  type = "function";
  function = record { name = tc.name; arguments = tc.arguments };
}

-- messageToWire
unfoldable pub message_to_wire : Message → MessageWire
message_to_wire m = record {
  role = role_text m.role;
  content =
      if not (m.content == "") || eqb (count_of m.tool_calls) 0 then some m.content else absent;
  tool_calls = map call_to_wire m.tool_calls;
  tool_call_id = "";
}

-- chatResponse, with the random text and the time
unfoldable pub chat_response : String → ℤ → ChatResult → ChatResponseWire
unfolding message_to_wire
chat_response random now res = record {
  id = "chatcmpl-" with random;
  object = "chat.completion";
  created = now;
  model = res.model;
  choices =
      (record {
        index = pos 0;
        message = message_to_wire res.message;
        finish_reason = finish_text res.finish_reason;
      })
      ∷ [];
  usage = record {
    prompt_tokens = res.usage.prompt_tokens;
    completion_tokens = res.usage.completion_tokens;
    total_tokens = res.usage.total_tokens;
  };
}
