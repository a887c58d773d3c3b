-- ===== src/Api/Wire.antt =====
-- internal/api/openapi.go: the schema of a request, read strictly, and that of an answer. The JSON
-- decoder is a parameter; of a field with an UnmarshalJSON of its own it hands over the bytes.
use llmgateway_go.Prelude.{
  ℕ, ◌+◌, String, ◌==◌, List, [], ◌∷◌, map, Option, none as absent, some, Bool, true, false, ◌&&◌,
  ◌||◌, not, eqb, ltb, if◌then◌else◌, length as count_of,
}
use llmgateway_go.Prelude.Int.{ℤ, pos, negsuc}
use llmgateway_go.Gateway.Domain.{
  ChatRequest, Message, Role, system, user, assistant, tool, ToolCall, Tool, ToolChoice,
  ToolChoiceMode, none, auto, function,
}
use llmgateway_go.Gateway.Faults.{invalid_request}
use llmgateway_go.Api.{
  ApiError, no_details, of_core, unsupported_parameter, WireMessage, stream_unsupported, only_one,
  temperature_range, top_p_range, role_unknown, content_required, call_id_required, calls_misplaced,
  tool_type_unknown, tool_name_required,
}

pub record ToolFunctionCall : Type 0 where
  pub name : String
  pub arguments : String

pub record ToolCallWire : Type 0 where
  pub id : String
  pub type : String
  pub function : ToolFunctionCall

pub record MessageWire : Type 0 where
  pub role : String
  pub content : Option String
  pub tool_calls : List ToolCallWire
  pub tool_call_id : String

pub record ToolFunctionWire : Type 0 where
  pub name : String
  pub description : String
  pub parameters : String

pub record ToolWire : Type 0 where
  pub type : String
  pub function : ToolFunctionWire

pub record ToolChoiceWire : Type 0 where
  pub mode : String
  pub function : String

pub record ChatRequestWire : Type 0 where
  pub model : String
  pub messages : List MessageWire
  pub max_tokens : ℤ
  pub temperature : Option String
  pub top_p : Option String
  pub stop : List String
  pub tools : List ToolWire
  pub tool_choice : Option ToolChoiceWire
  pub n : Option ℤ
  pub stream : Option Bool

-- The comparisons of a float, which stands as its text, with a whole number.
pub record Floats : Type 0 where
  pub is_below : String → ℕ → Bool
  pub is_above : String → ℕ → Bool

unfoldable pub unsupported : String → WireMessage → ApiError
unsupported param message = record {
  status = 400;
  code = unsupported_parameter;
  message = message;
  details = some (record no_details { param = param });
}

unfoldable pub invalid : WireMessage → ApiError
invalid message = record {
  status = 400;
  code = of_core invalid_request;
  message = message;
  details = absent;
}

-- The tests of `reject`, on what the pointers hold.
abbrev pub is_stream : Option Bool → Bool
is_stream absent = false
is_stream (some b) = b

abbrev is_one : ℤ → Bool
is_one (pos k) = eqb k 1
is_one (negsuc k) = false

abbrev pub is_several : Option ℤ → Bool
is_several absent = false
is_several (some n) = not (is_one n)

abbrev pub is_outside : Floats → ℕ → Option String → Bool
is_outside floats limit absent = false
is_outside floats limit (some x) = floats.is_below x 0 || floats.is_above x limit

abbrev pub is_role : String → Bool
is_role r = r == "system" || r == "user" || r == "assistant" || r == "tool"

abbrev pub is_absent : Option String → Bool
is_absent absent = true
is_absent (some s) = false

abbrev pub has_calls : MessageWire → Bool
has_calls m = ltb 0 (count_of m.tool_calls)

-- The body of the loop over the messages.
abbrev pub reject_message : ℕ → MessageWire → Option ApiError
reject_message i m =
    if not (is_role m.role)
    then some (invalid (role_unknown i))
    else if is_absent m.content && not (m.role == "assistant" && has_calls m)
    then some (invalid (content_required i))
    else if m.role == "tool" && m.tool_call_id == ""
    then some (invalid (call_id_required i))
    else if not (m.role == "assistant") && has_calls m
    then some (invalid (calls_misplaced i))
    else absent

-- The body of the loop over the tools.
abbrev pub reject_tool : ℕ → ToolWire → Option ApiError
reject_tool i t =
    if not (t.type == "function")
    then some (invalid (tool_type_unknown i))
    else if t.function.name == ""
    then some (invalid (tool_name_required i))
    else absent

-- A loop that returns at the first refusal.
abbrev pub or_else : Option ApiError → Option ApiError → Option ApiError
or_else (some e) next = some e
or_else absent next = next

unfoldable pub first_refusal :
    {A : Type 0} → (ℕ → A → Option ApiError) → ℕ → List A → Option ApiError
first_refusal check i [] = absent
first_refusal check i (x ∷ rest) = or_else (check i x) (first_refusal check (i + 1) rest)

-- chatRequestWire.reject
unfoldable pub reject : Floats → ChatRequestWire → Option ApiError
unfolding first_refusal invalid unsupported
reject floats wr =
    if is_stream wr.stream
    then some (unsupported "stream" stream_unsupported)
    else if is_several wr.n
    then some (unsupported "n" only_one)
    else if is_outside floats 2 wr.temperature
    then some (invalid temperature_range)
    else if is_outside floats 1 wr.top_p
    then some (invalid top_p_range)
    else or_else (first_refusal reject_message 0 wr.messages) (first_refusal reject_tool 0 wr.tools)

-- gateway.Role of a role that was not refused, which leaves the last of the four.
abbrev pub role_of : String → Role
role_of r =
    if r == "system"
    then system
    else if r == "user"
    then user
    else if r == "assistant"
    then assistant
    else tool

abbrev or_empty : Option String → String
or_empty absent = ""
or_empty (some s) = s

abbrev pub call_to_domain : ToolCallWire → ToolCall
call_to_domain tc = record {
  id = tc.id;
  name = tc.function.name;
  arguments = tc.function.arguments;
}

unfoldable pub message_to_domain : MessageWire → Message
message_to_domain m = record {
  role = role_of m.role;
  content = or_empty m.content;
  tool_calls = map call_to_domain m.tool_calls;
  tool_call_id = m.tool_call_id;
}

abbrev tool_to_domain : ToolWire → Tool
tool_to_domain t = record {
  name = t.function.name;
  description = t.function.description;
  parameters = t.function.parameters;
}

-- gateway.ToolChoiceMode of a mode that was decoded, which leaves the last of the three.
abbrev mode_of : String → ToolChoiceMode
mode_of m = if m == "none" then none else if m == "auto" then auto else function

abbrev choice_to_domain : Option ToolChoiceWire → Option ToolChoice
choice_to_domain absent = absent
choice_to_domain (some c) = some (record { mode = mode_of c.mode; function = c.function })

-- chatRequestWire.toDomain
unfoldable pub wire_to_domain : ChatRequestWire → ChatRequest
unfolding message_to_domain
wire_to_domain wr = record {
  model = wr.model;
  messages = map message_to_domain wr.messages;
  max_tokens = wr.max_tokens;
  temperature = wr.temperature;
  top_p = wr.top_p;
  stop = wr.stop;
  tools = map tool_to_domain wr.tools;
  tool_choice = choice_to_domain wr.tool_choice;
}
