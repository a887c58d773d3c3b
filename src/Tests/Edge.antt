-- ===== src/Tests/Edge.antt =====
-- One request through the edge: its schema, its token and its answer.
use llmgateway_go.Prelude.{ℕ, ◌+◌, ◌≡◌, ◌↔◌, refl, String, ◌==◌, [], ◌∷◌, none, some, true, false}
use llmgateway_go.Prelude.Int.{pos}
use llmgateway_go.Prelude.Results.{ok, err, and_then}
use llmgateway_go.Gateway.Domain.{
  ChatRequest, ChatResult, Message, ToolCall, assistant, stop, Usage,
}
use llmgateway_go.Api.Wire.{ChatRequestWire, MessageWire, Floats, reject, message_to_domain}
use llmgateway_go.Api.Decode.{
  Json, DecodeFailure, RawRequest, stop_field, choice_field, fill, read_fields, decode_chat_request,
}
use llmgateway_go.Api.Answer.{message_to_wire}
use llmgateway_go.Api.Schema.{IsTurn, IsRequest, reject-IsRequest}
use llmgateway_go.Api.Returned.{message_to_wire-returns}
use llmgateway_go.Api.Judgment.{Judged, decode_chat_request-Judged}
use llmgateway_go.Api.Server.{Request, Reply, replied, Middleware, adopted, bearer_token}
use llmgateway_go.Api.Routes.{Config, Deps, Library, Server, ChatEnd, returned, chat, serve}
use llmgateway_go.Api.Reached.{IsTagged, Admitted, limited, serve-Admitted}

abbrev floats : Floats
floats = record { is_below = λ x n. false; is_above = λ x n. x == "3" }

abbrev asks : MessageWire
asks = record { role = "user"; content = some "hello"; tool_calls = []; tool_call_id = "" }

abbrev wire : ChatRequestWire
wire = record {
  model = "gpt";
  messages = asks ∷ [];
  max_tokens = pos 10;
  temperature = some "1";
  top_p = none;
  stop = [];
  tools = [];
  tool_choice = none;
  n = some (pos 1);
  stream = some false;
}

reject-IsRequest_example : (reject floats wire ≡ none) ↔ IsRequest floats wire
reject-IsRequest_example = reject-IsRequest floats wire

accepts : reject floats wire ≡ none
unfolding reject
accepts = refl

abbrev weather : ToolCall
weather = record { id = "c1"; name = "weather"; arguments = "{}" }

abbrev calls : Message
calls = record { role = assistant; content = ""; tool_calls = weather ∷ []; tool_call_id = "" }

message_to_wire-returns_example :
    IsTurn (message_to_wire calls) × (message_to_domain (message_to_wire calls) ≡ calls)
message_to_wire-returns_example = message_to_wire-returns calls refl refl

abbrev no_json : DecodeFailure
no_json = record {
  max_bytes = none;
  wire_error = none;
  type_error = none;
  unknown_field = none;
  is_eof = false;
}

-- A text is all that stands after the first byte.
abbrev json : Json
json = record {
  string = λ b. ok "auto";
  strings = λ b. err no_json;
  choice = λ b. ok ("function", "f");
}

abbrev raw : RawRequest
raw = record { decoded = wire; fields = choice_field (34 ∷ []) ∷ stop_field (34 ∷ []) ∷ [] }

decode_chat_request-Judged_example :
    Judged floats
      (some "application/json")
      (and_then (ok raw) (read_fields json))
      (decode_chat_request json floats (some "application/json") (ok raw))
decode_chat_request-Judged_example =
    decode_chat_request-Judged json floats (some "application/json") (ok raw)

abbrev usage : Usage
usage = record { prompt_tokens = pos 1; completion_tokens = pos 2; total_tokens = pos 3 }

abbrev result : ChatResult
result = record {
  model = "llama";
  provider = "ollama";
  substituted = true;
  message = record { role = assistant; content = "hi"; tool_calls = []; tool_call_id = "" };
  finish_reason = stop;
  usage = usage;
}

-- The world counts the calls of Chat.
abbrev service : String → ChatRequest → ℕ → ChatEnd × ℕ
service key req n = (returned (ok result), n + 1)

abbrev lib : Library ℕ
lib = record {
  json = json;
  floats = floats;
  random = λ n. ("r", n);
  now = λ n. pos 0;
  media_type = λ r. some "application/json";
  body = λ r. ok (record { decoded = wire; fields = [] });
}

abbrev watch : Middleware ℕ
watch h r w = h r w

abbrev config : Config
config = record {
  addr = "";
  read_header_timeout = pos 0;
  read_timeout = pos 0;
  write_timeout = pos 7;
  idle_timeout = pos 0;
  max_body_bytes = pos 0;
}

abbrev deps : Deps ℕ
deps = record {
  chat = some service;
  live = some (λ n. (true, n));
  ready = λ n. (true, n);
  request_middleware = watch ∷ [];
  panic_middleware = [];
}

abbrev server : Server ℕ
server = record {
  config = record {
    addr = ":8080";
    read_header_timeout = pos 5_000_000_000;
    read_timeout = pos 30_000_000_000;
    write_timeout = pos 7;
    idle_timeout = pos 120_000_000_000;
    max_body_bytes = pos 1_048_576;
  };
  chat = service;
  live = λ n. (true, n);
  ready = λ n. (true, n);
  request_mw = watch ∷ [];
  panic_mw = [];
}

abbrev request : Request
request = record {
  authorization = "bearer k";
  correlation_header = "";
  body_limit = none;
  correlation = "";
  api_key = "";
}

serve-Admitted_example :
    let (id, w') = adopted lib.random request.correlation_header 0 in
    let out = serve lib server chat request 0 in
    (reply : Reply) × (out.0 ≡ replied reply)
    × (reply.correlation_header ≡ some id)
    × IsTagged id reply.body
    × Admitted lib server.chat
        (limited lib server (record request { correlation = id }))
        w'
        (bearer_token request.authorization)
        reply.status
        reply.is_substituted
        reply.body
        out.1
serve-Admitted_example = serve-Admitted lib server request 0 (λ h r w. refl, tt) tt

serves : (serve lib server chat request 0).1 ≡ 1
unfolding serve bearer_token fill reject
serves = refl
