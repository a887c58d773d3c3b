-- ===== src/Api/Decode.antt =====
-- internal/api/openapi.go: how a body becomes a request, and what is said of one that does not.
use llmgateway_go.Prelude.{
  ℕ, String, ◌==◌, List, [], ◌∷◌, Option, none as absent, some, Bool, false, ◌&&◌, ◌||◌, not, eqb,
  if◌then◌else◌,
}
use llmgateway_go.Prelude.Int.{ℤ}
use llmgateway_go.Prelude.Results.{Result, ok, err, and_then}
use llmgateway_go.Gateway.Faults.{invalid_request}
use llmgateway_go.Api.{
  ApiError, no_details, of_core, payload_too_large, unsupported_media_type, WireMessage,
  tool_choice_text, tool_choice_object, body_type, body_too_large, must_be, unknown_parameter,
  body_required, body_not_json,
}
use llmgateway_go.Api.Wire.{ChatRequestWire, ToolChoiceWire, Floats, invalid, unsupported, reject}

-- A schema violation that an UnmarshalJSON found.
pub record WireError : Type 0 where
  pub param : String
  pub message : WireMessage

-- An error of the decoder, by what `errors.As`, `errors.Is` and its text say of it: a limit that the
-- body exceeds, a wireError, a field with its type, the name of an unknown field, and the end of the body.
pub record DecodeFailure : Type 0 where
  pub max_bytes : Option ℤ
  pub wire_error : Option WireError
  pub type_error : Option (String × String)
  pub unknown_field : Option String
  pub is_eof : Bool

abbrev pub of_wire_error : WireError → DecodeFailure
of_wire_error e = record {
  max_bytes = absent;
  wire_error = some e;
  type_error = absent;
  unknown_field = absent;
  is_eof = false;
}

-- json.Unmarshal into a string, a list of strings, and the object of a tool choice: its type and the
-- name of its function.
pub record Json : Type 0 where
  pub string : List ℕ → Result DecodeFailure String
  pub strings : List ℕ → Result DecodeFailure (List String)
  pub choice : List ℕ → Result DecodeFailure (String × String)

abbrev pub is_quoted : List ℕ → Bool
is_quoted [] = false
is_quoted (c ∷ rest) = eqb c 34

abbrev single : String → Result DecodeFailure (List String)
single s = ok (s ∷ [])

-- stopSequences.UnmarshalJSON
unfoldable pub unmarshal_stop : Json → List ℕ → Result DecodeFailure (List String)
unmarshal_stop json b = if is_quoted b then and_then (json.string b) single else json.strings b

abbrev pub set_mode : ToolChoiceWire → String → Result DecodeFailure ToolChoiceWire
set_mode tc mode =
    if not (mode == "none") && not (mode == "auto")
    then err (of_wire_error (record { param = "tool_choice"; message = tool_choice_text }))
    else ok (record tc { mode = mode })

abbrev pub set_function : ToolChoiceWire → String × String → Result DecodeFailure ToolChoiceWire
set_function tc (type, name) =
    if not (type == "function") || name == ""
    then err (of_wire_error (record { param = "tool_choice"; message = tool_choice_object }))
    else ok (record tc { mode = "function"; function = name })

-- toolChoiceWire.UnmarshalJSON, into a value that may be set already
unfoldable pub unmarshal_tool_choice :
    Json → ToolChoiceWire → List ℕ → Result DecodeFailure ToolChoiceWire
unmarshal_tool_choice json tc b =
    if is_quoted b
    then and_then (json.string b) (set_mode tc)
    else and_then (json.choice b) (set_function tc)

-- What the decoder makes of a body: the fields that it reads itself, and those that it hands over, in
-- the order of the body.
pub data RawField : Type 0 where
  stop_field choice_field : List ℕ → RawField

pub record RawRequest : Type 0 where
  pub decoded : ChatRequestWire
  pub fields : List RawField

abbrev or_new : Option ToolChoiceWire → ToolChoiceWire
or_new absent = record { mode = ""; function = "" }
or_new (some tc) = tc

abbrev with_stop : ChatRequestWire → List String → Result DecodeFailure ChatRequestWire
with_stop wr texts = ok (record wr { stop = texts })

abbrev with_choice : ChatRequestWire → ToolChoiceWire → Result DecodeFailure ChatRequestWire
with_choice wr tc = ok (record wr { tool_choice = some tc })

abbrev pub fill_one : Json → ChatRequestWire → RawField → Result DecodeFailure ChatRequestWire
fill_one json wr (stop_field b) = and_then (unmarshal_stop json b) (with_stop wr)
fill_one json wr (choice_field b) =
    and_then (unmarshal_tool_choice json (or_new wr.tool_choice) b) (with_choice wr)

unfoldable pub fill : Json → List RawField → ChatRequestWire → Result DecodeFailure ChatRequestWire
unfolding unmarshal_stop unmarshal_tool_choice
fill json [] wr = ok wr
fill json (f ∷ rest) wr = and_then (fill_one json wr f) (fill json rest)

abbrev too_large : ℤ → ApiError
too_large limit = record {
  status = 413;
  code = payload_too_large;
  message = body_too_large limit;
  details = absent;
}

abbrev violation : WireError → ApiError
violation e = record {
  status = 400;
  code = of_core invalid_request;
  message = e.message;
  details = some (record no_details { param = e.param });
}

abbrev by_text : Option String → Bool → ApiError
by_text (some param) is_eof = unsupported param (unknown_parameter param)
by_text absent is_eof = if is_eof then invalid body_required else invalid body_not_json

abbrev pub by_type : Option (String × String) → Option String → Bool → ApiError
by_type (some (field, type)) text is_eof = invalid (must_be field type)
by_type absent text is_eof = by_text text is_eof

abbrev pub by_violation :
    Option WireError → Option (String × String) → Option String → Bool → ApiError
by_violation (some e) type text is_eof = violation e
by_violation absent type text is_eof = by_type type text is_eof

abbrev pub by_size :
    Option ℤ → Option WireError → Option (String × String) → Option String → Bool → ApiError
by_size (some limit) e type text is_eof = too_large limit
by_size absent e type text is_eof = by_violation e type text is_eof

-- decodeError
unfoldable pub decode_error : DecodeFailure → ApiError
unfolding invalid unsupported
decode_error f = by_size f.max_bytes f.wire_error f.type_error f.unknown_field f.is_eof

abbrev wrong_type : ApiError
wrong_type = record {
  status = 415;
  code = unsupported_media_type;
  message = body_type;
  details = absent;
}

-- requireJSON, on the media type that the standard library parses, where it does
unfoldable pub require_json : Option String → Option ApiError
require_json absent = some wrong_type
require_json (some mt) = if mt == "application/json" then absent else some wrong_type

abbrev or_accept : ChatRequestWire → Option ApiError → Result ApiError ChatRequestWire
or_accept wr absent = ok wr
or_accept wr (some e) = err e

abbrev pub judge_decoded :
    Floats → Result DecodeFailure ChatRequestWire → Result ApiError ChatRequestWire
judge_decoded floats (err f) = err (decode_error f)
judge_decoded floats (ok wr) = or_accept wr (reject floats wr)

abbrev pub read_fields : Json → RawRequest → Result DecodeFailure ChatRequestWire
read_fields json raw = fill json raw.fields raw.decoded

abbrev decode_body :
    Json
    → Floats
    → Result DecodeFailure RawRequest
    → Option ApiError
    → Result ApiError ChatRequestWire
decode_body json floats body (some e) = err e
decode_body json floats body absent = judge_decoded floats (and_then body (read_fields json))

-- decodeChatRequest: the media type, and what the decoder makes of the body
unfoldable pub decode_chat_request :
    Json
    → Floats
    → Option String
    → Result DecodeFailure RawRequest
    → Result ApiError ChatRequestWire
unfolding fill decode_error require_json reject
decode_chat_request json floats media_type body =
    decode_body json floats body (require_json media_type)
