-- ===== src/Adapters/Exchange.antt =====
-- What the Complete methods of the three adapters have in common: the request is encoded, sent and
-- its answer read and decoded, in one exchange without a retry. net/http and encoding/json are parameters.
use llmgateway_go.Prelude.{ℕ, String, List, Option, none, some, Bool, not, eqb, if◌then◌else◌}
use llmgateway_go.Prelude.Results.{Result, ok, err}
use llmgateway_go.Gateway.Domain.{Completion, Role, system, user, assistant, tool}
use llmgateway_go.Gateway.Faults.{ProviderFault, fault}
use llmgateway_go.Gateway.Ports.{Outcome, completed, failed}
use llmgateway_go.Providers.{TransportError, transport_fault, status_fault, bad_response_fault}

pub record HttpRequest : Type 0 where
  pub url : String
  pub headers : List (String × String)
  pub body : String

-- What the HTTP client returns: an error, or a status with a body, of which so many bytes are read.
pub data Response : Type 0 where
  lost : TransportError → Response
  replied : ℕ → (ℕ → Result TransportError String) → Response

-- The HTTP client over the states of the world: the addresses that it takes, and one exchange.
pub record Http (W : Type 0) : Type 0 where
  pub is_url : String → Bool
  pub send : HttpRequest → W → Response × W

-- encoding/json for the two types of a dialect.
pub record Codec (Request Reply : Type 0) : Type 0 where
  pub marshal : Request → Option String
  pub unmarshal : String → Option Reply

abbrev pub max_response_bytes : ℕ
max_response_bytes = 10_485_760

-- string(m.Role)
abbrev pub role_text : Role → String
role_text system = "system"
role_text user = "user"
role_text assistant = "assistant"
role_text tool = "tool"

-- A method that returns a completion or a fault, as its caller sees it.
abbrev pub outcome_of : Result ProviderFault Completion → Outcome
outcome_of (ok c) = completed c
outcome_of (err f) = failed (fault f)

module _ {Request Reply : Type 0} (codec : Codec Request Reply) where
  abbrev pub decode :
      (Reply → Result ProviderFault Completion) → Option Reply → Result ProviderFault Completion
  decode to_domain none = err (bad_response_fault none)
  decode to_domain (some reply) = to_domain reply

  abbrev pub read_answer :
      (Reply → Result ProviderFault Completion)
      → ℕ
      → Result TransportError String
      → Result ProviderFault Completion
  read_answer to_domain status (err e) = err (transport_fault e)
  read_answer to_domain status (ok raw) =
      if not (eqb status 200)
      then err (status_fault status)
      else decode to_domain (codec.unmarshal raw)

  abbrev pub read_response :
      (Reply → Result ProviderFault Completion) → Response → Result ProviderFault Completion
  read_response to_domain (lost e) = err (transport_fault e)
  read_response to_domain (replied status body) =
      read_answer to_domain status (body max_response_bytes)

  module _ {W : Type 0} (http : Http W) where
    abbrev post : (Reply → Result ProviderFault Completion) → HttpRequest → W → Outcome × W
    post to_domain req w =
        let (response, w') = http.send req w in (outcome_of (read_response to_domain response), w')

    abbrev pub send_encoded :
        (Reply → Result ProviderFault Completion)
        → String
        → List (String × String)
        → W
        → Option String
        → Outcome × W
    send_encoded to_domain url headers w none = (failed (fault (bad_response_fault none)), w)
    send_encoded to_domain url headers w (some body) =
        if http.is_url url
        then post to_domain (record { url = url; headers = headers; body = body }) w
        else (failed (fault (bad_response_fault none)), w)

    -- Complete, from json.Marshal on
    unfoldable pub exchange :
        (Reply → Result ProviderFault Completion)
        → String
        → List (String × String)
        → Request
        → W
        → Outcome × W
    exchange to_domain url headers req w = send_encoded to_domain url headers w (codec.marshal req)
