-- ===== src/Gateway/Domain.antt =====
-- internal/gateway: gateway_domain.go, policy.go, tool.go, and the types of chat.go, errors.go and
-- llm_gateway.go. A string type with named constants is a data type of those constants, with the
-- other strings kept where the code treats them apart.
use llmgateway_go.Prelude.{String, Option, List, Bool}
use llmgateway_go.Prelude.Int.{ℤ}

pub data PolicyKind : Type 0 where
  same_model allowlist any : PolicyKind
  -- any other string, the zero value among them
  unrecognized : String → PolicyKind

pub record FailoverPolicy : Type 0 where
  pub kind : PolicyKind
  pub allowed : List String

-- A duration is a signed count of nanoseconds.
pub record App : Type 0 where
  pub name : String
  pub policy : FailoverPolicy
  pub total_deadline : ℤ

pub data Role : Type 0 where
  system user assistant tool : Role

pub record ToolCall : Type 0 where
  pub id : String
  pub name : String
  pub arguments : String

pub record Message : Type 0 where
  pub role : Role
  pub content : String
  pub tool_calls : List ToolCall
  pub tool_call_id : String

pub data FinishReason : Type 0 where
  stop length tool_calls : FinishReason

pub record Usage : Type 0 where
  pub prompt_tokens : ℤ
  pub completion_tokens : ℤ
  pub total_tokens : ℤ

pub record Completion : Type 0 where
  pub message : Message
  pub finish_reason : FinishReason
  pub usage : Usage

pub record ModelProvider : Type 0 where
  pub model : String
  pub provider : String
  pub endpoint : String

pub data ToolChoiceMode : Type 0 where
  none auto function : ToolChoiceMode

pub record ToolChoice : Type 0 where
  pub mode : ToolChoiceMode
  pub function : String

-- `parameters` is raw JSON, which the gateway never reads.
pub record Tool : Type 0 where
  pub name : String
  pub description : String
  pub parameters : String

-- The sampling parameters are floats that the core carries and never computes with; they stand
-- as their texts.
pub record ChatRequest : Type 0 where
  pub model : String
  pub messages : List Message
  pub max_tokens : ℤ
  pub temperature : Option String
  pub top_p : Option String
  pub stop : List String
  pub tools : List Tool
  pub tool_choice : Option ToolChoice

pub record ChatResult : Type 0 where
  pub model : String
  pub provider : String
  pub substituted : Bool
  pub message : Message
  pub finish_reason : FinishReason
  pub usage : Usage

pub record QuotaDetail : Type 0 where
  pub limit : ℤ
  pub window_seconds : ℤ
  pub used : ℤ

pub record RateDecision : Type 0 where
  pub is_allowed : Bool
  pub retry_after : ℤ
  pub quota : Option QuotaDetail
