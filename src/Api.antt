-- ===== src/Api.antt =====
-- internal/api: handler.go and the error half of utils.go. What a refusal of the core becomes on the
-- wire: a status, the details that the contract promises, and a Retry-After header. The correlation ID
-- of the body, which a middleware makes, is left out.
pub mod Wire
pub mod Decode
pub mod Answer
pub mod Schema
pub mod Returned
pub mod Judgment
pub mod Server
pub mod Routes
pub mod Reached
pub mod Started
use llmgateway_go.Prelude.{
  ℕ, ◌+◌, ◌-◌, ◌*◌, ◌/◌, ◌^◌, ◌<◌, ◌≤◌, String, ◌==◌, ◌≡◌, ◌⊎◌, ◌↔◌, refl, Option, none, some, Bool,
  true, false, ◌&&◌, eqb, arith, if◌then◌else◌, inl, inr,
}
use llmgateway_go.Prelude.Int.{ℤ, pos, negsuc, ltz, wrap64, wrap64_id, ◌+ℤ◌, pos_add}
use llmgateway_go.Gateway.Domain.{QuotaDetail}
use llmgateway_go.Gateway.Faults.{
  ErrorCode, invalid_request, unauthorized, quota_exceeded, concurrency_ceiling, upstream_failed,
  model_unavailable, gateway_timeout, Error, Text,
}

-- The codes of the core, and those that only the edge has.
pub data WireCode : Type 0 where
  of_core : ErrorCode → WireCode
  unsupported_parameter payload_too_large unsupported_media_type internal_error : WireCode

-- A message is its format with its arguments.
pub data WireMessage : Type 0 where
  of_text : Text → WireMessage
  internal missing_api_key : WireMessage
  -- the schema: the numbers are those of a message or a tool
  stream_unsupported only_one temperature_range top_p_range : WireMessage
  role_unknown content_required call_id_required calls_misplaced : ℕ → WireMessage
  tool_type_unknown tool_name_required : ℕ → WireMessage
  tool_choice_text tool_choice_object : WireMessage
  -- the body
  body_type : WireMessage
  body_too_large : ℤ → WireMessage
  must_be : String → String → WireMessage
  unknown_parameter : String → WireMessage
  body_required body_not_json : WireMessage

-- A field that is empty is left out of the JSON.
pub record ErrorDetails : Type 0 where
  pub param : String
  pub retry_after_seconds : ℤ
  pub quota : Option QuotaDetail
  pub max_in_flight : ℤ
  pub requested_model : String

pub record ApiError : Type 0 where
  pub status : ℕ
  pub code : WireCode
  pub message : WireMessage
  pub details : Option ErrorDetails

unfoldable pub status_for : ErrorCode → ℕ
status_for invalid_request = 400
status_for unauthorized = 401
status_for quota_exceeded = 429
status_for concurrency_ceiling = 429
status_for upstream_failed = 502
status_for model_unavailable = 503
status_for gateway_timeout = 504

-- Go's division truncates towards zero.
abbrev seconds_of : ℤ → ℤ
seconds_of (pos n) = pos (n / 1_000_000_000)
seconds_of (negsuc n) = let q = (n + 1) / 1_000_000_000 in if eqb q 0 then pos 0 else negsuc (q - 1)

unfoldable pub ceil_seconds : ℤ → ℤ
ceil_seconds d = seconds_of (wrap64 (d +ℤ pos 999_999_999))

abbrev pub no_details : ErrorDetails
no_details = record {
  param = "";
  retry_after_seconds = pos 0;
  quota = none;
  max_in_flight = pos 0;
  requested_model = "";
}

abbrev details_of : Error → ErrorDetails
details_of e = record no_details {
  retry_after_seconds = if ltz (pos 0) e.retry_after then ceil_seconds e.retry_after else pos 0;
  quota = e.quota;
  max_in_flight = if ltz (pos 0) e.max_in_flight then e.max_in_flight else pos 0;
  requested_model = e.requested_model;
}

abbrev is_zero : ℤ → Bool
is_zero (pos n) = eqb n 0
is_zero (negsuc n) = false

abbrev is_none : {A : Type 0} → Option A → Bool
is_none none = true
is_none (some a) = false

-- d != (errorDetails{})
abbrev pub is_empty : ErrorDetails → Bool
is_empty d =
    d.param == ""
    && is_zero d.retry_after_seconds
    && is_none d.quota
    && is_zero d.max_in_flight
    && d.requested_model == ""

unfoldable pub from_gateway_error : Error → ApiError
from_gateway_error e = record {
  status = status_for e.code;
  code = of_core e.code;
  message = of_text e.message;
  details = if is_empty (details_of e) then none else some (details_of e);
}

-- What is written: a status, the header where it is set, and a body but for a caller that left.
pub record Written : Type 0 where
  pub status : ℕ
  pub retry_after : Option ℤ
  pub body : Option ApiError

abbrev retry_header : Option ErrorDetails → Option ℤ
retry_header none = none
retry_header (some d) =
    if ltz (pos 0) d.retry_after_seconds then some d.retry_after_seconds else none

unfoldable pub write_error : ApiError → Written
write_error e = record { status = e.status; retry_after = retry_header e.details; body = some e }

-- What Chat returned: an error of the core, a canceled context, or any other.
pub data ChatFailure : Type 0 where
  of_gateway : Error → ChatFailure
  canceled unknown : ChatFailure

abbrev internal_failure : ApiError
internal_failure = record {
  status = 500;
  code = internal_error;
  message = internal;
  details = none;
}

unfoldable pub write_chat_error : ChatFailure → Written
write_chat_error (of_gateway e) = write_error (from_gateway_error e)
write_chat_error canceled = record { status = 499; retry_after = none; body = none }
write_chat_error unknown = write_error internal_failure

-- ------------------------------------------------------------------ what a caller can rely on

ceil_seconds-bounds :
    (d : ℕ)
    → 0 < d
    → d < 2 ^ 62
    → (s : ℕ) × (ceil_seconds (pos d) ≡ pos s)
      × (0 < s)
      × (d ≤ s * 1_000_000_000)
      × (s * 1_000_000_000 < d + 1_000_000_000)
unfolding ceil_seconds
ceil_seconds-bounds d h small = (
  (d + 999_999_999) / 1_000_000_000,
  rw (pos_add d 999_999_999, wrap64_id (d + 999_999_999) (omega arith)) refl,
  omega arith,
  omega arith,
  omega arith,
)

-- The body of a refusal that says how many seconds to wait.
abbrev pub Says : Error → ℕ → Option ApiError → Type 0
Says e s none = ⊥
Says e s (some b) =
    (b.code ≡ of_core e.code)
    × (b.message ≡ of_text e.message)
    × (d : ErrorDetails) × (b.details ≡ some d)
    × (d.retry_after_seconds ≡ pos s)
    × (d.quota ≡ e.quota)
    × (d.requested_model ≡ e.requested_model)

-- A caller that is told to wait is told whole seconds: at least as long as the core asked for, and by
-- less than a second longer. The status is that of the code, and the body has the code, the core's message,
-- its quota and the model that was asked for unchanged, beside the seconds of the header.
pub write_chat_error-retry :
    (e : Error) (d : ℕ)
    → e.retry_after ≡ pos d
    → 0 < d
    → d < 2 ^ 62
    → ((write_chat_error (of_gateway e)).status ≡ status_for e.code)
      × ((s : ℕ) × ((write_chat_error (of_gateway e)).retry_after ≡ some (pos s))
          × (d ≤ s * 1_000_000_000)
          × (s * 1_000_000_000 < d + 1_000_000_000)
          × Says e s (write_chat_error (of_gateway e)).body)
unfolding write_chat_error write_error from_gateway_error
write_chat_error-retry e d r h small =
    let (s, q, p, l, u) = ceil_seconds-bounds d h small in
    let full : is_empty (details_of e) ≡ false = ground (arith, r, q, p, h) in
    (
      refl,
      (
        s,
        ground (arith, r, q, p, h),
        l,
        u,
        (refl, refl, details_of e, rw full refl, ground (arith, r, q, h), refl, refl),
      ),
    )

status_for-waits :
    (c : ErrorCode) → (status_for c ≡ 429) ↔ ((c ≡ quota_exceeded) ⊎ (c ≡ concurrency_ceiling))
unfolding status_for
status_for-waits invalid_request = (λ h. absurd (ground arith), λ h. absurd (ground arith))
status_for-waits unauthorized = (λ h. absurd (ground arith), λ h. absurd (ground arith))
status_for-waits quota_exceeded = (λ h. inl refl, λ h. refl)
status_for-waits concurrency_ceiling = (λ h. inr refl, λ h. refl)
status_for-waits upstream_failed = (λ h. absurd (ground arith), λ h. absurd (ground arith))
status_for-waits model_unavailable = (λ h. absurd (ground arith), λ h. absurd (ground arith))
status_for-waits gateway_timeout = (λ h. absurd (ground arith), λ h. absurd (ground arith))

status_for-answers : (c : ErrorCode) → (eqb (status_for c) 499) ≡ false
unfolding status_for
status_for-answers invalid_request = refl
status_for-answers unauthorized = refl
status_for-answers quota_exceeded = refl
status_for-answers concurrency_ceiling = refl
status_for-answers upstream_failed = refl
status_for-answers model_unavailable = refl
status_for-answers gateway_timeout = refl

-- The error of the core that a failure carries.
abbrev pub Carries : ChatFailure → (ErrorCode → Type 0) → Type 0
Carries (of_gateway e) P = P e.code
Carries _ P = ⊥

abbrev pub CanWait : ErrorCode → Type 0
CanWait c = (c ≡ quota_exceeded) ⊎ (c ≡ concurrency_ceiling)

-- The status 429 is that of the two refusals that a caller can wait out, and 499 that of a caller who
-- left, to whom alone no body is written.
pub write_chat_error-status :
    (f : ChatFailure)
    → (((write_chat_error f).status ≡ 429) ↔ Carries f CanWait)
      × (((write_chat_error f).status ≡ 499) ↔ ((write_chat_error f).body ≡ none))
unfolding write_chat_error write_error from_gateway_error
write_chat_error-status (of_gateway e) =
    (status_for-waits e.code, (λ h. absurd (ground (arith, status_for-answers e.code, h)), λ h. cc))
write_chat_error-status canceled =
    ((λ h. absurd (ground arith), λ h. absurd h), (λ h. refl, λ h. refl))
write_chat_error-status unknown =
    ((λ h. absurd (ground arith), λ h. absurd h), (λ h. absurd (ground arith), λ h. cc))
