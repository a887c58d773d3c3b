-- ===== src/Gateway/Request.antt =====
-- internal/gateway/chat.go: the invariants that the core checks of a request.
use llmgateway_go.Prelude.{
  ◌==◌, Option, none, some, List, [], ◌∷◌, Bool, true, false, length, ltb, if◌then◌else◌,
}
use llmgateway_go.Prelude.Int.{pos, ltz}
use llmgateway_go.Gateway.Domain.{ChatRequest}
use llmgateway_go.Gateway.Faults.{
  Error, Text, invalid_request, model_required, messages_required, max_tokens_required,
  too_many_stops,
}

invalid : Text → Error
invalid text = record {
  code = invalid_request;
  message = text;
  retry_after = pos 0;
  quota = none;
  max_in_flight = pos 0;
  requested_model = "";
}

is_empty {ℓ} : {A : Type ℓ} → List A → Bool
is_empty [] = true
is_empty (_ ∷ _) = false

-- ChatRequest.Validate; `none` is the nil error.
unfoldable pub validate : ChatRequest → Option Error
unfolding invalid is_empty
validate r =
    if r.model == ""
    then some (invalid model_required)
    else if is_empty r.messages
    then some (invalid messages_required)
    else if ltz r.max_tokens (pos 1)
    then some (invalid max_tokens_required)
    else if ltb 4 (length r.stop)
    then some (invalid too_many_stops)
    else none
