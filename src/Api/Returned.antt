-- ===== src/Api/Returned.antt =====
-- internal/api/openapi.go: the message of an answer as a turn of the next request.
use llmgateway_go.Prelude.{
  ◌≡◌, refl, subst, String, ◌==◌, eq_iff, List, [], ◌∷◌, map, Bool, ◌||◌, not, eqb, arith,
  Bool-cases, inl, inr, length as count_of,
}
use llmgateway_go.Gateway.Domain.{Message, assistant, ToolCall}
use llmgateway_go.Api.Wire.{message_to_domain, call_to_domain}
use llmgateway_go.Api.Answer.{call_to_wire, message_to_wire}
use llmgateway_go.Api.Schema.{IsTurn}

calls_return : (tcs : List ToolCall) → map call_to_domain (map call_to_wire tcs) ≡ tcs
calls_return [] = refl
calls_return (tc ∷ rest) = cc (calls_return rest)

count-map : {A B : Type 0} (f : A → B) (xs : List A) → count_of (map f xs) ≡ count_of xs
count-map f [] = refl
count-map f (x ∷ rest) = cc (count-map f rest)

abbrev answer : String → List ToolCall → Message
answer text tcs = record { role = assistant; content = text; tool_calls = tcs; tool_call_id = "" }

-- Whether messageToWire writes a content.
abbrev is_written : String → List ToolCall → Bool
is_written text tcs = not (text == "") || eqb (count_of tcs) 0

answer-IsTurn : (text : String) (tcs : List ToolCall) → IsTurn (message_to_wire (answer text tcs))
unfolding message_to_wire
answer-IsTurn text tcs = record {
  known = inr (inr (inl refl));
  spoken = elim (Bool-cases (is_written text tcs)) [
    | inl e ↦ inl (rw e refl)
    | inr e ↦ inr (refl, ground (arith, e, count-map call_to_wire tcs))
  ];
  answering = λ h. absurd (ground (arith, (eq_iff "assistant" "tool").1 h));
  calling = λ h. refl;
}

answer_returns :
    (text : String) (tcs : List ToolCall)
    → message_to_domain (message_to_wire (answer text tcs)) ≡ answer text tcs
unfolding message_to_wire message_to_domain
answer_returns text tcs = elim (Bool-cases (is_written text tcs)) [
  | inl e ↦ rw (e, calls_return tcs) refl
  | inr e ↦
      let no_text : text ≡ "" = (eq_iff text "").0 (ground (arith, e)) in
      rw (e, calls_return tcs) (rw no_text refl)
]

-- The message of an answer is one that the edge takes as a request's turn, so that a caller may send it back, and
-- means the same then: its text, and its calls with their ids, names and arguments.
pub message_to_wire-returns :
    (m : Message)
    → m.role ≡ assistant
    → m.tool_call_id ≡ ""
    → IsTurn (message_to_wire m) × (message_to_domain (message_to_wire m) ≡ m)
message_to_wire-returns m r t =
    let same : answer m.content m.tool_calls ≡ m = cc (r, t) in
    subst (λ m. IsTurn (message_to_wire m) × (message_to_domain (message_to_wire m) ≡ m)) same
      (answer-IsTurn m.content m.tool_calls, answer_returns m.content m.tool_calls)
