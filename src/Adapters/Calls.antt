-- ===== src/Adapters/Calls.antt =====
-- The calls of an assistant turn, out to a provider and back, and the ids that Ollama's adapter makes.
use Prim.Native.String.{◌++◌ as ◌with◌}
use mathlib.Core.List.{append_assoc, append-nil}
use text.Mathlib.TextLemmas.{append_cancel_left, nil-append}
use llmgateway_go.Prelude.{
  ℕ, ◌+◌, ◌≡◌, ◌↔◌, ◌<◌, refl, ◌∙◌, String, ◌==◌, eq_iff, List, [], ◌∷◌, ◌++◌, map, true, false,
  arith, Bool-cases, inl, inr, All, length as count_of,
}
use llmgateway_go.Prelude.Results.{ok}
use llmgateway_go.Prelude.Maps.{Distinct}
use llmgateway_go.Prelude.Texts.{number_text, number_text-injective}
use llmgateway_go.Gateway.Domain.{Message, Usage, Completion, ToolCall, assistant, tool_calls}
use llmgateway_go.Adapters.OpenAi.{
  OpenaiMessage, OpenaiToolCall, OpenaiReplyCall, OpenaiChatResponse, openai_request_message,
  openai_to_domain, openai_call, openai_call_of,
}
use llmgateway_go.Adapters.Anthropic.{
  AnthropicChatResponse, is_tool, anthropic_request_message, anthropic_to_domain, add_blocks,
  use_block, text_blocks, anthropic_usage, empty_answer,
}
use llmgateway_go.Adapters.Ollama.{
  OllamaToolCall, OllamaChatResponse, ollama_to_domain, ollama_usage, ollama_finish, mint_calls,
}

-- A message of a request as a provider would repeat it in an answer.
abbrev repeat_call : OpenaiToolCall → OpenaiReplyCall
repeat_call c = record { id = c.id; function = c.function }

abbrev pub openai_repeats : OpenaiMessage → Usage → OpenaiChatResponse
openai_repeats m u = record {
  choices =
      (record {
        message = record {
          role = m.role;
          content = m.content;
          tool_calls = map repeat_call m.tool_calls;
        };
        finish_reason = "tool_calls";
      })
      ∷ [];
  usage = u;
}

repeated_calls :
    (tcs : List ToolCall) → map openai_call_of (map repeat_call (map openai_call tcs)) ≡ tcs
repeated_calls [] = refl
repeated_calls (tc ∷ rest) = cc (repeated_calls rest)

add_blocks-calls :
    (tcs : List ToolCall) (m : Message)
    → add_blocks (map use_block tcs) m ≡ record m { tool_calls = m.tool_calls ++ tcs }
unfolding add_blocks
add_blocks-calls [] m = cc (append-nil m.tool_calls)
add_blocks-calls (tc ∷ rest) m =
    add_blocks-calls rest (record m { tool_calls = m.tool_calls ++ tc ∷ [] })
    ∙ cc (append_assoc m.tool_calls (tc ∷ []) rest)

abbrev answer_of : Message → List ToolCall → Message
answer_of m tcs = record {
  role = assistant;
  content = m.content;
  tool_calls = tcs;
  tool_call_id = "";
}

add_blocks-turn :
    (m : Message)
    → add_blocks (text_blocks m.content ++ map use_block m.tool_calls) empty_answer
      ≡ answer_of m m.tool_calls
unfolding add_blocks
add_blocks-turn m = elim (Bool-cases (m.content == "")) [
  | inl e ↦ rw e (add_blocks-calls m.tool_calls empty_answer ∙ cc ((eq_iff m.content "").0 e))
  | inr e ↦ rw e (
      add_blocks-calls m.tool_calls (record empty_answer { content = "" with m.content })
      ∙ cc (nil-append m.content))
]

abbrev pub turn_of : Message → Usage → Completion
turn_of m u = record { message = answer_of m m.tool_calls; finish_reason = tool_calls; usage = u }

-- A turn with calls that is sent to OpenAI or Anthropic and comes back from it in the blocks of that wire
-- is the same turn: its text, and its calls in order with their ids, names and arguments.
pub calls_return :
    (m : Message) (u : Usage) (a : AnthropicChatResponse)
    → is_tool m.role ≡ false
    → a.stop_reason ≡ "tool_use"
    → a.content ≡ (anthropic_request_message m).content
    → (openai_to_domain (openai_repeats (openai_request_message m) u) ≡ ok (turn_of m u))
      × (anthropic_to_domain a ≡ ok (turn_of m (anthropic_usage a)))
unfolding openai_to_domain openai_request_message anthropic_request_message anthropic_to_domain
calls_return m u a t r c =
    (rw (repeated_calls m.tool_calls) refl, rw (c, r, t) (rw (add_blocks-turn m) refl))

-- The ids from one index on are distinct.
mint_calls-later :
    (tcs : List OllamaToolCall) (i k : ℕ)
    → i < k
    → All
        (λ y. (("call_" with number_text (i + 1)) == y) ≡ false)
        (map (λ c. c.id) (mint_calls k tcs))
unfolding mint_calls
mint_calls-later [] i k h = tt
mint_calls-later (tc ∷ rest) i k h = (
  elim (Bool-cases (("call_" with number_text (i + 1)) == ("call_" with number_text (k + 1)))) [
    | inl e ↦
        let same : i + 1 ≡ k + 1 = number_text-injective (i + 1) (k + 1) (
          append_cancel_left "call_" (number_text (i + 1)) (number_text (k + 1))
            ((eq_iff ("call_" with number_text (i + 1)) ("call_" with number_text (k + 1))).0 e)) in
        absurd (omega arith)
    | inr e ↦ e
  ],
  mint_calls-later rest i (k + 1) (omega arith),
)

mint_calls-Distinct :
    (tcs : List OllamaToolCall) (i : ℕ) → Distinct (map (λ c. c.id) (mint_calls i tcs))
unfolding mint_calls
mint_calls-Distinct [] i = tt
mint_calls-Distinct (tc ∷ rest) i =
    (mint_calls-later rest i (i + 1) (omega arith), mint_calls-Distinct rest (i + 1))

abbrev pub sent_call : OllamaToolCall → String × String
sent_call c = (c.function.name, c.function.arguments)

abbrev pub made_call : ToolCall → String × String
made_call c = (c.name, c.arguments)

mint_calls-made :
    (tcs : List OllamaToolCall) (i : ℕ) → map made_call (mint_calls i tcs) ≡ map sent_call tcs
unfolding mint_calls
mint_calls-made [] i = refl
mint_calls-made (tc ∷ rest) i = cc (mint_calls-made rest (i + 1))

finish_calls :
    (tcs : List OllamaToolCall) (reason : String)
    → (ollama_finish (mint_calls 0 tcs) reason ≡ tool_calls) ↔ (0 < count_of tcs)
unfolding mint_calls
finish_calls [] reason = (λ h. absurd (ground arith), λ h. absurd (omega arith))
finish_calls (tc ∷ rest) reason = (λ h. omega arith, λ h. refl)

-- A finished answer of Ollama becomes a completion whose calls are those of the answer in their order,
-- each with an id of its own, and which says that it calls tools exactly if it does.
pub ollama_to_domain-calls :
    (r : OllamaChatResponse)
    → r.done ≡ true
    → (c : Completion) × (ollama_to_domain r ≡ ok c)
      × (map made_call c.message.tool_calls ≡ map sent_call r.message.tool_calls)
      × Distinct (map (λ t. t.id) c.message.tool_calls)
      × ((c.finish_reason ≡ tool_calls) ↔ (0 < count_of r.message.tool_calls))
unfolding ollama_to_domain
ollama_to_domain-calls r h = (
  record {
    message = record {
      role = assistant;
      content = r.message.content;
      tool_calls = mint_calls 0 r.message.tool_calls;
      tool_call_id = "";
    };
    finish_reason = ollama_finish (mint_calls 0 r.message.tool_calls) r.done_reason;
    usage = ollama_usage r;
  },
  rw h refl,
  mint_calls-made r.message.tool_calls 0,
  mint_calls-Distinct r.message.tool_calls 0,
  finish_calls r.message.tool_calls r.done_reason,
)
