-- ===== src/Adapters/Turns.antt =====
-- What a conversation becomes in the dialects: the system prompt and the turns of Anthropic, and the
-- tool results of Ollama.
use llmgateway_go.Prelude.{
  String, ◌==◌, ◌≡◌, refl, sym, ◌∙◌, List, [], ◌∷◌, ◌++◌, map, Option, none, some, false, not,
  Bool-cases, Option-cases, inl, inr, if◌then◌else◌, keep, All,
}
use mathlib.Core.List.{append_assoc, append-nil}
use llmgateway_go.Prelude.Maps.{lookup, insert, lookup-insert, or_zero}
use llmgateway_go.Prelude.Texts.{join}
use llmgateway_go.Gateway.Domain.{
  ChatRequest, Message, Role, system, user, assistant, tool, ToolCall,
}
use llmgateway_go.Adapters.Exchange.{role_text}
use llmgateway_go.Adapters.Anthropic.{
  AnthropicMessage, anthropic_request, anthropic_request_message, is_system, is_tool, place,
}
use llmgateway_go.Adapters.Ollama.{
  OllamaMessage, OllamaToolCall, ollama_request, ollama_messages, ollama_call, answered_tool, learn,
}

place-keep :
    (ms : List Message) (texts : List String) (turns : List AnthropicMessage)
    → place ms texts turns ≡ (
      texts ++ map (λ m. m.content) (keep (λ m. is_system m.role) ms),
      turns ++ map anthropic_request_message (keep (λ m. not (is_system m.role)) ms),
    )
unfolding place
place-keep [] texts turns = cc (append-nil texts, append-nil turns)
place-keep (m ∷ rest) texts turns = elim (Bool-cases (is_system m.role)) [
  | inl e ↦ rw e (
      place-keep rest (texts ++ m.content ∷ []) turns
      ∙ cc (
          append_assoc texts (m.content ∷ [])
            (map (λ m. m.content) (keep (λ m. is_system m.role) rest))))
  | inr e ↦ rw e (
      place-keep rest texts (turns ++ anthropic_request_message m ∷ [])
      ∙ cc (
          append_assoc turns (anthropic_request_message m ∷ [])
            (map anthropic_request_message (keep (λ m. not (is_system m.role)) rest))))
]

role_text-system : (r : Role) → is_system r ≡ false → (role_text r == "system") ≡ false
role_text-system system h = cc
role_text-system user h = refl
role_text-system assistant h = refl
role_text-system tool h = refl

anthropic_request_message-role :
    (m : Message)
    → is_system m.role ≡ false
    → ((anthropic_request_message m).role == "system") ≡ false
unfolding anthropic_request_message
anthropic_request_message-role m h = elim (Bool-cases (is_tool m.role)) [
  | inl e ↦ rw e refl
  | inr e ↦ rw e (role_text-system m.role h)
]

All-turns :
    (ms : List Message)
    → All
        (λ (m : AnthropicMessage). (m.role == "system") ≡ false)
        (map anthropic_request_message (keep (λ m. not (is_system m.role)) ms))
All-turns [] = tt
All-turns (m ∷ rest) = elim (Bool-cases (is_system m.role)) [
  | inl e ↦ rw e (All-turns rest)
  | inr e ↦ rw e (anthropic_request_message-role m e, All-turns rest)
]

-- Anthropic gets the texts of the system messages, in order and joined by a blank line, as its system
-- prompt, and each other message in its place, translated, none of them with the role system.
pub anthropic_request-turns :
    (model : String) (req : ChatRequest)
    → ((anthropic_request model req).system
        ≡ join "\n\n" (map (λ m. m.content) (keep (λ m. is_system m.role) req.messages)))
      × ((anthropic_request model req).messages
          ≡ map anthropic_request_message (keep (λ m. not (is_system m.role)) req.messages))
      × All
          (λ (m : AnthropicMessage). (m.role == "system") ≡ false)
          (anthropic_request model req).messages
unfolding anthropic_request
anthropic_request-turns model req =
    rw (place-keep req.messages [] []) (refl, refl, All-turns req.messages)

-- The calls of the messages, and the name that the last call of an id has among them.
abbrev pub calls_in : List Message → List ToolCall
calls_in [] = []
calls_in (m ∷ rest) = m.tool_calls ++ calls_in rest

-- The later of two answers, where it is one.
abbrev or_earlier : Option String → Option String → Option String
or_earlier earlier none = earlier
or_earlier earlier (some name) = some name

abbrev pub last_named : String → List ToolCall → Option String
last_named id [] = none
last_named id (tc ∷ rest) =
    or_earlier (if tc.id == id then some tc.name else none) (last_named id rest)

or_earlier_assoc :
    (a b c : Option String) → or_earlier (or_earlier a b) c ≡ or_earlier a (or_earlier b c)
or_earlier_assoc a b none = refl
or_earlier_assoc a b (some name) = refl

lookup-learn :
    (id : String) (tcs : List ToolCall) (names : List (String × String))
    → lookup id (learn tcs names) ≡ or_earlier (lookup id names) (last_named id tcs)
unfolding learn
lookup-learn id [] names = refl
lookup-learn id (tc ∷ rest) names =
    lookup-learn id rest (insert tc.id tc.name names)
    ∙ rw (lookup-insert tc.id id tc.name names) (elim (Bool-cases (tc.id == id)) [
      | inl e ↦ rw e (or_earlier_assoc (lookup id names) (some tc.name) (last_named id rest))
      | inr e ↦ rw e (or_earlier_assoc (lookup id names) none (last_named id rest))
    ])

last_named-append :
    (id : String) (xs ys : List ToolCall)
    → last_named id (xs ++ ys) ≡ or_earlier (last_named id xs) (last_named id ys)
last_named-append id [] ys = elim (Option-cases (last_named id ys)) [
  | inl e ↦ rw e refl
  | inr (name, e) ↦ rw e refl
]
last_named-append id (tc ∷ rest) ys = rw (last_named-append id rest ys) (
    sym (
      or_earlier_assoc (if tc.id == id then some tc.name else none) (last_named id rest)
        (last_named id ys)))

-- The tool that a message answers: the last one called by its id before it.
abbrev pub tool_of : List ToolCall → Message → Role → String
tool_of before m tool = or_zero "" (last_named m.tool_call_id before)
tool_of before m _ = ""

abbrev sent_call : OllamaToolCall → String × String
sent_call c = (c.function.name, c.function.arguments)

abbrev made_call : ToolCall → String × String
made_call c = (c.name, c.arguments)

-- Each message has its role, its content and the calls that it makes.
abbrev pub Says : List ToolCall → List Message → List OllamaMessage → Type 0
Says before [] [] = Unit
Says before (m ∷ ms) (x ∷ xs) =
    ((x.role ≡ role_text m.role)
      × (x.content ≡ m.content)
      × (x.tool_name ≡ tool_of before m m.role)
      × (map sent_call x.tool_calls ≡ map made_call m.tool_calls))
    × Says (before ++ m.tool_calls) ms xs
Says before _ _ = ⊥

calls-sent : (tcs : List ToolCall) → map sent_call (map ollama_call tcs) ≡ map made_call tcs
calls-sent [] = refl
calls-sent (tc ∷ rest) = cc (calls-sent rest)

answered_tool-tool_of :
    (r : Role) (m : Message) (before : List ToolCall) (names : List (String × String))
    → lookup m.tool_call_id names ≡ last_named m.tool_call_id before
    → answered_tool m names r ≡ tool_of before m r
answered_tool-tool_of system m before names h = refl
answered_tool-tool_of user m before names h = refl
answered_tool-tool_of assistant m before names h = refl
answered_tool-tool_of tool m before names h = rw h refl

ollama_messages-Says :
    (before : List ToolCall) (ms : List Message) (names : List (String × String))
    → ((id : String) → lookup id names ≡ last_named id before)
    → Says before ms (ollama_messages ms names)
unfolding ollama_messages
ollama_messages-Says before [] names h = tt
ollama_messages-Says before (m ∷ rest) names h = (
  (
    refl,
    refl,
    answered_tool-tool_of m.role m before names (h m.tool_call_id),
    calls-sent m.tool_calls,
  ),
  ollama_messages-Says (before ++ m.tool_calls) rest (learn m.tool_calls names) (λ id.
      lookup-learn id m.tool_calls names ∙ cc (h id, last_named-append id before m.tool_calls)),
)

-- Ollama gets each message in its place with its role, its content and its calls, and with a tool result
-- the name of the last tool that was called by its id before it, or no name where none was.
pub ollama_request-Says :
    (model : String) (req : ChatRequest) → Says [] req.messages (ollama_request model req).messages
unfolding ollama_request
ollama_request-Says model req = ollama_messages-Says [] req.messages [] (λ id. refl)
