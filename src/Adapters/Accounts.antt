-- ===== src/Adapters/Accounts.antt =====
-- The three adapters behind the one interface that the router calls, and what their failures cost.
use Prim.Native.String.{◌++◌ as ◌with◌}
use llmgateway_go.Prelude.Texts.{trim_suffix}
use llmgateway_go.Prelude.{
  ℕ, String, ◌≡◌, refl, ◌⊎◌, inl, inr, ◌↔◌, List, [], ◌∷◌, Option, none, some, Bool, true, false,
  ◌||◌, arith, ◌∙◌, Bool-cases,
}
use llmgateway_go.Prelude.Results.{Result, ok, err}
use llmgateway_go.Prelude.Maps.{lookup}
use llmgateway_go.Gateway.Domain.{
  ChatRequest, ModelProvider, Completion, Usage, Message, FinishReason, assistant,
}
use llmgateway_go.Gateway.Faults.{
  ProviderFault, fault, AttemptError, bills_despite_failure, unobserved_tokens,
}
use llmgateway_go.Gateway.Ports.{Outcome, completed, failed}
use llmgateway_go.Providers.{TransportError, bad_response_fault}
use llmgateway_go.Adapters.Exchange.{
  Http, HttpRequest, Response, lost, replied, Codec, exchange, max_response_bytes,
}
use llmgateway_go.Adapters.OpenAi.{
  OpenaiChatRequest, OpenaiChatResponse, OpenaiReplyChoice, openai_to_domain, openai_first,
  openai_answer, openai_finish, openai_request, complete_openai,
}
use llmgateway_go.Adapters.Anthropic.{
  AnthropicChatRequest, AnthropicChatResponse, AnthropicContent, anthropic_to_domain,
  anthropic_usage, anthropic_answer, anthropic_finish, add_block, add_blocks, empty_answer,
  anthropic_request, complete_anthropic,
}
use llmgateway_go.Adapters.Ollama.{
  OllamaChatRequest, OllamaChatResponse, ollama_to_domain, ollama_usage, ollama_request,
  complete_ollama,
}

-- A ProviderClient of one of the three packages.
pub data Adapter (W : Type 0) : Type 0 where
  openai : Codec OpenaiChatRequest OpenaiChatResponse → (W → String) → Adapter W
  anthropic : Codec AnthropicChatRequest AnthropicChatResponse → (W → String) → Adapter W
  ollama : Codec OllamaChatRequest OllamaChatResponse → (W → String) → Adapter W

pub complete_with :
    {W : Type 0} → Http W → Adapter W → ModelProvider → ChatRequest → W → Outcome × W
unfolding complete_openai complete_anthropic complete_ollama
complete_with http (openai codec key) = complete_openai codec http key
complete_with http (anthropic codec key) = complete_anthropic codec http key
complete_with http (ollama codec key) = complete_ollama codec http key

-- The usage that an answer says, with the answer that the core gets of it.
abbrev pub Reports : Usage → Result ProviderFault Completion → Type 0
Reports u (ok c) = (c.usage ≡ u) × (c.message.role ≡ assistant)
Reports u (err f) = f ≡ bad_response_fault (some u)

openai_answer-Reports :
    (u : Usage) (c : OpenaiReplyChoice) (o : Option FinishReason) → Reports u (openai_answer u c o)
openai_answer-Reports u c none = refl
openai_answer-Reports u c (some finish) = (refl, refl)

openai_first-Reports : (u : Usage) (cs : List OpenaiReplyChoice) → Reports u (openai_first u cs)
openai_first-Reports u [] = refl
openai_first-Reports u (c ∷ rest) = openai_answer-Reports u c (lookup c.finish_reason openai_finish)

openai_to_domain-Reports : (r : OpenaiChatResponse) → Reports r.usage (openai_to_domain r)
unfolding openai_to_domain
openai_to_domain-Reports r = openai_first-Reports r.usage r.choices

anthropic_answer-Reports :
    (u : Usage) (m : Message) (o : Option FinishReason)
    → m.role ≡ assistant
    → Reports u (anthropic_answer u m o)
anthropic_answer-Reports u m none h = refl
anthropic_answer-Reports u m (some finish) h = (refl, h)

add_blocks-role : (bs : List AnthropicContent) (m : Message) → (add_blocks bs m).role ≡ m.role
unfolding add_blocks
add_blocks-role [] m = refl
add_blocks-role (b ∷ rest) m = add_blocks-role rest (add_block b m) ∙ ground arith

anthropic_to_domain-Reports :
    (r : AnthropicChatResponse) → Reports (anthropic_usage r) (anthropic_to_domain r)
unfolding anthropic_to_domain
anthropic_to_domain-Reports r =
    anthropic_answer-Reports (anthropic_usage r) (add_blocks r.content empty_answer)
      (lookup r.stop_reason anthropic_finish) (add_blocks-role r.content empty_answer)

ollama_to_domain-Reports : (r : OllamaChatResponse) → Reports (ollama_usage r) (ollama_to_domain r)
unfolding ollama_to_domain
ollama_to_domain-Reports r = elim (Bool-cases r.done) [
  | inl e ↦ rw e (refl, refl)
  | inr e ↦ rw e refl
]

-- An answer of a provider that was decoded becomes a completion of the assistant with the usage that
-- it reports, or a bad_response fault with that usage, in each of the three dialects.
pub to_domain-Reports :
    (o : OpenaiChatResponse) (a : AnthropicChatResponse) (l : OllamaChatResponse)
    → Reports o.usage (openai_to_domain o)
      × Reports (anthropic_usage a) (anthropic_to_domain a)
      × Reports (ollama_usage l) (ollama_to_domain l)
to_domain-Reports o a l =
    (openai_to_domain-Reports o, anthropic_to_domain-Reports a, ollama_to_domain-Reports l)

-- A body that was read, and a time that ran out.
abbrev read_status : Result TransportError String → ℕ → Option ℕ
read_status (ok raw) status = some status
read_status (err e) status = none

abbrev pub answered : Response → Option ℕ
answered (lost e) = none
answered (replied status body) = read_status (body max_response_bytes) status

abbrev read_timed_out : Result TransportError String → Bool
read_timed_out (ok raw) = false
read_timed_out (err e) = e.is_deadline || e.is_net_timeout

abbrev pub timed_out : Response → Bool
timed_out (lost e) = e.is_deadline || e.is_net_timeout
timed_out (replied status body) = read_timed_out (body max_response_bytes)

-- What one exchange with a provider comes to.
abbrev pub Accounted : Response → Outcome → Type 0
Accounted r (completed c) = answered r ≡ some 200
Accounted r (failed e) =
    ((f : ProviderFault) × (e ≡ fault f))
    × ((bills_despite_failure e ≡ true) ↔ ((timed_out r ≡ true) ⊎ (answered r ≡ some 200)))

-- Where an address takes no request or there is no encoded body, nothing is sent, which is told as an answer
-- of no use. Otherwise one request is, with the address and that body, and its end is accounted for.
abbrev pub Exchanged : {W : Type 0} → Http W → String → Option String → W → Outcome × W → Type 0
Exchanged http url encoded w out =
    (((encoded ≡ none) ⊎ (http.is_url url ≡ false))
      × (out ≡ (failed (fault (bad_response_fault none)), w)))
    ⊎ ((r : HttpRequest) × (http.is_url url ≡ true)
        × (r.url ≡ url)
        × (encoded ≡ some r.body)
        × (out.1 ≡ (http.send r w).1)
        × Accounted (http.send r w).0 out.0)

-- Where an adapter sends a request, and its body: what encoding/json makes of the translated request.
abbrev pub address_of : {W : Type 0} → Adapter W → ModelProvider → String
unfolding trim_suffix
address_of (openai codec key) mp = trim_suffix b'/' mp.endpoint with "/chat/completions"
address_of (anthropic codec key) mp = trim_suffix b'/' mp.endpoint with "/messages"
address_of (ollama codec key) mp = trim_suffix b'/' mp.endpoint with "/api/chat"

abbrev pub encoded_by : {W : Type 0} → Adapter W → String → ChatRequest → Option String
unfolding openai_request anthropic_request ollama_request
encoded_by (openai codec key) model req = codec.marshal (openai_request model req)
encoded_by (anthropic codec key) model req = codec.marshal (anthropic_request model req)
encoded_by (ollama codec key) model req = codec.marshal (ollama_request model req)

-- Whether encoding/json takes the translated request.
abbrev pub CannotEncode : {W : Type 0} → Adapter W → String → ChatRequest → Type 0
CannotEncode (openai codec key) model req = codec.marshal (openai_request model req) ≡ none
CannotEncode (anthropic codec key) model req = codec.marshal (anthropic_request model req) ≡ none
CannotEncode (ollama codec key) model req = codec.marshal (ollama_request model req) ≡ none

-- A request that cannot be encoded, such as one with tool arguments that are not JSON, is never sent, and
-- is billed all the same, with the most tokens that the caller allowed.
pub unencodable_billed :
    {W : Type 0} (http : Http W) (a : Adapter W) (mp : ModelProvider) (req : ChatRequest) (w : W)
    → CannotEncode a mp.model req
    → (f : AttemptError) × (complete_with http a mp req w ≡ (failed f, w))
      × (bills_despite_failure f ≡ true)
      × (unobserved_tokens f req ≡ req.max_tokens)
unfolding complete_with complete_openai complete_anthropic complete_ollama exchange
    bad_response_fault bills_despite_failure unobserved_tokens
unencodable_billed http (openai codec key) mp req w h =
    (fault (bad_response_fault none), rw h refl, refl, refl)
unencodable_billed http (anthropic codec key) mp req w h =
    (fault (bad_response_fault none), rw h refl, refl, refl)
unencodable_billed http (ollama codec key) mp req w h =
    (fault (bad_response_fault none), rw h refl, refl, refl)
