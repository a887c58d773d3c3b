-- ===== src/Api/Routes.antt =====
-- internal/api: New and the routes of server.go, and the handlers of handler.go.
use llmgateway_go.Prelude.{String, ◌==◌, List, Option, none, some, Bool, if◌then◌else◌}
use llmgateway_go.Prelude.Int.{ℤ, pos, ltz}
use llmgateway_go.Prelude.Results.{Result, ok, err}
use llmgateway_go.Gateway.Domain.{ChatRequest, ChatResult}
use llmgateway_go.Api.{ApiError, write_error, ChatFailure, write_chat_error}
use llmgateway_go.Api.Wire.{ChatRequestWire, Floats, wire_to_domain}
use llmgateway_go.Api.Decode.{Json, DecodeFailure, RawRequest, decode_chat_request}
use llmgateway_go.Api.Answer.{chat_response}
use llmgateway_go.Api.Server.{
  Request, nothing, health_ok, chat_body, Served, replied, panicked, Handler, Middleware, plain,
  written, correlation_id, recover_panic, max_body, authenticate, spliced,
}

pub record Config : Type 0 where
  pub addr : String
  pub read_header_timeout : ℤ
  pub read_timeout : ℤ
  pub write_timeout : ℤ
  pub idle_timeout : ℤ
  pub max_body_bytes : ℤ

abbrev or_text : String → String → String
or_text default s = if s == "" then default else s

-- if d <= 0 { d = default }
abbrev pub or_positive : ℤ → ℤ → ℤ
or_positive default d = if ltz (pos 0) d then d else default

abbrev pub with_defaults : Config → Config
with_defaults c = record {
  addr = or_text ":8080" c.addr;
  read_header_timeout = or_positive (pos 5_000_000_000) c.read_header_timeout;
  read_timeout = or_positive (pos 30_000_000_000) c.read_timeout;
  write_timeout = or_positive (pos 90_000_000_000) c.write_timeout;
  idle_timeout = or_positive (pos 120_000_000_000) c.idle_timeout;
  max_body_bytes = or_positive (pos 1_048_576) c.max_body_bytes;
}

-- What Chat does: it returns, or it panics.
pub data ChatEnd : Type 0 where
  returned : Result ChatFailure ChatResult → ChatEnd
  raised : ChatEnd

-- A nil interface is `none`. A probe says whether all is well.
pub record Deps (W : Type 0) : Type 0 where
  pub chat : Option (String → ChatRequest → W → ChatEnd × W)
  pub live : Option (W → Bool × W)
  pub ready : W → Bool × W
  pub request_middleware : List (Middleware W)
  pub panic_middleware : List (Middleware W)

pub record Server (W : Type 0) : Type 0 where
  pub config : Config
  pub chat : String → ChatRequest → W → ChatEnd × W
  pub live : W → Bool × W
  pub ready : W → Bool × W
  pub request_mw : List (Middleware W)
  pub panic_mw : List (Middleware W)

pub data ServerError : Type 0 where
  chat_required health_required : ServerError

abbrev pub built :
    {W : Type 0}
    → Config
    → Deps W
    → Option (String → ChatRequest → W → ChatEnd × W)
    → Option (W → Bool × W)
    → Result ServerError (Server W)
built c d none live = err chat_required
built c d (some chat) none = err health_required
built c d (some chat) (some live) = ok (record {
  config = with_defaults c;
  chat = chat;
  live = live;
  ready = d.ready;
  request_mw = d.request_middleware;
  panic_mw = d.panic_middleware;
})

-- New
unfoldable pub new_server : {W : Type 0} → Config → Deps W → Result ServerError (Server W)
new_server c d = built c d d.chat d.live

-- What the standard library gives the handlers: random texts, the time, the media type of a request
-- and the body as the decoder reads it, up to the limit.
pub record Library (W : Type 0) : Type 0 where
  pub json : Json
  pub floats : Floats
  pub random : W → String × W
  pub now : W → ℤ
  pub media_type : Request → Option String
  pub body : Request → Result DecodeFailure RawRequest

module _ {W : Type 0} (lib : Library W) where
  abbrev pub decoded : Request → Result ApiError ChatRequestWire
  unfolding decode_chat_request
  decoded r = decode_chat_request lib.json lib.floats (lib.media_type r) (lib.body r)

  abbrev pub answer_with : Request → ChatEnd × W → Served × W
  unfolding write_chat_error chat_response
  answer_with r (returned (ok res), w) =
      let (id, w') = lib.random w in
      (
        replied (record (plain 200 (chat_body (chat_response id (lib.now w') res))) {
          is_substituted = res.substituted;
        }),
        w',
      )
  answer_with r (returned (err f), w) = (replied (written r (write_chat_error f)), w)
  answer_with r (raised, w) = (panicked, w)

  abbrev pub drive :
      (String → ChatRequest → W → ChatEnd × W)
      → Request
      → W
      → Result ApiError ChatRequestWire
      → Served × W
  unfolding write_error wire_to_domain
  drive chat r w (err e) = (replied (written r (write_error e)), w)
  drive chat r w (ok wire) = answer_with r (chat r.api_key (wire_to_domain wire) w)

  -- Server.handleChat
  unfoldable pub handle_chat : (String → ChatRequest → W → ChatEnd × W) → Handler W
  unfolding decode_chat_request write_error write_chat_error chat_response wire_to_domain
  handle_chat chat r w = drive chat r w (decoded r)

  -- Server.handleHealthz
  unfoldable pub handle_healthz : (W → Bool × W) → Handler W
  handle_healthz live r w =
      let (fine, w') = live w in
      (replied (if fine then plain 200 health_ok else plain 503 nothing), w')

  -- Server.handleReadyz
  unfoldable pub handle_readyz : (W → Bool × W) → Handler W
  handle_readyz ready r w =
      let (fine, w') = ready w in
      (replied (if fine then plain 200 nothing else plain 503 nothing), w')

  -- The chain of the data path, outermost first, and that of the probes.
  unfoldable pub chain : Server W → Handler W → Handler W
  unfolding correlation_id recover_panic max_body authenticate spliced
  chain s h = correlation_id lib.random (
      spliced s.request_mw
        (recover_panic (spliced s.panic_mw (max_body s.config.max_body_bytes (authenticate h)))))

  unfoldable pub ops : Server W → Handler W → Handler W
  unfolding correlation_id recover_panic spliced
  ops s h = correlation_id lib.random (recover_panic (spliced s.panic_mw h))

-- The routes of the mux, which matches methods and paths.
pub data Route : Type 0 where
  chat healthz readyz : Route

-- Server.routes
unfoldable pub serve : {W : Type 0} → Library W → Server W → Route → Handler W
unfolding chain ops handle_chat handle_healthz handle_readyz
serve lib s chat = chain lib s (handle_chat lib s.chat)
serve lib s healthz = ops lib s (handle_healthz lib s.live)
serve lib s readyz = ops lib s (handle_readyz lib s.ready)
