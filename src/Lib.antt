-- ===== src/Lib.antt =====
-- Verification library of LLMGateway-Go, an HTTP gateway in front of several LLM providers.
--
-- A request enters at the edge (internal/api), is identified by its token (internal/auth), metered
-- in three currencies (internal/redis for requests and tokens, internal/slots for slots in flight),
-- routed by the core (internal/gateway) and sent to a provider through internal/providers. The core
-- declares the interfaces and calls them; the other packages implement them.
--
-- Files:
--   Prelude           lists, Go maps as association lists, 64-bit integers
--   Gateway/Domain    the types of internal/gateway: gateway_domain.go, policy.go, tool.go, chat.go
--   Gateway/Faults    internal/gateway/errors.go
--   Gateway/Request   ChatRequest.Validate of internal/gateway/chat.go
--   Gateway/Fallback  internal/gateway/fallback_logic_build.go: the plan of a request, with Plan and Listed for
--                     its rows, Order for their order and Rank for the ranks
--   Gateway/Ports     the interfaces, Config and New of internal/gateway/llm_gateway.go
--   Gateway/Service   Service.Chat: one function for each part of the method, in its order;
--                     its child Wired runs it over Slots
--   Slots             internal/slots/limiter.go
--   Config            internal/config/config.go: toDomain, with Policy, Secrets, Routes, Apps and Load
--                     for its parts, Secrets/Reads for the secrets of the file and Accepted for what an
--                     accepted file guarantees
--   Redis             internal/redis: Resp, Client and Pool are client.go, with Framing, Replies and Asked for
--                     what it writes, reads and answers, and Dialed and Settled for how a
--                     connection begins and ends; Limiter and TokenLimiter stand on an interface of the server
--   Auth              internal/auth: Token is token.go, Jwks is jwks.go with directory.go; Issuer is
--                     client.go, discovery.go and refresher.go; Genuine, Static and Warm hold the
--                     theorems
--   Metrics           internal/metrics/gateway: Keyed is keyed.go, Recorder is usagerecorder.go and
--                     Attempts providerclient.go; Tally, Sums, Reported and Attempted compare the counters with
--                     what was reported and attempted
--   ProviderKeys      internal/providerkeys/cache.go: its steps; Flight and Keep are invariants of them;
--                     Loops is RefreshAll and KeepFresh, with Refreshed for what they leave in force;
--                     Vault is vault.go and file.go, with Fetched for the conversations of a fetch
--   Providers         internal/providers/router.go and internal/shared/utils.go
--   Adapters          internal/openai, internal/anthropic and internal/ollama: Exchange is what their
--                     Complete methods share; OpenAi, Anthropic and Ollama are the dialects; Accounts,
--                     Turns and Calls hold the theorems
--   Api               internal/api: handler.go and utils.go, errors on the wire; Wire, Decode and Answer are
--                     openapi.go, with Schema, Returned and Judgment for what they accept and say; Server
--                     is middleware.go, Routes is server.go with the handlers, Reached and Started hold
--                     their theorems
--   Health            internal/health/checker.go, with the conditions that cmd/gateway/main.go registers
--   Wiring            cmd/gateway/main.go: the functions that build the identity chain, the cache of
--                     credentials and the limiters, and the budget of a shutdown; Credentials, Identity,
--                     Limits and Drain hold their theorems
--   Tests             runs on concrete inputs
--
-- `Chat` runs over ports that are functions of a world that the environment chooses, and keeps a
-- trace of what it did, so that its theorems hold whatever the ports answer. No loop needs fuel:
-- each runs over a list.
--
-- Third-party and library code stands as parameters: the YAML decoder, the Redis server (its commands,
-- with what Redis documents of them), base64, JSON and RSA (one record of functions), the HTTP client
-- and the clock.
--
-- Not modelled: the text of messages (a message is its format with the arguments), the causes of
-- faults, floats (temperature and top_p are carried as texts, and the edge compares them by a
-- parameter), times of deadlines on sockets, and panics but for those that the edge recovers. Of the
-- packages: the log decorators, the exporters, the metrics decorators but for the usage recorder and
-- the provider client, and of cmd/gateway the order of run and what only passes objects on.
pub mod Adapters
pub mod Api
pub mod Auth
pub mod Config
pub mod Gateway
pub mod Health
pub mod Metrics
pub mod Prelude
pub mod ProviderKeys
pub mod Providers
pub mod Redis
pub mod Slots
pub mod Tests
pub mod Wiring
