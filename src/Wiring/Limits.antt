-- ===== src/Wiring/Limits.antt =====
-- cmd/gateway/main.go: newLimiters with redisOptions, over a configuration.
use llmgateway_go.Prelude.{String, ◌==◌, [], ◌≡◌, ◌⊎◌, Option, none, some, true, false}
use llmgateway_go.Prelude.Int.{ℤ}
use llmgateway_go.Prelude.Maps.{lookup}
use llmgateway_go.Prelude.Texts.{trim_space}
use llmgateway_go.Config
use llmgateway_go.Config.{Config, AppLimits}
use llmgateway_go.Slots
use llmgateway_go.Redis.Resp.{Bytes}
use llmgateway_go.Redis.Client.{Client, Options}
use llmgateway_go.Wiring.{Files, Limiters}

-- The password that a connection to Redis authenticates with, where a path for one is configured.
abbrev pub IsPassword : Files → Config.Redis → Bytes → Type 0
IsPassword files cfg password =
    (((cfg.password_path == "") ≡ true) × (password ≡ []))
    ⊎ (((cfg.password_path == "") ≡ false)
        × (raw : String) × (files.text cfg.password_path ≡ some raw)
        × (password ≡ files.bytes (trim_space raw)))

-- The root certificates are the bundle that is configured, which was read and holds a certificate, or the
-- host's where none is configured.
abbrev pub IsTrusted : Files → Config.Redis → Option String → Type 0
IsTrusted files cfg root_cas =
    (((cfg.ca_path == "") ≡ true) × (root_cas ≡ none))
    ⊎ (((cfg.ca_path == "") ≡ false)
        × (pem : String) × (files.text cfg.ca_path ≡ some pem)
        × (files.holds_certificate pem ≡ true)
        × (root_cas ≡ some pem))

abbrev pub limit_in : (AppLimits → ℤ) → Option AppLimits → Option ℤ
limit_in field none = none
limit_in field (some l) = some (field l)

abbrev pub IsSecured : Files → Config.Redis → Options → Type 0
IsSecured files cfg opts =
    IsPassword files cfg opts.password × IsTrusted files cfg opts.root_cas × (opts.tls ≡ cfg.tls)

abbrev pub IsLimited : Config → Limiters → Type 0
IsLimited cfg l =
    (app : String)
    → (lookup app l.rps ≡ limit_in (λ b. b.rps) (lookup app cfg.limits))
      × (lookup app l.budgets ≡ limit_in (λ b. b.tokens_per_minute) (lookup app cfg.limits))
      × (lookup app l.slotting.ceilings ≡ limit_in (λ b. b.max_in_flight) (lookup app cfg.limits))
