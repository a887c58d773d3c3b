-- ===== src/Config.antt =====
-- internal/config/config.go: the configuration file and the layers' configurations that it becomes.
--
-- The YAML decoder is third-party code: what it read is the input of this model.
pub mod Policy
pub mod Secrets
pub mod Routes
pub mod Apps
pub mod Tables
pub mod Load
pub mod Accepted
use llmgateway_go.Prelude.{ℕ, String, List, Bool}
use llmgateway_go.Prelude.Int.{ℤ, pos}
use llmgateway_go.Gateway.Domain.{App}
use llmgateway_go.Gateway.Ports.{Config as GatewayConfig}

-- ------------------------------------------------------------------ the file

pub record ServerWire : Type 0 where
  pub listen : String
  pub max_body_bytes : ℤ
  pub global_max_in_flight : ℤ
  pub total_deadline : ℤ
  pub per_try_deadline : ℤ
  pub read_header_timeout : ℤ
  pub read_timeout : ℤ
  pub write_timeout : ℤ
  pub idle_timeout : ℤ

pub record AuthWire : Type 0 where
  pub issuer : String
  pub audience : String
  pub jwks_url : String
  pub refresh_interval : ℤ

pub record RouteWire : Type 0 where
  pub model : String
  pub provider : String
  pub endpoint : String

-- AppLimits has the same fields; the code converts one to the other.
pub record AppLimits : Type 0 where
  pub rps : ℤ
  pub tokens_per_minute : ℤ
  pub max_in_flight : ℤ

pub record PolicyWire : Type 0 where
  pub kind : String
  pub allowlist : List String

pub record AppWire : Type 0 where
  pub subject : String
  pub total_deadline : ℤ
  pub limits : AppLimits
  pub failover_policy : PolicyWire

pub record Redis : Type 0 where
  pub addr : String
  pub tls : Bool
  pub ca_path : String
  pub password_path : String

pub record Vault : Type 0 where
  pub address : String
  pub role : String
  pub auth_path : String

-- A provider's secret, in the file and after it was read.
pub record ProviderSecret : Type 0 where
  pub path : String
  pub refresh_interval : ℤ

pub record SecretSourceWire : Type 0 where
  pub kind : String
  pub refresh_interval : ℤ
  pub vault : Vault
  pub providers : List (String × ProviderSecret)

pub record Telemetry : Type 0 where
  pub otlp_endpoint : String

pub record Wire : Type 0 where
  pub server : ServerWire
  pub auth : AuthWire
  pub routes : List RouteWire
  pub failover_order : List String
  pub apps : List (String × AppWire)
  pub redis : Redis
  pub secret_source : SecretSourceWire
  pub telemetry : Telemetry

-- ------------------------------------------------------------------ the layers

-- api.Config
pub record ServerConfig : Type 0 where
  pub addr : String
  pub read_header_timeout : ℤ
  pub read_timeout : ℤ
  pub write_timeout : ℤ
  pub idle_timeout : ℤ
  pub max_body_bytes : ℤ

-- auth.Config
pub record AuthConfig : Type 0 where
  pub issuer : String
  pub audience : String
  pub apps : List (String × App)

pub record Jwks : Type 0 where
  pub url : String
  pub refresh_interval : ℤ

pub record SecretSource : Type 0 where
  pub kind : String
  pub vault : Vault
  pub providers : List (String × ProviderSecret)

pub record Config : Type 0 where
  pub server : ServerConfig
  pub gateway : GatewayConfig
  pub auth : AuthConfig
  pub jwks : Jwks
  pub limits : List (String × AppLimits)
  pub global_max_in_flight : ℤ
  pub redis : Redis
  pub secret_source : SecretSource
  pub telemetry : Telemetry

-- The messages of the errors, with their arguments.
pub data ConfigError : Type 0 where
  -- what the YAML decoder or the policy's own decoder refused
  policy_shape : ConfigError
  policy_unknown : String → ConfigError
  policy_empty_allowlist : ConfigError
  auth_interval_not_positive : ConfigError
  route_incomplete : ℕ → ConfigError
  secret_kind_unknown : String → ConfigError
  secret_kind_required secret_interval_not_positive vault_incomplete : ConfigError
  vault_unread : String → ConfigError
  secret_path_required secret_unrouted secret_provider_interval : String → ConfigError
  subject_required : String → ConfigError
  -- the app, the subject and its owner
  subject_taken : String → String → String → ConfigError
  in_flight_over_cap : String → ℤ → ℤ → ConfigError
  policy_kind : String → ConfigError
  in_app : String → ConfigError → ConfigError
  -- the app and the model
  allowlist_unrouted : String → String → ConfigError

-- defaultRefreshInterval: five minutes, in nanoseconds
abbrev pub default_refresh_interval : ℤ
default_refresh_interval = pos 300_000_000_000
