-- ===== src/Wiring.antt =====
-- cmd/gateway/main.go: how the process is put together from the file that was loaded. Files and
-- certificates are parameters.
use Prim.Native.String.{◌++◌ as ◌with◌}
pub mod Credentials
pub mod Drain
pub mod Identity
pub mod Limits
use llmgateway_go.Prelude.{
  ℕ, ◌+◌, String, ◌==◌, List, [], ◌∷◌, map, any, length, eqb, Option, none, some, Bool, true, false,
  not, ◌&&◌, if◌then◌else◌,
}
use llmgateway_go.Prelude.Int.{ℤ, pos, ltz, wrap64, ◌+ℤ◌}
use llmgateway_go.Prelude.Results.{Result, ok, err, and_then}
use llmgateway_go.Prelude.Texts.{trim_space}
use llmgateway_go.Gateway.Domain.{App, ModelProvider}
use llmgateway_go.Config
use llmgateway_go.Config.{AuthConfig, Config, AppLimits, ProviderSecret, SecretSource}
use llmgateway_go.ProviderKeys.{Source, Cache, fresh_entries}
use llmgateway_go.ProviderKeys.Vault.{Vault, VaultError, new_vault}
use llmgateway_go.Auth.Jwks.{JwksCache, new_jwks_cache}
use llmgateway_go.Auth.Issuer.{
  Cluster, FetchClient, AuthError, mismatch, default_service_account_dir, new_fetch_client,
  verify_issuer, check_url, new_directory,
}
use llmgateway_go.Slots.{Limiter}
use llmgateway_go.Slots
use llmgateway_go.Redis.Resp.{Bytes}
use llmgateway_go.Redis.Client.{Client, ClientError, Options, new_client}

-- ------------------------------------------------------------------ credentials

pub data Fetcher : Type 0 where
  vault : Vault → Fetcher
  file : Fetcher

pub data WiringError : Type 0 where
  of_vault : VaultError → WiringError
  no_fetcher : WiringError
  no_path : String → WiringError
  password_unread ca_unread no_certificate : WiringError
  of_client : ClientError → WiringError

abbrev pub vault_fetcher : Result VaultError Vault → Result WiringError (Option Fetcher)
vault_fetcher (err e) = err (of_vault e)
vault_fetcher (ok v) = ok (some (vault v))

-- newFetcher
unfoldable pub new_fetcher : SecretSource → Result WiringError (Option Fetcher)
unfolding new_vault
new_fetcher src =
    if src.kind == "vault"
    then vault_fetcher (
        new_vault (record {
          address = src.vault.address;
          role = src.vault.role;
          auth_path = src.vault.auth_path;
          token_path = "";
        }))
    else if src.kind == "file"
    then ok (some file)
    else ok none

abbrev pub key_source : ProviderSecret → Source
key_source src = record { path = src.path; refresh_interval = src.refresh_interval }

abbrev pub entries_of : List (String × ProviderSecret) → List (String × Source)
entries_of ps = map (λ e. (e.0, key_source e.1)) ps

abbrev pub sources_of : SecretSource → List (String × Source)
sources_of src = entries_of src.providers

-- The path that providerkeys.New refuses, if one is empty.
unfoldable pub pathless : List (String × Source) → Option String
pathless [] = none
pathless ((provider, src) ∷ rest) =
    let later = pathless rest in if src.path == "" then some provider else later

abbrev pub or_entries : List (String × Source) → Option String → Result WiringError Cache
or_entries sources none = ok (fresh_entries sources)
or_entries sources (some provider) = err (no_path provider)

abbrev pub is_nil : Option Fetcher → Bool
is_nil none = true
is_nil (some f) = false

-- providerkeys.New
unfoldable pub new_keys : Option Fetcher → List (String × Source) → Result WiringError Cache
unfolding pathless
new_keys fetch sources =
    if is_nil fetch && not (eqb (length sources) 0)
    then err no_fetcher
    else or_entries sources (pathless sources)

-- The part of newProviderClient that builds the cache.
unfoldable pub credentials : SecretSource → Result WiringError Cache
unfolding new_fetcher new_keys
credentials src = and_then (new_fetcher src) (λ fetch. new_keys fetch (sources_of src))

-- ------------------------------------------------------------------ limits

-- The host's files, and whether a bundle holds a certificate.
pub record Files : Type 0 where
  pub text : String → Option String
  pub holds_certificate : String → Bool
  pub bytes : String → Bytes
  pub split_host : String → Option String

abbrev pub password_of : Files → Option String → Result WiringError Bytes
unfolding trim_space
password_of files none = err password_unread
password_of files (some raw) = ok (files.bytes (trim_space raw))

abbrev pub checked_bundle : Files → Option String → Result WiringError (Option String)
checked_bundle files none = err ca_unread
checked_bundle files (some pem) =
    if files.holds_certificate pem then ok (some pem) else err no_certificate

abbrev pub read_password : Files → Config.Redis → Result WiringError Bytes
unfolding trim_space
read_password files cfg =
    if cfg.password_path == "" then ok [] else password_of files (files.text cfg.password_path)

abbrev pub check_bundle : Files → Config.Redis → Result WiringError (Option String)
check_bundle files cfg =
    if cfg.ca_path == "" then ok none else checked_bundle files (files.text cfg.ca_path)

-- redisOptions
unfoldable pub redis_options : Files → Config.Redis → Result WiringError Options
unfolding trim_space
redis_options files cfg = and_then (read_password files cfg) (λ password.
    and_then (check_bundle files cfg)
      (λ root_cas. ok (record { tls = cfg.tls; root_cas = root_cas; password = password })))

abbrev pub redis_pool_size : ℤ
redis_pool_size = pos 8

-- The limiters: the shared client, the limits of the two that count in Redis, and the slots.
pub record Limiters : Type 0 where
  pub client : Client
  pub rps : List (String × ℤ)
  pub budgets : List (String × ℤ)
  pub slotting : Limiter

abbrev pub limits_of : (AppLimits → ℤ) → Config → List (String × ℤ)
limits_of field cfg = map (λ e. (e.0, field e.1)) cfg.limits

abbrev pub connected : Result ClientError Client → Result WiringError Client
connected (ok client) = ok client
connected (err e) = err (of_client e)

-- newLimiters
unfoldable pub new_limiters : Files → Config → Result WiringError Limiters
unfolding redis_options new_client Slots.new
new_limiters files cfg = and_then (redis_options files cfg.redis) (λ opts.
    and_then (connected (new_client files.split_host cfg.redis.addr redis_pool_size opts))
      (λ client. ok (record {
        client = client;
        rps = limits_of (λ l. l.rps) cfg;
        budgets = limits_of (λ l. l.tokens_per_minute) cfg;
        slotting = Slots.new cfg.global_max_in_flight (limits_of (λ l. l.max_in_flight) cfg);
      })))

-- ------------------------------------------------------------------ labels, and the drain

-- appNames
abbrev pub app_names : Config → List String
app_names cfg = map (λ e. e.1.name) cfg.auth.apps

-- providerNames: each provider of the table once, where it is first.
unfoldable pub unseen_providers : List String → List ModelProvider → List String
unseen_providers seen [] = []
unseen_providers seen (mp ∷ rest) =
    let without = unseen_providers seen rest in
    let with_it = mp.provider ∷ unseen_providers (mp.provider ∷ seen) rest in
    if any (λ p. p == mp.provider) seen then without else with_it

unfoldable pub provider_names : Config → List String
unfolding unseen_providers
provider_names cfg = unseen_providers [] cfg.gateway.model_providers

-- defaultDrainTimeout and drainGrace
abbrev pub default_drain : ℤ
default_drain = pos 100_000_000_000

abbrev pub drain_grace : ℤ
drain_grace = pos 10_000_000_000

-- The budget of a shutdown in run.
unfoldable pub drain : ℤ → ℤ
unfolding wrap64 ◌+ℤ◌
drain write_timeout =
    if ltz (pos 0) write_timeout then wrap64 (write_timeout +ℤ drain_grace) else default_drain

-- ------------------------------------------------------------------ identity

abbrev pub after_checks :
    Config → Result AuthError (Unit {0}) → Result AuthError (AuthConfig × JwksCache)
unfolding new_directory new_jwks_cache
after_checks cfg (err e) = err e
after_checks cfg (ok u) = and_then (new_directory cfg.auth) (λ dir. ok (dir, new_jwks_cache))

-- Only a mismatch stops the boot: any other failure to verify the issuer is logged.
abbrev pub after_verdict :
    Config → Result AuthError (Unit {0}) → Result AuthError (AuthConfig × JwksCache)
unfolding check_url new_directory new_jwks_cache
after_verdict cfg (err (mismatch configured found)) = err (mismatch configured found)
after_verdict cfg _ = after_checks cfg (check_url cfg.jwks.url)

abbrev pub with_client :
    {W : Type 0}
    → Cluster W
    → Config
    → Result AuthError FetchClient × W
    → Result AuthError (AuthConfig × JwksCache) × W
unfolding verify_issuer check_url new_directory new_jwks_cache
with_client cluster cfg (err e, w) = (err e, w)
with_client cluster cfg (ok client, w) =
    let (verdict, w') = verify_issuer cluster client cfg.jwks.url cfg.auth.issuer w in
    (after_verdict cfg verdict, w')

-- newAppDirectory, without its decorators and the readiness that it registers
unfoldable pub new_app_directory :
    {W : Type 0} → Cluster W → Config → W → Result AuthError (AuthConfig × JwksCache) × W
unfolding new_fetch_client verify_issuer check_url new_directory new_jwks_cache
new_app_directory cluster cfg w =
    with_client cluster cfg (new_fetch_client cluster default_service_account_dir w)
