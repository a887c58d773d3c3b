-- ===== src/Config/Load.antt =====
-- The whole file: wire.toDomain.
use llmgateway_go.Prelude.{String, ◌==◌, ◌≡◌, sym, Bool, false, any, arith, if◌then◌else◌}
use llmgateway_go.Prelude.Int.{pos, ltz}
use llmgateway_go.Prelude.Sorted.{sort_entries}
use llmgateway_go.Prelude.Results.{Result, ok, err, and_then, and_then-ok, ok-injective}
use llmgateway_go.Config.{
  Wire, Config, ConfigError, SecretSource, auth_interval_not_positive, default_refresh_interval,
}
use llmgateway_go.Config.Secrets.{secrets_to_domain, or_default}
use llmgateway_go.Config.Routes.{Routed, none_routed, load_routes}
use llmgateway_go.Config.Apps.{Tables, no_tables, load_apps}

abbrev pub config_of : Wire → Routed → SecretSource → Tables → Config
config_of w r secrets t = record {
  server = record {
    addr = w.server.listen;
    read_header_timeout = w.server.read_header_timeout;
    read_timeout = w.server.read_timeout;
    write_timeout = w.server.write_timeout;
    idle_timeout = w.server.idle_timeout;
    max_body_bytes = w.server.max_body_bytes;
  };
  gateway = record {
    model_providers = r.providers;
    failover_order = w.failover_order;
    total_deadline = w.server.total_deadline;
    per_try_deadline = w.server.per_try_deadline;
  };
  auth = record { issuer = w.auth.issuer; audience = w.auth.audience; apps = t.apps };
  jwks = record {
    url = w.auth.jwks_url;
    refresh_interval = or_default default_refresh_interval w.auth.refresh_interval;
  };
  limits = t.limits;
  global_max_in_flight = w.server.global_max_in_flight;
  redis = w.redis;
  secret_source = secrets;
  telemetry = w.telemetry;
}

abbrev finish : Wire → Routed → SecretSource → Tables → Result ConfigError Config
finish w r secrets t = ok (config_of w r secrets t)

abbrev load_tables : Wire → Routed → SecretSource → Result ConfigError Config
load_tables w r secrets =
    and_then (load_apps w.server.global_max_in_flight r.models (sort_entries w.apps) no_tables)
      (finish w r secrets)

abbrev load_secrets : Wire → Routed → Result ConfigError Config
load_secrets w r = and_then (secrets_to_domain w.secret_source r.names) (load_tables w r)

unfoldable pub to_domain : Wire → Result ConfigError Config
to_domain w =
    if ltz w.auth.refresh_interval (pos 0)
    then err auth_interval_not_positive
    else and_then (load_routes 0 w.routes none_routed) (load_secrets w)

-- Whether some route serves a model, and whether some route names a provider.
abbrev pub is_routed : Wire → String → Bool
is_routed w model = any (λ r. r.model == model) w.routes

abbrev pub is_provider : Wire → String → Bool
is_provider w name = any (λ r. r.provider == name) w.routes

-- The parts of a file that was accepted.
pub record Parts (w : Wire) (cfg : Config) : Type 0 where
  pub routed : Routed
  pub secrets : SecretSource
  pub tables : Tables
  pub routes_loaded : load_routes 0 w.routes none_routed ≡ ok routed
  pub secrets_read : secrets_to_domain w.secret_source routed.names ≡ ok secrets
  pub apps_loaded :
      load_apps w.server.global_max_in_flight routed.models (sort_entries w.apps) no_tables
      ≡ ok tables
  pub assembled : cfg ≡ config_of w routed secrets tables
  pub refreshes : ltz w.auth.refresh_interval (pos 0) ≡ false

pub to_domain-Parts : (w : Wire) {cfg : Config} → to_domain w ≡ ok cfg → Parts w cfg
unfolding to_domain
to_domain-Parts w {cfg} h =
    let i : ltz w.auth.refresh_interval (pos 0) ≡ false = ground arith in
    let h' : and_then (load_routes 0 w.routes none_routed) (load_secrets w) ≡ ok cfg =
      ground arith in
    let (r, er, f) = and_then-ok (load_routes 0 w.routes none_routed) (load_secrets w) h' in
    let (s, es, g) = and_then-ok (secrets_to_domain w.secret_source r.names) (load_tables w r) f in
    let (t, et, k) =
      and_then-ok (load_apps w.server.global_max_in_flight r.models (sort_entries w.apps) no_tables)
        (finish w r s) g in
    record {
      routed = r;
      secrets = s;
      tables = t;
      routes_loaded = er;
      secrets_read = es;
      apps_loaded = et;
      assembled = sym (ok-injective k);
      refreshes = i;
    }
