-- ===== src/Tests/Config.antt =====
-- A configuration file, read.
use llmgateway_go.Prelude.{String, List, [], ◌∷◌, map, ◌≡◌, refl, none, some, true, false, All}
use llmgateway_go.Prelude.Int.{pos}
use llmgateway_go.Prelude.Maps.{lookup, insert}
use llmgateway_go.Prelude.Sorted.{sort_entries, insert_entry}
use llmgateway_go.Prelude.Results.{ok, err}
use llmgateway_go.Gateway.Domain.{same_model, allowlist}
use llmgateway_go.Config.{
  Wire, Config, AppWire, PolicyWire, RouteWire, SecretSourceWire, subject_taken, secret_unrouted,
  policy_unknown,
}
use llmgateway_go.Config.Policy.{Node, unmarshal, policy_to_domain}
use llmgateway_go.Config.Secrets.{secrets_to_domain, secrets_of, secret_of, vault_of, or_mount}
use llmgateway_go.Config.Routes.{load_routes, row}
use llmgateway_go.Config.Apps.{app_of, load_apps, load_app, first_unrouted}
use llmgateway_go.Config.Load.{to_domain, config_of}
use llmgateway_go.Config.Accepted.{Stands, to_domain-Stands}

abbrev policy_node : Node
policy_node = record {
  is_scalar = false;
  as_text = none;
  as_lists = some (("allowlist", "claude" ∷ []) ∷ []);
}

abbrev pub read_policy : PolicyWire
read_policy = record { kind = "allowlist"; allowlist = "claude" ∷ [] }

typo :
    unmarshal (record { is_scalar = true; as_text = some "anny"; as_lists = none })
    ≡ err (policy_unknown "anny")
unfolding unmarshal
typo = refl

abbrev pub rag : AppWire
rag = record {
  subject = "sa:rag";
  total_deadline = pos 0;
  limits = record { rps = pos 5; tokens_per_minute = pos 1000; max_in_flight = pos 4 };
  failover_policy = read_policy;
}

abbrev pub agent : AppWire
agent = record {
  subject = "sa:agent";
  total_deadline = pos 9;
  limits = record { rps = pos 0; tokens_per_minute = pos 0; max_in_flight = pos 8 };
  failover_policy = record { kind = ""; allowlist = [] };
}

abbrev pub routes : List RouteWire
routes =
    record { model = "gpt"; provider = "openai"; endpoint = "https://a" }
    ∷ record { model = "claude"; provider = "anthropic"; endpoint = "https://b" }
    ∷ []

abbrev pub secret_source : SecretSourceWire
secret_source = record {
  kind = "vault";
  refresh_interval = pos 0;
  vault = record { address = "https://vault"; role = "gateway"; auth_path = "" };
  providers = ("openai", record { path = "kv/openai"; refresh_interval = pos 7 }) ∷ [];
}

abbrev pub file : List (String × AppWire) → Wire
file apps = record {
  server = record {
    listen = ":8080";
    max_body_bytes = pos 1000;
    global_max_in_flight = pos 8;
    total_deadline = pos 60;
    per_try_deadline = pos 20;
    read_header_timeout = pos 0;
    read_timeout = pos 0;
    write_timeout = pos 0;
    idle_timeout = pos 0;
  };
  auth = record {
    issuer = "iss";
    audience = "aud";
    jwks_url = "https://keys";
    refresh_interval = pos 0;
  };
  routes = routes;
  failover_order = "openai" ∷ "anthropic" ∷ [];
  apps = apps;
  redis = record { addr = "redis:6379"; tls = false; ca_path = ""; password_path = "" };
  secret_source = secret_source;
  telemetry = record { otlp_endpoint = "" };
}

abbrev pub wire : Wire
wire = file (("rag", rag) ∷ ("agent", agent) ∷ [])

abbrev pub accepted : Config
accepted =
    config_of wire
      (record {
        providers = map row routes;
        models = ("gpt", true) ∷ ("claude", true) ∷ [];
        names = ("openai", true) ∷ ("anthropic", true) ∷ [];
      })
      (record {
        kind = "vault";
        vault = record {
          address = "https://vault";
          role = "gateway";
          auth_path = "auth/kubernetes";
        };
        providers = ("openai", record { path = "kv/openai"; refresh_interval = pos 7 }) ∷ [];
      })
      (record {
        apps =
            ("sa:agent", app_of "agent" agent (record { kind = same_model; allowed = [] }))
            ∷ ("sa:rag", app_of "rag" rag (record { kind = allowlist; allowed = "claude" ∷ [] }))
            ∷ [];
        limits = ("agent", agent.limits) ∷ ("rag", rag.limits) ∷ [];
        subjects = ("sa:agent", "agent") ∷ ("sa:rag", "rag") ∷ [];
      })

pub config_read : to_domain wire ≡ ok accepted
unfolding to_domain load_routes secrets_to_domain vault_of or_mount secrets_of secret_of load_apps
    load_app first_unrouted policy_to_domain sort_entries insert_entry lookup insert
config_read = refl

to_domain-Stands_example : All (Stands wire accepted) wire.apps
to_domain-Stands_example = to_domain-Stands wire {cfg = accepted} config_read

-- The apps are read in the order of their names, so that the error is the same on each boot.
shared_subject :
    to_domain (file (("rag", rag) ∷ ("copy", rag) ∷ [])) ≡ err (subject_taken "rag" "sa:rag" "copy")
unfolding to_domain load_routes secrets_to_domain vault_of or_mount secrets_of secret_of load_apps
    load_app first_unrouted policy_to_domain sort_entries insert_entry lookup insert
shared_subject = refl

misspelt_provider :
    secrets_to_domain
      (record secret_source {
        providers = ("opanai", record { path = "k"; refresh_interval = pos 0 }) ∷ [];
      })
      (("openai", true) ∷ [])
    ≡ err (secret_unrouted "opanai")
unfolding secrets_to_domain vault_of or_mount secrets_of secret_of sort_entries insert_entry lookup
    insert
misspelt_provider = refl
