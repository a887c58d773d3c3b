-- ===== src/Tests/Boot.antt =====
-- A boot with the configuration of the tests, in a pod of a cluster whose apiserver fails first.
use llmgateway_go.Prelude.{
  All, ℕ, String, ◌==◌, [], ◌∷◌, ◌≡◌, refl, some, true, false, arith, eqb, if◌then◌else◌,
}
use llmgateway_go.Prelude.Int.{pos, ◌<ℤ◌}
use llmgateway_go.Prelude.Maps.{insert}
use llmgateway_go.Prelude.Sorted.{IsMap}
use llmgateway_go.Prelude.Results.{ok, err}
use llmgateway_go.Prelude.Texts.{trim, trim_left, trim_right, trim_space}
use llmgateway_go.ProviderKeys.{Cache}
use llmgateway_go.Config.{ProviderSecret}
use llmgateway_go.Api.Routes
use llmgateway_go.Api.Routes.{with_defaults}
use llmgateway_go.Config
use llmgateway_go.Slots
use llmgateway_go.Auth.Jwks.{new_jwks_cache}
use llmgateway_go.Auth.Issuer.{
  Cluster, mismatch, new_fetch_client, ask, round_trip, verify_issuer, discovery_url, check_url,
  new_directory, not_sent, replied,
}
use llmgateway_go.Wiring.{
  credentials, drain, new_app_directory, Files, Limiters, provider_names, unseen_providers,
}
use llmgateway_go.Wiring.Credentials.{Entered, credentials-built}
use llmgateway_go.Wiring.Drain.{drain-outlasts}
use llmgateway_go.Wiring.Identity.{is_ok, new_app_directory-starts}
use llmgateway_go.Tests.Config.{wire, accepted, config_read}

one_secret : IsMap wire.secret_source.providers
one_secret = (tt, tt)

credentials-built_example :
    (c : Cache) × (credentials accepted.secret_source ≡ ok c)
    × All (Entered wire.secret_source c) wire.secret_source.providers
credentials-built_example = credentials-built wire {cfg = accepted} one_secret config_read

abbrev server : Routes.Config
server = record {
  addr = "";
  read_header_timeout = pos 0;
  read_timeout = pos 0;
  write_timeout = pos 120_000_000_000;
  idle_timeout = pos 0;
  max_body_bytes = pos 0;
}

drain-outlasts_example : (with_defaults server).write_timeout <ℤ drain (pos 120_000_000_000)
drain-outlasts_example = drain-outlasts server (omega arith)

-- The cluster's answer names the issuer that is given, and there is none to the first question.
abbrev cluster : String → Cluster ℕ
cluster issuer = record {
  is_missing = λ path w. (false, w);
  read_file = λ path w. (some "pem\n", w);
  join_path = λ dir name. name;
  has_certificate = λ text. true;
  parse_url = λ u. some ("https", "keys");
  is_url = λ u. true;
  send = λ req w. if eqb w 0 then (not_sent, 1) else (replied 200 (some issuer), w);
}

goes_on : is_ok (new_app_directory (cluster "other") accepted 0).0 ≡ true
unfolding new_app_directory new_fetch_client verify_issuer ask round_trip discovery_url check_url
    new_directory new_jwks_cache trim_space trim trim_left trim_right insert
goes_on = refl

stops : (new_app_directory (cluster "other") accepted 1).0 ≡ err (mismatch "iss" "other")
unfolding new_app_directory new_fetch_client verify_issuer ask round_trip discovery_url check_url
    new_directory new_jwks_cache trim_space trim trim_left trim_right insert
stops = refl

new_app_directory-starts_example : is_ok (new_app_directory (cluster "iss") accepted 1).0 ≡ true
unfolding new_fetch_client verify_issuer ask round_trip discovery_url trim_space trim trim_left
    trim_right insert
new_app_directory-starts_example = new_app_directory-starts (cluster "iss") accepted 1

once_each : provider_names accepted ≡ "openai" ∷ "anthropic" ∷ []
unfolding provider_names unseen_providers
once_each = refl

abbrev files : Files
files = record {
  text = λ path. if path == "/password" then some " s3\n" else some "PEM";
  holds_certificate = λ pem. true;
  bytes = λ s. if s == "s3" then 115 ∷ 51 ∷ [] else [];
  split_host = λ addr. some "redis";
}

abbrev with_password : Config.Config
with_password = record accepted {
  redis = record { addr = "redis:6379"; tls = true; ca_path = "/ca"; password_path = "/password" };
}

abbrev limiters : Limiters
limiters = record {
  client = record {
    addr = "redis:6379";
    opts = record { tls = true; root_cas = some "PEM"; password = 115 ∷ 51 ∷ [] };
    server_name = "redis";
    size = 8;
    idle = [];
  };
  rps = ("agent", pos 0) ∷ ("rag", pos 5) ∷ [];
  budgets = ("agent", pos 0) ∷ ("rag", pos 1000) ∷ [];
  slotting = Slots.new (pos 8) (("agent", pos 8) ∷ ("rag", pos 4) ∷ []);
}
