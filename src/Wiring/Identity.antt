-- ===== src/Wiring/Identity.antt =====
-- cmd/gateway/main.go: newAppDirectory, and what stops the boot of the identity chain.
use llmgateway_go.Prelude.{
  String, ◌==◌, ◌≡◌, refl, Option, none, some, Bool, true, false, not, ◌&&◌, arith, Bool-cases, inl,
  inr, eqb, length,
}
use llmgateway_go.Prelude.Results.{Result, ok, err}
use llmgateway_go.Config.{Config}
use llmgateway_go.Auth.Jwks.{new_jwks_cache}
use llmgateway_go.Auth.Issuer.{
  Cluster, Discovered, not_sent, replied, FetchClient, AuthError, AskError,
  default_service_account_dir, new_fetch_client, ask, judged, verify_issuer, check_url,
  new_directory,
}
use llmgateway_go.Wiring.{after_checks, after_verdict, with_client, new_app_directory}

abbrev pub is_ok : {A : Type 0} → Result AuthError A → Bool
is_ok (ok a) = true
is_ok (err e) = false

-- The issuer that an answer advertises is another one.
abbrev pub is_other : String → Option String → Bool
is_other issuer none = false
is_other issuer (some found) = not (found == "") && not (found == issuer)

abbrev pub contradicts : String → Result AskError Discovered → Bool
contradicts issuer (err e) = false
contradicts issuer (ok not_sent) = false
contradicts issuer (ok (replied code found)) = eqb code 200 && is_other issuer found

-- What the identity chain cannot do without.
abbrev pub is_whole : Config → Bool
is_whole cfg =
    not (cfg.jwks.url == "")
    && (not (cfg.auth.issuer == "")
        && (not (cfg.auth.audience == "") && not (eqb (length cfg.auth.apps) 0)))

-- There is no client to ask with, or the cluster's answer contradicts the configuration.
abbrev pub is_stopped : {W : Type 0} → Cluster W → Config → Result AuthError FetchClient × W → Bool
is_stopped cluster cfg (err e, w) = true
is_stopped cluster cfg (ok client, w) =
    contradicts cfg.auth.issuer (ask cluster client cfg.jwks.url w).0

checks-whole : (cfg : Config) → is_ok (after_checks cfg (check_url cfg.jwks.url)) ≡ is_whole cfg
unfolding check_url new_directory new_jwks_cache
checks-whole cfg = ground arith

verdict-whole :
    (cfg : Config) (answer : Result AskError Discovered)
    → is_ok (after_verdict cfg (judged cfg.auth.issuer answer))
      ≡ not (contradicts cfg.auth.issuer answer) && is_whole cfg
unfolding after_verdict after_checks
verdict-whole cfg (err e) = checks-whole cfg
verdict-whole cfg (ok not_sent) = checks-whole cfg
verdict-whole cfg (ok (replied code none)) = elim (Bool-cases (eqb code 200)) [
  | inl y ↦ rw y (checks-whole cfg)
  | inr n ↦ rw n (checks-whole cfg)
]
verdict-whole cfg (ok (replied code (some found))) = elim (Bool-cases (eqb code 200)) [
  | inl y ↦ elim (Bool-cases (found == "")) [
    | inl z ↦ rw (y, z) (checks-whole cfg)
    | inr z ↦ elim (Bool-cases (found == cfg.auth.issuer)) [
      | inl same ↦ rw (y, z, same) (checks-whole cfg)
      | inr other ↦ rw (y, z, other) refl
    ]
  ]
  | inr n ↦ rw n (checks-whole cfg)
]

client-whole :
    {W : Type 0} (cluster : Cluster W) (cfg : Config) (made : Result AuthError FetchClient × W)
    → is_ok (with_client cluster cfg made).0 ≡ not (is_stopped cluster cfg made) && is_whole cfg
unfolding verify_issuer with_client after_verdict
client-whole cluster cfg (err e, w) = refl
client-whole cluster cfg (ok client, w) = verdict-whole cfg (ask cluster client cfg.jwks.url w).0

-- The boot of the identity chain goes through exactly if a client can be built, the configuration names
-- a URL, an issuer, an audience and an app, and no document that was read with a status of 200
-- advertises an issuer that is not the configured one: an issuer that cannot be asked stops nothing.
pub new_app_directory-starts :
    {W : Type 0} (cluster : Cluster W) (cfg : Config) (w : W)
    → is_ok (new_app_directory cluster cfg w).0 ≡ (
        let made = new_fetch_client cluster default_service_account_dir w in
        not (is_stopped cluster cfg made) && is_whole cfg)
unfolding new_app_directory
new_app_directory-starts cluster cfg w =
    client-whole cluster cfg (new_fetch_client cluster default_service_account_dir w)
