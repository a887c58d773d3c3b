-- ===== src/Config/Accepted.antt =====
-- What the layers may rely on, once a file was accepted.
use llmgateway_go.Prelude.{
  String, ◌==◌, map, ◌≡◌, ◌∙◌, ap, sym, subst, some, true, false, All, All-map, arith,
}
use llmgateway_go.Prelude.Int.{pos, ◌<ℤ◌}
use llmgateway_go.Prelude.Maps.{lookup, get_or}
use llmgateway_go.Prelude.Sorted.{sort_entries, All-sort_entries_of}
use llmgateway_go.Prelude.Results.{ok}
use llmgateway_go.Gateway.Domain.{App}
use llmgateway_go.Config.{Wire, Config, AppWire}
use llmgateway_go.Config.Policy.{policy_to_domain}
use llmgateway_go.Config.Secrets.{secrets_to_domain-Accepted, Whole}
use llmgateway_go.Config.Routes.{none_routed, load_routes-Loaded, Loaded, row, is_incomplete}
use llmgateway_go.Config.Apps.{Resolved, over_cap, no_tables}
use llmgateway_go.Config.Tables.{load_apps-Done}
use llmgateway_go.Config.Load.{to_domain, to_domain-Parts, Parts, is_routed, is_provider}

module _ (w : Wire) {cfg : Config} (h : to_domain w ≡ ok cfg) where
  abbrev parts : Parts w cfg
  parts = to_domain-Parts w h

  abbrev loaded : Loaded w.routes none_routed parts.routed
  loaded = load_routes-Loaded 0 w.routes none_routed parts.routes_loaded

  routed_model :
      (model : String) → get_or model false parts.routed.models ≡ true → is_routed w model ≡ true
  unfolding lookup
  routed_model model e = let q = loaded.models_of model in ground arith

  routed_name :
      (name : String) → get_or name false parts.routed.names ≡ true → is_provider w name ≡ true
  unfolding lookup
  routed_name name e = let q = loaded.names_of name in ground arith

-- The app that a subject of the file stands for, in the configuration of the layer that identifies
-- callers.
abbrev pub Stands : Wire → Config → String × AppWire → Type 0
Stands w cfg e =
    (app : App) × (lookup e.1.subject cfg.auth.apps ≡ some app)
    × (app.name ≡ e.0)
    × (app.total_deadline ≡ e.1.total_deadline)
    × (policy_to_domain e.1.failover_policy ≡ ok app.policy)
    × All (λ model. is_routed w model ≡ true) app.policy.allowed
    × ((e.1.subject == "") ≡ false)

-- In a file that is accepted, each app has a subject, and the directory of the layer that identifies
-- callers answers that subject with this app, its deadline and its policy, whose allowlist names only
-- models that some route serves. So no two apps share a subject.
pub to_domain-Stands : (w : Wire) {cfg : Config} → to_domain w ≡ ok cfg → All (Stands w cfg) w.apps
to_domain-Stands w {cfg} h =
    let p = parts w {cfg = cfg} h in
    let d =
      load_apps-Done w.server.global_max_in_flight p.routed.models (sort_entries w.apps) no_tables
        p.apps_loaded in
    All-map w.apps
      (λ e r. (
        r.app,
        subst (λ c. lookup e.1.subject c.auth.apps ≡ some r.app) (sym p.assembled) r.found,
        r.named,
        r.deadline,
        r.policy,
        All-map r.app.policy.allowed (routed_model w h) r.routable,
        r.has_subject,
      ))
      (All-sort_entries_of
        (λ e. Resolved w.server.global_max_in_flight p.routed.models e.0 e.1 p.tables) w.apps
        d.resolved)

-- In a file that is accepted, no app's ceiling of requests in flight exceeds the global cap, where
-- there is one.
pub to_domain-Capped :
    (w : Wire) {cfg : Config}
    → to_domain w ≡ ok cfg
    → All (λ e. over_cap cfg.global_max_in_flight e.1.max_in_flight ≡ false) cfg.limits
to_domain-Capped w {cfg} h =
    let p = parts w {cfg = cfg} h in
    let d =
      load_apps-Done w.server.global_max_in_flight p.routed.models (sort_entries w.apps) no_tables
        p.apps_loaded in
    subst (λ c. All (λ e. over_cap c.global_max_in_flight e.1.max_in_flight ≡ false) c.limits)
      (sym p.assembled) (d.capped tt)

-- In a file that is accepted, the secret source is of a known kind, with a vault block exactly where
-- it is read, and each secret has a path, a positive cadence and a provider that some route names.
pub to_domain-secrets :
    (w : Wire) {cfg : Config}
    → to_domain w ≡ ok cfg
    → Whole cfg.secret_source.kind cfg.secret_source.vault
      × All
          (λ e.
            ((e.1.path == "") ≡ false)
            × (pos 0 <ℤ e.1.refresh_interval)
            × (is_provider w e.0 ≡ true))
          cfg.secret_source.providers
to_domain-secrets w {cfg} h =
    let p = parts w {cfg = cfg} h in
    let a = secrets_to_domain-Accepted w.secret_source p.routed.names p.secrets_read in
    let e : cfg.secret_source ≡ p.secrets = ap (λ c. c.secret_source) p.assembled in
    rw e (
      a.vault_whole,
      All-map p.secrets.providers (λ e u. (u.0, u.1, routed_name w h e.0 u.2)) a.secrets_usable,
    )

-- In a file that is accepted, every route is complete, the core's table is the routes in the order of
-- the file, and the keys of the issuer are refreshed at a positive interval.
pub to_domain-routes :
    (w : Wire) {cfg : Config}
    → to_domain w ≡ ok cfg
    → All (λ r. is_incomplete r ≡ false) w.routes
      × (cfg.gateway.model_providers ≡ map row w.routes)
      × (pos 0 <ℤ cfg.jwks.refresh_interval)
to_domain-routes w {cfg} h =
    let p = parts w {cfg = cfg} h in
    let l = loaded w {cfg = cfg} h in
    let i = p.refreshes in
    (
      l.complete,
      ap (λ c. c.gateway.model_providers) p.assembled ∙ l.in_order,
      rw (ap (λ c. c.jwks) p.assembled) (ground arith),
    )
