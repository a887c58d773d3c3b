-- ===== src/Config/Apps.antt =====
-- The apps of the file: the second loop of wire.toDomain, over the sorted names.
use llmgateway_go.Prelude.{
  String, ◌==◌, List, [], ◌∷◌, ◌≡◌, sym, Option, none, some, Bool, true, false, ◌&&◌, All,
  Bool-cases, Option-cases, inl, inr, arith, if◌then◌else◌,
}
use llmgateway_go.Prelude.Int.{ℤ, pos, ltz}
use llmgateway_go.Prelude.Maps.{lookup, insert, get_or}
use llmgateway_go.Prelude.Results.{Result, ok, err, and_then, and_then-ok, ok-injective}
use llmgateway_go.Gateway.Domain.{App, FailoverPolicy}
use llmgateway_go.Config.{
  AppWire, AppLimits, ConfigError, subject_required, subject_taken, in_flight_over_cap, in_app,
  allowlist_unrouted,
}
use llmgateway_go.Config.Policy.{policy_to_domain}

-- apps and subjects are keyed by the subject, limits by the app's name.
pub record Tables : Type 0 where
  pub apps : List (String × App)
  pub limits : List (String × AppLimits)
  pub subjects : List (String × String)

abbrev pub no_tables : Tables
no_tables = record { apps = []; limits = []; subjects = [] }

abbrev unless_owned :
    {A : Type 0} → String → String → Option String → Result ConfigError A → Result ConfigError A
unless_owned name subject none r = r
unless_owned name subject (some owner) r = err (subject_taken name subject owner)

-- fmt.Errorf("app %q: %w", name, err)
abbrev for_app : {A : Type 0} → String → Result ConfigError A → Result ConfigError A
for_app name (ok a) = ok a
for_app name (err e) = err (in_app name e)

abbrev pub over_cap : ℤ → ℤ → Bool
over_cap cap limit = ltz (pos 0) cap && ltz cap limit

abbrev pub app_of : String → AppWire → FailoverPolicy → App
app_of name a policy = record { name = name; policy = policy; total_deadline = a.total_deadline }

abbrev pub enter : String → AppWire → Tables → FailoverPolicy → Tables
enter name a t policy = record {
  subjects = insert a.subject name t.subjects;
  apps = insert a.subject (app_of name a policy) t.apps;
  limits = insert name a.limits t.limits;
}

module _ (cap : ℤ) (routed_models : List (String × Bool)) where
  -- The loop over the allowlist.
  unfoldable pub first_unrouted : List String → Option String
  first_unrouted [] = none
  first_unrouted (model ∷ rest) =
      if get_or model false routed_models then first_unrouted rest else some model

  abbrev unless_unrouted : {A : Type 0} → String → Option String → A → Result ConfigError A
  unless_unrouted name none a = ok a
  unless_unrouted name (some model) a = err (allowlist_unrouted name model)

  abbrev admit : String → AppWire → Tables → FailoverPolicy → Result ConfigError Tables
  admit name a t policy =
      unless_unrouted name (first_unrouted policy.allowed) (enter name a t policy)

  unfoldable pub load_app : String → AppWire → Tables → Result ConfigError Tables
  load_app name a t =
      if a.subject == ""
      then err (subject_required name)
      else unless_owned name a.subject (lookup a.subject t.subjects) (
          if over_cap cap a.limits.max_in_flight
          then err (in_flight_over_cap name a.limits.max_in_flight cap)
          else and_then (for_app name (policy_to_domain a.failover_policy)) (admit name a t))

  unfoldable pub load_apps : List (String × AppWire) → Tables → Result ConfigError Tables
  load_apps [] t = ok t
  load_apps ((name, a) ∷ rest) t = and_then (load_app name a t) (load_apps rest)

  -- ---------------------------------------------------------------- what was accepted

  abbrev pub Routable : App → Type 0
  Routable app = All (λ model. get_or model false routed_models ≡ true) app.policy.allowed

  -- The app that a subject of the file stands for.
  pub record Resolved (name : String) (a : AppWire) (t : Tables) : Type 0 where
    pub app : App
    pub found : lookup a.subject t.apps ≡ some app
    pub owned : lookup a.subject t.subjects ≡ some name
    pub named : app.name ≡ name
    pub deadline : app.total_deadline ≡ a.total_deadline
    pub policy : policy_to_domain a.failover_policy ≡ ok app.policy
    pub routable : Routable app
    pub has_subject : (a.subject == "") ≡ false

  abbrev pub Capped : String × AppLimits → Type 0
  Capped e = over_cap cap e.1.max_in_flight ≡ false

  -- A step keeps what was entered before.
  abbrev pub Kept : Tables → Tables → Type 0
  Kept t t' =
      (s o : String)
      → lookup s t.subjects ≡ some o
      → (lookup s t'.subjects ≡ some o) × (lookup s t'.apps ≡ lookup s t.apps)

  pub first_unrouted-none :
      (allowed : List String)
      → first_unrouted allowed ≡ none
      → All (λ model. get_or model false routed_models ≡ true) allowed
  unfolding first_unrouted
  first_unrouted-none [] h = tt
  first_unrouted-none (model ∷ rest) h = elim (Bool-cases (get_or model false routed_models)) [
    | inl e ↦ (e, first_unrouted-none rest (rw e at h))
    | inr e ↦ absurd (ground arith)
  ]

  for_app-ok :
      {A : Type 0} (name : String) (r : Result ConfigError A) {a : A}
      → for_app name r ≡ ok a
      → r ≡ ok a
  for_app-ok name (ok a) h = h
  for_app-ok name (err e) h = cc

  -- What an app that was admitted has passed, and the tables after it.
  pub load_app-ok :
      (name : String) (a : AppWire) (t : Tables) {t' : Tables}
      → load_app name a t ≡ ok t'
      → (policy : FailoverPolicy) × (policy_to_domain a.failover_policy ≡ ok policy)
        × (first_unrouted policy.allowed ≡ none)
        × (t' ≡ enter name a t policy)
        × ((a.subject == "") ≡ false)
        × (lookup a.subject t.subjects ≡ none)
        × (over_cap cap a.limits.max_in_flight ≡ false)
  unfolding load_app
  load_app-ok name a t {t'} h = elim (Option-cases (lookup a.subject t.subjects)) [
    | inr (o, e) ↦ absurd (ground arith)
    | inl e ↦
        let h' : and_then (for_app name (policy_to_domain a.failover_policy)) (admit name a t)
            ≡ ok t' =
          ground arith in
        let (policy, p, f) =
          and_then-ok (for_app name (policy_to_domain a.failover_policy)) (admit name a t) h' in
        elim (Option-cases (first_unrouted policy.allowed)) [
          | inr (m, u) ↦ absurd (ground arith)
          | inl u ↦ (
            policy,
            for_app-ok name _ p,
            u,
            sym (ok-injective (rw u at f)),
            ground arith,
            e,
            ground arith,
          )
        ]
  ]
