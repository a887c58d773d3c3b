-- ===== src/Config/Routes.antt =====
-- The routes of the file: the first loop of wire.toDomain, with the two sets that it fills.
use llmgateway_go.Prelude.{
  ℕ, ◌+◌, String, ◌==◌, List, [], ◌∷◌, ◌++◌, map, ◌≡◌, refl, ap, ◌∙◌, subst, Bool, true, false,
  ◌||◌, any, All, Bool-cases, inl, inr, arith, if◌then◌else◌,
}
use llmgateway_go.Prelude.Maps.{insert, get_or, lookup-insert}
use llmgateway_go.Prelude.Results.{Result, ok, err, ok-injective}
use llmgateway_go.Gateway.Domain.{ModelProvider}
use llmgateway_go.Config.{RouteWire, ConfigError, route_incomplete}

pub record Routed : Type 0 where
  pub providers : List ModelProvider
  pub models : List (String × Bool)
  pub names : List (String × Bool)

abbrev pub none_routed : Routed
none_routed = record { providers = []; models = []; names = [] }

abbrev pub row : RouteWire → ModelProvider
row r = record { model = r.model; provider = r.provider; endpoint = r.endpoint }

abbrev pub is_incomplete : RouteWire → Bool
is_incomplete r = r.model == "" || r.provider == "" || r.endpoint == ""

abbrev add_route : RouteWire → Routed → Routed
add_route r acc = record {
  providers = acc.providers ++ (row r ∷ []);
  models = insert r.model true acc.models;
  names = insert r.provider true acc.names;
}

unfoldable pub load_routes : ℕ → List RouteWire → Routed → Result ConfigError Routed
load_routes i [] acc = ok acc
load_routes i (r ∷ rest) acc =
    if is_incomplete r then err (route_incomplete i) else load_routes (i + 1) rest (add_route r acc)

-- ------------------------------------------------------------------ what was accepted

-- What a set of names holds, where it starts as `before` and gets the names of `rows`.
abbrev pub Names :
    (RouteWire → String) → List RouteWire → List (String × Bool) → List (String × Bool) → Type 0
Names name rows before after =
    (s : String)
    → get_or s false after ≡ (if any (λ r. name r == s) rows then true else get_or s false before)

pub record Loaded (rows : List RouteWire) (before after : Routed) : Type 0 where
  pub complete : All (λ r. is_incomplete r ≡ false) rows
  pub in_order : after.providers ≡ before.providers ++ map row rows
  pub models_of : Names (λ r. r.model) rows before.models after.models
  pub names_of : Names (λ r. r.provider) rows before.names after.names

append_cons :
    {A : Type 0} (xs : List A) (y : A) (ys : List A) → (xs ++ (y ∷ [])) ++ ys ≡ xs ++ (y ∷ ys)
append_cons [] y ys = refl
append_cons (x ∷ xs) y ys = rw (append_cons xs y ys)

append_nil : {A : Type 0} (xs : List A) → xs ≡ xs ++ []
append_nil [] = refl
append_nil (x ∷ xs) = ap (λ t. x ∷ t) (append_nil xs)

pub load_routes-Loaded :
    (i : ℕ) (rows : List RouteWire) (acc : Routed) {after : Routed}
    → load_routes i rows acc ≡ ok after
    → Loaded rows acc after
unfolding load_routes
load_routes-Loaded i [] acc h = subst (Loaded [] acc) (ok-injective h) (record {
  complete = tt;
  in_order = append_nil acc.providers;
  models_of = λ s. refl;
  names_of = λ s. refl;
})
load_routes-Loaded i (r ∷ rest) acc {after} h = elim (Bool-cases (is_incomplete r)) [
  | inl e ↦ absurd (ground arith)
  | inr e ↦
      let l = load_routes-Loaded (i + 1) rest (add_route r acc) {after = after} (rw e at h) in
      record {
        complete = (e, l.complete);
        in_order = l.in_order ∙ append_cons acc.providers (row r) (map row rest);
        models_of =
            λ s. let q = l.models_of s in ground (arith, lookup-insert r.model s true acc.models);
        names_of =
            λ s. let q = l.names_of s in ground (arith, lookup-insert r.provider s true acc.names);
      }
]
