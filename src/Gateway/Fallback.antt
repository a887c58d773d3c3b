-- ===== src/Gateway/Fallback.antt =====
-- internal/gateway/fallback_logic_build.go: the ordered model providers that one request may use.
pub mod Listed
pub mod Order
pub mod Plan
pub mod Rank
use llmgateway_go.Prelude.{
  ℕ, ◌+◌, String, ◌==◌, List, [], ◌∷◌, ◌++◌, Bool, true, false, not, keep, length, ltb,
  any as any_of, if◌then◌else◌,
}
use llmgateway_go.Prelude.Maps.{lookup, insert, or_zero}
use llmgateway_go.Gateway.Domain.{
  ModelProvider, FailoverPolicy, PolicyKind, same_model, allowlist, any, unrecognized,
}

-- What Go returns as two results.
pub record Candidates : Type 0 where
  pub eligible : List ModelProvider
  pub constrained : Bool

-- The loop that splits the table.
abbrev pub serves : String → ModelProvider → Bool
serves requested r = r.model == requested

-- rank[provider] = i + 1, in order: a later entry of the same name overwrites.
fill_rank : ℕ → List String → List (String × ℕ) → List (String × ℕ)
fill_rank i [] rank = rank
fill_rank i (provider ∷ rest) rank = fill_rank (i + 1) rest (insert provider (i + 1) rank)

pub rank_of : List String → List (String × ℕ)
unfolding fill_rank
rank_of failover_order = fill_rank 0 failover_order []

pub provider_rank : List (String × ℕ) → String → ℕ
unfolding lookup
provider_rank rank provider = or_zero (length rank + 1) (lookup provider rank)

-- sort.SliceStable by a key: the standard library documents a stable sort, and a stable sort by a
-- key has one result, which insertion computes.
insert_by : (ModelProvider → ℕ) → ModelProvider → List ModelProvider → List ModelProvider
insert_by key r [] = r ∷ []
insert_by key r (x ∷ xs) = if ltb (key x) (key r) then x ∷ insert_by key r xs else r ∷ x ∷ xs

pub stable_sort : (ModelProvider → ℕ) → List ModelProvider → List ModelProvider
unfolding insert_by
stable_sort key [] = []
stable_sort key (x ∷ xs) = insert_by key x (stable_sort key xs)

-- `allowed[model]`, over the names added so far.
pub is_in : List String → String → Bool
is_in [] model = false
is_in (n ∷ names) model = if n == model then true else is_in names model

-- The loop over the allowlist: the rows it appends, and the set it leaves.
pub append_allowed :
    String → List ModelProvider → List String → List String → List ModelProvider × List String
unfolding is_in
append_allowed requested rest [] allowed = ([], allowed)
append_allowed requested rest (model ∷ models) allowed =
    let skipped = append_allowed requested rest models allowed in
    let added = append_allowed requested rest models (model ∷ allowed) in
    if model == requested
    then skipped
    else if is_in allowed model
    then skipped
    else (keep (serves model) rest ++ added.0, added.1)

unfoldable pub is_nil : List ModelProvider → Bool
is_nil [] = true
is_nil (_ ∷ _) = false

-- The switch on the policy, once some row serves the model.
follow :
    String
    → FailoverPolicy
    → PolicyKind
    → List ModelProvider
    → List ModelProvider
    → List String
    → Candidates
unfolding rank_of provider_rank stable_sort is_in append_allowed is_nil
follow requested policy any primary rest failover_order = record {
  eligible = primary ++ stable_sort (λ r. provider_rank (rank_of failover_order) r.provider) rest;
  constrained = false;
}
follow requested policy allowlist primary rest failover_order =
    let (appended, allowed) = append_allowed requested rest policy.allowed [] in
    record {
      eligible = primary ++ appended;
      constrained = any_of (λ r. not (is_in allowed r.model)) rest;
    }
follow requested policy _ primary rest failover_order = record {
  eligible = primary;
  constrained = not (is_nil rest);
}

unfoldable pub build_models_providers_fallback :
    String → FailoverPolicy → List ModelProvider → List String → Candidates
unfolding follow is_nil
build_models_providers_fallback requested policy model_providers failover_order =
    let primary = keep (serves requested) model_providers in
    let rest = keep (λ r. not (serves requested r)) model_providers in
    if is_nil primary
    then record { eligible = []; constrained = not (is_nil model_providers) }
    else follow requested policy policy.kind primary rest failover_order
