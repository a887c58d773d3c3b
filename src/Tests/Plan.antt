-- ===== src/Tests/Plan.antt =====
-- Plans for a small table of model providers.
use llmgateway_go.Prelude.{
  ◌≡◌, refl, String, List, [], ◌∷◌, ◌++◌, true, false, not, ◌&&◌, count, any as any_of,
}
use llmgateway_go.Prelude.Maps.{insert}
use llmgateway_go.Gateway.Domain.{ModelProvider, FailoverPolicy, allowlist, any}
use llmgateway_go.Gateway.Fallback.{serves, rank_of, provider_rank, build_models_providers_fallback}
use llmgateway_go.Gateway.Fallback.Plan.{usable, count-eligible, constrained_iff_excluded}
use llmgateway_go.Gateway.Fallback.Rank.{repeated_rank_ties}

abbrev row : String → String → ModelProvider
row m p = record { model = m; provider = p; endpoint = "https://" }

abbrev table : List ModelProvider
table =
    row "large" "ollama" ∷ row "small" "openai" ∷ row "large" "openai" ∷ row "mini" "anthropic" ∷ []

abbrev order : List String
order = "openai" ∷ "anthropic" ∷ "ollama" ∷ []

abbrev open_to_any : FailoverPolicy
open_to_any = record { kind = any; allowed = [] }

abbrev picky : FailoverPolicy
picky = record { kind = allowlist; allowed = "mini" ∷ "large" ∷ "mini" ∷ [] }

picky_plan : build_models_providers_fallback "large" picky table order ≡ record {
  eligible = row "large" "ollama" ∷ row "large" "openai" ∷ row "mini" "anthropic" ∷ [];
  constrained = true;
}
unfolding build_models_providers_fallback
picky_plan = refl

any_plan : build_models_providers_fallback "small" open_to_any table order ≡ record {
  eligible =
      row "small" "openai"
      ∷ row "large" "openai"
      ∷ row "mini" "anthropic"
      ∷ row "large" "ollama"
      ∷ [];
  constrained = false;
}
unfolding build_models_providers_fallback insert
any_plan = refl

count-eligible_example :
    count (serves "mini") (build_models_providers_fallback "large" picky table order).eligible
    ≡ count (λ r. usable "large" picky table r && serves "mini" r) table
count-eligible_example = count-eligible (serves "mini") "large" picky table order

constrained_iff_excluded_example :
    (build_models_providers_fallback "large" picky table order).constrained
    ≡ any_of (λ r. not (usable "large" picky table r)) table
constrained_iff_excluded_example = constrained_iff_excluded "large" picky table order

repeated_rank_ties_example :
    provider_rank (rank_of ("openai" ∷ "openai" ∷ [] ++ "ollama" ∷ [])) "anthropic"
    ≡ provider_rank (rank_of ("openai" ∷ "openai" ∷ [] ++ "ollama" ∷ [])) "ollama"
repeated_rank_ties_example =
    repeated_rank_ties "openai" "ollama" "anthropic" [] ((refl, tt), (tt, tt)) refl
