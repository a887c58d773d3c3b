-- ===== src/Gateway/Fallback/Listed.antt =====
-- internal/gateway/fallback_logic_build.go: the rows of a plan beside those of the table.
use llmgateway_go.Prelude.{
  String, ◌==◌, ◌≡◌, refl, eq_refl, List, [], ◌∷◌, Bool, true, false, not, ◌&&◌, All, All-map,
  arith, any, count, count-zero, ◌∙◌,
}
use llmgateway_go.Gateway.Domain.{ModelProvider, FailoverPolicy}
use llmgateway_go.Gateway.Fallback.{build_models_providers_fallback}
use llmgateway_go.Gateway.Fallback.Plan.{usable, count-eligible}

abbrev pub same_row : ModelProvider → ModelProvider → Bool
same_row a b = a.model == b.model && a.provider == b.provider && a.endpoint == b.endpoint

-- Some row of the table is this one.
unfoldable pub is_listed : List ModelProvider → ModelProvider → Bool
is_listed table r = any (same_row r) table

listed : (table : List ModelProvider) → All (λ r. is_listed table r ≡ true) table
unfolding is_listed
listed [] = tt
listed (x ∷ xs) = (
  ground (arith, eq_refl x.model, eq_refl x.provider, eq_refl x.endpoint),
  All-map xs (λ r (h : is_listed xs r ≡ true). ground (arith, h)) (listed xs),
)

count-false : {A : Type 0} (p : A → Bool) (xs : List A) → All (λ x. p x ≡ false) xs → count p xs ≡ 0
count-false p [] h = refl
count-false p (x ∷ xs) h = ground (arith, h.0, count-false p xs h.1)

pub eligible-listed :
    (requested : String) (policy : FailoverPolicy) (table : List ModelProvider)
    (order : List String)
    → All
        (λ r. is_listed table r ≡ true)
        (build_models_providers_fallback requested policy table order).eligible
eligible-listed requested policy table order =
    let made_up : ModelProvider → Bool = λ r. not (is_listed table r) in
    All-map _ (λ r (h : made_up r ≡ false). ground (arith, h))
      (count-zero made_up _ (
        count-eligible made_up requested policy table order
        ∙ count-false (λ r. usable requested policy table r && made_up r) table
            (All-map table (λ r (h : is_listed table r ≡ true). ground (arith, h)) (listed table))))
