-- ===== src/Gateway/Fallback/Plan.antt =====
-- Which rows of the table a plan holds, and what `constrained` reports.
use llmgateway_go.Prelude.{
  ℕ, ◌+◌, String, ◌==◌, eq_iff, ◌≡◌, refl, any-none, All, All-map, count-zero, sym, count-none, ◌⊎◌,
  ap, ◌∙◌, List, [], ◌∷◌, Bool, true, false, not, ◌&&◌, ◌||◌, inl, inr, keep, count, num, arith,
  any as any_of, count-append, count-keep, count-add, count-congr, any-congr, any-keep, Bool-cases,
}
use llmgateway_go.Gateway.Domain.{
  ModelProvider, FailoverPolicy, PolicyKind, same_model, allowlist, any, unrecognized,
}
use llmgateway_go.Gateway.Fallback.{
  serves, is_in, append_allowed, insert_by, stable_sort, is_nil, follow,
  build_models_providers_fallback,
}

-- The contract of a policy, row by row: the requested model always, under `any` every model, and
-- under an allowlist the models that it names.
pub permits : String → FailoverPolicy → PolicyKind → ModelProvider → Bool
permits requested policy any r = true
permits requested policy allowlist r = serves requested r || is_in policy.allowed r.model
permits requested policy _ r = serves requested r

-- A row is usable if the policy permits it and the requested model has a primary.
unfoldable pub usable : String → FailoverPolicy → List ModelProvider → ModelProvider → Bool
unfolding permits
usable requested policy table r =
    any_of (serves requested) table && permits requested policy policy.kind r

module _ (p : ModelProvider → Bool) where
  count-insert_by :
      (key : ModelProvider → ℕ) (r : ModelProvider) (xs : List ModelProvider)
      → count p (insert_by key r xs) ≡ count p (r ∷ xs)
  unfolding insert_by
  count-insert_by key r [] = refl
  count-insert_by key r (x ∷ xs) = ground (arith, count-insert_by key r xs)

  count-stable_sort :
      (key : ModelProvider → ℕ) (xs : List ModelProvider)
      → count p (stable_sort key xs) ≡ count p xs
  unfolding stable_sort
  count-stable_sort key [] = refl
  count-stable_sort key (x ∷ xs) =
      count-insert_by key x (stable_sort key xs) ∙ ground (arith, count-stable_sort key xs)

-- What the loop over the allowlist adds to a row's claim.
abbrev named : String → List String → List String → ModelProvider → Bool
named requested models allowed r =
    not (serves requested r) && (is_in models r.model && not (is_in allowed r.model))

named-cons :
    (requested model : String) (models allowed : List String) (p : ModelProvider → Bool)
    (r : ModelProvider)
    → (model == requested) ≡ false
    → is_in allowed model ≡ false
    → num (named requested (model ∷ models) allowed r && p r)
      ≡ num (not (serves requested r) && (serves model r && p r))
        + num (named requested models (model ∷ allowed) r && p r)
unfolding is_in
named-cons requested model models allowed p r e f = ground (
  arith,
  eq_iff model r.model,
  eq_iff r.model model,
  eq_iff r.model requested,
  eq_iff model requested,
)

named-skip :
    (requested model : String) (models allowed : List String) (r : ModelProvider)
    → ((model == requested) ≡ true) ⊎ (is_in allowed model ≡ true)
    → named requested (model ∷ models) allowed r ≡ named requested models allowed r
unfolding is_in
named-skip requested model models allowed r h =
    ground (arith, eq_iff model r.model, eq_iff r.model requested, eq_iff model requested)

-- The rows that the loop appends, counted by any test.
module _ (p : ModelProvider → Bool) (requested : String) (table : List ModelProvider) where
  count-append_allowed :
      (models allowed : List String)
      → count p
          (append_allowed requested (keep (λ r. not (serves requested r)) table) models allowed).0
        ≡ count (λ r. named requested models allowed r && p r) table
  unfolding append_allowed is_in
  count-append_allowed [] allowed =
      omega (arith, count-none table (λ r. named requested [] allowed r && p r) λ r. ground arith)
  count-append_allowed (model ∷ models) allowed = elim (Bool-cases (model == requested)) [
    | inl e ↦ rw e (
        count-append_allowed models allowed
        ∙ count-congr _ _ table
            λ r. ap (λ b. b && p r) (sym (named-skip requested model models allowed r (inl e))))
    | inr e ↦ elim (Bool-cases (is_in allowed model)) [
      | inl f ↦
          rw (e, f)
            (count-append_allowed models allowed
              ∙ count-congr _ _ table λ r.
                ap (λ b. b && p r) (sym (named-skip requested model models allowed r (inr f))))
      | inr f ↦
          rw (e, f)
            (omega (
              arith,
              count-append p (keep (serves model) (keep (λ r. not (serves requested r)) table))
                  (append_allowed requested (keep (λ r. not (serves requested r)) table) models
                    (model ∷ allowed)).0,
              count-keep p (serves model) (keep (λ r. not (serves requested r)) table),
              count-keep (λ r. serves model r && p r) (λ r. not (serves requested r)) table,
              count-append_allowed models (model ∷ allowed),
              count-add (λ r. named requested (model ∷ models) allowed r && p r) _ _ table
                  λ r. named-cons requested model models allowed p r e f,
            ))
    ]
  ]

-- The set that the loop leaves.
is_in-append_allowed :
    (requested : String) (rest : List ModelProvider) (models allowed : List String) (m : String)
    → is_in (append_allowed requested rest models allowed).1 m
      ≡ (is_in allowed m || (is_in models m && not (m == requested)))
unfolding append_allowed is_in
is_in-append_allowed requested rest [] allowed m = ground arith
is_in-append_allowed requested rest (model ∷ models) allowed m = ground (
  arith,
  is_in-append_allowed requested rest models allowed m,
  is_in-append_allowed requested rest models (model ∷ allowed) m,
  eq_iff model m,
  eq_iff model requested,
  eq_iff m requested,
)

pub is_nil-keep :
    (q : ModelProvider → Bool) (table : List ModelProvider)
    → is_nil (keep q table) ≡ not (any_of q table)
unfolding is_nil
is_nil-keep q [] = refl
is_nil-keep q (x ∷ xs) = ground (arith, is_nil-keep q xs)

not-is_nil : (table : List ModelProvider) → not (is_nil table) ≡ any_of (λ r. true) table
unfolding is_nil
not-is_nil [] = refl
not-is_nil (_ ∷ _) = refl

module _ (p : ModelProvider → Bool) (requested : String) (policy : FailoverPolicy)
    (table : List ModelProvider) (order : List String) where
  count-follow :
      (kind : PolicyKind)
      → count p
          (follow requested policy kind
            (keep (serves requested) table)
            (keep (λ r. not (serves requested r)) table)
            order).eligible
        ≡ count (λ r. permits requested policy kind r && p r) table
  unfolding follow permits is_in
  count-follow any = omega (
    arith,
    count-append p (keep (serves requested) table) _,
    count-keep p (serves requested) table,
    count-stable_sort p _ (keep (λ r. not (serves requested r)) table),
    count-keep p (λ r. not (serves requested r)) table,
    count-add (λ r. true && p r) (λ r. serves requested r && p r)
        (λ r. not (serves requested r) && p r) table λ r. ground arith,
  )
  count-follow allowlist = omega (
    arith,
    count-append p (keep (serves requested) table) _,
    count-keep p (serves requested) table,
    count-append_allowed p requested table policy.allowed [],
    count-add (λ r. permits requested policy allowlist r && p r) (λ r. serves requested r && p r)
        (λ r. named requested policy.allowed [] r && p r) table λ r. ground arith,
  )
  count-follow same_model = count-keep p (serves requested) table
  count-follow (unrecognized _) = count-keep p (serves requested) table

  -- A plan holds the usable rows of the table, each as often as the table does: whatever the test
  -- that rows are counted by. Nothing is made up and nothing usable is lost.
  pub count-eligible :
      count p (build_models_providers_fallback requested policy table order).eligible
      ≡ count (λ r. usable requested policy table r && p r) table
  unfolding build_models_providers_fallback usable
  count-eligible = elim (Bool-cases (any_of (serves requested) table)) [
    | inl e ↦ rw (is_nil-keep (serves requested) table, e) (count-follow policy.kind)
    | inr e ↦ rw (is_nil-keep (serves requested) table, e) (sym (count-none table _ λ r. refl))
  ]

module _ (requested : String) (policy : FailoverPolicy) (table : List ModelProvider)
    (order : List String) where
  constrained-follow :
      (kind : PolicyKind)
      → (follow requested policy kind
          (keep (serves requested) table)
          (keep (λ r. not (serves requested r)) table)
          order).constrained
        ≡ any_of (λ r. not (permits requested policy kind r)) table
  unfolding follow permits is_in
  constrained-follow any = sym (any-none table _ λ r. refl)
  constrained-follow allowlist =
      any-keep _ (λ r. not (serves requested r)) table
      ∙ any-congr _ _ table λ r. ground (
        arith,
        is_in-append_allowed requested (keep (λ x. not (serves requested x)) table) policy.allowed
            [] r.model,
      )
  constrained-follow same_model = ground (arith, is_nil-keep (λ r. not (serves requested r)) table)
  constrained-follow (unrecognized _) =
      ground (arith, is_nil-keep (λ r. not (serves requested r)) table)

  -- `constrained` is reported exactly when the table has a row that the request may not use: one
  -- that the policy excludes, or any row at all where no row serves the requested model.
  pub constrained_iff_excluded :
      (build_models_providers_fallback requested policy table order).constrained
      ≡ any_of (λ r. not (usable requested policy table r)) table
  unfolding build_models_providers_fallback usable
  constrained_iff_excluded = elim (Bool-cases (any_of (serves requested) table)) [
    | inl e ↦ rw (is_nil-keep (serves requested) table, e) (constrained-follow policy.kind)
    | inr e ↦ rw (is_nil-keep (serves requested) table, e) (not-is_nil table)
  ]

  pub eligible-usable :
      All
        (λ r. usable requested policy table r ≡ true)
        (build_models_providers_fallback requested policy table order).eligible
  eligible-usable =
      All-map _ (λ r (h : not (usable requested policy table r) ≡ false). ground arith)
        (count-zero (λ r. not (usable requested policy table r)) _
          (count-eligible (λ r. not (usable requested policy table r)) requested policy table order
            ∙ count-none table _ λ r. ground arith))
