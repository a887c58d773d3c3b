-- ===== src/Gateway/Fallback/Order.antt =====
-- The order of a plan: primaries in table order, then what the policy lets follow.
use llmgateway_go.Prelude.{
  ℕ, suc, ◌≤◌, String, ◌==◌, eq_iff, ◌≡◌, refl, ◌∙◌, List, [], ◌∷◌, ◌++◌, true, false, not, ◌&&◌,
  inl, inr, keep, arith, any as any_of, All, eqb, ltb, if◌then◌else◌, Bool-cases, keep-keep,
  All-map, All-keep, All-keep_of, All-append, All-every, All-both,
}
use llmgateway_go.Gateway.Domain.{ModelProvider, FailoverPolicy, allowlist, any}
use llmgateway_go.Gateway.Fallback.{
  serves, is_in, rank_of, provider_rank, append_allowed, insert_by, stable_sort,
  build_models_providers_fallback,
}
use llmgateway_go.Gateway.Fallback.Plan.{is_nil-keep}

abbrev pub IsSorted : (ModelProvider → ℕ) → List ModelProvider → Type 0
IsSorted key [] = Unit
IsSorted key (x ∷ xs) = All (λ y. key x ≤ key y) xs × IsSorted key xs

module _ (key : ModelProvider → ℕ) where
  All-insert_by :
      (m : ℕ) (r : ModelProvider) (xs : List ModelProvider)
      → m ≤ key r
      → All (λ y. m ≤ key y) xs
      → All (λ y. m ≤ key y) (insert_by key r xs)
  unfolding insert_by
  All-insert_by m r [] h a = (h, tt)
  All-insert_by m r (x ∷ xs) h a = ground (arith, All-insert_by m r xs h a.1)

  insert_by-IsSorted :
      (r : ModelProvider) (xs : List ModelProvider)
      → IsSorted key xs
      → IsSorted key (insert_by key r xs)
  unfolding insert_by
  insert_by-IsSorted r [] s = (tt, tt)
  insert_by-IsSorted r (x ∷ xs) s = elim (Bool-cases (ltb (key x) (key r))) [
    | inl e ↦ rw e (All-insert_by (key x) r xs (ground arith) s.0, insert_by-IsSorted r xs s.1)
    | inr e ↦ rw e ((ground arith, All-map xs (λ y (h : key x ≤ key y). ground arith) s.0), s)
  ]

  stable_sort-IsSorted : (xs : List ModelProvider) → IsSorted key (stable_sort key xs)
  unfolding stable_sort
  stable_sort-IsSorted [] = tt
  stable_sort-IsSorted (x ∷ xs) =
      insert_by-IsSorted x (stable_sort key xs) (stable_sort-IsSorted xs)

  keep-insert_by :
      (k : ℕ) (r : ModelProvider) (xs : List ModelProvider)
      → keep (λ y. eqb (key y) k) (insert_by key r xs) ≡ keep (λ y. eqb (key y) k) (r ∷ xs)
  unfolding insert_by
  keep-insert_by k r [] = refl
  keep-insert_by k r (x ∷ xs) = ground (arith, keep-insert_by k r xs)

  keep-stable_sort :
      (k : ℕ) (xs : List ModelProvider)
      → keep (λ y. eqb (key y) k) (stable_sort key xs) ≡ keep (λ y. eqb (key y) k) xs
  unfolding stable_sort
  keep-stable_sort k [] = refl
  keep-stable_sort k (x ∷ xs) =
      keep-insert_by k x (stable_sort key xs) ∙ ground (arith, keep-stable_sort k xs)

abbrev pub rank_in : List String → ModelProvider → ℕ
rank_in order r = provider_rank (rank_of order) r.provider

-- Under `any`, the plan is the primaries in table order and then the other rows, sorted by their
-- provider's rank in the failover order, those of equal rank in table order.
pub any_order :
    (requested : String) (policy : FailoverPolicy) (table : List ModelProvider)
    (order : List String)
    → policy.kind ≡ any
    → any_of (serves requested) table ≡ true
    → (tail : List ModelProvider) × ((build_models_providers_fallback requested policy table
          order).eligible
        ≡ keep (serves requested) table ++ tail)
      × IsSorted (rank_in order) tail
      × ((k : ℕ)
          → keep (λ r. eqb (rank_in order r) k) tail
            ≡ keep (λ r. not (serves requested r) && eqb (rank_in order r) k) table)
unfolding build_models_providers_fallback
any_order requested policy table order is_any some_primary = (
  stable_sort (rank_in order) (keep (λ r. not (serves requested r)) table),
  rw (is_nil-keep (serves requested) table, some_primary, is_any) refl,
  stable_sort-IsSorted (rank_in order) (keep (λ r. not (serves requested r)) table),
  λ k.
      keep-stable_sort (rank_in order) k (keep (λ r. not (serves requested r)) table)
      ∙ keep-keep _ _ table,
)

-- Where a name stands first in a list; its length if it does not.
unfoldable pub position : List String → String → ℕ
position [] m = 0
position (n ∷ names) m = if n == m then 0 else suc (position names m)

module _ (model : String) (models : List String) where
  All-shift :
      (k : ℕ) (xs : List ModelProvider)
      → All (λ r. (model == r.model) ≡ false) xs
      → All (λ y. k ≤ position models y.model) xs
      → All (λ y. suc k ≤ position (model ∷ models) y.model) xs
  unfolding position
  All-shift k [] n h = tt
  All-shift k (x ∷ xs) n h = (rw (n.0) (omega (arith, h.0)), All-shift k xs n.1 h.1)

  IsSorted-shift :
      (xs : List ModelProvider)
      → All (λ r. (model == r.model) ≡ false) xs
      → IsSorted (λ r. position models r.model) xs
      → IsSorted (λ r. position (model ∷ models) r.model) xs
  unfolding position
  IsSorted-shift [] n s = tt
  IsSorted-shift (x ∷ xs) n s =
      (rw (n.0) (All-shift (position models x.model) xs n.1 s.0), IsSorted-shift xs n.1 s.1)

  position_front :
      (r : ModelProvider) → serves model r ≡ true → position (model ∷ models) r.model ≡ 0
  unfolding position
  position_front r h = ground (arith, eq_iff r.model model, eq_iff model r.model)

  IsSorted-front :
      (xs ys : List ModelProvider)
      → All (λ r. serves model r ≡ true) xs
      → IsSorted (λ r. position (model ∷ models) r.model) ys
      → IsSorted (λ r. position (model ∷ models) r.model) (xs ++ ys)
  IsSorted-front [] ys h s = s
  IsSorted-front (x ∷ xs) ys h s = (
    rw (position_front x h.0) (All-every _ (xs ++ ys) (λ y. omega arith)),
    IsSorted-front xs ys h.1 s,
  )

-- Rows that the loop appends: none of the requested model, none of a model already allowed.
append_allowed-fresh :
    (requested : String) (rest : List ModelProvider) (models allowed : List String)
    → All (λ r. serves requested r ≡ false) rest
    → All
        (λ r. (serves requested r ≡ false) × (is_in allowed r.model ≡ false))
        (append_allowed requested rest models allowed).0
unfolding append_allowed is_in
append_allowed-fresh requested rest [] allowed h = tt
append_allowed-fresh requested rest (model ∷ models) allowed h =
    elim (Bool-cases (model == requested)) [
      | inl e ↦ rw e (append_allowed-fresh requested rest models allowed h)
      | inr e ↦ elim (Bool-cases (is_in allowed model)) [
        | inl f ↦ rw (e, f) (append_allowed-fresh requested rest models allowed h)
        | inr f ↦
            rw (e, f)
              (All-append _ (keep (serves model) rest) _
                (All-map (keep (serves model) rest)
                  (λ r (k : (serves model r ≡ true) × (serves requested r ≡ false)).
                    (k.1, ground (arith, eq_iff r.model model)))
                  (All-both _ _ (keep (serves model) rest) (All-keep (serves model) rest)
                    (All-keep_of _ (serves model) rest h)))
                (All-map _
                  (λ r
                      (k : (serves requested r ≡ false)
                        × (is_in (model ∷ allowed) r.model ≡ false)).
                    (k.0, ground (arith, eq_iff model r.model)))
                  (append_allowed-fresh requested rest models (model ∷ allowed) h)))
      ]
    ]

append_allowed-IsSorted :
    (requested : String) (rest : List ModelProvider) (models allowed : List String)
    → All (λ r. serves requested r ≡ false) rest
    → IsSorted (λ r. position models r.model) (append_allowed requested rest models allowed).0
unfolding append_allowed is_in
append_allowed-IsSorted requested rest [] allowed h = tt
append_allowed-IsSorted requested rest (model ∷ models) allowed h =
    elim (Bool-cases (model == requested)) [
      | inl e ↦ rw e (
          IsSorted-shift model models _
            (All-map _
              (λ r (k : (serves requested r ≡ false) × (is_in allowed r.model ≡ false)).
                ground
                  (arith, eq_iff r.model requested, eq_iff model requested, eq_iff model r.model))
              (append_allowed-fresh requested rest models allowed h))
            (append_allowed-IsSorted requested rest models allowed h))
      | inr e ↦ elim (Bool-cases (is_in allowed model)) [
        | inl f ↦
            rw (e, f)
              (IsSorted-shift model models _
                (All-map _
                  (λ r (k : (serves requested r ≡ false) × (is_in allowed r.model ≡ false)).
                    ground (arith, eq_iff model r.model))
                  (append_allowed-fresh requested rest models allowed h))
                (append_allowed-IsSorted requested rest models allowed h))
        | inr f ↦
            rw (e, f)
              (IsSorted-front model models (keep (serves model) rest) _
                (All-keep (serves model) rest)
                (IsSorted-shift model models _
                  (All-map _
                    (λ r
                        (k : (serves requested r ≡ false)
                          × (is_in (model ∷ allowed) r.model ≡ false)).
                      ground (arith, eq_iff model r.model))
                    (append_allowed-fresh requested rest models (model ∷ allowed) h))
                  (append_allowed-IsSorted requested rest models (model ∷ allowed) h)))
      ]
    ]

-- Under an allowlist, the plan is the primaries in table order and then rows of other models,
-- sorted by where the app's list first names their model.
pub allowlist_order :
    (requested : String) (policy : FailoverPolicy) (table : List ModelProvider)
    (order : List String)
    → policy.kind ≡ allowlist
    → any_of (serves requested) table ≡ true
    → (tail : List ModelProvider) × ((build_models_providers_fallback requested policy table
          order).eligible
        ≡ keep (serves requested) table ++ tail)
      × All (λ r. serves requested r ≡ false) tail
      × IsSorted (λ r. position policy.allowed r.model) tail
unfolding build_models_providers_fallback
allowlist_order requested policy table order is_allowlist some_primary = (
  (append_allowed requested rest policy.allowed []).0,
  rw (is_nil-keep (serves requested) table, some_primary, is_allowlist) refl,
  All-map _ (λ r (k : (serves requested r ≡ false) × (is_in [] r.model ≡ false)). k.0)
      (append_allowed-fresh requested rest policy.allowed [] others),
  append_allowed-IsSorted requested rest policy.allowed [] others,
)
  where
    rest : List ModelProvider
    rest = keep (λ r. not (serves requested r)) table

    others : All (λ r. serves requested r ≡ false) rest
    others =
        All-map rest (λ r (k : not (serves requested r) ≡ true). ground arith)
          (All-keep (λ r. not (serves requested r)) table)
