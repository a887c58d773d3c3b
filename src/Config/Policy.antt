-- ===== src/Config/Policy.antt =====
-- The failover policy of an app: policyWire.UnmarshalYAML and policyWire.toDomain.
use llmgateway_go.Prelude.{
  String, ◌==◌, eq_iff, List, [], ◌≡◌, refl, subst, Option, none, some, Bool, true, false, not,
  ◌&&◌, length, eqb, arith, if◌then◌else◌, ◌⊎◌, inl, inr, Bool-cases, Option-cases,
}
use llmgateway_go.Prelude.Maps.{lookup}
use llmgateway_go.Prelude.Results.{Result, ok, err, ok-injective}
use llmgateway_go.Gateway.Domain.{FailoverPolicy, same_model, allowlist, any}
use llmgateway_go.Config.{
  PolicyWire, ConfigError, policy_shape, policy_unknown, policy_empty_allowlist, policy_kind,
}

-- What the YAML library says of a node: its kind, and what it decodes to as a text and as a map of
-- lists, where it does.
pub record Node : Type 0 where
  pub is_scalar : Bool
  pub as_text : Option String
  pub as_lists : Option (List (String × List String))

abbrev of_text : Option String → Result ConfigError PolicyWire
of_text none = err policy_shape
of_text (some s) =
    if not (s == "any") && not (s == "same-model")
    then err (policy_unknown s)
    else ok (record { kind = s; allowlist = [] })

abbrev of_list : Bool → Option (List String) → Result ConfigError PolicyWire
of_list is_alone none = err policy_shape
of_list is_alone (some list) =
    if not is_alone
    then err policy_shape
    else if eqb (length list) 0
    then err policy_empty_allowlist
    else ok (record { kind = "allowlist"; allowlist = list })

abbrev of_lists : Option (List (String × List String)) → Result ConfigError PolicyWire
of_lists none = err policy_shape
of_lists (some m) = of_list (eqb (length m) 1) (lookup "allowlist" m)

unfoldable pub unmarshal : Node → Result ConfigError PolicyWire
unfolding lookup
unmarshal value = if value.is_scalar then of_text value.as_text else of_lists value.as_lists

unfoldable pub policy_to_domain : PolicyWire → Result ConfigError FailoverPolicy
policy_to_domain p =
    if p.kind == ""
    then ok (record { kind = same_model; allowed = [] })
    else if p.kind == "same-model"
    then ok (record { kind = same_model; allowed = [] })
    else if p.kind == "any"
    then ok (record { kind = any; allowed = [] })
    else if p.kind == "allowlist"
    then ok (record { kind = allowlist; allowed = p.allowlist })
    else err (policy_kind p.kind)

-- The policy that a node of the file becomes.
abbrev pub Readable : PolicyWire → Type 0
Readable p =
    ((p.kind ≡ "any") × (policy_to_domain p ≡ ok (record { kind = any; allowed = [] })))
    ⊎ ((p.kind ≡ "same-model")
        × (policy_to_domain p ≡ ok (record { kind = same_model; allowed = [] })))
    ⊎ ((eqb (length p.allowlist) 0 ≡ false)
        × (policy_to_domain p ≡ ok (record { kind = allowlist; allowed = p.allowlist })))

any-Readable : Readable (record { kind = "any"; allowlist = [] })
unfolding policy_to_domain
any-Readable = inl (refl, refl)

same_model-Readable : Readable (record { kind = "same-model"; allowlist = [] })
unfolding policy_to_domain
same_model-Readable = inr (inl (refl, refl))

allowlist-Readable :
    (list : List String)
    → eqb (length list) 0 ≡ false
    → Readable (record { kind = "allowlist"; allowlist = list })
unfolding policy_to_domain
allowlist-Readable list h = inr (inr (h, refl))

text-Readable :
    (s : String)
    → (not (s == "any") && not (s == "same-model")) ≡ false
    → Readable (record { kind = s; allowlist = [] })
text-Readable s h = elim (Bool-cases (s == "any")) [
  | inl e ↦ rw ((eq_iff s "any").0 e) any-Readable
  | inr e ↦ rw ((eq_iff s "same-model").0 (ground arith)) same_model-Readable
]

of_text-Readable : (o : Option String) {p : PolicyWire} → of_text o ≡ ok p → Readable p
of_text-Readable none h = cc
of_text-Readable (some s) h = elim (Bool-cases (not (s == "any") && not (s == "same-model"))) [
  | inl e ↦ absurd (ground arith)
  | inr e ↦ subst Readable (ok-injective (rw e at h)) (text-Readable s e)
]

of_list-Readable :
    (is_alone : Bool) (o : Option (List String)) {p : PolicyWire}
    → of_list is_alone o ≡ ok p
    → Readable p
of_list-Readable is_alone none h = cc
of_list-Readable false (some list) h = cc
of_list-Readable true (some list) h = elim (Bool-cases (eqb (length list) 0)) [
  | inl e ↦ absurd (ground arith)
  | inr e ↦ subst Readable (ok-injective (rw e at h)) (allowlist-Readable list e)
]

-- The default branch of toDomain is dead: a policy that was read from the file becomes a policy of
-- the domain, of the kind that the file names, and an allowlist is not empty.
pub unmarshal-Readable : (value : Node) {p : PolicyWire} → unmarshal value ≡ ok p → Readable p
unfolding unmarshal
unmarshal-Readable value {p} h = elim (Bool-cases value.is_scalar) [
  | inl e ↦ of_text-Readable value.as_text (ground arith)
  | inr e ↦ elim (Option-cases value.as_lists) [
    | inl f ↦ absurd (ground arith)
    | inr (m, f) ↦ of_list-Readable (eqb (length m) 1) (lookup "allowlist" m) (ground arith)
  ]
]
