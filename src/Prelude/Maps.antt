-- ===== src/Prelude/Maps.antt =====
-- Go maps with string keys, as association lists. A lookup of a missing key is `none`; where the
-- source reads the zero value, `get_or` names it. The order of a range loop is the list's.
use Prim.Native.String.{String}
use mathlib.Core.Path.{◌≡◌, refl, sym, subst}
use mathlib.Core.Bool.{false}
use mathlib.Core.Logic.{inl, inr}
use mathlib.Core.Option.{Option, none, some}
use mathlib.Core.List.{List, [], ◌∷◌, map}
use native.Mathlib.Omega.{arith}
use text.Mathlib.Text.{◌==◌}
use text.Mathlib.TextEquality.{eq_iff}
use llmgateway_go.Prelude.Tests.{Bool-cases, if◌then◌else◌}
use llmgateway_go.Prelude.Lists.{All, any}

module _ {ℓ} {V : Type ℓ} where
  -- v, ok := m[key]
  unfoldable pub lookup : String → List (String × V) → Option V
  lookup key [] = none
  lookup key ((name, value) ∷ rest) = if name == key then some value else lookup key rest

  -- delete(m, key)
  unfoldable pub delete : String → List (String × V) → List (String × V)
  delete key [] = []
  delete key ((name, value) ∷ rest) =
      let others = delete key rest in if name == key then others else (name, value) ∷ others

  -- m[key] = new
  unfoldable pub insert : String → V → List (String × V) → List (String × V)
  insert key new [] = (key, new) ∷ []
  insert key new ((name, value) ∷ rest) =
      if name == key then (name, new) ∷ rest else (name, value) ∷ insert key new rest

  abbrev pub or_zero : V → Option V → V
  or_zero d none = d
  or_zero d (some v) = v

  -- m[k], with the zero value of the element type
  abbrev pub get_or : String → V → List (String × V) → V
  get_or k d m = or_zero d (lookup k m)

  pub lookup-delete :
      (key other : String) (m : List (String × V))
      → lookup other (delete key m) ≡ (if key == other then none else lookup other m)
  unfolding lookup delete
  lookup-delete key other [] = ground arith
  lookup-delete key other ((name, value) ∷ rest) =
      ground
        (arith, lookup-delete key other rest, eq_iff name key, eq_iff name other, eq_iff key other)

  pub lookup-insert :
      (key other : String) (new : V) (m : List (String × V))
      → lookup other (insert key new m) ≡ (if key == other then some new else lookup other m)
  unfolding lookup insert
  lookup-insert key other new [] = refl
  lookup-insert key other new ((name, value) ∷ rest) = ground (
    arith,
    lookup-insert key other new rest,
    eq_iff name key,
    eq_iff name other,
    eq_iff key other,
  )

  pub All-insert {κ} :
      (P : String × V → Type κ) (key : String) (new : V) (m : List (String × V))
      → P (key, new)
      → All P m
      → All P (insert key new m)
  unfolding insert
  All-insert P key new [] h k = (h, tt)
  All-insert P key new ((name, value) ∷ rest) h k = elim (Bool-cases (name == key)) [
    | inl e ↦ rw e (subst (λ s. P (s, new)) (sym ((eq_iff name key).0 e)) h, k.1)
    | inr e ↦ rw e (k.0, All-insert P key new rest h k.1)
  ]

  abbrev pub keys : List (String × V) → List String
  keys m = map (λ e. e.0) m

pub ruleset map_laws = (lookup-insert, lookup-delete)

-- No text twice.
abbrev pub Distinct : List String → Type 0
Distinct [] = Unit
Distinct (x ∷ xs) = All (λ y. (x == y) ≡ false) xs × Distinct xs

pub not-any-eq :
    (x : String) (xs : List String) → any (λ y. y == x) xs ≡ false → All (λ y. (x == y) ≡ false) xs
not-any-eq x [] h = tt
not-any-eq x (y ∷ ys) h = elim (Bool-cases (y == x)) [
  | inl e ↦ absurd (ground (arith, e, h))
  | inr e ↦ (ground (arith, eq_iff x y, eq_iff y x), not-any-eq x ys (ground arith))
]
