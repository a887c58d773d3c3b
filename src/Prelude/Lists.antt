-- ===== src/Prelude/Lists.antt =====
-- Lists measured by native numbers: length, filtering and counting by a Boolean test, and the
-- predicate that holds of each element.
use Prim.Native.Nat.{ℕ, suc, ◌+◌}
use mathlib.Core.Path.{◌≡◌, refl}
use mathlib.Core.Logic.{inl, inr}
use mathlib.Core.Bool.{Bool, true, false, ◌&&◌}
use mathlib.Core.List.{List, [], ◌∷◌, ◌++◌}
use native.Mathlib.Omega.{arith}
use llmgateway_go.Prelude.Tests.{Bool-cases, if◌then◌else◌}

-- A test as a count.
abbrev pub num : Bool → ℕ
num true = 1
num false = 0

module _ {ℓ} {A : Type ℓ} where
  abbrev pub length : List A → ℕ
  length [] = 0
  length (x ∷ xs) = suc (length xs)

  -- The elements that pass a test, in order.
  abbrev pub keep : (A → Bool) → List A → List A
  keep p [] = []
  keep p (x ∷ xs) = let rest = keep p xs in if p x then x ∷ rest else rest

  -- How many elements pass a test.
  abbrev pub count : (A → Bool) → List A → ℕ
  count p [] = 0
  count p (x ∷ xs) = let rest = count p xs in if p x then suc rest else rest

  -- Whether some element passes a test.
  abbrev pub any : (A → Bool) → List A → Bool
  any p [] = false
  any p (x ∷ xs) = if p x then true else any p xs

  abbrev pub All {κ} : (A → Type κ) → List A → Type κ
  All P [] = Unit
  All P (x ∷ xs) = P x × All P xs

  pub length-append : (xs ys : List A) → length (xs ++ ys) ≡ length xs + length ys
  length-append [] ys = omega arith
  length-append (x ∷ xs) ys = omega (arith, length-append xs ys)

  pub count-append : (p : A → Bool) (xs ys : List A) → count p (xs ++ ys) ≡ count p xs + count p ys
  count-append p [] ys = omega arith
  count-append p (x ∷ xs) ys = ground (arith, count-append p xs ys)

  pub count-keep : (p q : A → Bool) (xs : List A) → count p (keep q xs) ≡ count (λ x. q x && p x) xs
  count-keep p q [] = refl
  count-keep p q (x ∷ xs) = ground (arith, count-keep p q xs)

  pub All-append {κ} : (P : A → Type κ) (xs ys : List A) → All P xs → All P ys → All P (xs ++ ys)
  All-append P [] ys hx hy = hy
  All-append P (x ∷ xs) ys hx hy = (hx.0, All-append P xs ys hx.1 hy)

  -- Counting by a test that splits into two exclusive ones.
  pub count-add :
      (c a b : A → Bool) (xs : List A)
      → ((x : A) → num (c x) ≡ num (a x) + num (b x))
      → count c xs ≡ count a xs + count b xs
  count-add c a b [] h = omega arith
  count-add c a b (x ∷ xs) h = ground (arith, h x, count-add c a b xs h)

  pub count-congr : (p q : A → Bool) (xs : List A) → ((x : A) → p x ≡ q x) → count p xs ≡ count q xs
  count-congr p q [] h = refl
  count-congr p q (x ∷ xs) h = ground (arith, h x, count-congr p q xs h)

  pub any-congr : (p q : A → Bool) (xs : List A) → ((x : A) → p x ≡ q x) → any p xs ≡ any q xs
  any-congr p q [] h = refl
  any-congr p q (x ∷ xs) h = ground (arith, h x, any-congr p q xs h)

  pub any-keep : (p q : A → Bool) (xs : List A) → any p (keep q xs) ≡ any (λ x. q x && p x) xs
  any-keep p q [] = refl
  any-keep p q (x ∷ xs) = ground (arith, any-keep p q xs)

  pub count-none : (xs : List A) (p : A → Bool) → ((x : A) → p x ≡ false) → count p xs ≡ 0
  count-none [] p h = refl
  count-none (x ∷ xs) p h = ground (arith, h x, count-none xs p h)

  pub any-none : (xs : List A) (p : A → Bool) → ((x : A) → p x ≡ false) → any p xs ≡ false
  any-none [] p h = refl
  any-none (x ∷ xs) p h = ground (arith, h x, any-none xs p h)

  pub keep-append : (p : A → Bool) (xs ys : List A) → keep p (xs ++ ys) ≡ keep p xs ++ keep p ys
  keep-append p [] ys = refl
  keep-append p (x ∷ xs) ys = ground (arith, keep-append p xs ys)

  pub keep-keep : (p q : A → Bool) (xs : List A) → keep p (keep q xs) ≡ keep (λ x. q x && p x) xs
  keep-keep p q [] = refl
  keep-keep p q (x ∷ xs) = ground (arith, keep-keep p q xs)

  pub All-map {κ μ} :
      {P : A → Type κ} {Q : A → Type μ} (xs : List A) → ((x : A) → P x → Q x) → All P xs → All Q xs
  All-map [] f h = tt
  All-map (x ∷ xs) f h = (f x h.0, All-map xs f h.1)

  pub All-keep : (p : A → Bool) (xs : List A) → All (λ x. p x ≡ true) (keep p xs)
  All-keep p [] = tt
  All-keep p (x ∷ xs) = ground (arith, All-keep p xs)

  pub All-keep_of {κ} : (P : A → Type κ) (p : A → Bool) (xs : List A) → All P xs → All P (keep p xs)
  All-keep_of P p [] h = tt
  All-keep_of P p (x ∷ xs) h = elim (Bool-cases (p x)) [
    | inl e ↦ rw e (h.0, All-keep_of P p xs h.1)
    | inr e ↦ rw e (All-keep_of P p xs h.1)
  ]

  pub All-every {κ} : (P : A → Type κ) (xs : List A) → ((x : A) → P x) → All P xs
  All-every P [] f = tt
  All-every P (x ∷ xs) f = (f x, All-every P xs f)

  pub All-both {κ} :
      (P Q : A → Type κ) (xs : List A) → All P xs → All Q xs → All (λ x. P x × Q x) xs
  All-both P Q [] h k = tt
  All-both P Q (x ∷ xs) h k = ((h.0, k.0), All-both P Q xs h.1 k.1)

  pub count-zero : (p : A → Bool) (xs : List A) → count p xs ≡ 0 → All (λ x. p x ≡ false) xs
  count-zero p [] h = tt
  count-zero p (x ∷ xs) h = elim (Bool-cases (p x)) [
    | inl e ↦ absurd (ground (arith, e, h))
    | inr e ↦ (e, count-zero p xs (ground arith))
  ]
