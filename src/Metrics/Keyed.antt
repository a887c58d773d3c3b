-- ===== src/Metrics/Keyed.antt =====
-- internal/metrics/gateway/keyed.go: counters over a set of keys that is fixed when they are made.
use llmgateway_go.Prelude.{List, [], ◌∷◌, ◌≡◌, ◌↔◌, refl, Bool, true, any, arith, if◌then◌else◌}
use llmgateway_go.Prelude.Int.{ℤ, pos, ◌+ℤ◌, wrap64}

-- A Go type whose values can be compared.
pub record Comparable (K : Type 0) : Type 0 where
  pub same : K → K → Bool
  pub same_iff : (a b : K) → (same a b ≡ true) ↔ (a ≡ b)

module _ {K : Type 0} ⦃c : Comparable K⦄ where
  -- byKey[key] = new(atomic.Int64), over the keys in order
  abbrev pub put : K → ℤ → List (K × ℤ) → List (K × ℤ)
  put key v [] = (key, v) ∷ []
  put key v ((k, n) ∷ rest) = if c.same k key then (k, v) ∷ rest else (k, n) ∷ put key v rest

  unfoldable pub fill_counters : List K → List (K × ℤ) → List (K × ℤ)
  fill_counters [] counters = counters
  fill_counters (key ∷ rest) counters = fill_counters rest (put key (pos 0) counters)

  abbrev pub new_keyed_counter : List K → List (K × ℤ)
  new_keyed_counter keys = fill_counters keys []

  -- A key outside the set is dropped. The addition wraps at 64 bits.
  unfoldable pub add : K → ℤ → List (K × ℤ) → List (K × ℤ)
  add key n [] = []
  add key n ((k, v) ∷ rest) =
      if c.same k key then (k, wrap64 (v +ℤ n)) ∷ rest else (k, v) ∷ add key n rest

  -- An unknown key reads as zero.
  unfoldable pub get : K → List (K × ℤ) → ℤ
  get key [] = pos 0
  get key ((k, v) ∷ rest) = if c.same k key then v else get key rest

  abbrev pub has : K → List (K × ℤ) → Bool
  has key counters = any (λ e. c.same e.0 key) counters

  abbrev sum_from : ℤ → List (K × ℤ) → ℤ
  sum_from sum [] = sum
  sum_from sum ((k, v) ∷ rest) = sum_from (wrap64 (sum +ℤ v)) rest

  abbrev pub total : List (K × ℤ) → ℤ
  total counters = sum_from (pos 0) counters

  -- ---------------------------------------------------------------- laws

  pub has-add : (key other : K) (n : ℤ) (m : List (K × ℤ)) → has other (add key n m) ≡ has other m
  unfolding add
  has-add key other n [] = refl
  has-add key other n ((k, v) ∷ rest) = ground (arith, has-add key other n rest)

  -- Adding to a key of the set changes that key's count only.
  pub get-add :
      (key other : K) (n : ℤ) (m : List (K × ℤ))
      → get other (add key n m) ≡ (
          if c.same key other
          then if has other m then wrap64 (get other m +ℤ n) else pos 0
          else get other m)
  unfolding add get
  get-add key other n [] = ground arith
  get-add key other n ((k, v) ∷ rest) =
      ground (
        arith,
        get-add key other n rest,
        c.same_iff k key,
        c.same_iff k other,
        c.same_iff key other,
      )

  pub has-put :
      (key other : K) (n : ℤ) (m : List (K × ℤ))
      → has other (put key n m) ≡ (if c.same key other then true else has other m)
  has-put key other n [] = ground arith
  has-put key other n ((k, v) ∷ rest) =
      ground (
        arith,
        has-put key other n rest,
        c.same_iff k key,
        c.same_iff k other,
        c.same_iff key other,
      )

  pub has-fill_counters :
      (keys : List K) (other : K) (m : List (K × ℤ))
      → has other (fill_counters keys m)
        ≡ (if any (λ k. c.same k other) keys then true else has other m)
  unfolding fill_counters
  has-fill_counters [] other m = refl
  has-fill_counters (key ∷ rest) other m =
      ground (arith, has-fill_counters rest other (put key (pos 0) m), has-put key other (pos 0) m)

  pub get-put :
      (key other : K) (n : ℤ) (m : List (K × ℤ))
      → get other (put key n m) ≡ (if c.same key other then n else get other m)
  unfolding get
  get-put key other n [] = refl
  get-put key other n ((k, v) ∷ rest) =
      ground (
        arith,
        get-put key other n rest,
        c.same_iff k key,
        c.same_iff k other,
        c.same_iff key other,
      )

  pub get-fill_counters :
      (keys : List K) (other : K) (m : List (K × ℤ))
      → get other m ≡ pos 0
      → get other (fill_counters keys m) ≡ pos 0
  unfolding fill_counters
  get-fill_counters [] other m h = h
  get-fill_counters (key ∷ rest) other m h =
      get-fill_counters rest other (put key (pos 0) m) (ground (arith, get-put key other (pos 0) m))
