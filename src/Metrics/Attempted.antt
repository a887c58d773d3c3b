-- ===== src/Metrics/Attempted.antt =====
-- internal/metrics/gateway/providerclient.go: what the counters say after attempts one after another.
use llmgateway_go.Prelude.{
  ℕ, ◌+◌, ◌<◌, ◌≤◌, ◌^◌, length, String, ◌==◌, List, [], ◌∷◌, ◌++◌, map, ◌≡◌, refl, ap, ◌∙◌, Bool,
  true, false, num, any, count, arith, Bool-cases, inl, inr,
}
use llmgateway_go.Prelude.Int.{ℤ, pos, wrap64, wrap64_id, pos_add}
use llmgateway_go.Gateway.Domain.{ModelProvider, ChatRequest}
use llmgateway_go.Gateway.Faults.{
  unreachable, timeout, server_error, throttled, bad_response, rejected, AttemptError, fault,
  deadline_exceeded, other,
}
use llmgateway_go.Gateway.Ports.{Outcome, completed, failed}
use llmgateway_go.Metrics.Keyed.{
  Comparable, add, get, has, has-add, get-add, has-fill_counters, get-fill_counters,
}
use llmgateway_go.Metrics.Recorder.{text_comparable}
use llmgateway_go.Metrics.Attempts.{
  ProviderKind, CountedKind, of_fault, unclassified, fault_kinds, provider_kind, same_provider_kind,
  provider_kind_comparable, provider_kind_keys, Metered, new_provider_client, fault_kind,
  count_failure, metered_complete, plain_run, metered_run,
}

-- A counter that says `v` says one more after a count of its key, and the same after another's.
get-add_one :
    {K : Type 0} ⦃c : Comparable K⦄ (q key : K) (m : List (K × ℤ)) (v : ℕ)
    → has key m ≡ true
    → get key m ≡ pos v
    → v + num (c.same q key) < 2 ^ 63
    → get key (add q (pos 1) m) ≡ pos (v + num (c.same q key))
get-add_one ⦃c⦄ q key m v h g b = elim (Bool-cases (c.same q key)) [
  | inl y ↦
      let b' : v + 1 < 2 ^ 63 = ground (arith, b, y) in
      get-add q key (pos 1) m ∙ rw (y, h, g) (ap wrap64 (pos_add v 1) ∙ wrap64_id (v + 1) b')
  | inr n ↦ get-add q key (pos 1) m ∙ rw (n, g) (ap pos (omega arith))
]

count_cons :
    {A : Type 0} (f : A → Bool) (x : A) (xs : List A) → count f (x ∷ xs) ≡ num (f x) + count f xs
count_cons f x xs = elim (Bool-cases (f x)) [
  | inl y ↦ rw y (omega arith)
  | inr n ↦ rw n (omega arith)
]

-- Whether one outcome of a provider is a failure of a key: by the kind of its fault, or of none.
abbrev pub is_failure_of : ProviderKind → String × Outcome → Bool
is_failure_of key (p, completed c) = false
is_failure_of key (p, failed (fault f)) = same_provider_kind (provider_kind p (of_fault f.kind)) key
is_failure_of key (p, failed deadline_exceeded) =
    same_provider_kind (provider_kind p unclassified) key
is_failure_of key (p, failed other) = same_provider_kind (provider_kind p unclassified) key

is_failure_of-fault_kind :
    (key : ProviderKind) (p : String) (e : AttemptError)
    → is_failure_of key (p, failed e) ≡ same_provider_kind (provider_kind p (fault_kind e)) key
is_failure_of-fault_kind key p (fault f) = refl
is_failure_of-fault_kind key p deadline_exceeded = refl
is_failure_of-fault_kind key p other = refl

failure-step :
    (key : ProviderKind) (p : String) (o : Outcome) (m : List (ProviderKind × ℤ)) (v : ℕ)
    → has key m ≡ true
    → get key m ≡ pos v
    → v + num (is_failure_of key (p, o)) < 2 ^ 63
    → (has key (count_failure p o m) ≡ true)
      × (get key (count_failure p o m) ≡ pos (v + num (is_failure_of key (p, o))))
failure-step key p (completed c) m v h g b = (h, g ∙ ap pos (omega arith))
failure-step key p (failed e) m v h g b =
    let q = provider_kind p (fault_kind e) in
    let same = is_failure_of-fault_kind key p e in
    (has-add q key (pos 1) m ∙ h, rw same (get-add_one q key m v h g (rw same at b)))

module _ {W : Type 0} (next : ModelProvider → ChatRequest → W → Outcome × W) where
  transparent :
      (calls : List (ModelProvider × ChatRequest)) (s : Metered W)
      → ((metered_run next calls s).0 ≡ (plain_run next calls s.world).0)
        × ((metered_run next calls s).1.world ≡ (plain_run next calls s.world).1)
  unfolding metered_run plain_run metered_complete
  transparent [] s = (refl, refl)
  transparent ((mp, req) ∷ rest) s =
      let (o, w) = transparent rest (metered_complete next mp req s).1 in
      (ap (λ os. (mp.provider, (next mp req s.world).0) ∷ os) o, w)

  attempts-run :
      (calls : List (ModelProvider × ChatRequest)) (s : Metered W) (p : String) (v : ℕ)
      → has p s.attempts ≡ true
      → get p s.attempts ≡ pos v
      → v + count (λ o. o.0 == p) (metered_run next calls s).0 < 2 ^ 63
      → get p (metered_run next calls s).1.attempts
        ≡ pos (v + count (λ o. o.0 == p) (metered_run next calls s).0)
  unfolding metered_run metered_complete
  attempts-run [] s p v h g b = g ∙ ap pos (omega arith)
  attempts-run ((mp, req) ∷ rest) s p v h g b =
      let s' = (metered_complete next mp req s).1 in
      let o : String × Outcome = (mp.provider, (next mp req s.world).0) in
      let e = count_cons (λ o. o.0 == p) o (metered_run next rest s').0 in
      let b' = rw e at b in
      attempts-run rest s' p (v + num (mp.provider == p))
        (has-add mp.provider p (pos 1) s.attempts ∙ h)
        (get-add_one mp.provider p s.attempts v h g (omega (arith, b'))) (omega (arith, b'))
      ∙ ap pos (omega (arith, e))

  failures-run :
      (calls : List (ModelProvider × ChatRequest)) (s : Metered W) (key : ProviderKind) (v : ℕ)
      → has key s.failures ≡ true
      → get key s.failures ≡ pos v
      → v + count (is_failure_of key) (metered_run next calls s).0 < 2 ^ 63
      → get key (metered_run next calls s).1.failures
        ≡ pos (v + count (is_failure_of key) (metered_run next calls s).0)
  unfolding metered_run metered_complete
  failures-run [] s key v h g b = g ∙ ap pos (omega arith)
  failures-run ((mp, req) ∷ rest) s key v h g b =
      let s' = (metered_complete next mp req s).1 in
      let o = (next mp req s.world).0 in
      let e = count_cons (is_failure_of key) (mp.provider, o) (metered_run next rest s').0 in
      let b' = rw e at b in
      let (h', g') = failure-step key mp.provider o s.failures v h g (omega (arith, b')) in
      failures-run rest s' key (v + num (is_failure_of key (mp.provider, o))) h' g'
        (omega (arith, b'))
      ∙ ap pos (omega (arith, e))

  count-run :
      (f : String × Outcome → Bool) (calls : List (ModelProvider × ChatRequest)) (w : W)
      → count f (plain_run next calls w).0 ≤ length calls
  unfolding plain_run
  count-run f [] w = omega arith
  count-run f ((mp, req) ∷ rest) w =
      let (o, w') = next mp req w in
      let i = count-run f rest w' in
      let e = count_cons f (mp.provider, o) (plain_run next rest w').0 in ground (arith, i, e)

own_kind :
    (p : String) (kind : CountedKind) (q : String) (rest : List ProviderKind)
    → (q == p) ≡ true
    → any
        (λ k. same_provider_kind k (provider_kind p kind))
        (map (provider_kind q) fault_kinds ++ rest)
      ≡ true
own_kind p (of_fault unreachable) q rest y = rw y refl
own_kind p (of_fault timeout) q rest y = rw y refl
own_kind p (of_fault server_error) q rest y = rw y refl
own_kind p (of_fault throttled) q rest y = rw y refl
own_kind p (of_fault bad_response) q rest y = rw y refl
own_kind p (of_fault rejected) q rest y = rw y refl
own_kind p unclassified q rest y = rw y refl

keys-any :
    (own : List String) (p : String) (kind : CountedKind)
    → any (λ q. q == p) own ≡ true
    → any (λ k. same_provider_kind k (provider_kind p kind)) (provider_kind_keys own) ≡ true
unfolding provider_kind_keys
keys-any [] p kind h = absurd (ground (arith, h))
keys-any (q ∷ rest) p kind h = elim (Bool-cases (q == p)) [
  | inl y ↦ own_kind p kind q (provider_kind_keys rest) y
  | inr n ↦ rw n (keys-any rest p kind (rw n at h))
]

-- Over attempts one after another, through counters that are new, every outcome and everything outside
-- is as without the counters; and, with fewer than 2^63 attempts, the counters of each configured
-- provider say how many attempts were at it, and how many of those failed with each kind of fault or
-- with an error of no kind.
pub metered_run-counts :
    {W : Type 0} (next : ModelProvider → ChatRequest → W → Outcome × W) (own : List String)
    (calls : List (ModelProvider × ChatRequest)) (w : W)
    → length calls < 2 ^ 63
    → (let plain = plain_run next calls w in
        let metered = metered_run next calls (new_provider_client own w) in
        (metered.0 ≡ plain.0)
        × (metered.1.world ≡ plain.1)
        × ((p : String)
            → any (λ q. q == p) own ≡ true
            → (get p metered.1.attempts ≡ pos (count (λ o. o.0 == p) plain.0))
              × ((kind : CountedKind)
                  → get (provider_kind p kind) metered.1.failures
                    ≡ pos (count (is_failure_of (provider_kind p kind)) plain.0))))
unfolding new_provider_client get
metered_run-counts next own calls w b =
    let s = new_provider_client own w in
    let (o, u) = transparent next calls s in
    (
      o,
      u,
      λ p h. (
        (let n = count-run next (λ o. o.0 == p) calls w in
            attempts-run next calls s p 0 (has-fill_counters own p [] ∙ rw h refl)
              (get-fill_counters own p [] refl) (rw o (omega (arith, b, n)))
            ∙ rw o (ap pos (omega arith))),
        λ kind.
            let key = provider_kind p kind in
            let n = count-run next (is_failure_of key) calls w in
            failures-run next calls s key 0
              (has-fill_counters (provider_kind_keys own) key [] ∙ rw (keys-any own p kind h) refl)
              (get-fill_counters (provider_kind_keys own) key [] refl) (rw o (omega (arith, b, n)))
            ∙ rw o (ap pos (omega arith)),
      ),
    )
