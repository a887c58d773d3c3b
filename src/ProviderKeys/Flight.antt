-- ===== src/ProviderKeys/Flight.antt =====
-- A rejected credential does not become load on the secret store: of each provider one refresh is
-- triggered at a time, and no two within the cooldown.
use llmgateway_go.Prelude.{
  ℕ, ◌+◌, ◌≤◌, String, ◌==◌, eq_iff, eq_refl, List, [], ◌∷◌, ◌≡◌, refl, Option, none, some, Bool,
  true, false, ◌||◌, any, num, count, arith, if◌then◌else◌, Bool-cases, Option-cases, inl, inr,
}
use llmgateway_go.Prelude.Maps.{lookup, insert, lookup-insert}
use llmgateway_go.ProviderKeys.{
  Entry, Source, Cache, AtWork, Event, passes, triggers, refreshes, ends, refresh, trigger_refresh,
  trigger_cooldown, is_recent, clear, step, run, idle, fresh_entries, new_entry, remove_one,
}

abbrev pub is_refreshing_in : Option Entry → Bool
is_refreshing_in none = false
is_refreshing_in (some e) = e.is_refreshing

abbrev pub last_in : Option Entry → Option ℕ
last_in none = none
last_in (some e) = e.last_trigger

abbrev pub starts_of : String → List (String × ℕ) → List ℕ
starts_of p [] = []
starts_of p ((q, t) ∷ rest) = let others = starts_of p rest in if q == p then t ∷ others else others

abbrev pub newest : List ℕ → Option ℕ
newest [] = none
newest (t ∷ rest) = some t

-- Times, newest first, each at least the cooldown after the one before.
abbrev pub Spaced : List ℕ → Type 0
Spaced [] = Unit
Spaced (t ∷ []) = Unit
Spaced (t ∷ u ∷ rest) = (u + trigger_cooldown ≤ t) × Spaced (u ∷ rest)

pub record Calm (p : String) (s : AtWork) : Type 0 where
  pub one_flight : count (λ q. q == p) s.running ≡ num (is_refreshing_in (lookup p s.cache))
  pub last_known : newest (starts_of p s.starts) ≡ last_in (lookup p s.cache)
  pub spaced : Spaced (starts_of p s.starts)

module _ (p : String) where
  -- An entry is replaced by one with the same flag and the same last trigger.
  kept_flags :
      (q : String) (e e' : Entry) (c : Cache)
      → lookup q c ≡ some e
      → e'.is_refreshing ≡ e.is_refreshing
      → e'.last_trigger ≡ e.last_trigger
      → (is_refreshing_in (lookup p (insert q e' c)) ≡ is_refreshing_in (lookup p c))
        × (last_in (lookup p (insert q e' c)) ≡ last_in (lookup p c))
  kept_flags q e e' c h f l = elim (Bool-cases (q == p)) [
    | inl same ↦ rw (lookup-insert q p e' c, same, ← (eq_iff q p).0 same, h) (f, l)
    | inr other ↦ rw (lookup-insert q p e' c, other) (refl, refl)
  ]

  refresh-flags :
      (q : String) (fetched : Option String) (now : ℕ) (c : Cache)
      → (is_refreshing_in (lookup p (refresh q fetched now c).1) ≡ is_refreshing_in (lookup p c))
        × (last_in (lookup p (refresh q fetched now c).1) ≡ last_in (lookup p c))
  unfolding refresh
  refresh-flags q none now c = elim (Option-cases (lookup q c)) [
    | inl h ↦ rw h (refl, refl)
    | inr (e, h) ↦ rw h (refl, refl)
  ]
  refresh-flags q (some key) now c = elim (Option-cases (lookup q c)) [
    | inl h ↦ rw h (refl, refl)
    | inr (e, h) ↦ elim (Bool-cases (key == "")) [
      | inl z ↦ rw (h, z) (refl, refl)
      | inr z ↦
          rw (h, z) (kept_flags q e (record e { key = key; loaded_at = some now }) c h refl refl)
    ]
  ]

  Spaced-cons :
      (now : ℕ) (ts : List ℕ) (o : Option ℕ)
      → newest ts ≡ o
      → is_recent now o ≡ false
      → Spaced ts
      → Spaced (now ∷ ts)
  Spaced-cons now [] o e h s = tt
  Spaced-cons now (t ∷ ts) none e h s = absurd (ground arith)
  Spaced-cons now (t ∷ ts) (some u) e h s = (ground arith, s)

  -- The state after a start.
  abbrev after_start : String → Entry → AtWork → AtWork
  after_start q e s = record s {
    cache = insert q (record e { is_refreshing = true; last_trigger = some s.now }) s.cache;
    running = q ∷ s.running;
    starts = (q, s.now) ∷ s.starts;
  }

  start-own :
      (q : String) (e : Entry) (s : AtWork)
      → (q == p) ≡ true
      → lookup p s.cache ≡ some e
      → e.is_refreshing ≡ false
      → is_recent s.now e.last_trigger ≡ false
      → Calm p s
      → Calm p (after_start q e s)
  start-own q e s same h f r v =
      let e' = record e { is_refreshing = true; last_trigger = some s.now } in
      let known = v.last_known in
      let flight = v.one_flight in
      record {
        one_flight = rw (lookup-insert q p e' s.cache, same) (ground (arith, h));
        last_known = rw (lookup-insert q p e' s.cache, same) refl;
        spaced =
            rw same
              (Spaced-cons s.now (starts_of p s.starts) e.last_trigger (rw h at known) r v.spaced);
      }

  start-other :
      (q : String) (e : Entry) (s : AtWork)
      → (q == p) ≡ false
      → Calm p s
      → Calm p (after_start q e s)
  start-other q e s other v =
      let e' = record e { is_refreshing = true; last_trigger = some s.now } in
      record {
        one_flight = rw (lookup-insert q p e' s.cache, other) v.one_flight;
        last_known = rw (lookup-insert q p e' s.cache, other) v.last_known;
        spaced = rw other v.spaced;
      }

  trigger-Calm : (q : String) (s : AtWork) → Calm p s → Calm p (step (triggers q) s)
  unfolding step trigger_refresh
  trigger-Calm q s v = elim (Option-cases (lookup q s.cache)) [
    | inl h ↦ rw h v
    | inr (e, h) ↦ elim (Bool-cases (e.is_refreshing || is_recent s.now e.last_trigger)) [
      | inl b ↦ rw (h, b) v
      | inr b ↦
          rw (h, b)
            (elim (Bool-cases (q == p)) [
              | inl same ↦
                  start-own q e s same (rw (← (eq_iff q p).0 same) h) (ground arith) (ground arith)
                    v
              | inr other ↦ start-other q e s other v
            ])
    ]
  ]

  refreshes-Calm :
      (q : String) (fetched : Option String) (s : AtWork)
      → Calm p s
      → Calm p (step (refreshes q fetched) s)
  unfolding step
  refreshes-Calm q fetched s v =
      let (f, l) = refresh-flags q fetched s.now s.cache in
      record { one_flight = rw f v.one_flight; last_known = rw l v.last_known; spaced = v.spaced }

  count-remove_one :
      (q : String) (xs : List String)
      → any (λ x. x == q) xs ≡ true
      → count (λ x. x == p) (remove_one q xs) + num (q == p) ≡ count (λ x. x == p) xs
  count-remove_one q [] h = cc
  count-remove_one q (x ∷ xs) h = elim (Bool-cases (x == q)) [
    | inl e ↦ rw (e, (eq_iff x q).0 e) (ground (arith, eq_refl q))
    | inr e ↦ rw e (ground (arith, count-remove_one q xs (rw e at h)))
  ]

  clear-flags :
      (q : String) (c : Cache)
      → (is_refreshing_in (lookup p (clear q c))
          ≡ (if q == p then false else is_refreshing_in (lookup p c)))
        × (last_in (lookup p (clear q c)) ≡ last_in (lookup p c))
  unfolding clear
  clear-flags q c = elim (Bool-cases (q == p)) [
    | inr other ↦ elim (Option-cases (lookup q c)) [
      | inl h ↦ rw (h, other) (refl, refl)
      | inr (e, h) ↦
          rw (h, other)
            (rw (lookup-insert q p (record e { is_refreshing = false }) c, other) (refl, refl))
    ]
    | inl same ↦
        rw (same, ← (eq_iff q p).0 same)
          (elim (Option-cases (lookup q c)) [
            | inl h ↦ rw (h, clear) (rw h (refl, refl))
            | inr (e, h) ↦ rw h (
                rw (lookup-insert q q (record e { is_refreshing = false }) c, eq_refl q)
                  (refl, refl))
          ])
  ]

  ends-Calm : (q : String) (s : AtWork) → Calm p s → Calm p (step (ends q) s)
  unfolding step
  ends-Calm q s v = elim (Bool-cases (any (λ x. x == q) s.running)) [
    | inr n ↦ rw n v
    | inl y ↦
        let (f, l) = clear-flags q s.cache in
        let r = count-remove_one q s.running y in
        let o = v.one_flight in
        rw y (record {
          one_flight = rw f (ground arith);
          last_known = rw l v.last_known;
          spaced = v.spaced;
        })
  ]

  step-Calm : (e : Event) (s : AtWork) → Calm p s → Calm p (step e s)
  step-Calm (triggers q) s v = trigger-Calm q s v
  step-Calm (refreshes q fetched) s v = refreshes-Calm q fetched s v
  step-Calm (ends q) s v = ends-Calm q s v
  step-Calm (passes d) s v =
      unfold step in
      record { one_flight = v.one_flight; last_known = v.last_known; spaced = v.spaced }

  run-Calm : (events : List Event) (s : AtWork) → Calm p s → Calm p (run events s)
  unfolding run
  run-Calm [] s v = v
  run-Calm (e ∷ rest) s v = run-Calm rest (step e s) (step-Calm e s v)

  fresh_flags :
      (sources : List (String × Source))
      → (is_refreshing_in (lookup p (fresh_entries sources)) ≡ false)
        × (last_in (lookup p (fresh_entries sources)) ≡ none)
  unfolding lookup
  fresh_flags [] = (refl, refl)
  fresh_flags ((q, src) ∷ rest) =
      let (f, l) = fresh_flags rest in
      elim (Bool-cases (q == p)) [
        | inl same ↦ rw (lookup-insert q p (new_entry src) (fresh_entries rest), same) (refl, refl)
        | inr other ↦ rw (lookup-insert q p (new_entry src) (fresh_entries rest), other) (f, l)
      ]

-- From a new cache, in every interleaving of rejections, refreshes, ends and passing time: of a
-- provider at most one triggered refresh runs, exactly while its flag is set, and the starts of two
-- are at least thirty seconds apart.
pub run-fresh-Calm :
    (sources : List (String × Source)) (events : List Event) (now : ℕ) (p : String)
    → Calm p (run events (idle now (fresh_entries sources)))
run-fresh-Calm sources events now p =
    let (f, l) = fresh_flags p sources in
    run-Calm p events _ (record { one_flight = rw f refl; last_known = rw l refl; spaced = tt })
