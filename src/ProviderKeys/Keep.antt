-- ===== src/ProviderKeys/Keep.antt =====
-- Credentials fail static: only a read that holds a credential replaces the one in force.
use llmgateway_go.Prelude.{
  ℕ, String, ◌==◌, eq_iff, List, [], ◌∷◌, ◌≡◌, refl, ◌∙◌, ap, Option, none, some, Bool, true, false,
  not, ◌&&◌, ◌||◌, any, arith, if◌then◌else◌, Bool-cases, Option-cases, inl, inr,
}
use llmgateway_go.Prelude.Maps.{lookup, insert, lookup-insert}
use llmgateway_go.ProviderKeys.{
  Entry, Cache, AtWork, Event, passes, triggers, refreshes, ends, refresh, trigger_refresh,
  is_recent, clear, step, run, key_for,
}

abbrev pub has_entry : Option Entry → Bool
has_entry none = false
has_entry (some e) = true

abbrev pub is_configured : Cache → String → Bool
is_configured c p = has_entry (lookup p c)

-- The credential in force after one event, and after a list of them.
abbrev pub next_key : String → Event → String → String
next_key p (refreshes q (some key)) k = if (q == p) && not (key == "") then key else k
next_key p _ k = k

abbrev pub in_force : String → List Event → String → String
in_force p [] k = k
in_force p (e ∷ rest) k = in_force p rest (next_key p e k)

abbrev loaded_with : String → ℕ → Entry → Entry
loaded_with key now e = record e { key = key; loaded_at = some now }

module _ (p : String) where
  pub record Same (before after : Cache) (key : String) : Type 0 where
    pub keyed : key_for after p ≡ key
    pub configured : is_configured after p ≡ true

  -- An entry is replaced by one with the same key.
  replaced :
      (q : String) (e e' : Entry) (c : Cache)
      → lookup q c ≡ some e
      → e'.key ≡ e.key
      → is_configured c p ≡ true
      → Same c (insert q e' c) (key_for c p)
  replaced q e e' c h k i = elim (Bool-cases (q == p)) [
    | inl same ↦ record {
      keyed = rw (lookup-insert q p e' c, same, ← (eq_iff q p).0 same, h) k;
      configured = rw (lookup-insert q p e' c, same) refl;
    }
    | inr other ↦ record {
      keyed = rw (lookup-insert q p e' c, other) refl;
      configured = rw (lookup-insert q p e' c, other) i;
    }
  ]

  unchanged : (c : Cache) → is_configured c p ≡ true → Same c c (key_for c p)
  unchanged c i = record { keyed = refl; configured = i }

  pub refresh-Same :
      (q : String) (fetched : Option String) (now : ℕ) (c : Cache)
      → is_configured c p ≡ true
      → Same c (refresh q fetched now c).1 (next_key p (refreshes q fetched) (key_for c p))
  unfolding refresh
  refresh-Same q none now c i = elim (Option-cases (lookup q c)) [
    | inl h ↦ rw h (unchanged c i)
    | inr (e, h) ↦ rw h (unchanged c i)
  ]
  refresh-Same q (some key) now c i = elim (Bool-cases (q == p)) [
    | inl same ↦ elim (Option-cases (lookup q c)) [
      | inl h ↦
          let hp : lookup p c ≡ none = rw (← (eq_iff q p).0 same) h in absurd (ground (arith, hp))
      | inr (e, h) ↦ elim (Bool-cases (key == "")) [
        | inl z ↦ rw (h, z, same) (unchanged c i)
        | inr z ↦
            rw (h, z, same)
              (record {
                keyed = rw (lookup-insert q p (loaded_with key now e) c, same) refl;
                configured = rw (lookup-insert q p (loaded_with key now e) c, same) refl;
              })
      ]
    ]
    | inr other ↦ elim (Option-cases (lookup q c)) [
      | inl h ↦ rw (h, other) (unchanged c i)
      | inr (e, h) ↦ elim (Bool-cases (key == "")) [
        | inl z ↦ rw (h, z, other) (unchanged c i)
        | inr z ↦
            rw (h, z, other)
              (record {
                keyed = rw (lookup-insert q p (loaded_with key now e) c, other) refl;
                configured = rw (lookup-insert q p (loaded_with key now e) c, other) i;
              })
      ]
    ]
  ]

  trigger-Same :
      (q : String) (s : AtWork)
      → is_configured s.cache p ≡ true
      → Same s.cache (step (triggers q) s).cache (key_for s.cache p)
  unfolding step trigger_refresh
  trigger-Same q s i = elim (Option-cases (lookup q s.cache)) [
    | inl h ↦ rw h (unchanged s.cache i)
    | inr (e, h) ↦ elim (Bool-cases (e.is_refreshing || is_recent s.now e.last_trigger)) [
      | inl b ↦ rw (h, b) (unchanged s.cache i)
      | inr b ↦
          let e' = record e { is_refreshing = true; last_trigger = some s.now } in
          rw (h, b) (replaced q e e' s.cache h refl i)
    ]
  ]

  clear-Same :
      (q : String) (c : Cache) → is_configured c p ≡ true → Same c (clear q c) (key_for c p)
  unfolding clear
  clear-Same q c i = elim (Option-cases (lookup q c)) [
    | inl h ↦ rw h (unchanged c i)
    | inr (e, h) ↦ rw h (replaced q e (record e { is_refreshing = false }) c h refl i)
  ]

  step-Same :
      (e : Event) (s : AtWork)
      → is_configured s.cache p ≡ true
      → Same s.cache (step e s).cache (next_key p e (key_for s.cache p))
  unfolding step
  step-Same (passes d) s i = unchanged s.cache i
  step-Same (refreshes q fetched) s i = refresh-Same q fetched s.now s.cache i
  step-Same (triggers q) s i = trigger-Same q s i
  step-Same (ends q) s i = elim (Bool-cases (any (λ x. x == q) s.running)) [
    | inl y ↦ rw y (clear-Same q s.cache i)
    | inr n ↦ rw n (unchanged s.cache i)
  ]

  -- The credential of a configured provider that is in force after any events is the last that a read
  -- of it returned and that is not empty; with none such, it is the one from before.
  pub run-in_force :
      (events : List Event) (s : AtWork)
      → is_configured s.cache p ≡ true
      → key_for (run events s).cache p ≡ in_force p events (key_for s.cache p)
  unfolding run
  run-in_force [] s i = refl
  run-in_force (e ∷ rest) s i =
      let k = step-Same e s i in
      run-in_force rest (step e s) k.configured ∙ ap (in_force p rest) k.keyed
