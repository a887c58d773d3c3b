-- ===== src/ProviderKeys/Refreshed.antt =====
-- internal/providerkeys/cache.go: what RefreshAll and KeepFresh leave in force.
use llmgateway_go.Prelude.{
  ℕ, String, ◌==◌, eq_iff, eq_refl, List, [], ◌∷◌, ◌≡◌, refl, sym, ap, subst, ◌∙◌, Option, none,
  some, Bool, true, false, not, ◌&&◌, ◌||◌, any, All, arith, if◌then◌else◌, Bool-cases,
  Option-cases, inl, inr,
}
use llmgateway_go.Prelude.Int.{ltz, pos}
use llmgateway_go.Prelude.Maps.{lookup, keys}
use llmgateway_go.Prelude.Sorted.{sort_entries, All-sort_entries_of}
use llmgateway_go.ProviderKeys.{
  Entry, Cache, RefreshError, Event, refreshes, refresh, key_for, interval,
}
use llmgateway_go.ProviderKeys.Keep.{is_configured, next_key, in_force, refresh-Same}
use llmgateway_go.ProviderKeys.Loops.{
  providers, with_failure, refresh_each, refresh_all, Choice, done, tick, keep_turning, keep_fresh,
}

-- A read gave a credential.
abbrev pub is_credential : Option String → Bool
is_credential none = false
is_credential (some key) = not (key == "")

abbrev pub fails_at : String → List (String × RefreshError) → Bool
fails_at p errs = any (λ f. f.0 == p) errs

-- The refreshes of a list of providers, as events.
abbrev reads_of : (String → Option String × ℕ) → List String → List Event
reads_of answer [] = []
reads_of answer (q ∷ rest) = refreshes q (answer q).0 ∷ reads_of answer rest

abbrev pub or_keep : Option String → String → String
or_keep none k = k
or_keep (some key) k = if key == "" then k else key

abbrev occurs : String → List String → Bool
occurs p xs = any (λ x. x == p) xs

next_key_lem :
    (p q : String) (fetched : Option String) (k : String)
    → next_key p (refreshes q fetched) k ≡ (if q == p then or_keep fetched k else k)
next_key_lem p q none k = ground arith
next_key_lem p q (some key) k = ground arith

or_keep-or_keep :
    (fetched : Option String) (k : String) → or_keep fetched (or_keep fetched k) ≡ or_keep fetched k
or_keep-or_keep none k = refl
or_keep-or_keep (some key) k = ground arith

-- A failure of `q` is one of `p` where they are the same provider.
refresh-fails :
    (p q : String) (fetched : Option String) (now : ℕ) (c : Cache)
    → is_configured c p ≡ true
    → (errs : List (String × RefreshError))
    → fails_at p (with_failure q (refresh q fetched now c).0 errs)
      ≡ (q == p && not (is_credential fetched)) || fails_at p errs
unfolding refresh
refresh-fails p q none now c i errs = elim (Option-cases (lookup q c)) [
  | inl h ↦ rw h (ground arith)
  | inr (e, h) ↦ rw h (ground arith)
]
refresh-fails p q (some key) now c i errs = elim (Option-cases (lookup q c)) [
  | inl h ↦ elim (Bool-cases (q == p)) [
    | inl same ↦
        let hp : lookup p c ≡ none = rw (← (eq_iff q p).0 same) h in absurd (ground (arith, hp))
    | inr other ↦ rw (h, other) refl
  ]
  | inr (e, h) ↦ elim (Bool-cases (key == "")) [
    | inl z ↦ rw (h, z) (ground arith)
    | inr z ↦ rw (h, z) (ground arith)
  ]
]

or_and : (a b : Bool) → (true && b) || (a && b) ≡ true && b
or_and a b = ground arith

-- Every provider with an entry is among the names.
absent :
    (p : String) (m : List (String × Entry))
    → occurs p (keys m) ≡ false
    → All (λ e. (e.0 == p) ≡ false) m
absent p [] h = tt
absent p (e ∷ m) h = elim (Bool-cases (e.0 == p)) [
  | inl same ↦ let b : true ≡ false = rw same at h in absurd (ground (arith, b))
  | inr other ↦ (other, absent p m (rw other at h))
]

absent-lookup : (p : String) (m : Cache) → All (λ e. (e.0 == p) ≡ false) m → lookup p m ≡ none
unfolding lookup
absent-lookup p [] h = refl
absent-lookup p ((q, e) ∷ m) h = rw h.0 (absent-lookup p m h.1)

module _ (p : String) (answer : String → Option String × ℕ) where
  reads-key :
      (xs : List String) (k : String)
      → in_force p (reads_of answer xs) k ≡ (if occurs p xs then or_keep (answer p).0 k else k)
  reads-key [] k = refl
  reads-key (q ∷ rest) k =
      ap (in_force p (reads_of answer rest)) (next_key_lem p q (answer q).0 k)
      ∙ (elim (Bool-cases (q == p)) [
        | inl same ↦
            subst
              (λ r.
                in_force p (reads_of answer rest) (if r == p then or_keep (answer r).0 k else k)
                ≡ (if (if r == p then true else occurs p rest) then or_keep (answer p).0 k else k))
              (sym ((eq_iff q p).0 same))
              (rw (eq_refl p) (
                reads-key rest (or_keep (answer p).0 k)
                ∙ ground (arith, or_keep-or_keep (answer p).0 k)))
        | inr other ↦ rw other (reads-key rest k)
      ])

  each-Same :
      (xs : List String) (c : Cache)
      → is_configured c p ≡ true
      → key_for (refresh_each answer xs c).1 p ≡ in_force p (reads_of answer xs) (key_for c p)
  unfolding refresh_each
  each-Same [] c i = refl
  each-Same (q ∷ rest) c i =
      let k = refresh-Same p q (answer q).0 (answer q).1 c i in
      each-Same rest (refresh q (answer q).0 (answer q).1 c).1 k.configured
      ∙ ap (in_force p (reads_of answer rest)) k.keyed

  each-fails :
      (xs : List String) (c : Cache)
      → is_configured c p ≡ true
      → fails_at p (refresh_each answer xs c).0 ≡ occurs p xs && not (is_credential (answer p).0)
  unfolding refresh_each
  each-fails [] c i = refl
  each-fails (q ∷ rest) c i =
      let k = refresh-Same p q (answer q).0 (answer q).1 c i in
      let c' = (refresh q (answer q).0 (answer q).1 c).1 in
      refresh-fails p q (answer q).0 (answer q).1 c i (refresh_each answer rest c').0
      ∙ rw (each-fails rest c' k.configured) (elim (Bool-cases (q == p)) [
        | inl same ↦
            rw (same, ap (λ r. is_credential (answer r).0) ((eq_iff q p).0 same))
              (or_and (occurs p rest) (not (is_credential (answer p).0)))
        | inr other ↦ rw other refl
      ])

  providers-occurs : (c : Cache) → is_configured c p ≡ true → occurs p (providers c) ≡ true
  unfolding providers
  providers-occurs c i = elim (Bool-cases (occurs p (keys (sort_entries c)))) [
    | inl y ↦ y
    | inr n ↦
        let h : lookup p c ≡ none =
          absent-lookup p c
            (All-sort_entries_of (λ e. (e.0 == p) ≡ false) c (absent p (sort_entries c) n)) in
        absurd (ground (arith, h))
  ]

  -- A round of refreshes reaches every configured provider, whatever the others' reads gave: where its
  -- read gave a credential that is not empty, that is the one in force, and otherwise the one from before
  -- stays in force and the provider is among the reported failures, where no other configured one is.
  pub refresh_all-each :
      (c : Cache)
      → is_configured c p ≡ true
      → (key_for (refresh_all answer c).1 p ≡ or_keep (answer p).0 (key_for c p))
        × (fails_at p (refresh_all answer c).0 ≡ not (is_credential (answer p).0))
  unfolding refresh_all
  refresh_all-each c i =
      let o = providers-occurs c i in
      (
        each-Same (providers c) c i ∙ (reads-key (providers c) (key_for c p) ∙ rw o refl),
        each-fails (providers c) c i ∙ rw o refl,
      )

abbrev pub has_done : List Choice → Bool
has_done [] = false
has_done (done ∷ rest) = true
has_done (tick fetched now ∷ rest) = has_done rest

-- The last credential that a tick before the end got.
abbrev pub ticked : List Choice → String → String
ticked [] k = k
ticked (done ∷ rest) k = k
ticked (tick fetched now ∷ rest) k = ticked rest (or_keep fetched k)

turning :
    (p : String) (choices : List Choice) (c : Cache)
    → is_configured c p ≡ true
    → ((keep_turning p choices c).0 ≡ has_done choices)
      × (key_for (keep_turning p choices c).1 p ≡ ticked choices (key_for c p))
unfolding keep_turning
turning p [] c i = (refl, refl)
turning p (done ∷ rest) c i = (refl, refl)
turning p (tick fetched now ∷ rest) c i =
    let k = refresh-Same p p fetched now c i in
    let (r, f) = turning p rest (refresh p fetched now c).1 k.configured in
    let n = next_key_lem p p fetched (key_for c p) in
    (r, f ∙ ap (ticked rest) (k.keyed ∙ (n ∙ rw (eq_refl p) refl)))

-- The loop that keeps a provider's credential current returns at once where it has no cadence, and
-- otherwise at the end of its context and not before, whatever its reads gave; until then the credential
-- in force is the last that a tick got and that is not empty.
pub keep_fresh-returns :
    (p : String) (choices : List Choice) (c : Cache)
    → is_configured c p ≡ true
    → ((keep_fresh p choices c).0 ≡ not (ltz (pos 0) (interval c p)) || has_done choices)
      × (key_for (keep_fresh p choices c).1 p
          ≡ (if ltz (pos 0) (interval c p) then ticked choices (key_for c p) else key_for c p))
unfolding keep_fresh
keep_fresh-returns p choices c i = elim (Bool-cases (ltz (pos 0) (interval c p))) [
  | inl y ↦ rw y (turning p choices c i)
  | inr n ↦ rw n (refl, refl)
]
