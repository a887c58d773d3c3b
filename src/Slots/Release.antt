-- ===== src/Slots/Release.antt =====
-- What one call changes: a claim and its release cancel, and a release function works once.
use llmgateway_go.Prelude.{
  ℕ, String, List, [], ◌∷◌, ◌≡◌, refl, some, true, ◌⊎◌, inl, inr, eqb, arith, Bool-cases,
  Option-cases,
}
use llmgateway_go.Prelude.Int.{ℤ, pos}
use llmgateway_go.Slots.Invariant.{Inv, held-take, held-give_back}
use llmgateway_go.Slots.{
  Grant, Limiter, granted, refused_at, held, ceiling_of, is_reached, take, try_acquire, find, mark,
  give_back, release,
}

find-mark :
    (id : ℕ) (gs : List Grant) (g : Grant)
    → find id gs ≡ some g
    → (g' : Grant) × (find id (mark id gs) ≡ some g') × (g'.is_done ≡ true)
unfolding find mark
find-mark id [] g e = cc
find-mark id (x ∷ xs) g e = elim (Bool-cases (eqb x.id id)) [
  | inl h ↦ rw h (record x { is_done = true }, rw h refl, refl)
  | inr h ↦ rw h (rw h (find-mark id xs g (ground arith)))
]

-- A release function that is called again changes nothing: sync.Once.
pub release-release : (l : Limiter) (id : ℕ) → release (release l id) id ≡ release l id
unfolding release give_back
release-release l id = elim (Option-cases (find id l.grants)) [
  | inl e ↦ rw (e, release) (rw (e, release))
  | inr (g, e) ↦ elim (Bool-cases g.is_done) [
    | inl d ↦ rw (e, release) (rw d (rw (e, release) (rw d)))
    | inr d ↦
        let (g', e', d') = find-mark id l.grants g e in
        rw (e, release) (rw d (rw (e', release) (rw d')))
  ]
]

-- The slot just granted, with its release function run.
spent : Limiter → String → Limiter
spent l app =
    let t = take l app in
    record t { grants = record { id = l.next_id; app = app; is_done = true } ∷ l.grants }

release-take :
    (l : Limiter) (app : String) → release (take l app) l.next_id ≡ give_back (spent l app) app
unfolding release take spent
release-take l app = let e : eqb l.next_id l.next_id ≡ true = ground arith in rw e (rw e)

held-spent : (l : Limiter) (app other : String) → held (spent l app) other ≡ held (take l app) other
unfolding spent held
held-spent l app other = refl

counts-give_back :
    (l : Limiter) (app other : String)
    → (held (give_back (spent l app) app) other ≡ held l other)
      × ((give_back (spent l app) app).total ≡ l.total)
counts-give_back l app other = (
  ground (
    arith,
    held-give_back (spent l app) app other,
    held-spent l app other,
    held-take l app other,
  ),
  unfold give_back spent take in omega arith,
)

-- A slot that was granted and given back leaves every app's count and the total as they were.
pub release-try_acquire :
    (l : Limiter) (app other : String) {h : ℕ}
    → (try_acquire l app).0 ≡ granted h
    → (held (release (try_acquire l app).1 h) other ≡ held l other)
      × ((release (try_acquire l app).1 h).total ≡ l.total)
unfolding try_acquire
release-try_acquire l app other {h} e =
    elim (Bool-cases (is_reached (ceiling_of l app) (held l app))) [
      | inl c ↦ absurd (ground arith)
      | inr c ↦ elim (Bool-cases (is_reached l.global l.total)) [
        | inl d ↦ absurd (ground arith)
        | inr d ↦
            let same : l.next_id ≡ h = ground arith in
            rw (c, d, ← same, release-take l app) (counts-give_back l app other)
      ]
    ]

-- Within the limits, a claim is refused only where they are used up: the app holds as many slots as
-- its own ceiling, or all apps together as many as the global cap. The limiter is unchanged.
pub try_acquire-refused :
    (l : Limiter) (app : String) {c : ℤ}
    → Inv l
    → (try_acquire l app).0 ≡ refused_at c
    → ((try_acquire l app).1 ≡ l)
      × (((c ≡ ceiling_of l app) × (pos (held l app) ≡ c)) ⊎ ((c ≡ l.global) × (pos l.total ≡ c)))
unfolding try_acquire is_reached
try_acquire-refused l app v e =
    let own = v.under_ceiling app in let all = v.under_global in ground arith
