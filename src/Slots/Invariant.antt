-- ===== src/Slots/Invariant.antt =====
-- The counters are the grants that are not given back, and stay under the limits.
use llmgateway_go.Prelude.{
  ℕ, ◌+◌, ◌-◌, ◌<◌, String, ◌==◌, eq_iff, eq_refl, List, [], ◌∷◌, ◌≡◌, refl, some, Bool, true,
  false, not, ◌&&◌, num, count, arith, if◌then◌else◌, Bool-cases, Option-cases, inl, inr,
}
use llmgateway_go.Prelude.Int.{ℤ, pos, ◌<ℤ◌, ◌≤ℤ◌}
use llmgateway_go.Prelude.Maps.{lookup-insert, lookup-delete}
use llmgateway_go.Slots.{
  Grant, Limiter, new, held, ceiling_of, is_reached, take, try_acquire, find, mark, give_back,
  release,
}

abbrev pub is_live_for : String → Grant → Bool
is_live_for app g = not g.is_done && g.app == app

abbrev pub is_live : Grant → Bool
is_live g = not g.is_done

-- A limit that is not positive is no limit.
abbrev pub Within : ℤ → ℕ → Type 0
Within limit n = pos 0 <ℤ limit → pos n ≤ℤ limit

pub record Inv (l : Limiter) : Type 0 where
  pub per_app : (app : String) → held l app ≡ count (is_live_for app) l.grants
  pub in_total : l.total ≡ count is_live l.grants
  pub under_ceiling : (app : String) → Within (ceiling_of l app) (held l app)
  pub under_global : Within l.global l.total

new-Inv : (global : ℤ) (ceilings : List (String × ℤ)) → Inv (new global ceilings)
unfolding new held
new-Inv global ceilings = record {
  per_app = λ app. refl;
  in_total = refl;
  under_ceiling = λ app h. ground arith;
  under_global = λ h. ground arith;
}

pub held-take :
    (l : Limiter) (app other : String) → held (take l app) other ≡ held l other + num (app == other)
unfolding take held
held-take l app other =
    ground (arith, lookup-insert app other (held l app + 1) l.in_flight, eq_iff app other)

ceiling_of-take :
    (l : Limiter) (app other : String) → ceiling_of (take l app) other ≡ ceiling_of l other
unfolding take ceiling_of
ceiling_of-take l app other = refl

take-Inv :
    (l : Limiter) (app : String)
    → is_reached (ceiling_of l app) (held l app) ≡ false
    → is_reached l.global l.total ≡ false
    → Inv l
    → Inv (take l app)
unfolding take is_reached
take-Inv l app own all v = record {
  per_app = λ other. let e = held-take l app other in let h = v.per_app other in ground arith;
  in_total = let h = v.in_total in ground arith;
  under_ceiling = λ other.
      let h = v.under_ceiling other in
      ground (arith, held-take l app other, eq_iff app other, ceiling_of-take l app other);
  under_global = let h = v.under_global in ground arith;
}

-- Both branches that refuse leave the limiter as it was.
pub try_acquire-Inv : (l : Limiter) (app : String) → Inv l → Inv (try_acquire l app).1
unfolding try_acquire
try_acquire-Inv l app v = elim (Bool-cases (is_reached (ceiling_of l app) (held l app))) [
  | inl e ↦ rw e v
  | inr e ↦ elim (Bool-cases (is_reached l.global l.total)) [
    | inl f ↦ rw (e, f) v
    | inr f ↦ rw (e, f) (take-Inv l app e f v)
  ]
]

count-mark :
    (p : Grant → Bool) (id : ℕ) (gs : List Grant) (g : Grant)
    → find id gs ≡ some g
    → p (record g { is_done = true }) ≡ false
    → count p (mark id gs) + num (p g) ≡ count p gs
unfolding find mark
count-mark p id [] g e d = cc
count-mark p id (x ∷ xs) g e d = ground (arith, count-mark p id xs g)

pub held-give_back :
    (l : Limiter) (app other : String)
    → held (give_back l app) other ≡ (if app == other then held l other - 1 else held l other)
unfolding give_back held
held-give_back l app other = ground (
  arith,
  lookup-insert app other (held l app - 1) l.in_flight,
  lookup-delete app other l.in_flight,
  eq_iff app other,
)

ceiling_of-give_back :
    (l : Limiter) (app other : String) → ceiling_of (give_back l app) other ≡ ceiling_of l other
unfolding give_back ceiling_of
ceiling_of-give_back l app other = refl

module _ (l : Limiter) (id : ℕ) (g : Grant) (v : Inv l) (found : find id l.grants ≡ some g)
    (live : g.is_done ≡ false) where
  abbrev marked : Limiter
  marked = record l { grants = mark id l.grants }

  held-marked : (other : String) → held marked other ≡ held l other
  unfolding held
  held-marked other = refl

  ceiling_of-marked : (other : String) → ceiling_of marked other ≡ ceiling_of l other
  unfolding ceiling_of
  ceiling_of-marked other = refl

  grants-give_back : (give_back marked g.app).grants ≡ mark id l.grants
  unfolding give_back
  grants-give_back = refl

  totals-give_back :
      ((give_back marked g.app).total ≡ l.total - 1) × ((give_back marked g.app).global ≡ l.global)
  unfolding give_back
  totals-give_back = (refl, refl)

  release_live-Inv : Inv (give_back marked g.app)
  release_live-Inv = record {
    per_app = λ other.
        let h = v.per_app other in
        ground (
          arith,
          held-give_back marked g.app other,
          held-marked other,
          count-mark (is_live_for other) id l.grants g found,
          grants-give_back,
        );
    in_total =
        let h = v.in_total in
        ground (arith, count-mark is_live id l.grants g found, grants-give_back, totals-give_back);
    under_ceiling = λ other.
        let h = v.under_ceiling other in
        ground (
          arith,
          held-give_back marked g.app other,
          held-marked other,
          ceiling_of-give_back marked g.app other,
          ceiling_of-marked other,
        );
    under_global = let h = v.under_global in ground (arith, totals-give_back);
  }

  -- Where the counters are decremented, both are positive: no count goes below zero.
  pub counts_positive : (0 < held l g.app) × (0 < l.total)
  counts_positive = (
    let h = v.per_app g.app in
        ground (arith, count-mark (is_live_for g.app) id l.grants g found, eq_refl g.app),
    let h = v.in_total in ground (arith, count-mark is_live id l.grants g found),
  )

pub release-Inv : (l : Limiter) (id : ℕ) → Inv l → Inv (release l id)
unfolding release
release-Inv l id v = elim (Option-cases (find id l.grants)) [
  | inl e ↦ rw (e, release) v
  | inr (g, e) ↦ elim (Bool-cases g.is_done) [
    | inl d ↦ rw (e, release) (rw d v)
    | inr d ↦ rw (e, release) (rw d (release_live-Inv l id g v e d))
  ]
]

-- A call of the limiter: a claim for an app, or the release function of a grant, called perhaps for
-- the second time.
pub data Call : Type 0 where
  acquires : String → Call
  releases : ℕ → Call

unfoldable pub run : Limiter → List Call → Limiter
run l [] = l
run l (acquires app ∷ cs) = run (try_acquire l app).1 cs
run l (releases id ∷ cs) = run (release l id) cs

run-Inv : (l : Limiter) (cs : List Call) → Inv l → Inv (run l cs)
unfolding run
run-Inv l [] v = v
run-Inv l (acquires app ∷ cs) v = run-Inv (try_acquire l app).1 cs (try_acquire-Inv l app v)
run-Inv l (releases id ∷ cs) v = run-Inv (release l id) cs (release-Inv l id v)

-- After any sequence of calls on a new limiter, however often a release function is called, the
-- counters are the numbers of grants that are not given back, each app is within its ceiling, and
-- all apps together are within the global cap.
pub run-new-Inv :
    (global : ℤ) (ceilings : List (String × ℤ)) (cs : List Call)
    → Inv (run (new global ceilings) cs)
run-new-Inv global ceilings cs = run-Inv _ cs (new-Inv global ceilings)
