-- ===== src/Redis/Admission.antt =====
-- What the request limiter lets through: in one window no more than the quota of the app.
use llmgateway_go.Prelude.{
  ℕ, ◌+◌, ◌-◌, ◌*◌, ◌/◌, ◌%◌, ◌<◌, ◌≤◌, String, ◌==◌, eq_iff, eq_refl, List, [], ◌∷◌, ◌≡◌, ◌≢◌,
  refl, ap, subst, some, Bool, true, false, num, ◌&&◌, leb, arith, Bool-cases, inl, inr, ◌⊎◌,
}
use llmgateway_go.Prelude.Int.{ℤ, pos}
use llmgateway_go.Prelude.Maps.{get_or}
use llmgateway_go.Gateway.Domain.{RateDecision}
use llmgateway_go.Gateway.Ports.{Answer, down, says}
use llmgateway_go.Redis.Store.{
  Key, rps, tpm, Store, Documented, Reach, lost_before, lost_after, answered,
}
use llmgateway_go.Redis.Limiter.{window, admitted, key_of, ttl, increment, allow}

abbrev pub is_admitted : Answer RateDecision → Bool
is_admitted down = false
is_admitted (says d) = d.is_allowed

-- The core lets a request through whose answer is lost: it fails open.
abbrev pub is_lost : Answer RateDecision → Bool
is_lost down = true
is_lost (says d) = false

abbrev pub is_let_through : Answer RateDecision → Bool
is_let_through down = true
is_let_through (says d) = d.is_allowed

app_of_key : Key → String
app_of_key (rps app n) = app
app_of_key (tpm app n) = app

pub rps-apps : {app other : String} (m n : ℕ) → (app == other) ≡ false → rps app m ≢ rps other n
unfolding app_of_key
rps-apps {app} {other} m n h e = let same = ap app_of_key e in ground (arith, eq_iff app other)

-- A counter that was started outlives the next `rest` nanoseconds.
abbrev pub Alive : {W : Type 0} → Store W → Key → ℕ → W → Type 0
Alive store k rest w = 0 < store.value k w → rest < store.left k w

module _ {W : Type 0} (store : Store W) (doc : Documented store) where
  pub Alive-wait :
      (k : Key) (rest d : ℕ) (w : W)
      → d ≤ rest
      → Alive store k rest w
      → (store.value k (store.wait d w) ≡ store.value k w)
        × Alive store k (rest - d) (store.wait d w)
  Alive-wait k rest d w h a =
      let v : store.value k (store.wait d w) ≡ store.value k w =
        doc.wait-value k d w (ground arith) in
      (v, λ p. ground (arith, doc.wait-left k d w))

  increment-counts :
      (k : Key) (life : ℕ) (w : W)
      → ((increment store k life w).0 ≡ store.value k w + 1)
        × (store.value k (increment store k life w).1 ≡ store.value k w + 1)
  unfolding increment
  increment-counts k life w = (
    doc.incr_by-result k 1 w,
    ground (arith, doc.incr_by-value k 1 w, doc.expire-value k k life (store.incr_by k 1 w).1),
  )

  increment-Alive :
      (k : Key) (life rest : ℕ) (w : W)
      → rest < life * 1_000_000_000
      → Alive store k rest w
      → Alive store k rest (increment store k life w).1
  unfolding increment
  increment-Alive k life rest w h a p = ground (
    arith,
    doc.incr_by-result k 1 w,
    doc.incr_by-left k k 1 w,
    doc.expire-left k life (store.incr_by k 1 w).1,
  )

  increment-other :
      (k j : Key) (life : ℕ) (w : W)
      → j ≢ k
      → (store.value j (increment store k life w).1 ≡ store.value j w)
        × (store.left j (increment store k life w).1 ≡ store.left j w)
  unfolding increment
  increment-other k j life w n = (
    ground (arith, doc.incr_by-other k j 1 w n, doc.expire-value k j life (store.incr_by k 1 w).1),
    ground (arith, doc.incr_by-left k j 1 w, doc.expire-other k j life (store.incr_by k 1 w).1 n),
  )

  module _ (limits : List (String × ℤ)) (app : String) (limit : ℕ)
      (quota : get_or app (pos 0) limits ≡ pos limit) (metered : 0 < limit) where
    pub record Counted (k : Key) (rest : ℕ) (before : W) (r : Answer RateDecision × W)
        : Type 0 where
      pub alive : Alive store k rest r.1
      pub grows : store.value k before ≤ store.value k r.1
      pub admits :
          is_admitted r.0 ≡ true
          → (store.value k r.1 ≡ store.value k before + 1) × (store.value k r.1 ≤ limit)

    allow-own :
        (now rest : ℕ) (reach : Reach) (w : W)
        → rest < ttl * 1_000_000_000
        → Alive store (key_of app now) rest w
        → Counted (key_of app now) rest w (allow store limits app now reach w)
    unfolding allow
    allow-own now rest lost_before w h a = record {
      alive = ground arith;
      grows = ground arith;
      admits = ground arith;
    }
    allow-own now rest lost_after w h a =
        let (n, v) = increment-counts (key_of app now) ttl w in
        let b = increment-Alive (key_of app now) ttl rest w h a in
        record { alive = ground arith; grows = ground arith; admits = ground arith }
    allow-own now rest answered w h a =
        let (n, v) = increment-counts (key_of app now) ttl w in
        let b = increment-Alive (key_of app now) ttl rest w h a in
        record { alive = ground arith; grows = ground arith; admits = ground arith }

    pub allow_in-Counted :
        (now rest n : ℕ) (reach : Reach) (w : W)
        → now / window ≡ n
        → rest < ttl * 1_000_000_000
        → Alive store (rps app n) rest w
        → Counted (rps app n) rest w (allow store limits app now reach w)
    allow_in-Counted now rest n reach w e h =
        subst
          (λ m.
            Alive store (rps app m) rest w
            → Counted (rps app m) rest w (allow store limits app now reach w))
          e (allow-own now rest reach w h)

  allow-other :
      (limits : List (String × ℤ)) (app : String) (now : ℕ) (reach : Reach) (w : W) (j : Key)
      → j ≢ key_of app now
      → (store.value j (allow store limits app now reach w).1 ≡ store.value j w)
        × (store.left j (allow store limits app now reach w).1 ≡ store.left j w)
  unfolding allow
  allow-other limits app now lost_before w j n = ground arith
  allow-other limits app now lost_after w j n =
      let h = increment-other (key_of app now) j ttl w n in ground arith
  allow-other limits app now answered w j n =
      let h = increment-other (key_of app now) j ttl w n in ground arith

-- A refusal by the quota: it says the quota and the count, and a time to wait that is positive, at most
-- a second, and ends as the next window starts.
abbrev pub Refusal : ℕ → ℕ → ℕ → Answer RateDecision → Type 0
Refusal now limit used answer =
    (wait : ℕ) × (answer
      ≡ says (record {
        is_allowed = false;
        retry_after = pos wait;
        quota = some (record { limit = pos limit; window_seconds = pos 1; used = pos used });
      }))
    × (0 < wait)
    × (wait ≤ window)
    × ((now + wait) / window ≡ now / window + 1)
    × ((now + wait) % window ≡ 0)

-- A request of some app, after a gap since the one before.
pub record Ask : Type 0 where
  pub gap : ℕ
  pub app : String
  pub reach : Reach

abbrev pub duration : List Ask → ℕ
duration [] = 0
duration (a ∷ rest) = a.gap + duration rest

module _ {W : Type 0} (store : Store W) (limits : List (String × ℤ)) (app : String) where
  -- How many requests of an app are answered with an admission.
  unfoldable pub admissions : List Ask → ℕ → W → ℕ
  admissions [] now w = 0
  admissions (a ∷ rest) now w =
      let r = allow store limits a.app (now + a.gap) a.reach (store.wait a.gap w) in
      num ((a.app == app) && is_admitted r.0) + admissions rest (now + a.gap) r.1

  -- How many of them get no answer, and how many are let through by the core.
  unfoldable pub losses : List Ask → ℕ → W → ℕ
  losses [] now w = 0
  losses (a ∷ rest) now w =
      let r = allow store limits a.app (now + a.gap) a.reach (store.wait a.gap w) in
      num ((a.app == app) && is_lost r.0) + losses rest (now + a.gap) r.1

  unfoldable pub passes : List Ask → ℕ → W → ℕ
  passes [] now w = 0
  passes (a ∷ rest) now w =
      let r = allow store limits a.app (now + a.gap) a.reach (store.wait a.gap w) in
      num ((a.app == app) && is_let_through r.0) + passes rest (now + a.gap) r.1

  num-let_through :
      (b : Bool) (r : Answer RateDecision)
      → num (b && is_let_through r) ≡ num (b && is_admitted r) + num (b && is_lost r)
  num-let_through true down = omega arith
  num-let_through true (says d) = omega arith
  num-let_through false r = omega arith

  passes-lem :
      (asks : List Ask) (now : ℕ) (w : W)
      → passes asks now w ≡ admissions asks now w + losses asks now w
  unfolding passes admissions losses
  passes-lem [] now w = omega arith
  passes-lem (a ∷ rest) now w =
      let r = allow store limits a.app (now + a.gap) a.reach (store.wait a.gap w) in
      omega (arith, num-let_through (a.app == app) r.0, passes-lem rest (now + a.gap) r.1)

  module _ (doc : Documented store) (limit : ℕ) (quota : get_or app (pos 0) limits ≡ pos limit)
      (metered : 0 < limit) where
    admissions-value :
        (asks : List Ask) (now rest n : ℕ) (w : W)
        → now / window ≡ n
        → now + rest < (n + 1) * window
        → duration asks ≤ rest
        → Alive store (rps app n) rest w
        → admissions asks now w ≤ limit - store.value (rps app n) w
    unfolding admissions
    admissions-value [] now rest n w e h d a = omega arith
    admissions-value (x ∷ xs) now rest n w e h d a =
        let (v, b) = Alive-wait store doc (rps app n) rest x.gap w (omega arith) a in
        let e' : (now + x.gap) / window ≡ n = omega arith in
        let w' = store.wait x.gap w in
        elim (Bool-cases (x.app == app)) [
          | inr o ↦
              let (v', l') =
                allow-other store doc limits x.app (now + x.gap) x.reach w' (rps app n)
                  (rps-apps n _ (ground (arith, eq_iff x.app app, eq_iff app x.app))) in
              let ih =
                admissions-value xs (now + x.gap) (rest - x.gap) n
                  (allow store limits x.app (now + x.gap) x.reach w').1 e' (omega arith)
                  (omega arith) (λ p. ground arith) in
              ground arith
          | inl o ↦
              let r = allow store limits app (now + x.gap) x.reach w' in
              let c =
                allow_in-Counted store doc limits app limit quota metered (now + x.gap)
                  (rest - x.gap) n x.reach w' e' (omega arith) b in
              let ih =
                admissions-value xs (now + x.gap) (rest - x.gap) n r.1 e' (omega arith)
                  (omega arith) c.alive in
              let g = c.grows in
              let f = c.admits in rw ((eq_iff x.app app).0 o, eq_refl app) (ground arith)
        ]

    -- Within one second of the clock, whatever mix of apps asks and whichever answers are lost, the limiter
    -- admits no more requests of a metered app than its quota, where the app's counter of that second was
    -- not started before; and with those whose answer is lost, which the core lets through, no more pass
    -- than the quota and the number of lost answers.
    pub admissions-Bounded :
        (asks : List Ask) (now : ℕ) (w : W)
        → (now + duration asks) / window ≡ now / window
        → store.value (key_of app now) w ≡ 0
        → (admissions asks now w ≤ limit) × (passes asks now w ≤ limit + losses asks now w)
    admissions-Bounded asks now w same fresh =
        let h =
          admissions-value asks now (duration asks) (now / window) w refl (omega arith)
            (omega arith) (λ p. omega (arith, fresh)) in
        (omega (arith, h), omega (arith, h, passes-lem asks now w))

    -- The request that is answered is counted, and admitted just where the count stays within the quota.
    -- A refusal says the quota and the count, and a time to wait that is positive, at most a second,
    -- and ends as the next window starts.
    pub allow-decides :
        (now : ℕ) (w : W)
        → let used = store.value (key_of app now) w + 1 in
          let r = allow store limits app now answered w in
          (store.value (key_of app now) r.1 ≡ used)
          × (((r.0 ≡ says admitted) × (used ≤ limit))
              ⊎ ((limit < used) × Refusal now limit used r.0))
    unfolding allow
    allow-decides now w =
        let (n, v) = increment-counts store doc (key_of app now) ttl w in
        elim (Bool-cases (leb (store.value (key_of app now) w + 1) limit)) [
          | inl e ↦ (ground arith, inl (ground arith, ground arith))
          | inr e ↦ (
            ground arith,
            inr (
              ground arith,
              (
                window - now % window,
                ground arith,
                omega arith,
                omega arith,
                omega arith,
                omega arith,
              ),
            ),
          )
        ]
