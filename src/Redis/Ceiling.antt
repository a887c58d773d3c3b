-- ===== src/Redis/Ceiling.antt =====
-- How far an app may overshoot its budget of tokens: a check sees only what was debited, so what
-- bounds the overshoot is how many of its requests run at once.
use llmgateway_go.Prelude.{ℕ, suc, ◌+◌, ◌-◌, ◌*◌, ◌/◌, ◌<◌, ◌≤◌, String, List, ◌≡◌, true, arith}
use native.Mathlib.Nat.{mul-le-mul_left}
use llmgateway_go.Prelude.Int.{ℤ, pos}
use llmgateway_go.Prelude.Maps.{get_or}
use llmgateway_go.Redis.Store.{Key, Store, Documented, Reach, lost_before, lost_after, answered}
use llmgateway_go.Redis.Admission.{Alive, Alive-wait, is_admitted}
use llmgateway_go.Redis.TokenLimiter.{token_window, token_key, token_ttl, debit, check, settle}

-- One app in one window: the clock, the server, and how many of the app's requests run.
pub record Busy (W : Type 0) : Type 0 where
  pub now : ℕ
  pub world : W
  pub running : ℕ

module _ {W : Type 0} (store : Store W) (budgets : List (String × ℤ)) (app : String)
    (slots most : ℕ) where
  -- A request of the app starts, where its check was answered and admits it and a slot is free; it
  -- ends, having cost at most `most` tokens; or time passes within the window.
  pub data Step : Busy W → Busy W → Type 0 where
    starts :
        (s : Busy W)
        → is_admitted (check store budgets app s.now answered s.world).0 ≡ true
        → s.running < slots
        → Step s (record {
          now = s.now;
          world = (check store budgets app s.now answered s.world).1;
          running = suc s.running;
        })
    ends :
        (now n tokens : ℕ) (w : W) (reach : Reach)
        → tokens ≤ most
        → Step
            (record { now = now; world = w; running = suc n })
            (record {
              now = now;
              world = (settle store budgets app (pos tokens) now reach w).1;
              running = n;
            })
    waits :
        (s : Busy W) (d : ℕ)
        → (s.now + d) / token_window ≡ s.now / token_window
        → Step s (record { now = s.now + d; world = store.wait d s.world; running = s.running })

  pub data Steps : Busy W → Busy W → Type 0 where
    done : (s : Busy W) → Steps s s
    step : (s t u : Busy W) → Step s t → Steps t u → Steps s u

  -- The rest of the window.
  abbrev pub rest_of : ℕ → ℕ
  rest_of now = (now / token_window + 1) * token_window - 1 - now

  module _ (doc : Documented store) (budget : ℕ) (metered : get_or app (pos 0) budgets ≡ pos budget)
      (positive : 0 < budget) where
    debit-Alive :
        (k : Key) (tokens rest : ℕ) (w : W)
        → rest < token_ttl * 1_000_000_000
        → Alive store k rest w
        → (store.value k (debit store k tokens token_ttl w).1 ≡ store.value k w + tokens)
          × Alive store k rest (debit store k tokens token_ttl w).1
    unfolding debit
    debit-Alive k tokens rest w h a = (
      ground (
        arith,
        doc.incr_by-value k tokens w,
        doc.expire-value k k token_ttl (store.incr_by k tokens w).1,
      ),
      λ p. ground (
        arith,
        doc.incr_by-result k tokens w,
        doc.incr_by-value k tokens w,
        doc.incr_by-left k k tokens w,
        doc.expire-left k token_ttl (store.incr_by k tokens w).1,
      ),
    )

    settle-spent :
        (tokens now rest : ℕ) (reach : Reach) (w : W)
        → rest < token_ttl * 1_000_000_000
        → Alive store (token_key app now) rest w
        → let w' = (settle store budgets app (pos tokens) now reach w).1 in
          (store.value (token_key app now) w' ≤ store.value (token_key app now) w + tokens)
          × Alive store (token_key app now) rest w'
    unfolding settle
    settle-spent tokens now rest lost_before w h a = (ground arith, ground arith)
    settle-spent tokens now rest lost_after w h a =
        let (v, b) = debit-Alive (token_key app now) tokens rest w h a in
        (ground arith, ground arith)
    settle-spent tokens now rest answered w h a =
        let (v, b) = debit-Alive (token_key app now) tokens rest w h a in
        (ground arith, ground arith)

    check-spent :
        (now : ℕ) (w : W)
        → ((check store budgets app now answered w).1 ≡ w)
          × (is_admitted (check store budgets app now answered w).0 ≡ true
              → store.value (token_key app now) w < budget)
    unfolding check
    check-spent now w = (ground arith, λ h. ground arith)

    record Bounded (s : Busy W) : Type 0 where
      limit : store.value (token_key app s.now) s.world + most * s.running < budget + most * slots
      alive : Alive store (token_key app s.now) (rest_of s.now) s.world

    step-Bounded : {s t : Busy W} → Step s t → Bounded s → Bounded t
    step-Bounded (starts s h free) b =
        let (same, under) = check-spent s.now s.world in
        let u = under h in
        let m = mul-le-mul_left most free in
        let l = b.alive in record { limit = rw same (omega arith); alive = rw same l }
    step-Bounded (ends now n tokens w reach h) b =
        let (v, a) = settle-spent tokens now (rest_of now) reach w (omega arith) b.alive in
        let l = b.limit in record { limit = ground arith; alive = a }
    step-Bounded (waits s d h) b =
        let (v, a) =
          Alive-wait store doc (token_key app s.now) (rest_of s.now) d s.world (omega arith)
            b.alive in
        let l = b.limit in
        record { limit = rw (h, v) l; alive = rw h (λ p. let q = a p in omega arith) }

    Steps-Bounded : {s t : Busy W} → Steps s t → Bounded s → Bounded t
    Steps-Bounded (done s) b = b
    Steps-Bounded (step s t u h k) b = Steps-Bounded k (step-Bounded h b)

    -- While the store answers the checks of an app with a budget, and at most `slots` of its requests
    -- run at once, each costing at most `most` tokens, what is debited in one window stays below the
    -- budget and `slots` times `most`, however the requests interleave and whichever debits are lost;
    -- the window starts with nothing debited and nothing running.
    pub Steps-ceiling :
        {s t : Busy W}
        → Steps s t
        → s.running ≡ 0
        → store.value (token_key app s.now) s.world ≡ 0
        → store.value (token_key app t.now) t.world < budget + most * slots
    Steps-ceiling {s} {t} k idle fresh =
        let b : Bounded s = record {
          limit = rw (idle, fresh) (ground arith);
          alive = λ p. absurd (omega (arith, fresh));
        } in
        let l = (Steps-Bounded k b).limit in omega arith
