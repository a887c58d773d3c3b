-- ===== src/Redis/Limiter.antt =====
-- internal/redis/limiter.go: requests, counted in windows of a second.
use llmgateway_go.Prelude.{
  ℕ, ◌+◌, ◌-◌, ◌/◌, ◌%◌, String, List, none, some, true, false, eqb, if◌then◌else◌,
}
use llmgateway_go.Prelude.Int.{ℤ, pos, lez}
use llmgateway_go.Prelude.Maps.{get_or}
use llmgateway_go.Gateway.Domain.{RateDecision}
use llmgateway_go.Gateway.Ports.{Answer, down, says}
use llmgateway_go.Redis.Store.{Key, rps, Store, Reach, ask}

-- time.Second
abbrev pub window : ℕ
window = 1_000_000_000

abbrev pub admitted : RateDecision
admitted = record { is_allowed = true; retry_after = pos 0; quota = none }

-- The key that Allow builds at a time of its clock, and the lifetime that it passes.
abbrev pub key_of : String → ℕ → Key
key_of app now = rps app (now / window)

abbrev pub ttl : ℕ
ttl = window / 1_000_000_000 + 1

abbrev over_quota : ℤ → ℕ → ℕ → RateDecision
over_quota limit now used = record {
  is_allowed = false;
  retry_after = pos (window - now % window);
  quota =
      some
        (record { limit = limit; window_seconds = pos (window / 1_000_000_000); used = pos used });
}

abbrev pub verdict : ℤ → ℕ → Answer ℕ → Answer RateDecision
verdict limit now down = down
verdict limit now (says used) =
    if lez (pos used) limit then says admitted else says (over_quota limit now used)

module _ {W : Type 0} (store : Store W) where
  -- incrementScript
  unfoldable pub increment : Key → ℕ → W → ℕ × W
  increment key life w =
      let (n, w') = store.incr_by key 1 w in (n, if eqb n 1 then store.expire key life w' else w')

  unfoldable pub allow : List (String × ℤ) → String → ℕ → Reach → W → Answer RateDecision × W
  allow limits app now reach w =
      let limit = get_or app (pos 0) limits in
      if lez limit (pos 0)
      then (says admitted, w)
      else let (answer, w') = ask reach (increment (key_of app now) ttl) w in
        (verdict limit now answer, w')
