-- ===== src/Redis/TokenLimiter.antt =====
-- internal/redis/tokenlimiter.go: tokens, debited after they are spent, in windows of a minute.
use llmgateway_go.Prelude.{
  ℕ, ◌+◌, ◌-◌, ◌/◌, ◌%◌, String, List, none, some, true, false, ◌||◌, eqb, if◌then◌else◌,
}
use llmgateway_go.Prelude.Int.{ℤ, pos, pos_part, lez, ltz}
use llmgateway_go.Prelude.Maps.{get_or}
use llmgateway_go.Gateway.Domain.{RateDecision}
use llmgateway_go.Gateway.Ports.{Answer, down, says}
use llmgateway_go.Redis.Store.{Key, tpm, Store, Reach, ask}

-- time.Minute
abbrev pub token_window : ℕ
token_window = 60_000_000_000

abbrev pub within_budget : RateDecision
within_budget = record { is_allowed = true; retry_after = pos 0; quota = none }

abbrev over_budget : ℤ → ℕ → ℕ → RateDecision
over_budget budget now spent = record {
  is_allowed = false;
  retry_after = pos (token_window - now % token_window);
  quota = some (record {
    limit = budget;
    window_seconds = pos (token_window / 1_000_000_000);
    used = pos spent;
  });
}

abbrev pub token_verdict : ℤ → ℕ → Answer ℕ → Answer RateDecision
token_verdict budget now down = down
token_verdict budget now (says spent) =
    if ltz (pos spent) budget then says within_budget else says (over_budget budget now spent)

abbrev pub token_key : String → ℕ → Key
token_key app now = tpm app (now / token_window)

abbrev pub token_ttl : ℕ
token_ttl = token_window / 1_000_000_000 + 1

-- The count that Settle drops.
abbrev pub settled : Answer ℕ → Answer (Unit {0})
settled down = down
settled (says n) = says tt

module _ {W : Type 0} (store : Store W) where
  -- spentScript
  abbrev pub read_spent : Key → W → ℕ × W
  read_spent key w = (store.value key w, w)

  -- debitScript
  unfoldable pub debit : Key → ℕ → ℕ → W → ℕ × W
  debit key tokens life w =
      let (n, w') = store.incr_by key tokens w in
      (n, if eqb n tokens then store.expire key life w' else w')

  unfoldable pub check : List (String × ℤ) → String → ℕ → Reach → W → Answer RateDecision × W
  check budgets app now reach w =
      let budget = get_or app (pos 0) budgets in
      if lez budget (pos 0)
      then (says within_budget, w)
      else let (answer, w') = ask reach (read_spent (token_key app now)) w in
        (token_verdict budget now answer, w')

  unfoldable pub settle : List (String × ℤ) → String → ℤ → ℕ → Reach → W → Answer (Unit {0}) × W
  settle budgets app tokens now reach w =
      if lez (get_or app (pos 0) budgets) (pos 0) || lez tokens (pos 0)
      then (says tt, w)
      else let (answer, w') = ask reach (debit (token_key app now) (pos_part tokens) token_ttl) w in
        (settled answer, w')
