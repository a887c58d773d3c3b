-- ===== src/Wiring/Drain.antt =====
-- cmd/gateway/main.go and internal/api/server.go: how long a shutdown waits, and how long an answer takes.
use llmgateway_go.Prelude.{
  ◌+◌, ◌-◌, ◌^◌, ◌≡◌, false, arith, ap, sym, subst, ◌∙◌, Bool-cases, inl, inr, if◌then◌else◌,
}
use llmgateway_go.Prelude.Int.{ℤ, pos, negsuc, ltz, ◌<ℤ◌, ◌+ℤ◌, wrap64, wrap64_id, pos_add}
use llmgateway_go.Api.Routes.{Config, or_positive, with_defaults}
use llmgateway_go.Wiring.{drain, drain_grace, default_drain}

unset : (t : ℤ) → ltz (pos 0) t ≡ false → or_positive (pos 90_000_000_000) t <ℤ drain t
unfolding drain
unset t h =
    subst
      (λ b.
        (if b then t else pos 90_000_000_000)
        <ℤ (if b then wrap64 (t +ℤ drain_grace) else default_drain))
      (sym h) (omega arith)

outlasts :
    (t : ℤ) → t <ℤ pos (2 ^ 63 - 10_000_000_000) → or_positive (pos 90_000_000_000) t <ℤ drain t
unfolding drain
outlasts (pos n) h =
    let sum : wrap64 (pos n +ℤ drain_grace) ≡ pos (n + 10_000_000_000) =
      ap wrap64 (pos_add n 10_000_000_000) ∙ wrap64_id (n + 10_000_000_000) (omega arith) in
    elim (Bool-cases (ltz (pos 0) (pos n))) [
      | inl y ↦
          subst
            (λ b.
              (if b then pos n else pos 90_000_000_000)
              <ℤ (if b then wrap64 (pos n +ℤ drain_grace) else default_drain))
            (sym y) (subst (λ z. pos n <ℤ z) (sym sum) (omega arith))
      | inr z ↦ unset (pos n) z
    ]
outlasts (negsuc n) h = unset (negsuc n) (ground arith)

-- A shutdown waits longer than the server that the same configuration gives takes to write an answer,
-- the default of the server included, where the configured time and the grace fit in 64 bits.
pub drain-outlasts :
    (c : Config)
    → c.write_timeout <ℤ pos (2 ^ 63 - 10_000_000_000)
    → (with_defaults c).write_timeout <ℤ drain c.write_timeout
drain-outlasts c h = outlasts c.write_timeout h
