-- ===== src/Tests/Slots.antt =====
-- Runs of the slot limiter.
use llmgateway_go.Prelude.{String, List, [], ◌∷◌, ◌≡◌, refl}
use llmgateway_go.Prelude.Int.{ℤ, pos}
use llmgateway_go.Prelude.Maps.{insert, delete}
use llmgateway_go.Slots.{Limiter, new, held, ceiling_of, is_reached, take, try_acquire, release}
use llmgateway_go.Slots.Invariant.{Inv, Call, acquires, releases, run, run-new-Inv}

abbrev ceilings : List (String × ℤ)
ceilings = ("agent", pos 1) ∷ ("rag", pos 5) ∷ []

abbrev busy_calls : List Call
busy_calls = acquires "agent" ∷ acquires "rag" ∷ releases 1 ∷ releases 1 ∷ acquires "agent" ∷ []

abbrev busy : Limiter
busy = run (new (pos 3) ceilings) busy_calls

busy_count : (held busy "agent" ≡ 1) × (held busy "rag" ≡ 0) × (busy.total ≡ 1)
unfolding run new held ceiling_of is_reached take try_acquire release insert delete
busy_count = (refl, refl, refl)

run-new-Inv_example : Inv busy
run-new-Inv_example = run-new-Inv (pos 3) ceilings busy_calls
