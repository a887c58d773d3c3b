-- ===== src/Tests/ProviderKeys.antt =====
-- The cache of two providers, at work.
use llmgateway_go.Prelude.{
  ℕ, String, ◌==◌, Option, false, if◌then◌else◌, List, [], ◌∷◌, ◌≡◌, refl, none, some, true,
}
use llmgateway_go.Prelude.Int.{pos}
use llmgateway_go.Prelude.Sorted.{sort_entries, insert_entry}
use llmgateway_go.Prelude.Maps.{lookup, insert}
use llmgateway_go.ProviderKeys.{
  Source, AtWork, Event, passes, triggers, refreshes, ends, refresh, trigger_refresh, clear, step,
  run, idle, fresh_entries, key_for, is_ready,
}
use llmgateway_go.ProviderKeys.Loops.{refresh_all, providers, keep_fresh, tick, done}
use llmgateway_go.ProviderKeys.Refreshed.{fails_at, refresh_all-each, keep_fresh-returns}
use llmgateway_go.ProviderKeys.Flight.{Calm, run-fresh-Calm}

abbrev sources : List (String × Source)
sources =
    ("openai", record { path = "a"; refresh_interval = pos 60 })
    ∷ ("anthropic", record { path = "b"; refresh_interval = pos 60 })
    ∷ []

-- The second rejection finds a refresh in flight, the third the cooldown, the fourth neither.
abbrev events : List Event
events =
    refreshes "openai" (some "k1")
    ∷ triggers "openai"
    ∷ triggers "openai"
    ∷ refreshes "openai" (some "")
    ∷ refreshes "openai" none
    ∷ ends "openai"
    ∷ passes 1_000_000_000
    ∷ triggers "openai"
    ∷ passes 29_000_000_000
    ∷ triggers "openai"
    ∷ refreshes "openai" (some "k2")
    ∷ []

abbrev worked : AtWork
worked = run events (idle 5 (fresh_entries sources))

two_starts :
    (worked.starts ≡ ("openai", 30_000_000_005) ∷ ("openai", 5) ∷ [])
    × (key_for worked.cache "openai" ≡ "k2")
    × (is_ready worked.cache ≡ true)
unfolding run step refresh trigger_refresh clear lookup insert
two_starts = (refl, refl, refl)

run-fresh-Calm_example : Calm "openai" worked
run-fresh-Calm_example = run-fresh-Calm sources events 5 "openai"

-- One provider's read fails, and the other's gives a key.
abbrev answer : String → Option String × ℕ
answer p = if p == "openai" then (none, 7) else (some "k3", 7)

in_order : providers (fresh_entries sources) ≡ "anthropic" ∷ "openai" ∷ []
unfolding providers sort_entries insert_entry insert
in_order = refl

refresh_all-each_example :
    (key_for (refresh_all answer (fresh_entries sources)).1 "anthropic" ≡ "k3")
    × (fails_at "anthropic" (refresh_all answer (fresh_entries sources)).0 ≡ false)
unfolding lookup insert
refresh_all-each_example = refresh_all-each "anthropic" answer (fresh_entries sources) refl

keep_fresh-returns_example :
    ((keep_fresh "openai" (tick (some "k4") 9 ∷ tick none 10 ∷ done ∷ []) (fresh_entries sources)).0
      ≡ true)
    × (key_for
          (keep_fresh "openai"
            (tick (some "k4") 9 ∷ tick none 10 ∷ done ∷ [])
            (fresh_entries sources)).1
          "openai"
        ≡ "k4")
unfolding lookup insert
keep_fresh-returns_example =
    keep_fresh-returns "openai" (tick (some "k4") 9 ∷ tick none 10 ∷ done ∷ [])
      (fresh_entries sources) refl
