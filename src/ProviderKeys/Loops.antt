-- ===== src/ProviderKeys/Loops.antt =====
-- internal/providerkeys/cache.go: Providers, and the loops over Refresh: RefreshAll and KeepFresh. What
-- the fetcher answers to a read, and when, is a parameter.
use llmgateway_go.Prelude.{
  ℕ, String, List, [], ◌∷◌, Option, none, some, Bool, true, false, if◌then◌else◌,
}
use llmgateway_go.Prelude.Int.{ltz, pos}
use llmgateway_go.Prelude.Maps.{keys}
use llmgateway_go.Prelude.Sorted.{sort_entries}
use llmgateway_go.ProviderKeys.{Cache, RefreshError, refresh, interval}

unfoldable pub providers : Cache → List String
unfolding sort_entries
providers c = keys (sort_entries c)

abbrev pub with_failure :
    String → Option RefreshError → List (String × RefreshError) → List (String × RefreshError)
with_failure p none errs = errs
with_failure p (some e) errs = (p, e) ∷ errs

unfoldable pub refresh_each :
    (String → Option String × ℕ) → List String → Cache → List (String × RefreshError) × Cache
unfolding refresh
refresh_each answer [] c = ([], c)
refresh_each answer (p ∷ rest) c =
    let (failure, c') = refresh p (answer p).0 (answer p).1 c in
    let (errs, c'') = refresh_each answer rest c' in (with_failure p failure errs, c'')

-- Cache.RefreshAll: the failures, with their providers.
unfoldable pub refresh_all :
    (String → Option String × ℕ) → Cache → List (String × RefreshError) × Cache
unfolding providers refresh_each
refresh_all answer c = refresh_each answer (providers c) c

-- What the select of KeepFresh chose.
pub data Choice : Type 0 where
  -- the context has ended
  done : Choice
  -- the ticker fired; the fetcher's answer, and the time of its write
  tick : Option String → ℕ → Choice

-- `true` where the loop has returned, `false` where it waits for its next choice.
unfoldable pub keep_turning : String → List Choice → Cache → Bool × Cache
unfolding refresh
keep_turning p [] c = (false, c)
keep_turning p (done ∷ rest) c = (true, c)
keep_turning p (tick fetched now ∷ rest) c = keep_turning p rest (refresh p fetched now c).1

-- Cache.KeepFresh
unfoldable pub keep_fresh : String → List Choice → Cache → Bool × Cache
unfolding keep_turning
keep_fresh p choices c = if ltz (pos 0) (interval c p) then keep_turning p choices c else (true, c)
