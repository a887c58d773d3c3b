-- ===== src/ProviderKeys.antt =====
-- internal/providerkeys/cache.go: the credentials of the providers, and their refreshes.
--
-- Each method takes an entry's lock once for each read or write, so that a step of this model is one
-- such section. The goroutine that TriggerRefresh starts is two steps: the write of its Refresh, and
-- the end that clears the flag. Reading a credential is a parameter: what the fetcher answered.
pub mod Flight
pub mod Keep
pub mod Loops
pub mod Refreshed
pub mod Vault
pub mod Fetched
use llmgateway_go.Prelude.{
  ℕ, ◌+◌, ◌-◌, String, ◌==◌, List, [], ◌∷◌, Option, none, some, Bool, true, false, not, ◌||◌, any,
  ltb, eqb, length, if◌then◌else◌,
}
use llmgateway_go.Prelude.Int.{ℤ, pos}
use llmgateway_go.Prelude.Maps.{lookup, insert}

-- `none` stands for the zero time.
pub record Entry : Type 0 where
  pub path : String
  pub refresh_interval : ℤ
  pub key : String
  pub loaded_at : Option ℕ
  pub is_refreshing : Bool
  pub last_trigger : Option ℕ

abbrev pub Cache : Type 0
Cache = List (String × Entry)

pub record Source : Type 0 where
  pub path : String
  pub refresh_interval : ℤ

-- triggerCooldown: thirty seconds
abbrev pub trigger_cooldown : ℕ
trigger_cooldown = 30_000_000_000

abbrev pub new_entry : Source → Entry
new_entry src = record {
  path = src.path;
  refresh_interval = src.refresh_interval;
  key = "";
  loaded_at = none;
  is_refreshing = false;
  last_trigger = none;
}

abbrev pub key_in : Option Entry → String
key_in none = ""
key_in (some e) = e.key

abbrev pub key_for : Cache → String → String
key_for c provider = key_in (lookup provider c)

abbrev interval_in : Option Entry → ℤ
interval_in none = pos 0
interval_in (some e) = e.refresh_interval

abbrev pub interval : Cache → String → ℤ
interval c provider = interval_in (lookup provider c)

abbrev age_in : ℕ → Option Entry → Option ℕ
age_in now none = none
age_in now (some e) = elim e.loaded_at [ none ↦ none | some t ↦ some (now - t) ]

abbrev pub age : ℕ → Cache → String → Option ℕ
age now c provider = age_in now (lookup provider c)

pub data RefreshError : Type 0 where
  no_source fetch_failed no_credential : RefreshError

-- What Refresh writes, where the fetcher answered a key or an error.
abbrev loaded_entry : String → ℕ → Cache → Option String → Entry → Option RefreshError × Cache
loaded_entry provider now c none e = (some fetch_failed, c)
loaded_entry provider now c (some key) e =
    if key == ""
    then (some no_credential, c)
    else (none, insert provider (record e { key = key; loaded_at = some now }) c)

abbrev refresh_entry :
    String → ℕ → Cache → Option String → Option Entry → Option RefreshError × Cache
refresh_entry provider now c fetched none = (some no_source, c)
refresh_entry provider now c fetched (some e) = loaded_entry provider now c fetched e

unfoldable pub refresh : String → Option String → ℕ → Cache → Option RefreshError × Cache
refresh provider fetched now c = refresh_entry provider now c fetched (lookup provider c)

-- time.Since(e.lastTrigger) < triggerCooldown, which the zero time never is
abbrev pub is_recent : ℕ → Option ℕ → Bool
is_recent now none = false
is_recent now (some t) = ltb (now - t) trigger_cooldown

abbrev trigger_entry : String → ℕ → Cache → Option Entry → Bool × Cache
trigger_entry provider now c none = (false, c)
trigger_entry provider now c (some e) =
    if e.is_refreshing || is_recent now e.last_trigger
    then (false, c)
    else (true, insert provider (record e { is_refreshing = true; last_trigger = some now }) c)

-- TriggerRefresh, without the goroutine that it starts where it answers true.
unfoldable pub trigger_refresh : String → ℕ → Cache → Bool × Cache
trigger_refresh provider now c = trigger_entry provider now c (lookup provider c)

abbrev cleared : String → Cache → Option Entry → Cache
cleared provider c none = c
cleared provider c (some e) = insert provider (record e { is_refreshing = false }) c

-- The deferred end of the goroutine.
unfoldable pub clear : String → Cache → Cache
clear provider c = cleared provider c (lookup provider c)

abbrev is_loaded : String × Entry → Bool
is_loaded e = elim e.1.loaded_at [ none ↦ false | some t ↦ true ]

-- Ready
abbrev pub is_ready : Cache → Bool
is_ready c = eqb (length c) 0 || any is_loaded c

-- ------------------------------------------------------------------ the cache at work

-- The clock, the cache, the goroutines that run and the starts of all so far, newest first.
pub record AtWork : Type 0 where
  pub now : ℕ
  pub cache : Cache
  pub running : List String
  pub starts : List (String × ℕ)

pub data Event : Type 0 where
  -- time passes
  passes : ℕ → Event
  -- a provider rejected its credential
  triggers : String → Event
  -- a refresh, of a loop or of a goroutine, got its answer
  refreshes : String → Option String → Event
  -- a goroutine ends, if one of this provider runs
  ends : String → Event

abbrev pub remove_one : String → List String → List String
remove_one p [] = []
remove_one p (q ∷ rest) = if q == p then rest else q ∷ remove_one p rest

abbrev started : String → AtWork → Bool × Cache → AtWork
started p s (false, c) = s
started p s (true, c) = record s {
  cache = c;
  running = p ∷ s.running;
  starts = (p, s.now) ∷ s.starts;
}

unfoldable pub step : Event → AtWork → AtWork
step (passes d) s = record s { now = s.now + d }
step (triggers p) s = started p s (trigger_refresh p s.now s.cache)
step (refreshes p fetched) s = record s { cache = (refresh p fetched s.now s.cache).1 }
step (ends p) s =
    if any (λ q. q == p) s.running
    then record s { cache = clear p s.cache; running = remove_one p s.running }
    else s

unfoldable pub run : List Event → AtWork → AtWork
run [] s = s
run (e ∷ rest) s = run rest (step e s)

abbrev pub fresh_entries : List (String × Source) → Cache
fresh_entries [] = []
fresh_entries ((provider, src) ∷ rest) = insert provider (new_entry src) (fresh_entries rest)

abbrev pub idle : ℕ → Cache → AtWork
idle now c = record { now = now; cache = c; running = []; starts = [] }
