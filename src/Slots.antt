-- ===== src/Slots.antt =====
-- internal/slots/limiter.go: in-flight slots, against a ceiling for each app and a global cap.
--
-- The mutex makes each method one step. A release function is a closure with its own `sync.Once`;
-- here it is the number of its grant, and the grant says whether it has run. Counts are natural
-- numbers: that a count is positive where it is decremented is a theorem.
pub mod Invariant
pub mod Release
use llmgateway_go.Prelude.{
  ℕ, suc, ◌+◌, ◌-◌, String, ◌==◌, List, [], ◌∷◌, Option, none, some, Bool, true, false, ◌&&◌, eqb,
  leb, if◌then◌else◌,
}
use llmgateway_go.Prelude.Int.{ℤ, pos, pos_part, ltz, lez}
use llmgateway_go.Prelude.Maps.{lookup, insert, delete, get_or}

pub record Grant : Type 0 where
  pub id : ℕ
  pub app : String
  pub is_done : Bool

pub record Limiter : Type 0 where
  pub global : ℤ
  pub ceilings : List (String × ℤ)
  pub in_flight : List (String × ℕ)
  pub total : ℕ
  -- the release functions handed out, newest first
  pub grants : List Grant
  pub next_id : ℕ

pub data Acquired : Type 0 where
  granted : ℕ → Acquired
  refused_at : ℤ → Acquired

-- The map is copied, so that the caller's later writes do not reach it.
unfoldable pub new : ℤ → List (String × ℤ) → Limiter
new global ceilings = record {
  global = global;
  ceilings = ceilings;
  in_flight = [];
  total = 0;
  grants = [];
  next_id = 0;
}

-- InFlight
unfoldable pub held : Limiter → String → ℕ
unfolding lookup
held l app = get_or app 0 l.in_flight

-- The ceiling of an app; 0 where it has none.
unfoldable pub ceiling_of : Limiter → String → ℤ
unfolding lookup
ceiling_of l app = get_or app (pos 0) l.ceilings

-- limit > 0 && n >= limit
unfoldable pub is_reached : ℤ → ℕ → Bool
is_reached limit n = ltz (pos 0) limit && lez limit (pos n)

unfoldable pub take : Limiter → String → Limiter
take l app = record l {
  in_flight = insert app (held l app + 1) l.in_flight;
  total = l.total + 1;
  grants = record { id = l.next_id; app = app; is_done = false } ∷ l.grants;
  next_id = l.next_id + 1;
}

unfoldable pub try_acquire : Limiter → String → Acquired × Limiter
try_acquire l app =
    if is_reached (ceiling_of l app) (held l app)
    then (refused_at (ceiling_of l app), l)
    else if is_reached l.global l.total
    then (refused_at l.global, l)
    else (granted l.next_id, take l app)

pub find : ℕ → List Grant → Option Grant
find id [] = none
find id (g ∷ gs) = if eqb g.id id then some g else find id gs

pub mark : ℕ → List Grant → List Grant
mark id [] = []
mark id (g ∷ gs) = if eqb g.id id then record g { is_done = true } ∷ gs else g ∷ mark id gs

-- The body under the lock. A count that falls to 0 is deleted.
pub give_back : Limiter → String → Limiter
give_back l app =
    let n = held l app - 1 in
    record l {
      in_flight = if eqb n 0 then delete app l.in_flight else insert app n l.in_flight;
      total = l.total - 1;
    }

-- once.Do
run_once : Limiter → ℕ → Option Grant → Limiter
unfolding give_back
run_once l id none = l
run_once l id (some g) =
    if g.is_done then l else give_back (record l { grants = mark id l.grants }) g.app

unfoldable pub release : Limiter → ℕ → Limiter
unfolding run_once find mark
release l id = run_once l id (find id l.grants)
