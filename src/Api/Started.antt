-- ===== src/Api/Started.antt =====
-- internal/api: what New accepts and sets, and what a header gives for a token.
use Prim.Native.String.len
use Prim.Native.String.{len, slice, ◌++◌ as ◌with◌, [] as no_text, ◌∷◌ as ◌then◌}
use text.Mathlib.TextPositions.{slice-append_left, slice-append_right, len-append, len_utf8-pos}
use llmgateway_go.Prelude.{
  ℕ, ◌+◌, ◌≡◌, ◌≢◌, ◌<◌, refl, subst, String, Option, none, some, Bool, true, ltb, arith,
  Bool-cases, inl, inr, if◌then◌else◌,
}
use llmgateway_go.Prelude.Int.{ℤ, pos, ltz}
use llmgateway_go.Prelude.Results.{ok, ok-injective}
use llmgateway_go.Gateway.Domain.{ChatRequest}
use llmgateway_go.Api.Server.{bearer_token, equal_fold, bearer_prefix}
use llmgateway_go.Api.Routes.{
  Config, Deps, Server, ChatEnd, built, new_server, with_defaults, or_positive,
}

or_positive-ltz :
    (default : ℕ) (d : ℤ) → 0 < default → ltz (pos 0) (or_positive (pos default) d) ≡ true
or_positive-ltz default d h = elim (Bool-cases (ltz (pos 0) d)) [
  | inl e ↦ rw e e
  | inr e ↦ rw e (ground (arith, h))
]

-- A timeout or a limit that is in force.
abbrev pub IsPositive : ℤ → Type 0
IsPositive d = ltz (pos 0) d ≡ true

pub record IsTuned (c : Config) : Type 0 where
  pub headers : IsPositive c.read_header_timeout
  pub reading : IsPositive c.read_timeout
  pub writing : IsPositive c.write_timeout
  pub idling : IsPositive c.idle_timeout
  pub body : IsPositive c.max_body_bytes

with_defaults-IsTuned : (c : Config) → IsTuned (with_defaults c)
with_defaults-IsTuned c = record {
  headers = or_positive-ltz 5_000_000_000 c.read_header_timeout (omega arith);
  reading = or_positive-ltz 30_000_000_000 c.read_timeout (omega arith);
  writing = or_positive-ltz 90_000_000_000 c.write_timeout (omega arith);
  idling = or_positive-ltz 120_000_000_000 c.idle_timeout (omega arith);
  body = or_positive-ltz 1_048_576 c.max_body_bytes (omega arith);
}

built-IsTuned :
    {W : Type 0} (c : Config) (d : Deps W) (chat : Option (String → ChatRequest → W → ChatEnd × W))
    (live : Option (W → Bool × W)) (s : Server W)
    → built c d chat live ≡ ok s
    → (chat ≡ some s.chat) × (live ≡ some s.live) × IsTuned s.config
built-IsTuned c d none live s h = absurd (ground (arith, h))
built-IsTuned c d (some chat) none s h = absurd (ground (arith, h))
built-IsTuned c d (some chat) (some live) s h =
    subst (λ s. (some chat ≡ some s.chat) × (some live ≡ some s.live) × IsTuned s.config)
      (ok-injective h) (refl, refl, with_defaults-IsTuned c)

-- A server is made only with a chat service and a health checker, which are those that it drives, and every
-- timeout of it and its limit on a body are positive, whatever the configuration says.
pub new_server-IsTuned :
    {W : Type 0} (c : Config) (d : Deps W) (s : Server W)
    → new_server c d ≡ ok s
    → (d.chat ≡ some s.chat) × (d.live ≡ some s.live) × IsTuned s.config
unfolding new_server
new_server-IsTuned c d s h = built-IsTuned c d d.chat d.live s h

len-pos : (key : String) → key ≢ "" → 0 < len key
len-pos no_text h = absurd (h refl)
len-pos (c then s) h = let (k, e) = len_utf8-pos c in omega (arith, e, len.cons c s)

-- A token is what follows the scheme, in whatever case that is written, and an empty one is none.
pub bearer_token-with :
    (scheme key : String)
    → len scheme ≡ 7
    → equal_fold scheme bearer_prefix ≡ true
    → key ≢ ""
    → (bearer_token (scheme with key) ≡ some key) × (bearer_token scheme ≡ none)
unfolding bearer_token
bearer_token-with scheme key l f k =
    let whole : len (scheme with key) ≡ 7 + len key = omega (arith, len-append scheme key, l) in
    let front : slice (scheme with key) 0 7 ≡ scheme =
      subst (λ n. slice (scheme with key) 0 n ≡ scheme) l (slice-append_left scheme key) in
    let back : slice (scheme with key) 7 (7 + len key) ≡ key =
      subst (λ n. slice (scheme with key) n (n + len key) ≡ key) l
        (slice-append_right scheme key) in
    let longer : ltb 7 (7 + len key) ≡ true = ground (arith, len-pos key k) in
    (rw (whole, front, longer, f, back) refl, rw l refl)
