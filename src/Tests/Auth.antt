-- ===== src/Tests/Auth.antt =====
-- A token of one cluster, over a codec that is written down.
use llmgateway_go.Prelude.{
  ℕ, String, ◌==◌, List, [], ◌∷◌, ◌≡◌, refl, Option, none, some, true, ◌+◌, if◌then◌else◌,
}
use llmgateway_go.Prelude.Int.{pos, ◌+ℤ◌}
use llmgateway_go.Prelude.Maps.{lookup, insert}
use llmgateway_go.Prelude.Split.{split}
use llmgateway_go.Prelude.Results.{err}
use llmgateway_go.Gateway.Domain.{App, any}
use llmgateway_go.Config.{AuthConfig}
use llmgateway_go.Auth.Token.{Claims, Moment, Codec, judge, verify_token, expired, not_compact}
use llmgateway_go.Auth.Genuine.{Genuine}
use llmgateway_go.Auth.Jwks.{
  RsaKey, JwksCache, Fetched, not_sent, replied, rsa_key, load_keys, refresh, is_ready,
  new_jwks_cache, key_for, app_for_key,
}
use llmgateway_go.Auth.Issuer.{ended, tick, keep_fresh}
use llmgateway_go.Auth.Warm.{keep_fresh-ready}
use llmgateway_go.Auth.Static.{refresh_all, app_for_key-Genuine}

abbrev claims : Claims
claims = record {
  issuer = "cluster";
  subject = "sa:rag";
  audience = "other" ∷ "gateway" ∷ [];
  expiry = pos 1000;
  not_before = pos 0;
}

abbrev decoded : String → Option (List ℕ)
decoded s = if s == "bad" then none else some (1 ∷ 0 ∷ 1 ∷ [])

abbrev codec : Codec RsaKey
codec = record {
  decode = decoded;
  header_of = λ b. some (record { alg = "RS256"; kid = "k1" });
  claims_of = λ b. some claims;
  verifies = λ key text sig. text == "h.c";
}

abbrev keys : Fetched
keys = replied 200 (
    some (
      record { kty = "EC"; kid = "k0"; n = "bad"; e = "e" }
      ∷ record { kty = "RSA"; kid = "k1"; n = "n"; e = "e" }
      ∷ []))

abbrev cache : JwksCache
cache = record {
  keys = ("k1", record { modulus = 65537; exponent = 65537 }) ∷ [];
  loaded_at = some 5;
}

-- A key of another kind is skipped, and a failed refresh keeps what there was.
loaded :
    refresh_all codec ((not_sent, 1) ∷ (keys, 5) ∷ (replied 500 none, 9) ∷ []) new_jwks_cache
    ≡ cache
unfolding refresh_all refresh load_keys rsa_key insert new_jwks_cache
loaded = refl

abbrev cfg : AuthConfig
cfg = record {
  issuer = "cluster";
  audience = "gateway";
  apps =
      (
        "sa:rag",
        record {
          name = "rag";
          policy = record { kind = any; allowed = [] };
          total_deadline = pos 0;
        },
      )
      ∷ [];
}

abbrev rag : App
rag = record { name = "rag"; policy = record { kind = any; allowed = [] }; total_deadline = pos 0 }

abbrev at : ℕ → Moment
at n = record { seconds = pos (62_135_596_800 + n); nanoseconds = 1 }

too_late : verify_token codec (key_for cache) "cluster" "gateway" (at 1030) "h.c.s" ≡ err expired
unfolding verify_token judge split key_for lookup ◌+ℤ◌
too_late = refl

two_parts : verify_token codec (key_for cache) "cluster" "gateway" (at 1) "h.c" ≡ err not_compact
unfolding verify_token split
two_parts = refl

app_for_key-Genuine_example :
    (subject : String) × Genuine codec (key_for cache) "cluster" "gateway" (at 1029) "h.c.s" subject
    × (lookup subject cfg.apps ≡ some rag)
unfolding app_for_key verify_token judge split key_for lookup ◌+ℤ◌
app_for_key-Genuine_example = app_for_key-Genuine codec cfg cache (at 1029) "h.c.s" {app = rag} refl

-- The first fetch fails, the second of two ticks answers, and the context ends.
keep_fresh-ready_example :
    (is_ready
        (keep_fresh codec
          (pos 60)
          not_sent
          1
          (tick not_sent 2 ∷ tick keys 3 ∷ ended ∷ [])
          new_jwks_cache).1
      ≡ true)
    × ((keep_fresh codec
          (pos 60)
          not_sent
          1
          (tick not_sent 2 ∷ tick keys 3 ∷ ended ∷ [])
          new_jwks_cache).0
        ≡ true)
unfolding load_keys rsa_key insert new_jwks_cache
keep_fresh-ready_example =
    keep_fresh-ready codec (pos 60) not_sent 1 (tick not_sent 2 ∷ tick keys 3 ∷ ended ∷ [])
      new_jwks_cache
