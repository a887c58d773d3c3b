-- ===== src/Auth/Jwks.antt =====
-- internal/auth/jwks.go and directory.go: the cached keys of the cluster, and who a token stands for.
use llmgateway_go.Prelude.{
  ℕ, ◌+◌, ◌-◌, ◌*◌, String, ◌==◌, List, [], ◌∷◌, Option, none, some, Bool, not, ◌||◌, eqb, ltb,
  length, if◌then◌else◌,
}
use llmgateway_go.Prelude.Maps.{lookup, insert}
use llmgateway_go.Prelude.Results.{Result, ok, err, and_then, from_option}
use llmgateway_go.Gateway.Domain.{App}
use llmgateway_go.Config.{AuthConfig}
use llmgateway_go.Auth.Token.{Moment, Codec, verify_token}

pub record RsaKey : Type 0 where
  pub modulus : ℕ
  pub exponent : ℕ

-- `loaded_at` is none for the zero time.
pub record JwksCache : Type 0 where
  pub keys : List (String × RsaKey)
  pub loaded_at : Option ℕ

pub record Jwk : Type 0 where
  pub kty : String
  pub kid : String
  pub n : String
  pub e : String

-- What the request brings: it cannot be built or sent, or the endpoint answers with a status and a
-- body that the JSON decoder reads or not.
pub data Fetched : Type 0 where
  not_built not_sent : Fetched
  replied : ℕ → Option (List Jwk) → Fetched

pub data JwksError : Type 0 where
  build_request fetch decode_document no_usable_key : JwksError
  status : ℕ → JwksError
  in_key : String → JwksError → JwksError
  modulus exponent empty_part exponent_out_of_range : JwksError

-- big.Int.SetBytes: the most significant byte first
abbrev pub from_bytes : ℕ → List ℕ → ℕ
from_bytes acc [] = acc
from_bytes acc (b ∷ rest) = from_bytes (acc * 256 + b) rest

-- int64(^uint32(0))
abbrev pub max_exponent : ℕ
max_exponent = 4_294_967_295

abbrev pub key_of_bytes : List ℕ → List ℕ → Result JwksError RsaKey
key_of_bytes nb eb =
    if eqb (length nb) 0 || eqb (length eb) 0
    then err empty_part
    else if ltb max_exponent (from_bytes 0 eb)
    then err exponent_out_of_range
    else ok (record { modulus = from_bytes 0 nb; exponent = from_bytes 0 eb })

abbrev pub with_modulus : Option (List ℕ) → List ℕ → Result JwksError RsaKey
with_modulus eb nb = and_then (from_option exponent eb) (key_of_bytes nb)

abbrev pub wrap : {A : Type 0} → String → Result JwksError A → Result JwksError A
wrap kid (ok a) = ok a
wrap kid (err e) = err (in_key kid e)

abbrev pub usable : List (String × RsaKey) → Result JwksError (List (String × RsaKey))
usable keys = if eqb (length keys) 0 then err no_usable_key else ok keys

module _ (codec : Codec RsaKey) where
  unfoldable pub rsa_key : String → String → Result JwksError RsaKey
  rsa_key n e = and_then (from_option modulus (codec.decode n)) (with_modulus (codec.decode e))

  -- A key that is not RSA, or has no name, is skipped.
  unfoldable pub load_keys :
      List Jwk → List (String × RsaKey) → Result JwksError (List (String × RsaKey))
  load_keys [] keys = ok keys
  load_keys (k ∷ rest) keys =
      let skipped = load_keys rest keys in
      if not (k.kty == "RSA") || k.kid == ""
      then skipped
      else and_then (wrap k.kid (rsa_key k.n k.e))
          (λ pub_key. load_keys rest (insert k.kid pub_key keys))

  abbrev pub load_document : List Jwk → Result JwksError (List (String × RsaKey))
  load_document document = and_then (load_keys document []) usable

  abbrev pub read_reply : Fetched → Result JwksError (List (String × RsaKey))
  read_reply not_built = err build_request
  read_reply not_sent = err fetch
  read_reply (replied code body) =
      if not (eqb code 200)
      then err (status code)
      else and_then (from_option decode_document body) load_document

  -- Only a success replaces the keys.
  abbrev store :
      JwksCache
      → ℕ
      → Result JwksError (List (String × RsaKey))
      → Result JwksError (Unit {0}) × JwksCache
  store c now (err e) = (err e, c)
  store c now (ok keys) = (ok tt, record { keys = keys; loaded_at = some now })

  unfoldable pub refresh : Fetched → ℕ → JwksCache → Result JwksError (Unit {0}) × JwksCache
  refresh reply now c = store c now (read_reply reply)

unfoldable pub new_jwks_cache : JwksCache
new_jwks_cache = record { keys = []; loaded_at = none }

-- JWKSCache.Ready
abbrev pub is_ready : JwksCache → Bool
is_ready c = not (eqb (length c.keys) 0)

-- JWKSCache.Age, where `now` is not before the last load
abbrev pub age : ℕ → JwksCache → Option ℕ
age now c = elim c.loaded_at [ none ↦ none | some t ↦ some (now - t) ]

-- JWKSCache.key
unfoldable pub key_for : JwksCache → String → Option RsaKey
unfolding lookup
key_for c kid = lookup kid c.keys

abbrev app_of : AuthConfig → {E : Type 0} → Result E String → Option App
app_of cfg (err e) = none
app_of cfg (ok subject) = lookup subject cfg.apps

-- Directory.AppForKey
unfoldable pub app_for_key : Codec RsaKey → AuthConfig → JwksCache → Moment → String → Option App
app_for_key codec cfg cache now token =
    app_of cfg (verify_token codec (key_for cache) cfg.issuer cfg.audience now token)
