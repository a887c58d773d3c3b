-- ===== src/Auth/Issuer.antt =====
-- internal/auth: client.go, discovery.go, the loop of refresher.go, and what NewJWKSCache and
-- NewDirectory refuse. Files, certificates, URLs, HTTP and the JSON of the document are a parameter.
use Prim.Native.String.{◌++◌ as ◌with◌}
use llmgateway_go.Prelude.{
  ℕ, String, ◌==◌, List, [], ◌∷◌, Option, none, some, Bool, true, false, not, ◌||◌, eqb, length,
  if◌then◌else◌,
}
use llmgateway_go.Prelude.Int.{ℤ, pos, ltz}
use llmgateway_go.Prelude.Maps.{insert}
use llmgateway_go.Prelude.Results.{Result, ok, err}
use llmgateway_go.Prelude.Texts.{trim_space}
use llmgateway_go.Config.{AuthConfig}
use llmgateway_go.Adapters.Exchange.{HttpRequest}
use llmgateway_go.Auth.Token.{Codec}
use llmgateway_go.Auth.Jwks.{RsaKey, JwksCache, Fetched, refresh}

-- What a request for the document brings: no answer, or a status and the issuer in the body, empty
-- where the document has none, if the body is read as JSON.
pub data Discovered : Type 0 where
  not_sent : Discovered
  replied : ℕ → Option String → Discovered

pub record Cluster (W : Type 0) : Type 0 where
  pub is_missing : String → W → Bool × W
  pub read_file : String → W → Option String × W
  pub join_path : String → String → String
  pub has_certificate : String → Bool
  -- the scheme and the host
  pub parse_url : String → Option (String × String)
  pub is_url : String → Bool
  pub send : HttpRequest → W → Discovered × W

-- A client outside of a pod, or one that trusts a CA and carries the token of a file.
pub data FetchClient : Type 0 where
  plain : FetchClient
  in_pod : String → String → FetchClient

-- What keeps VerifyIssuer from asking.
pub data AskError : Type 0 where
  url_unparsed url_relative not_built : AskError

pub data AuthError : Type 0 where
  ca_unread ca_unusable : AuthError
  not_asked : AskError → AuthError
  not_fetched not_decoded no_issuer : AuthError
  status : ℕ → AuthError
  mismatch : String → String → AuthError
  url_required issuer_required audience_required app_required : AuthError

abbrev pub default_service_account_dir : String
default_service_account_dir = "/var/run/secrets/kubernetes.io/serviceaccount"

abbrev pub well_known_path : String
well_known_path = "/.well-known/openid-configuration"

abbrev pub absolute : Option (String × String) → Result AskError String
absolute none = err url_unparsed
absolute (some (scheme, host)) =
    if scheme == "" || host == ""
    then err url_relative
    else ok (scheme with ("://" with (host with well_known_path)))

-- The judgment on the issuer that a document names.
abbrev pub compared : String → Option String → Result AuthError (Unit {0})
compared issuer none = err not_decoded
compared issuer (some found) =
    if found == ""
    then err no_issuer
    else if not (found == issuer)
    then err (mismatch issuer found)
    else ok tt

abbrev pub judged : String → Result AskError Discovered → Result AuthError (Unit {0})
judged issuer (err e) = err (not_asked e)
judged issuer (ok not_sent) = err not_fetched
judged issuer (ok (replied code found)) =
    if not (eqb code 200) then err (status code) else compared issuer found

module _ {W : Type 0} (cluster : Cluster W) where
  abbrev pub with_ca : String → Option String × W → Result AuthError FetchClient × W
  with_ca dir (none, w) = (err ca_unread, w)
  with_ca dir (some ca, w) =
      if cluster.has_certificate ca
      then (ok (in_pod ca (cluster.join_path dir "token")), w)
      else (err ca_unusable, w)

  -- NewFetchClient
  unfoldable pub new_fetch_client : String → W → Result AuthError FetchClient × W
  new_fetch_client given w =
      let dir = if given == "" then default_service_account_dir else given in
      let path = cluster.join_path dir "ca.crt" in
      let (missing, w') = cluster.is_missing path w in
      if missing then (ok plain, w') else with_ca dir (cluster.read_file path w')

  abbrev pub carrying : HttpRequest → Option String × W → Discovered × W
  carrying req (none, w) = (not_sent, w)
  carrying req (some token, w) =
      cluster.send
        (record req {
          headers = insert "Authorization" ("Bearer " with trim_space token) req.headers;
        })
        w

  -- bearerTransport.RoundTrip, in a pod
  unfoldable pub round_trip : FetchClient → HttpRequest → W → Discovered × W
  unfolding trim_space insert
  round_trip plain req w = cluster.send req w
  round_trip (in_pod ca path) req w = carrying req (cluster.read_file path w)

  -- DiscoveryURL
  unfoldable pub discovery_url : String → Result AskError String
  discovery_url jwks_url = absolute (cluster.parse_url jwks_url)

  abbrev pub answer_of : Discovered × W → Result AskError Discovered × W
  answer_of (d, w) = (ok d, w)

  abbrev pub ask_at : FetchClient → W → Result AskError String → Result AskError Discovered × W
  ask_at client w (err e) = (err e, w)
  ask_at client w (ok url) =
      if cluster.is_url url
      then answer_of (round_trip client (record { url = url; headers = []; body = "" }) w)
      else (err not_built, w)

  -- The part of VerifyIssuer that asks for the document.
  unfoldable pub ask : FetchClient → String → W → Result AskError Discovered × W
  unfolding round_trip discovery_url
  ask client jwks_url w = ask_at client w (discovery_url jwks_url)

  -- VerifyIssuer
  unfoldable pub verify_issuer : FetchClient → String → String → W → Result AuthError (Unit {0}) × W
  unfolding ask
  verify_issuer client jwks_url issuer w =
      let (answer, w') = ask client jwks_url w in (judged issuer answer, w')

-- NewJWKSCache
unfoldable pub check_url : String → Result AuthError (Unit {0})
check_url url = if url == "" then err url_required else ok tt

-- NewDirectory
unfoldable pub new_directory : AuthConfig → Result AuthError AuthConfig
new_directory cfg =
    if cfg.issuer == ""
    then err issuer_required
    else if cfg.audience == ""
    then err audience_required
    else if eqb (length cfg.apps) 0
    then err app_required
    else ok cfg

-- What the select of KeepFresh chose: the end of its context, or a tick, with the answer to its fetch
-- and the time of the write.
pub data Turn : Type 0 where
  ended : Turn
  tick : Fetched → ℕ → Turn

-- `true` where the loop has returned.
unfoldable pub keep_turning : Codec RsaKey → List Turn → JwksCache → Bool × JwksCache
unfolding refresh
keep_turning codec [] c = (false, c)
keep_turning codec (ended ∷ rest) c = (true, c)
keep_turning codec (tick reply now ∷ rest) c = keep_turning codec rest (refresh codec reply now c).1

-- KeepFresh, with the answer to its first fetch
unfoldable pub keep_fresh :
    Codec RsaKey → ℤ → Fetched → ℕ → List Turn → JwksCache → Bool × JwksCache
unfolding keep_turning refresh
keep_fresh codec interval reply now turns c =
    let c' = (refresh codec reply now c).1 in
    if ltz (pos 0) interval then keep_turning codec turns c' else (true, c')
