-- ===== src/ProviderKeys/Vault.antt =====
-- internal/providerkeys: vault.go and file.go, the two fetchers of credentials. Files, HTTP and JSON are
-- parameters; what a fetch does outside is kept in a list beside the state of the world.
use Prim.Native.String.{◌++◌ as ◌with◌}
use llmgateway_go.Prelude.{
  ℕ, String, ◌==◌, List, [], ◌∷◌, ◌++◌, Option, none, some, Bool, ◌||◌, not, eqb, if◌then◌else◌,
}
use llmgateway_go.Prelude.Results.{Result, ok, err}
use llmgateway_go.Prelude.Maps.{lookup}
use llmgateway_go.Prelude.Texts.{trim, trim_space, trim_prefix, trim_suffix}
use llmgateway_go.Adapters.Exchange.{HttpRequest, Response, lost, replied, max_response_bytes}
use llmgateway_go.Providers.{TransportError}

pub record VaultConfig : Type 0 where
  pub address : String
  pub role : String
  pub auth_path : String
  pub token_path : String

pub record Vault : Type 0 where
  pub address : String
  pub role : String
  pub auth_path : String
  pub token_path : String
  -- empty until the first login
  pub token : String

pub data VaultError : Type 0 where
  address_required role_required auth_path_required : VaultError
  no_service_account not_encoded not_built not_sent not_read : VaultError
  refused_with : ℕ → VaultError
  not_decoded no_field no_token : VaultError

abbrev default_token_path : String
default_token_path = "/var/run/secrets/kubernetes.io/serviceaccount/token"

abbrev is_slash : ℕ → Bool
is_slash c = eqb c b'/'

-- NewVault
unfoldable pub new_vault : VaultConfig → Result VaultError Vault
unfolding trim trim_suffix
new_vault cfg =
    if cfg.address == ""
    then err address_required
    else if cfg.role == ""
    then err role_required
    else if cfg.auth_path == ""
    then err auth_path_required
    else ok (record {
      address = trim_suffix b'/' cfg.address;
      role = cfg.role;
      auth_path = trim is_slash cfg.auth_path;
      token_path = if cfg.token_path == "" then default_token_path else cfg.token_path;
      token = "";
    })

-- The host: its files, an HTTP client, and encoding/json for the body of a login, the fields of a
-- secret under data.data, and the client token of a login's answer, empty where it has none.
pub record Host (W : Type 0) : Type 0 where
  pub read_file : String → W → Option String × W
  pub is_url : String → Bool
  pub get : HttpRequest → W → Response × W
  pub post : HttpRequest → W → Response × W
  pub login_body : String → String → Option String
  pub secret_fields : String → Option (List (String × String))
  pub client_token : String → Option String

-- What a fetch did: a login, with its token where it got one, and a read with a token, with the status
-- that `read` reports and the credential where there was one.
pub data Act : Type 0 where
  login : Option String → Act
  read : String → ℕ → Option String → Act

pub record Session (W : Type 0) : Type 0 where
  pub world : W
  pub vault : Vault
  pub acts : List Act

abbrev pub read_field : Option (List (String × String)) → Result VaultError String
unfolding lookup
read_field none = err not_decoded
read_field (some fields) = elim (lookup "key" fields) [ none ↦ err no_field | some k ↦ ok k ]

abbrev pub credential_of : Result VaultError String → Option String
credential_of (ok k) = some k
credential_of (err e) = none

abbrev pub token_of : Option String → Result VaultError String
token_of none = err not_decoded
token_of (some token) = if token == "" then err no_token else ok token

abbrev pub is_rejected : ℕ → Bool
is_rejected status = eqb status 403 || eqb status 401

abbrev trimmed : Option String → Option String
trimmed none = none
trimmed (some raw) = some (trim_space raw)

-- The read is put down.
abbrev pub noted :
    {W : Type 0}
    → String
    → Session W
    → (Result VaultError String × ℕ) × W
    → (Result VaultError String × ℕ) × Session W
noted token s ((r, status), w) =
    ((r, status), record s { world = w; acts = s.acts ++ read token status (credential_of r) ∷ [] })

-- The login is put down, and its token is kept.
abbrev pub kept :
    {W : Type 0} → Session W → Result VaultError String × W → Result VaultError String × Session W
kept s (err e, w) = (err e, record s { world = w; acts = s.acts ++ login none ∷ [] })
kept s (ok token, w) = (
  ok token,
  record s {
    world = w;
    vault = record s.vault { token = token };
    acts = s.acts ++ login (some token) ∷ [];
  },
)

module _ {W : Type 0} (host : Host W) where
  abbrev pub read_body : ℕ → Result TransportError String → Result VaultError String × ℕ
  read_body status (err e) = (err not_read, status)
  read_body status (ok raw) =
      if not (eqb status 200)
      then (err (refused_with status), status)
      else (read_field (host.secret_fields raw), status)

  abbrev pub read_response : Response → Result VaultError String × ℕ
  read_response (lost e) = (err not_sent, 0)
  read_response (replied status body) = read_body status (body max_response_bytes)

  abbrev pub read_at : String → HttpRequest → W → (Result VaultError String × ℕ) × W
  read_at url req w =
      if host.is_url url
      then (let (response, w') = host.get req w in (read_response response, w'))
      else ((err not_built, 0), w)

  -- Vault.read
  unfoldable pub read_secret :
      String → String → Session W → (Result VaultError String × ℕ) × Session W
  unfolding trim_prefix lookup
  read_secret path token s =
      let url : String = s.vault.address with ("/v1/" with trim_prefix b'/' path) in
      noted token s (
        read_at url (record { url = url; headers = ("X-Vault-Token", token) ∷ []; body = "" })
          s.world)

  abbrev pub login_read : ℕ → Result TransportError String → Result VaultError String
  login_read status (err e) = err not_read
  login_read status (ok raw) =
      if not (eqb status 200) then err (refused_with status) else token_of (host.client_token raw)

  abbrev pub login_response : Response → Result VaultError String
  login_response (lost e) = err not_sent
  login_response (replied status body) = login_read status (body max_response_bytes)

  abbrev pub post_login : String → Option String → W → Result VaultError String × W
  post_login url none w = (err not_encoded, w)
  post_login url (some body) w =
      if host.is_url url
      then (let (response, w') =
            host.post
              (record {
                url = url;
                headers = ("Content-Type", "application/json") ∷ [];
                body = body;
              })
              w in
          (login_response response, w'))
      else (err not_built, w)

  abbrev pub with_account : Vault → Option String × W → Result VaultError String × W
  with_account v (none, w) = (err no_service_account, w)
  with_account v (some jwt, w) =
      post_login (v.address with ("/v1/" with (v.auth_path with "/login")))
        (host.login_body v.role (trim_space jwt)) w

  -- Vault.reauthenticate
  unfoldable pub reauthenticate : Session W → Result VaultError String × Session W
  unfolding trim_space
  reauthenticate s = kept s (with_account s.vault (host.read_file s.vault.token_path s.world))

  -- Vault.currentToken
  unfoldable pub current_token : Session W → Result VaultError String × Session W
  unfolding reauthenticate
  current_token s = if not (s.vault.token == "") then (ok s.vault.token, s) else reauthenticate s

  abbrev pub read_again :
      String → Result VaultError String × Session W → Result VaultError String × Session W
  read_again path (err e, s) = (err e, s)
  read_again path (ok token, s) = let ((r, status), s') = read_secret path token s in (r, s')

  abbrev pub after_read :
      String → (Result VaultError String × ℕ) × Session W → Result VaultError String × Session W
  after_read path ((ok key, status), s) = (ok key, s)
  after_read path ((err e, status), s) =
      let again = read_again path (reauthenticate s) in
      if is_rejected status then again else (err e, s)

  abbrev pub with_token :
      String → Result VaultError String × Session W → Result VaultError String × Session W
  with_token path (err e, s) = (err e, s)
  with_token path (ok token, s) = after_read path (read_secret path token s)

  -- Vault.Fetch
  unfoldable pub fetch : String → Session W → Result VaultError String × Session W
  unfolding current_token read_secret reauthenticate
  fetch path s = with_token path (current_token s)

  -- File.Fetch
  unfoldable pub fetch_file : String → W → Option String × W
  unfolding trim_space
  fetch_file path w = let (raw, w') = host.read_file path w in (trimmed raw, w')
