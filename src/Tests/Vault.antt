-- ===== src/Tests/Vault.antt =====
-- A Vault that has revoked the token held: it answers 403 to a read with it, and logs the pod in again.
use llmgateway_go.Prelude.{
  ℕ, suc, String, ◌==◌, ◌≡◌, refl, [], ◌∷◌, none, some, true, false, if◌then◌else◌,
}
use llmgateway_go.Prelude.Results.{ok}
use llmgateway_go.Prelude.Texts.{trim, trim_space, trim_left, trim_right, trim_prefix, trim_suffix}
use llmgateway_go.Prelude.Maps.{lookup}
use llmgateway_go.Adapters.Exchange.{replied}
use llmgateway_go.ProviderKeys.Vault.{
  Vault, Host, Session, login, read, new_vault, read_secret, reauthenticate, current_token, fetch,
  fetch_file,
}
use llmgateway_go.ProviderKeys.Fetched.{IsConversation, Shown, fetch-IsConversation}

abbrev url : String
url = "https://vault:8200/v1/secret/data/openai"

-- The world counts the logins.
abbrev host : Host ℕ
host = record {
  read_file = λ path w. (some "pod\n", w);
  is_url = λ u. true;
  get = λ req w.
      if elim req.headers [ [] ↦ false | h ∷ rest ↦ h.1 == "new" ]
      then (replied 200 (λ n. ok "secret"), w)
      else (replied 403 (λ n. ok ""), w);
  post = λ req w. (replied 200 (λ n. ok "login"), suc w);
  login_body = λ role jwt. some (if jwt == "pod" then role else "");
  secret_fields = λ raw. some (("key", "sk-1") ∷ []);
  client_token = λ raw. some "new";
}

abbrev vault : Vault
vault = record {
  address = "https://vault:8200";
  role = "gateway";
  auth_path = "auth/kubernetes";
  token_path = "/token";
  token = "old";
}

abbrev revoked : Session ℕ
revoked = record { world = 0; vault = vault; acts = [] }

builds :
    new_vault (record {
      address = "https://vault:8200/";
      role = "gateway";
      auth_path = "/auth/kubernetes/";
      token_path = "/token";
    })
    ≡ ok (record vault { token = "" })
unfolding new_vault trim trim_left trim_right trim_suffix
builds = refl

fetches : fetch host "/secret/data/openai" revoked ≡ (
  ok "sk-1",
  record {
    world = 1;
    vault = record vault { token = "new" };
    acts = read "old" 403 none ∷ login (some "new") ∷ read "new" 200 (some "sk-1") ∷ [];
  },
)
unfolding fetch current_token read_secret reauthenticate trim_prefix trim_space trim trim_left
    trim_right lookup
fetches = refl

reads : fetch_file host "/keys/openai" 0 ≡ (some "pod", 0)
unfolding fetch_file trim_space trim trim_left trim_right
reads = refl

fetch-IsConversation_example :
    Shown (IsConversation "old") revoked (fetch host "/secret/data/openai" revoked)
fetch-IsConversation_example = fetch-IsConversation host "/secret/data/openai" revoked
