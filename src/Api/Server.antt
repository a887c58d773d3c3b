-- ===== src/Api/Server.antt =====
-- internal/api/middleware.go, with what it works on. A handler is a function of a
-- request and the state of the world, which writes an answer or panics before it wrote one.
use Prim.Native.Char.{code}
use Prim.Native.String.{[] as no_text, ◌∷◌ as ◌then◌, len, slice}
use llmgateway_go.Prelude.{
  ℕ, ◌+◌, String, ◌==◌, List, [], ◌∷◌, Option, none, some, Bool, true, false, ◌&&◌, ◌||◌, eqb, leb,
  ltb, if◌then◌else◌,
}
use llmgateway_go.Prelude.Int.{ℤ}
use llmgateway_go.Gateway.Faults.{unauthorized}
use llmgateway_go.Api.{ApiError, of_core, missing_api_key, internal_failure, Written, write_error}
use llmgateway_go.Api.Answer.{ChatResponseWire}

-- What of a request the edge reads. Middleware adds the correlation ID, the limit and the credential.
pub record Request : Type 0 where
  pub authorization : String
  pub correlation_header : String
  pub body_limit : Option ℤ
  pub correlation : String
  pub api_key : String

pub data Body : Type 0 where
  nothing health_ok : Body
  chat_body : ChatResponseWire → Body
  -- an error, with the correlation ID beside it
  error_body : ApiError → String → Body

pub record Reply : Type 0 where
  pub status : ℕ
  pub correlation_header : Option String
  pub retry_after : Option ℤ
  pub is_substituted : Bool
  pub body : Body

pub data Served : Type 0 where
  replied : Reply → Served
  panicked : Served

abbrev pub Handler : Type 0 → Type 0
Handler W = Request → W → Served × W

abbrev pub Middleware : Type 0 → Type 0
Middleware W = Handler W → Handler W

abbrev pub plain : ℕ → Body → Reply
plain status body = record {
  status = status;
  correlation_header = none;
  retry_after = none;
  is_substituted = false;
  body = body;
}

abbrev pub body_of : Request → Option ApiError → Body
body_of r none = nothing
body_of r (some e) = error_body e r.correlation

-- What writeError and writeChatError write, for one request.
abbrev pub written : Request → Written → Reply
written r w = record {
  status = w.status;
  correlation_header = none;
  retry_after = w.retry_after;
  is_substituted = false;
  body = body_of r w.body;
}

-- ------------------------------------------------------------------ middleware

abbrev pub max_correlation_id_length : ℕ
max_correlation_id_length = 128

abbrev pub with_header : String → Served → Served
with_header id (replied reply) = replied (record reply { correlation_header = some id })
with_header id panicked = panicked

abbrev pub is_unusable : String → Bool
is_unusable id = id == "" || ltb max_correlation_id_length (len id)

abbrev pub adopted : {W : Type 0} → (W → String × W) → String → W → String × W
adopted random id w = if is_unusable id then random w else (id, w)

abbrev pub recovered : Request → Served → Served
recovered r (replied reply) = replied reply
recovered r panicked = replied (written r (write_error internal_failure))

abbrev lower : ℕ → ℕ
lower c = if leb b'A' c && leb c b'Z' then c + 32 else c

-- strings.EqualFold with a text whose letters have no case but those of ASCII.
unfoldable pub equal_fold : String → String → Bool
equal_fold no_text no_text = true
equal_fold no_text (d then t) = false
equal_fold (c then s) no_text = false
equal_fold (c then s) (d then t) = eqb (lower (code c)) (lower (code d)) && equal_fold s t

abbrev pub bearer_prefix : String
bearer_prefix = "Bearer "

-- bearerToken: positions count bytes
unfoldable pub bearer_token : String → Option String
unfolding equal_fold
bearer_token auth =
    if ltb (len bearer_prefix) (len auth)
      && equal_fold (slice auth 0 (len bearer_prefix)) bearer_prefix
    then some (slice auth (len bearer_prefix) (len auth))
    else none

abbrev pub missing_key : ApiError
missing_key = record {
  status = 401;
  code = of_core unauthorized;
  message = missing_api_key;
  details = none;
}

module _ {W : Type 0} where
  -- Server.correlationID, with the generator of random texts
  unfoldable pub correlation_id : (W → String × W) → Middleware W
  correlation_id random next r w =
      let (id, w') = adopted random r.correlation_header w in
      let (served, w'') = next (record r { correlation = id }) w' in (with_header id served, w'')

  -- Server.recoverPanic
  unfoldable pub recover_panic : Middleware W
  unfolding write_error
  recover_panic next r w = let (served, w') = next r w in (recovered r served, w')

  -- Server.maxBody
  unfoldable pub max_body : ℤ → Middleware W
  max_body limit next r w = next (record r { body_limit = some limit }) w

  abbrev pub admit_key : Handler W → Request → W → Option String → Served × W
  admit_key next r w none = (replied (written r (write_error missing_key)), w)
  admit_key next r w (some key) = next (record r { api_key = key }) w

  -- Server.authenticate
  unfoldable pub authenticate : Middleware W
  unfolding bearer_token write_error
  authenticate next r w = admit_key next r w (bearer_token r.authorization)

  -- spliced: outermost first
  unfoldable pub spliced : List (Middleware W) → Handler W → Handler W
  spliced [] h = h
  spliced (m ∷ rest) h = m (spliced rest h)
