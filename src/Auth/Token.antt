-- ===== src/Auth/Token.antt =====
-- internal/auth/token.go: one compact JWT, checked.
--
-- What base64, JSON and RSA compute is not modelled: `Codec` stands for those packages.
use Prim.Native.String.{◌++◌ as ◌then◌}
use llmgateway_go.Prelude.Split.{split}
use llmgateway_go.Prelude.{
  ℕ, String, ◌==◌, List, [], ◌∷◌, Option, Bool, true, false, not, ◌&&◌, ◌||◌, ltb, if◌then◌else◌,
}
use llmgateway_go.Prelude.Int.{ℤ, pos, ◌+ℤ◌, wrap64, ltz, lez}
use llmgateway_go.Prelude.Results.{Result, ok, err, and_then, from_option}

pub record Header : Type 0 where
  pub alg : String
  pub kid : String

pub record Claims : Type 0 where
  pub issuer : String
  pub subject : String
  pub audience : List String
  pub expiry : ℤ
  pub not_before : ℤ

-- A Go time: seconds since the year 1, and nanoseconds within the second.
pub record Moment : Type 0 where
  pub seconds : ℤ
  pub nanoseconds : ℕ

-- Bytes are numbers.
pub record Codec (K : Type 0) : Type 0 where
  -- base64.RawURLEncoding.DecodeString
  pub decode : String → Option (List ℕ)
  -- json.Unmarshal into a header and into claims
  pub header_of : List ℕ → Option Header
  pub claims_of : List ℕ → Option Claims
  -- rsa.VerifyPKCS1v15 of the SHA-256 digest of a text
  pub verifies : K → String → List ℕ → Bool

pub data VerifyError : Type 0 where
  not_compact : VerifyError
  header_encoding header_json : VerifyError
  algorithm_refused : String → VerifyError
  no_kid : VerifyError
  no_key : String → VerifyError
  signature_encoding bad_signature claims_encoding claims_json : VerifyError
  wrong_issuer : String → VerifyError
  wrong_audience no_expiry expired not_yet_valid no_subject : VerifyError

-- audience.contains
abbrev pub contains : List String → String → Bool
contains [] want = false
contains (aud ∷ rest) want = if aud == want then true else contains rest want

-- time.Unix(s, 0): the seconds are moved to the year 1 in 64 bits; and Add(leeway) of 30 seconds
abbrev pub unix : ℤ → ℤ
unix s = wrap64 (s +ℤ pos 62_135_596_800)

abbrev pub later : ℤ → ℤ
later s = wrap64 (s +ℤ pos 30)

-- now.After(t) and now.Before(t), for a t that is a whole second
abbrev pub is_after : Moment → ℤ → Bool
is_after now t =
    ltz t now.seconds || (lez t now.seconds && lez now.seconds t && ltb 0 now.nanoseconds)

abbrev pub is_before : Moment → ℤ → Bool
is_before now t = ltz now.seconds t

abbrev pub is_zero : ℤ → Bool
is_zero n = lez n (pos 0) && lez (pos 0) n

-- now.Add(leeway)
abbrev pub with_leeway : Moment → Moment
with_leeway now = record now { seconds = later now.seconds }

module _ {K : Type 0} (codec : Codec K) (key_for : String → Option K) (issuer aud : String)
    (now : Moment) where
  -- The switch on the claims.
  unfoldable pub judge : Claims → Result VerifyError String
  unfolding wrap64
  judge c =
      if not (c.issuer == issuer)
      then err (wrong_issuer c.issuer)
      else if not (contains c.audience aud)
      then err wrong_audience
      else if is_zero c.expiry
      then err no_expiry
      else if is_after now (later (unix c.expiry))
      then err expired
      else if not (is_zero c.not_before) && is_before (with_leeway now) (unix c.not_before)
      then err not_yet_valid
      else if c.subject == ""
      then err no_subject
      else ok c.subject

  abbrev pub parse_claims : List ℕ → Result VerifyError String
  parse_claims bytes = and_then (from_option claims_json (codec.claims_of bytes)) judge

  -- Only with the signature proven are the claims read.
  abbrev pub read_claims : String → Result VerifyError String
  read_claims part = and_then (from_option claims_encoding (codec.decode part)) parse_claims

  abbrev pub check_signature : String → String → K → List ℕ → Result VerifyError String
  check_signature head body key sig =
      if codec.verifies key (head then "." then body) sig
      then read_claims body
      else err bad_signature

  abbrev pub read_signature : String → String → String → K → Result VerifyError String
  read_signature head body tail key =
      and_then (from_option signature_encoding (codec.decode tail)) (check_signature head body key)

  abbrev pub find_key : String → String → String → Header → Result VerifyError String
  find_key head body tail h =
      if not (h.alg == "RS256")
      then err (algorithm_refused h.alg)
      else if h.kid == ""
      then err no_kid
      else and_then (from_option (no_key h.kid) (key_for h.kid)) (read_signature head body tail)

  abbrev pub parse_header : String → String → String → List ℕ → Result VerifyError String
  parse_header head body tail bytes =
      and_then (from_option header_json (codec.header_of bytes)) (find_key head body tail)

  abbrev pub verify_parts : List String → Result VerifyError String
  verify_parts (head ∷ body ∷ tail ∷ []) =
      and_then (from_option header_encoding (codec.decode head)) (parse_header head body tail)
  verify_parts _ = err not_compact

  -- 46 is the dot
  unfoldable pub verify_token : String → Result VerifyError String
  verify_token raw = verify_parts (split 46 raw)
