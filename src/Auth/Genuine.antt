-- ===== src/Auth/Genuine.antt =====
-- What a token has that is accepted.
use llmgateway_go.Prelude.{
  ℕ, String, ◌+◌, ◌≤◌, ◌<◌, ◌^◌, ◌==◌, List, [], ◌∷◌, ◌≡◌, refl, subst, Option, some, true, false,
  not, ◌&&◌, arith, if◌then◌else◌,
}
use Prim.Native.String.{◌++◌ as ◌then◌}
use llmgateway_go.Prelude.Split.{split}
use llmgateway_go.Prelude.Int.{pos, pos_add, wrap64_id}
use llmgateway_go.Prelude.Results.{ok, and_then, from_option, and_then-ok, from_option-ok}
use llmgateway_go.Auth.Token.{
  Header, Claims, Moment, Codec, judge, parse_claims, read_claims, check_signature, read_signature,
  find_key, parse_header, verify_parts, verify_token, contains, is_after, is_before, is_zero, later,
  unix, with_leeway, header_encoding, header_json, no_key, signature_encoding, claims_encoding,
  claims_json,
}

module _ {K : Type 0} (codec : Codec K) (key_for : String → Option K) (issuer aud : String)
    (now : Moment) where
  -- The claims are of this cluster, for this gateway, and current.
  pub record Current (c : Claims) (subject : String) : Type 0 where
    pub issued_by : (c.issuer == issuer) ≡ true
    pub bound_to : contains c.audience aud ≡ true
    pub has_expiry : is_zero c.expiry ≡ false
    pub not_expired : is_after now (later (unix c.expiry)) ≡ false
    pub not_early :
        (not (is_zero c.not_before) && is_before (with_leeway now) (unix c.not_before)) ≡ false
    pub names : (c.subject ≡ subject) × ((c.subject == "") ≡ false)

  pub record Genuine (raw subject : String) : Type 0 where
    pub head : String
    pub body : String
    pub tail : String
    pub header : Header
    pub key : K
    pub signature : List ℕ
    pub claims : Claims
    pub head_bytes : List ℕ
    pub body_bytes : List ℕ
    pub compact : split 46 raw ≡ head ∷ body ∷ tail ∷ []
    -- the header and the claims are what the first two parts say, and the signature is the third
    pub header_decoded : codec.decode head ≡ some head_bytes
    pub header_read : codec.header_of head_bytes ≡ some header
    pub signature_decoded : codec.decode tail ≡ some signature
    pub claims_decoded : codec.decode body ≡ some body_bytes
    pub claims_read : codec.claims_of body_bytes ≡ some claims
    pub rs256 : (header.alg == "RS256") ≡ true
    pub key_held : key_for header.kid ≡ some key
    pub signed : codec.verifies key (head then "." then body) signature ≡ true
    pub current : Current claims subject

  judge-Current :
      (c : Claims) {subject : String}
      → judge codec key_for issuer aud now c ≡ ok subject
      → Current c subject
  unfolding judge
  judge-Current c h = record {
    issued_by = ground arith;
    bound_to = ground arith;
    has_expiry = ground arith;
    not_expired = ground arith;
    not_early = ground arith;
    names = ground arith;
  }

  -- The part after the header: its key, its signature and its claims.
  record Signed (head body tail : String) (h : Header) (subject : String) : Type 0 where
    key : K
    signature : List ℕ
    claims : Claims
    bytes : List ℕ
    signature_decoded : codec.decode tail ≡ some signature
    claims_decoded : codec.decode body ≡ some bytes
    claims_read : codec.claims_of bytes ≡ some claims
    rs256 : (h.alg == "RS256") ≡ true
    key_held : key_for h.kid ≡ some key
    signed : codec.verifies key (head then "." then body) signature ≡ true
    current : Current claims subject

  read_claims-Current :
      (body : String) {subject : String}
      → read_claims codec key_for issuer aud now body ≡ ok subject
      → (b : List ℕ) × (c : Claims) × (codec.decode body ≡ some b)
        × (codec.claims_of b ≡ some c)
        × Current c subject
  read_claims-Current body h =
      let (b, e, f) =
        and_then-ok (from_option claims_encoding (codec.decode body))
          (parse_claims codec key_for issuer aud now) h in
      let (c, e', g) =
        and_then-ok (from_option claims_json (codec.claims_of b))
          (judge codec key_for issuer aud now) f in
      (
        b,
        c,
        from_option-ok claims_encoding (codec.decode body) e,
        from_option-ok claims_json (codec.claims_of b) e',
        judge-Current c g,
      )

  find_key-Signed :
      (head body tail : String) (h : Header) {subject : String}
      → find_key codec key_for issuer aud now head body tail h ≡ ok subject
      → Signed head body tail h subject
  find_key-Signed head body tail h {subject} p =
      let found : and_then (from_option (no_key h.kid) (key_for h.kid))
            (read_signature codec key_for issuer aud now head body tail)
          ≡ ok subject =
        ground arith in
      let (k, ek, f) =
        and_then-ok (from_option (no_key h.kid) (key_for h.kid))
          (read_signature codec key_for issuer aud now head body tail) found in
      let (sig, es, g) =
        and_then-ok (from_option signature_encoding (codec.decode tail))
          (check_signature codec key_for issuer aud now head body k) f in
      let valid : codec.verifies k (head then "." then body) sig ≡ true = ground arith in
      let (b, c, eb, ec, cur) = read_claims-Current body {subject = subject} (rw valid at g) in
      record {
        key = k;
        signature = sig;
        claims = c;
        bytes = b;
        signature_decoded = from_option-ok signature_encoding (codec.decode tail) es;
        claims_decoded = eb;
        claims_read = ec;
        rs256 = ground arith;
        key_held = from_option-ok (no_key h.kid) (key_for h.kid) ek;
        signed = valid;
        current = cur;
      }

  verify_parts-Genuine :
      (raw : String) (parts : List String) {subject : String}
      → split 46 raw ≡ parts
      → verify_parts codec key_for issuer aud now parts ≡ ok subject
      → Genuine raw subject
  verify_parts-Genuine raw [] e h = cc
  verify_parts-Genuine raw (head ∷ []) e h = cc
  verify_parts-Genuine raw (head ∷ body ∷ []) e h = cc
  verify_parts-Genuine raw (head ∷ body ∷ tail ∷ x ∷ xs) e h = cc
  verify_parts-Genuine raw (head ∷ body ∷ tail ∷ []) e h =
      let (b, eb, f) =
        and_then-ok (from_option header_encoding (codec.decode head))
          (parse_header codec key_for issuer aud now head body tail) h in
      let (d, ed, g) =
        and_then-ok (from_option header_json (codec.header_of b))
          (find_key codec key_for issuer aud now head body tail) f in
      let s = find_key-Signed head body tail d g in
      record {
        head = head;
        body = body;
        tail = tail;
        header = d;
        key = s.key;
        signature = s.signature;
        claims = s.claims;
        head_bytes = b;
        body_bytes = s.bytes;
        compact = e;
        header_decoded = from_option-ok header_encoding (codec.decode head) eb;
        header_read = from_option-ok header_json (codec.header_of b) ed;
        signature_decoded = s.signature_decoded;
        claims_decoded = s.claims_decoded;
        claims_read = s.claims_read;
        rs256 = s.rs256;
        key_held = s.key_held;
        signed = s.signed;
        current = s.current;
      }

  -- A token that is accepted has three parts; its header, read from the first, names RS256 and a key that
  -- is held; the third is that key's signature of the first two; and its claims, read from the second, are
  -- from the issuer, for the audience, not expired, not early, and name the subject that is returned, which
  -- is not empty.
  pub verify_token-Genuine :
      (raw : String) {subject : String}
      → verify_token codec key_for issuer aud now raw ≡ ok subject
      → Genuine raw subject
  unfolding verify_token
  verify_token-Genuine raw h = verify_parts-Genuine raw (split 46 raw) refl h

later-unix : (e : ℕ) → e < 2 ^ 62 → later (unix (pos e)) ≡ pos (e + 62_135_596_800 + 30)
later-unix e h = rw (
  pos_add e 62_135_596_800,
  wrap64_id (e + 62_135_596_800) (omega arith),
  pos_add (e + 62_135_596_800) 30,
  wrap64_id (e + 62_135_596_800 + 30) (omega arith),
)

-- Claims are accepted no later than thirty seconds after the second that they expire at, where that
-- second, counted from 1970, is below 2 ^ 62, and the time, counted from the year 1, is after 1970.
pub judge-leeway :
    {K : Type 0} (codec : Codec K) (key_for : String → Option K) (issuer aud : String)
    (now : Moment) (c : Claims) {subject : String} (n e : ℕ)
    → c.expiry ≡ pos e
    → e < 2 ^ 62
    → now.seconds ≡ pos (n + 62_135_596_800)
    → judge codec key_for issuer aud now c ≡ ok subject
    → n ≤ e + 30
judge-leeway codec key_for issuer aud now c n e exp small at h =
    let q = (judge-Current codec key_for issuer aud now c h).not_expired in
    let l = later-unix e small in
    let r : is_after now (later (unix (pos e))) ≡ false =
      subst (λ x. is_after now (later (unix x)) ≡ false) exp q in
    ground arith
