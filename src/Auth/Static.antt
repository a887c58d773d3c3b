-- ===== src/Auth/Static.antt =====
-- Keys fail static: a refresh that fails keeps the keys that were there.
use llmgateway_go.Prelude.{
  ℕ, ◌≤◌, String, ◌==◌, List, [], ◌∷◌, ◌≡◌, refl, subst, none, some, true, false, not, ◌||◌, All,
  eqb, length, arith, Bool-cases, inl, inr, ◌⊎◌,
}
use llmgateway_go.Prelude.Maps.{lookup, insert, All-insert}
use llmgateway_go.Prelude.Results.{
  Result, ok, err, and_then, from_option, and_then-ok, ok-injective, Result-cases,
}
use llmgateway_go.Gateway.Domain.{App}
use llmgateway_go.Config.{AuthConfig}
use llmgateway_go.Auth.Token.{Moment, Codec, verify_token}
use llmgateway_go.Auth.Genuine.{Genuine, verify_token-Genuine}
use llmgateway_go.Auth.Jwks.{
  RsaKey, JwksCache, Jwk, Fetched, not_built, not_sent, replied, JwksError, max_exponent, rsa_key,
  load_keys, usable, load_document, read_reply, refresh, new_jwks_cache, is_ready, key_for,
  app_for_key, with_modulus, key_of_bytes, wrap, decode_document, modulus, exponent,
}

-- A named key whose exponent fits in 32 bits.
abbrev pub Good : String × RsaKey → Type 0
Good e = ((e.0 == "") ≡ false) × (e.1.exponent ≤ max_exponent)

-- The cache is ready exactly if it was loaded, and holds good keys only.
pub record Sound (c : JwksCache) : Type 0 where
  pub good : All Good c.keys
  pub loaded :
      ((c.loaded_at ≡ none) × (is_ready c ≡ false))
      ⊎ ((t : ℕ) × (c.loaded_at ≡ some t) × (is_ready c ≡ true))

wrap-ok :
    {A : Type 0} (kid : String) (r : Result JwksError A) {a : A} → wrap kid r ≡ ok a → r ≡ ok a
wrap-ok kid (ok a) h = h
wrap-ok kid (err e) h = cc

key_of_bytes-exponent :
    (nb eb : List ℕ) {k : RsaKey} → key_of_bytes nb eb ≡ ok k → k.exponent ≤ max_exponent
key_of_bytes-exponent nb eb h = ground arith

module _ (codec : Codec RsaKey) where
  rsa_key-exponent :
      (n e : String) {k : RsaKey} → rsa_key codec n e ≡ ok k → k.exponent ≤ max_exponent
  unfolding rsa_key
  rsa_key-exponent n e {k} h =
      let (nb, en, f) =
        and_then-ok (from_option modulus (codec.decode n)) (with_modulus (codec.decode e)) h in
      let (eb, ee, g) = and_then-ok (from_option exponent (codec.decode e)) (key_of_bytes nb) f in
      key_of_bytes-exponent nb eb {k = k} g

  load_keys-Good :
      (document : List Jwk) (keys : List (String × RsaKey)) {result : List (String × RsaKey)}
      → All Good keys
      → load_keys codec document keys ≡ ok result
      → All Good result
  unfolding load_keys
  load_keys-Good [] keys g h = subst (All Good) (ok-injective h) g
  load_keys-Good (k ∷ rest) keys {result} g h =
      elim (Bool-cases (not (k.kty == "RSA") || k.kid == "")) [
        | inl e ↦ load_keys-Good rest keys {result = result} g (rw e at h)
        | inr e ↦
            let (p, ep, f) =
              and_then-ok (wrap k.kid (rsa_key codec k.n k.e))
                (λ key. load_keys codec rest (insert k.kid key keys)) (rw e at h) in
            let named : (k.kid == "") ≡ false = ground arith in
            let small = rsa_key-exponent k.n k.e (wrap-ok k.kid (rsa_key codec k.n k.e) ep) in
            load_keys-Good rest (insert k.kid p keys) {result = result}
              (All-insert Good k.kid p keys (named, small) g) f
      ]

  load_document-Good :
      (document : List Jwk) {keys : List (String × RsaKey)}
      → load_document codec document ≡ ok keys
      → All Good keys × (not (eqb (length keys) 0) ≡ true)
  load_document-Good document {keys} h =
      let (ks, e, f) = and_then-ok (load_keys codec document []) usable h in
      let g = load_keys-Good document [] {result = ks} tt e in
      elim (Bool-cases (eqb (length ks) 0)) [
        | inl z ↦ absurd (ground arith)
        | inr z ↦
            subst (λ x. All Good x × (not (eqb (length x) 0) ≡ true)) (ok-injective (rw z at f))
              (g, rw z refl)
      ]

  pub read_reply-Good :
      (reply : Fetched) {keys : List (String × RsaKey)}
      → read_reply codec reply ≡ ok keys
      → All Good keys × (not (eqb (length keys) 0) ≡ true)
  read_reply-Good not_built h = cc
  read_reply-Good not_sent h = cc
  read_reply-Good (replied code body) {keys} h =
      let f : and_then (from_option decode_document body) (load_document codec) ≡ ok keys =
        ground arith in
      let (d, e, g) = and_then-ok (from_option decode_document body) (load_document codec) f in
      load_document-Good d g

  refresh-Sound :
      (reply : Fetched) (now : ℕ) (c : JwksCache) → Sound c → Sound (refresh codec reply now c).1
  unfolding refresh
  refresh-Sound reply now c s = elim (Result-cases (read_reply codec reply)) [
    | inr (e, q) ↦ rw q s
    | inl (keys, q) ↦
        let (g, r) = read_reply-Good reply {keys = keys} q in
        rw q (record { good = g; loaded = inr (now, refl, r) })
  ]

  -- A list of refreshes, each with what it fetches and the time.
  unfoldable pub refresh_all : List (Fetched × ℕ) → JwksCache → JwksCache
  refresh_all [] c = c
  refresh_all ((reply, now) ∷ rest) c = refresh_all rest (refresh codec reply now c).1

  refresh_all-kept : (rs : List (Fetched × ℕ)) (c : JwksCache) → Sound c → Sound (refresh_all rs c)
  unfolding refresh_all
  refresh_all-kept [] c s = s
  refresh_all-kept ((reply, now) ∷ rest) c s =
      refresh_all-kept rest (refresh codec reply now c).1 (refresh-Sound reply now c s)

  -- Whatever the refreshes of a new cache fetch, it holds only named keys whose exponents fit in 32
  -- bits, and it is ready exactly if some refresh has loaded it.
  pub refresh_all-Sound : (rs : List (Fetched × ℕ)) → Sound (refresh_all rs new_jwks_cache)
  unfolding new_jwks_cache
  refresh_all-Sound rs = refresh_all-kept rs _ (record { good = tt; loaded = inl (refl, refl) })

  refresh-ready :
      (reply : Fetched) (now : ℕ) (c : JwksCache)
      → is_ready c ≡ true
      → is_ready (refresh codec reply now c).1 ≡ true
  unfolding refresh
  refresh-ready reply now c h = elim (Result-cases (read_reply codec reply)) [
    | inr (e, q) ↦ rw q h
    | inl (keys, q) ↦ let (g, r) = read_reply-Good reply {keys = keys} q in rw q r
  ]

  stays_ready :
      (rs : List (Fetched × ℕ)) (c : JwksCache)
      → is_ready c ≡ true
      → is_ready (refresh_all rs c) ≡ true
  unfolding refresh_all
  stays_ready [] c h = h
  stays_ready ((reply, now) ∷ rest) c h =
      stays_ready rest (refresh codec reply now c).1 (refresh-ready reply now c h)

  refresh-static :
      (reply : Fetched) (now : ℕ) (c : JwksCache)
      → ((refresh codec reply now c).0 ≡ ok tt) ⊎ ((refresh codec reply now c).1 ≡ c)
  unfolding refresh
  refresh-static reply now c = elim (Result-cases (read_reply codec reply)) [
    | inr (e, q) ↦ inr (rw q)
    | inl (keys, q) ↦ inl (rw q)
  ]

  -- A cache that is ready stays ready, whatever its refreshes fetch, and a refresh that does not
  -- succeed leaves the cache as it was.
  pub refresh_all-ready :
      (rs : List (Fetched × ℕ)) (reply : Fetched) (now : ℕ) (c : JwksCache)
      → is_ready c ≡ true
      → (is_ready (refresh_all rs c) ≡ true)
        × (((refresh codec reply now c).0 ≡ ok tt) ⊎ ((refresh codec reply now c).1 ≡ c))
  refresh_all-ready rs reply now c h = (stays_ready rs c h, refresh-static reply now c)

-- A caller is identified only by a genuine token: its header, read from its first part, names RS256 and a key
-- in the cache, its third part is that key's signature of the first two, and its claims, read from the second,
-- are of the configured issuer and audience, current, and name a subject that the configuration maps to the app.
pub app_for_key-Genuine :
    (codec : Codec RsaKey) (cfg : AuthConfig) (cache : JwksCache) (now : Moment) (token : String)
    {app : App}
    → app_for_key codec cfg cache now token ≡ some app
    → (subject : String) × Genuine codec (key_for cache) cfg.issuer cfg.audience now token subject
      × (lookup subject cfg.apps ≡ some app)
unfolding app_for_key
app_for_key-Genuine codec cfg cache now token h =
    elim (Result-cases (verify_token codec (key_for cache) cfg.issuer cfg.audience now token)) [
      | inr (e, q) ↦ absurd (ground arith)
      | inl (subject, q) ↦ (
        subject,
        verify_token-Genuine codec (key_for cache) cfg.issuer cfg.audience now token q,
        rw q at h,
      )
    ]
