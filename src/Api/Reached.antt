-- ===== src/Api/Reached.antt =====
-- internal/api: what the whole chain of the data path makes of a request.
use llmgateway_go.Prelude.{
  ℕ, String, ◌≡◌, refl, sym, subst, ap, ◌∙◌, List, [], ◌∷◌, Option, none, some, Bool, All,
}
use llmgateway_go.Prelude.Results.{Result, ok, err}
use llmgateway_go.Gateway.Domain.{ChatRequest}
use llmgateway_go.Api.{ApiError, internal_failure, write_error, write_chat_error}
use llmgateway_go.Api.Wire.{ChatRequestWire, wire_to_domain}
use llmgateway_go.Api.Decode.{decode_chat_request}
use llmgateway_go.Api.Answer.{chat_response}
use llmgateway_go.Api.Server.{
  Request, Reply, Body, nothing, chat_body, error_body, Served, replied, Handler, Middleware,
  body_of, written, adopted, with_header, recovered, correlation_id, recover_panic, max_body,
  admit_key, authenticate, bearer_token, missing_key, spliced,
}
use llmgateway_go.Api.Routes.{
  Library, Server, ChatEnd, returned, raised, decoded, drive, answer_with, handle_chat, chain,
  serve, chat,
}

-- A middleware that only observes: it answers as the handler that it wraps.
abbrev pub IsTransparent : {W : Type 0} → Middleware W → Type 0
IsTransparent {W} m = (h : Handler W) (r : Request) (w : W) → m h r w ≡ h r w

spliced-lem_of :
    {W : Type 0} (ms : List (Middleware W)) (h : Handler W) (r : Request) (w : W)
    → All IsTransparent ms
    → spliced ms h r w ≡ h r w
unfolding spliced
spliced-lem_of [] h r w t = refl
spliced-lem_of (m ∷ rest) h r w t = t.0 (spliced rest h) r w ∙ spliced-lem_of rest h r w t.1

-- An error goes out with the correlation ID.
abbrev pub IsTagged : String → Body → Type 0
IsTagged id (error_body e c) = c ≡ id
IsTagged id _ = Unit

-- An error beside its ID, or nothing for a caller who left.
abbrev pub told_as : String → Option ApiError → Body
told_as id none = nothing
told_as id (some e) = error_body e id

body_of-told_as :
    (id : String) (r : Request) (o : Option ApiError)
    → r.correlation ≡ id
    → body_of r o ≡ told_as id o
body_of-told_as id r none h = refl
body_of-told_as id r (some e) h = ap (error_body e) h

body_of-IsTagged :
    (id : String) (r : Request) (o : Option ApiError)
    → r.correlation ≡ id
    → IsTagged id (body_of r o)
body_of-IsTagged id r none h = tt
body_of-IsTagged id r (some e) h = h

module _ {W : Type 0} (lib : Library W) where
  -- The status, the mark and the body of the answer to what Chat did, and the world after it. A result is
  -- the body of a success, under an ID and a time of its own; a refusal is written as the edge writes it.
  abbrev pub Told : String → ChatEnd × W → ℕ → Bool → Body → W → Type 0
  unfolding write_chat_error chat_response
  Told id (returned (ok res), w) status mark body w' =
      (status ≡ 200)
      × (mark ≡ res.substituted)
      × (body ≡ chat_body (chat_response (lib.random w).0 (lib.now (lib.random w).1) res))
      × (w' ≡ (lib.random w).1)
  Told id (returned (err f), w) status mark body w' =
      (status ≡ (write_chat_error f).status)
      × (body ≡ told_as id (write_chat_error f).body)
      × (w' ≡ w)
  Told id (raised, w) status mark body w' =
      (status ≡ 500) × (body ≡ error_body internal_failure id) × (w' ≡ w)

  abbrev pub Driven :
      (String → ChatRequest → W → ChatEnd × W)
      → String
      → W
      → String
      → Result ApiError ChatRequestWire
      → ℕ
      → Bool
      → Body
      → W
      → Type 0
  unfolding wire_to_domain
  Driven service key w id (err e) status mark body w' =
      (status ≡ e.status) × (body ≡ error_body e id) × (w' ≡ w)
  Driven service key w id (ok wire) status mark body w' =
      Told id (service key (wire_to_domain wire) w) status mark body w'

  abbrev pub Admitted :
      (String → ChatRequest → W → ChatEnd × W)
      → Request
      → W
      → Option String
      → ℕ
      → Bool
      → Body
      → W
      → Type 0
  Admitted service r w none status mark body w' =
      (status ≡ 401) × (body ≡ error_body missing_key r.correlation) × (w' ≡ w)
  Admitted service r w (some key) status mark body w' =
      Driven service key w r.correlation (decoded lib (record r { api_key = key })) status mark body
        w'

  answer_with-Told :
      (id : String) (q r : Request) (p : ChatEnd × W)
      → q.correlation ≡ id
      → r.correlation ≡ id
      → (reply : Reply) × (recovered q (answer_with lib r p).0 ≡ replied reply)
        × IsTagged id reply.body
        × Told id p reply.status reply.is_substituted reply.body (answer_with lib r p).1
  unfolding write_error write_chat_error chat_response wire_to_domain
  answer_with-Told id q r (returned (ok res), w) k l = (_, refl, tt, (refl, refl, refl, refl))
  answer_with-Told id q r (returned (err f), w) k l = (
    written r (write_chat_error f),
    refl,
    body_of-IsTagged id r (write_chat_error f).body l,
    (refl, body_of-told_as id r (write_chat_error f).body l, refl),
  )
  answer_with-Told id q r (raised, w) k l = (
    written q (write_error internal_failure),
    refl,
    k,
    (refl, ap (error_body internal_failure) k, refl),
  )

  drive-Driven :
      (service : String → ChatRequest → W → ChatEnd × W) (id : String) (q r : Request) (w : W)
      (d : Result ApiError ChatRequestWire)
      → q.correlation ≡ id
      → r.correlation ≡ id
      → (reply : Reply) × (recovered q (drive lib service r w d).0 ≡ replied reply)
        × IsTagged id reply.body
        × Driven service r.api_key w id d reply.status reply.is_substituted reply.body
            (drive lib service r w d).1
  unfolding write_error write_chat_error chat_response wire_to_domain
  drive-Driven service id q r w (err e) k l =
      (written r (write_error e), refl, l, (refl, ap (error_body e) l, refl))
  drive-Driven service id q r w (ok wire) k l =
      answer_with-Told id q r (service r.api_key (wire_to_domain wire) w) k l

  admit_key-Admitted :
      (service : String → ChatRequest → W → ChatEnd × W) (id : String) (q r : Request) (w : W)
      (key : Option String)
      → q.correlation ≡ id
      → r.correlation ≡ id
      → (let p = admit_key (handle_chat lib service) r w key in
          (reply : Reply) × (recovered q p.0 ≡ replied reply)
          × IsTagged id reply.body
          × Admitted service r w key reply.status reply.is_substituted reply.body p.1)
  unfolding handle_chat write_error write_chat_error chat_response wire_to_domain
      decode_chat_request
  admit_key-Admitted service id q r w none k l =
      (written r (write_error missing_key), refl, l, (refl, refl, refl))
  admit_key-Admitted service id q r w (some key) k l =
      subst
        (λ c.
          let p =
            drive lib service (record r { api_key = key }) w
              (decoded lib (record r { api_key = key })) in
          (reply : Reply) × (recovered q p.0 ≡ replied reply)
          × IsTagged id reply.body
          × Driven service key w c (decoded lib (record r { api_key = key })) reply.status
              reply.is_substituted reply.body p.1)
        (sym l)
        (drive-Driven service id q (record r { api_key = key }) w
          (decoded lib (record r { api_key = key })) k l)

  -- The path inside the correlation ID.
  abbrev guarded : Server W → Handler W
  guarded s = spliced s.request_mw (
      recover_panic (
        spliced s.panic_mw
          (max_body s.config.max_body_bytes (authenticate (handle_chat lib s.chat)))))

  abbrev pub limited : Server W → Request → Request
  limited s r = record r { body_limit = some s.config.max_body_bytes }

  guarded-admit_key :
      (s : Server W) (r : Request) (w : W)
      → All IsTransparent s.request_mw
      → All IsTransparent s.panic_mw
      → (let p =
            admit_key (handle_chat lib s.chat) (limited s r) w (bearer_token r.authorization) in
          guarded s r w ≡ (recovered r p.0, p.1))
  unfolding recover_panic max_body authenticate
  guarded-admit_key s r w t u =
      let inner : Handler W =
        max_body s.config.max_body_bytes (authenticate (handle_chat lib s.chat)) in
      spliced-lem_of s.request_mw (recover_panic (spliced s.panic_mw inner)) r w t
      ∙ ap (λ p. (recovered r p.0, p.1)) (spliced-lem_of s.panic_mw inner r w u)

  -- A request to the data path always gets an answer, with a correlation ID in its header that an error's
  -- body repeats. One without a bearer token gets 401 and one whose body is refused gets that refusal, and
  -- nothing else is done for either. For any other Chat is called once, with the token and the request: its
  -- result is the body of a 200, marked where another model served, its refusal is written with its status
  -- and body, and its panic is a 500 with the body of an internal failure.
  pub serve-Admitted :
      (s : Server W) (r : Request) (w : W)
      → All IsTransparent s.request_mw
      → All IsTransparent s.panic_mw
      → (let (id, w') = adopted lib.random r.correlation_header w in
          let out = serve lib s chat r w in
          (reply : Reply) × (out.0 ≡ replied reply)
          × (reply.correlation_header ≡ some id)
          × IsTagged id reply.body
          × Admitted s.chat
              (limited s (record r { correlation = id }))
              w'
              (bearer_token r.authorization)
              reply.status
              reply.is_substituted
              reply.body
              out.1)
  unfolding serve chain correlation_id
  serve-Admitted s r w t u =
      let (id, w') = adopted lib.random r.correlation_header w in
      let q : Request = record r { correlation = id } in
      let key : Option String = bearer_token r.authorization in
      let (reply, answered, tagged, admitted) =
        admit_key-Admitted s.chat id q (limited s q) w' key refl refl in
      subst
        (λ (x : Served × W).
          (reply : Reply) × (with_header id x.0 ≡ replied reply)
          × (reply.correlation_header ≡ some id)
          × IsTagged id reply.body
          × Admitted s.chat (limited s q) w' key reply.status reply.is_substituted reply.body x.1)
        (sym (guarded-admit_key s q w' t u))
        (
          record reply { correlation_header = some id },
          ap (with_header id) answered,
          refl,
          tagged,
          admitted,
        )
