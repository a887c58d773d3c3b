-- ===== src/Api/Judgment.antt =====
-- internal/api/openapi.go: what becomes of a body, and the statuses of those that are refused.
use llmgateway_go.Prelude.{
  ℕ, ◌+◌, ◌≡◌, ◌≢◌, ◌⊎◌, refl, sym, subst, String, ◌==◌, eq_iff, List, [], ◌∷◌, Option,
  none as absent, some, Bool, true, false, arith, Bool-cases, Option-cases, inl, inr, if◌then◌else◌,
}
use llmgateway_go.Prelude.Int.{ℤ}
use llmgateway_go.Prelude.Results.{Result, ok, err, and_then}
use llmgateway_go.Api.{ApiError}
use llmgateway_go.Api.Wire.{
  ChatRequestWire, MessageWire, ToolWire, Floats, is_stream, is_several, is_outside, reject_message,
  reject_tool, or_else, first_refusal, reject, invalid, unsupported,
}
use llmgateway_go.Api.Decode.{
  WireError, DecodeFailure, Json, RawRequest, by_size, by_violation, by_type, judge_decoded,
  read_fields, decode_error, require_json, decode_chat_request,
}
use llmgateway_go.Api.Schema.{IsRequest, reject-IsRequest}

abbrev IsBad : ApiError → Type 0
IsBad e = e.status ≡ 400

or_IsBad :
    (b : Bool) (e : ApiError) (rest : Option ApiError) (r : ApiError)
    → (if b then some e else rest) ≡ some r
    → IsBad e
    → (rest ≡ some r → IsBad r)
    → IsBad r
or_IsBad true e rest r h k l = ground (arith, h, k)
or_IsBad false e rest r h k l = l h

or_else-IsBad :
    (a b : Option ApiError) (r : ApiError)
    → (a ≡ some r → IsBad r)
    → (b ≡ some r → IsBad r)
    → or_else a b ≡ some r
    → IsBad r
or_else-IsBad absent b r k l h = l h
or_else-IsBad (some e) b r k l h = k h

reject_message-IsBad :
    (i : ℕ) (m : MessageWire) (r : ApiError) → reject_message i m ≡ some r → IsBad r
unfolding invalid
reject_message-IsBad i m r h = ground (arith, h)

reject_tool-IsBad : (i : ℕ) (t : ToolWire) (r : ApiError) → reject_tool i t ≡ some r → IsBad r
unfolding invalid
reject_tool-IsBad i t r h = ground (arith, h)

first_refusal-IsBad :
    {A : Type 0} (check : ℕ → A → Option ApiError)
    → ((i : ℕ) (x : A) (r : ApiError) → check i x ≡ some r → IsBad r)
    → (i : ℕ) (xs : List A) (r : ApiError) → first_refusal check i xs ≡ some r
    → IsBad r
unfolding first_refusal
first_refusal-IsBad check k i [] r h = absurd (ground (arith, h))
first_refusal-IsBad check k i (x ∷ rest) r h =
    or_else-IsBad (check i x) (first_refusal check (i + 1) rest) r (k i x r)
      (first_refusal-IsBad check k (i + 1) rest r) h

reject-IsBad :
    (floats : Floats) (wr : ChatRequestWire) (r : ApiError) → reject floats wr ≡ some r → IsBad r
unfolding reject
reject-IsBad floats wr r h = or_IsBad (is_stream wr.stream) _ _ r h refl (λ h1.
    or_IsBad (is_several wr.n) _ _ r h1 refl (λ h2.
      or_IsBad (is_outside floats 2 wr.temperature) _ _ r h2 refl (λ h3.
        or_IsBad (is_outside floats 1 wr.top_p) _ _ r h3 refl (
          or_else-IsBad _ _ r
            (first_refusal-IsBad reject_message reject_message-IsBad 0 wr.messages r)
            (first_refusal-IsBad reject_tool reject_tool-IsBad 0 wr.tools r)))))

abbrev Decoded : Type 0
Decoded = Result DecodeFailure ChatRequestWire

-- A body over the limit, one that cannot be read, and one that the edge refuses once it is decoded.
abbrev pub TooLarge : Decoded → Type 0
TooLarge body = (f : DecodeFailure) × (body ≡ err f) × (f.max_bytes ≢ absent)

abbrev pub Unreadable : Decoded → Type 0
Unreadable body = (f : DecodeFailure) × (body ≡ err f) × (f.max_bytes ≡ absent)

abbrev pub OffSchema : Floats → Decoded → Type 0
OffSchema floats body = (wr : ChatRequestWire) × (body ≡ ok wr) × ¬ (IsRequest floats wr)

abbrev pub Judged : Floats → Option String → Decoded → Result ApiError ChatRequestWire → Type 0
Judged floats mt body (ok wr) =
    (mt ≡ some "application/json") × (body ≡ ok wr) × IsRequest floats wr
Judged floats mt body (err e) =
    ((e.status ≡ 415) × (mt ≢ some "application/json"))
    ⊎ (((e.status ≡ 413) × TooLarge body)
        ⊎ ((e.status ≡ 400) × (Unreadable body ⊎ OffSchema floats body)))

by_type-IsBad :
    (t : Option (String × String)) (x : Option String) (b : Bool) → IsBad (by_type t x b)
unfolding invalid unsupported
by_type-IsBad (some t) x b = refl
by_type-IsBad absent (some x) b = refl
by_type-IsBad absent absent true = refl
by_type-IsBad absent absent false = refl

by_violation-IsBad :
    (e : Option WireError) (t : Option (String × String)) (x : Option String) (b : Bool)
    → IsBad (by_violation e t x b)
by_violation-IsBad (some e) t x b = refl
by_violation-IsBad absent t x b = by_type-IsBad t x b

by_size-Judged :
    (floats : Floats) (mt : Option String) (f : DecodeFailure) (size : Option ℤ)
    → f.max_bytes ≡ size
    → Judged floats mt
        (err f)
        (err (by_size size f.wire_error f.type_error f.unknown_field f.is_eof))
by_size-Judged floats mt f (some limit) h =
    inr (inl (refl, (f, refl, λ e. absurd (ground (arith, e, h)))))
by_size-Judged floats mt f absent h =
    inr (
      inr (by_violation-IsBad f.wire_error f.type_error f.unknown_field f.is_eof, inl (f, refl, h)))

judge_decoded-Judged :
    (floats : Floats) (body : Decoded)
    → Judged floats (some "application/json") body (judge_decoded floats body)
unfolding decode_error
judge_decoded-Judged floats (err f) =
    by_size-Judged floats (some "application/json") f f.max_bytes refl
judge_decoded-Judged floats (ok wr) = elim (Option-cases (reject floats wr)) [
  | inl e ↦ rw e (refl, refl, (reject-IsRequest floats wr).0 e)
  | inr (r, e) ↦ rw e (
      inr (
        inr (
          reject-IsBad floats wr r e,
          inr (wr, refl, λ k. ground (arith, e, (reject-IsRequest floats wr).1 k)),
        )))
]

-- A body is accepted only as application/json that was decoded and that `reject` lets pass. A refusal is 415 for
-- another media type, 413 for a body over the limit, and 400 for one that cannot be read or that `reject` refuses.
pub decode_chat_request-Judged :
    (json : Json) (floats : Floats) (mt : Option String) (body : Result DecodeFailure RawRequest)
    → Judged floats mt (and_then body (read_fields json)) (decode_chat_request json floats mt body)
unfolding decode_chat_request require_json
decode_chat_request-Judged json floats absent body = inl (refl, λ h. absurd (ground (arith, h)))
decode_chat_request-Judged json floats (some mt) body =
    elim (Bool-cases (mt == "application/json")) [
      | inl e ↦
          let read : Decoded = and_then body (read_fields json) in
          rw e (
            subst (λ t. Judged floats (some t) read (judge_decoded floats read))
              (sym ((eq_iff mt "application/json").0 e)) (judge_decoded-Judged floats read))
      | inr e ↦ rw e (inl (refl, λ h. absurd (ground (arith, h, e, eq_iff mt "application/json"))))
    ]
