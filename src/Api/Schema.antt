-- ===== src/Api/Schema.antt =====
-- internal/api/openapi.go: what `reject` accepts. It checks a part of the schema in openapi.yaml: that the model is
-- named, that there are messages and that max_tokens is positive is for the core to check, and that there are
-- no more than four stop sequences and what type a call has is not checked.
use llmgateway_go.Prelude.{
  ℕ, ◌+◌, ◌≡◌, ◌⊎◌, ◌↔◌, refl, ap, sym, subst, String, ◌==◌, eq_iff, List, [], ◌∷◌, Option,
  none as absent, some, Bool, true, false, ◌&&◌, not, arith, Bool-cases, inl, inr, if◌then◌else◌,
  All,
}
use llmgateway_go.Prelude.Int.{ℤ, pos, negsuc}
use llmgateway_go.Api.{ApiError}
use llmgateway_go.Api.Wire.{
  ChatRequestWire, MessageWire, ToolWire, Floats, is_stream, is_several, is_outside, is_role,
  is_absent, has_calls, reject_message, reject_tool, or_else, first_refusal, reject,
}

abbrev pub IsRole : String → Type 0
IsRole r = (r ≡ "system") ⊎ ((r ≡ "user") ⊎ ((r ≡ "assistant") ⊎ (r ≡ "tool")))

is_role-IsRole : (r : String) → (is_role r ≡ true) ↔ IsRole r
is_role-IsRole r = (
  λ h. elim (Bool-cases (r == "system")) [
    | inl e ↦ inl ((eq_iff r "system").0 e)
    | inr s ↦ elim (Bool-cases (r == "user")) [
      | inl e ↦ inr (inl ((eq_iff r "user").0 e))
      | inr u ↦ elim (Bool-cases (r == "assistant")) [
        | inl e ↦ inr (inr (inl ((eq_iff r "assistant").0 e)))
        | inr a ↦ inr (inr (inr ((eq_iff r "tool").0 (ground (arith, h, s, u, a)))))
      ]
    ]
  ],
  λ k. elim k [
    | inl e ↦ ground (arith, (eq_iff r "system").1 e)
    | inr (inl e) ↦ ground (arith, (eq_iff r "user").1 e)
    | inr (inr (inl e)) ↦ ground (arith, (eq_iff r "assistant").1 e)
    | inr (inr (inr e)) ↦ ground (arith, (eq_iff r "tool").1 e)
  ],
)

-- What a message must be: its role is one of four; it has a text unless it is an assistant's with calls;
-- a tool's names the call that it answers; and only an assistant's has calls.
pub record IsTurn (m : MessageWire) : Type 0 where
  pub known : IsRole m.role
  pub spoken : (is_absent m.content ≡ false) ⊎ ((m.role ≡ "assistant") × (has_calls m ≡ true))
  pub answering : (m.role ≡ "tool") → (m.tool_call_id == "") ≡ false
  pub calling : (has_calls m ≡ true) → m.role ≡ "assistant"

reject_message-IsTurn : (i : ℕ) (m : MessageWire) → reject_message i m ≡ absent → IsTurn m
reject_message-IsTurn i m h = record {
  known = (is_role-IsRole m.role).0 (ground (arith, h));
  spoken = elim (Bool-cases (is_absent m.content)) [
    | inl e ↦ inr ((eq_iff m.role "assistant").0 (ground (arith, h, e)), ground (arith, h, e))
    | inr e ↦ inl e
  ];
  answering = λ t. ground (arith, h, (eq_iff m.role "tool").1 t);
  calling = λ c. (eq_iff m.role "assistant").0 (ground (arith, h, c));
}

IsTurn-reject_message : (i : ℕ) (m : MessageWire) → IsTurn m → reject_message i m ≡ absent
IsTurn-reject_message i m t =
    let spoken : (is_absent m.content && not (m.role == "assistant" && has_calls m)) ≡ false =
      elim t.spoken [
        | inl e ↦ ground (arith, e)
        | inr (a, c) ↦ ground (arith, (eq_iff m.role "assistant").1 a, c)
      ] in
    let answering : (m.role == "tool" && m.tool_call_id == "") ≡ false =
      elim (Bool-cases (m.role == "tool")) [
        | inl e ↦ ground (arith, e, t.answering ((eq_iff m.role "tool").0 e))
        | inr e ↦ ground (arith, e)
      ] in
    let calling : (not (m.role == "assistant") && has_calls m) ≡ false =
      elim (Bool-cases (has_calls m)) [
        | inl e ↦ ground (arith, e, (eq_iff m.role "assistant").1 (t.calling e))
        | inr e ↦ ground (arith, e)
      ] in
    ground (arith, (is_role-IsRole m.role).1 t.known, spoken, answering, calling)

-- What a tool must be.
abbrev pub IsFunction : ToolWire → Type 0
IsFunction t = (t.type ≡ "function") × ((t.function.name == "") ≡ false)

reject_tool-IsFunction : (i : ℕ) (t : ToolWire) → (reject_tool i t ≡ absent) ↔ IsFunction t
reject_tool-IsFunction i t = (
  λ h. ((eq_iff t.type "function").0 (ground (arith, h)), ground (arith, h)),
  λ h. ground (arith, (eq_iff t.type "function").1 h.0, h.1),
)

or_else-absent : (a b : Option ApiError) → (or_else a b ≡ absent) ↔ ((a ≡ absent) × (b ≡ absent))
or_else-absent absent b = (λ h. (refl, h), λ h. h.1)
or_else-absent (some e) b = (λ h. absurd (ground (arith, h)), λ h. absurd (ground (arith, h.0)))

first_refusal-All :
    {A : Type 0} (P : A → Type 0) (check : ℕ → A → Option ApiError)
    → ((i : ℕ) (x : A) → (check i x ≡ absent) ↔ P x)
    → (i : ℕ) (xs : List A) → (first_refusal check i xs ≡ absent) ↔ All P xs
unfolding first_refusal
first_refusal-All P check d i [] = (λ h. tt, λ h. refl)
first_refusal-All P check d i (x ∷ rest) =
    let later = first_refusal-All P check d (i + 1) rest in
    let both = or_else-absent (check i x) (first_refusal check (i + 1) rest) in
    (
      λ h. let (a, b) = both.0 h in ((d i x).0 a, later.0 b),
      λ h. both.1 ((d i x).1 h.0, later.1 h.1),
    )

guarded :
    (b : Bool) (e : ApiError) (rest : Option ApiError)
    → ((if b then some e else rest) ≡ absent) ↔ ((b ≡ false) × (rest ≡ absent))
guarded true e rest = (λ h. absurd (ground (arith, h)), λ h. absurd (ground (arith, h.0)))
guarded false e rest = (λ h. (refl, h), λ h. h.1)

-- What a request must be: no stream is asked for, nor more or fewer answers than one; and a number that is
-- given is not below zero and not above its limit.
abbrev pub IsWhole : Option Bool → Type 0
IsWhole (some true) = ⊥
IsWhole _ = Unit

abbrev pub IsSingle : Option ℤ → Type 0
IsSingle absent = Unit
IsSingle (some n) = n ≡ pos 1

abbrev pub IsWithin : Floats → ℕ → Option String → Type 0
IsWithin floats limit absent = Unit
IsWithin floats limit (some x) = (floats.is_below x 0 ≡ false) × (floats.is_above x limit ≡ false)

is_stream-IsWhole : (o : Option Bool) → (is_stream o ≡ false) ↔ IsWhole o
is_stream-IsWhole absent = (λ h. tt, λ k. refl)
is_stream-IsWhole (some true) = (λ h. absurd (ground (arith, h)), λ k. absurd k)
is_stream-IsWhole (some false) = (λ h. tt, λ k. refl)

is_several-IsSingle : (o : Option ℤ) → (is_several o ≡ false) ↔ IsSingle o
is_several-IsSingle absent = (λ h. tt, λ k. refl)
is_several-IsSingle (some (pos n)) =
    (λ h. ap pos (ground (arith, h)), λ k. subst (λ z. is_several (some z) ≡ false) (sym k) refl)
is_several-IsSingle (some (negsuc n)) =
    (λ h. absurd (ground (arith, h)), λ k. absurd (ground (arith, k)))

is_outside-IsWithin :
    (floats : Floats) (limit : ℕ) (o : Option String)
    → (is_outside floats limit o ≡ false) ↔ IsWithin floats limit o
is_outside-IsWithin floats limit absent = (λ h. tt, λ k. refl)
is_outside-IsWithin floats limit (some x) =
    (λ h. (ground (arith, h), ground (arith, h)), λ k. ground (arith, k.0, k.1))

pub record IsRequest (floats : Floats) (wr : ChatRequestWire) : Type 0 where
  pub whole : IsWhole wr.stream
  pub single : IsSingle wr.n
  pub temperature : IsWithin floats 2 wr.temperature
  pub top_p : IsWithin floats 1 wr.top_p
  pub turns : All IsTurn wr.messages
  pub functions : All IsFunction wr.tools

turns_iff : (ms : List MessageWire) → (first_refusal reject_message 0 ms ≡ absent) ↔ All IsTurn ms
turns_iff ms =
    first_refusal-All IsTurn reject_message
      (λ i m. (reject_message-IsTurn i m, IsTurn-reject_message i m)) 0 ms

functions_iff : (ts : List ToolWire) → (first_refusal reject_tool 0 ts ≡ absent) ↔ All IsFunction ts
functions_iff ts = first_refusal-All IsFunction reject_tool reject_tool-IsFunction 0 ts

-- The edge refuses a request exactly unless it asks for no stream and for one choice if for any number, its
-- temperature is from 0 to 2 and its top_p from 0 to 1 where given, each message has one of four roles, a content
-- unless it is an assistant's with calls, the id of its call where it is a tool's and calls only where it is an
-- assistant's, and each tool is a function with a name.
pub reject-IsRequest :
    (floats : Floats) (wr : ChatRequestWire) → (reject floats wr ≡ absent) ↔ IsRequest floats wr
unfolding reject
reject-IsRequest floats wr =
    let both =
      or_else-absent (first_refusal reject_message 0 wr.messages)
        (first_refusal reject_tool 0 wr.tools) in
    (
      λ h.
          let (a, h1) = (guarded (is_stream wr.stream) _ _).0 h in
          let (b, h2) = (guarded (is_several wr.n) _ _).0 h1 in
          let (c, h3) = (guarded (is_outside floats 2 wr.temperature) _ _).0 h2 in
          let (d, h4) = (guarded (is_outside floats 1 wr.top_p) _ _).0 h3 in
          let (m, t) = both.0 h4 in
          record {
            whole = (is_stream-IsWhole wr.stream).0 a;
            single = (is_several-IsSingle wr.n).0 b;
            temperature = (is_outside-IsWithin floats 2 wr.temperature).0 c;
            top_p = (is_outside-IsWithin floats 1 wr.top_p).0 d;
            turns = (turns_iff wr.messages).0 m;
            functions = (functions_iff wr.tools).0 t;
          },
      λ k. (guarded _ _ _).1 (
        (is_stream-IsWhole wr.stream).1 k.whole,
        (guarded _ _ _).1 (
          (is_several-IsSingle wr.n).1 k.single,
          (guarded _ _ _).1 (
            (is_outside-IsWithin floats 2 wr.temperature).1 k.temperature,
            (guarded _ _ _).1 (
              (is_outside-IsWithin floats 1 wr.top_p).1 k.top_p,
              both.1 ((turns_iff wr.messages).1 k.turns, (functions_iff wr.tools).1 k.functions),
            ),
          ),
        ),
      ),
    )
