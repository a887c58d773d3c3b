-- ===== src/Metrics/Tally.antt =====
-- The counters, against the list of events that were reported.
use llmgateway_go.Prelude.{
  ℕ, ◌+◌, ◌<◌, ◌^◌, String, List, [], ◌∷◌, ◌≡◌, refl, ◌∙◌, ap, Option, none, some, true, arith,
  Bool-cases, inl, inr, if◌then◌else◌,
}
use llmgateway_go.Prelude.Int.{ℤ, pos, negsuc, pos_part, ltz, wrap64_id, pos_add}
use llmgateway_go.Gateway.Ports.{
  UsageEvent, completion, rejection, rate_limiter_fail_open, double_spend_risk, client_disconnect,
}
use llmgateway_go.Metrics.Keyed.{Comparable, add, get, has, has-add, get-add}
use llmgateway_go.Metrics.Recorder.{
  UsageRecorder, AppCode, app_code, app_code_comparable, text_comparable, add_estimate, count_event,
  record_usage, record_all,
}

-- What an event credits to a counter: a key and an amount, or nothing.
abbrev pub Credit : Type 0 → Type 0
Credit K = UsageEvent → Option (K × ℕ)

abbrev pub completions_credit : Credit String
completions_credit (completion app mp usage latency failed_over) = some (app, 1)
completions_credit _ = none

abbrev pub rejections_credit : Credit AppCode
rejections_credit (rejection app code) = some (app_code app code, 1)
rejections_credit _ = none

abbrev pub estimate : String → ℤ → Option (String × ℕ)
estimate app tokens = if ltz (pos 0) tokens then some (app, pos_part tokens) else none

abbrev pub double_spend_credit : Credit String
double_spend_credit (double_spend_risk app mp tokens) = estimate app tokens
double_spend_credit _ = none

abbrev pub disconnect_credit : Credit String
disconnect_credit (client_disconnect app mp tokens) = estimate app tokens
disconnect_credit _ = none

module _ {K : Type 0} ⦃c : Comparable K⦄ where
  abbrev amount_for : K → Option (K × ℕ) → ℕ
  amount_for key none = 0
  amount_for key (some (k, n)) = if c.same k key then n else 0

  -- The sum of the amounts that a list of events credits to a key.
  abbrev pub amount : Credit K → K → List UsageEvent → ℕ
  amount credit key [] = 0
  amount credit key (e ∷ rest) = amount_for key (credit e) + amount credit key rest

  abbrev pub apply : Option (K × ℕ) → List (K × ℤ) → List (K × ℤ)
  apply none m = m
  apply (some (k, n)) m = add k (pos n) m

  abbrev pub apply_all : Credit K → List UsageEvent → List (K × ℤ) → List (K × ℤ)
  apply_all credit [] m = m
  apply_all credit (e ∷ rest) m = apply_all credit rest (apply (credit e) m)

  get-apply :
      (o : Option (K × ℕ)) (key : K) (m : List (K × ℤ)) (v : ℕ)
      → has key m ≡ true
      → get key m ≡ pos v
      → v + amount_for key o < 2 ^ 63
      → (has key (apply o m) ≡ true) × (get key (apply o m) ≡ pos (v + amount_for key o))
  get-apply none key m v h g b = (h, rw g (ap pos (omega arith)))
  get-apply (some (k, n)) key m v h g b = (
    rw (has-add k key (pos n) m) h,
    elim (Bool-cases (c.same k key)) [
      | inl s ↦
          let small : v + n < 2 ^ 63 = ground arith in
          rw (get-add k key (pos n) m, s, h, g, pos_add v n, wrap64_id (v + n) small)
      | inr s ↦ rw (get-add k key (pos n) m, s, g) (ap pos (omega arith))
    ],
  )

  pub get-apply_all :
      (credit : Credit K) (events : List UsageEvent) (key : K) (m : List (K × ℤ)) (v : ℕ)
      → has key m ≡ true
      → get key m ≡ pos v
      → v + amount credit key events < 2 ^ 63
      → get key (apply_all credit events m) ≡ pos (v + amount credit key events)
  get-apply_all credit [] key m v h g b = g ∙ ap pos (omega arith)
  get-apply_all credit (e ∷ rest) key m v h g b =
      let (h', g') = get-apply (credit e) key m v h g (omega arith) in
      get-apply_all credit rest key (apply (credit e) m) (v + amount_for key (credit e)) h' g'
        (omega arith)
      ∙ ap pos (omega arith)

pos-pos_part : (z : ℤ) → ltz (pos 0) z ≡ true → pos (pos_part z) ≡ z
pos-pos_part (pos n) h = refl
pos-pos_part (negsuc n) h = absurd (ground arith)

add_estimate-apply :
    (app : String) (tokens : ℤ) (m : List (String × ℤ))
    → add_estimate m app tokens ≡ apply (estimate app tokens) m
unfolding add_estimate
add_estimate-apply app tokens m = elim (Bool-cases (ltz (pos 0) tokens)) [
  | inl e ↦ rw e (rw (pos-pos_part tokens e))
  | inr e ↦ rw e
]

-- The counters of a recorder, credited with some events.
pub record Credited (events : List UsageEvent) (r r' : UsageRecorder) : Type 0 where
  pub completions : r'.completions ≡ apply_all completions_credit events r.completions
  pub rejections : r'.rejections ≡ apply_all rejections_credit events r.rejections
  pub double_spend_tokens :
      r'.double_spend_tokens ≡ apply_all double_spend_credit events r.double_spend_tokens
  pub client_disconnect_tokens :
      r'.client_disconnect_tokens ≡ apply_all disconnect_credit events r.client_disconnect_tokens

count_event-Credited : (e : UsageEvent) (r : UsageRecorder) → Credited (e ∷ []) r (count_event e r)
unfolding count_event
count_event-Credited (completion app mp usage latency failed_over) r = record {
  completions = refl;
  rejections = refl;
  double_spend_tokens = refl;
  client_disconnect_tokens = refl;
}
count_event-Credited (rejection app code) r = record {
  completions = refl;
  rejections = refl;
  double_spend_tokens = refl;
  client_disconnect_tokens = refl;
}
count_event-Credited (rate_limiter_fail_open app) r = record {
  completions = refl;
  rejections = refl;
  double_spend_tokens = refl;
  client_disconnect_tokens = refl;
}
count_event-Credited (double_spend_risk app mp tokens) r = record {
  completions = refl;
  rejections = refl;
  double_spend_tokens = add_estimate-apply app tokens r.double_spend_tokens;
  client_disconnect_tokens = refl;
}
count_event-Credited (client_disconnect app mp tokens) r = record {
  completions = refl;
  rejections = refl;
  double_spend_tokens = refl;
  client_disconnect_tokens = add_estimate-apply app tokens r.client_disconnect_tokens;
}

-- What `next` was called with, in order.
abbrev pub forward : {W : Type 0} → (UsageEvent → W → W) → List UsageEvent → W → W
forward next [] w = w
forward next (e ∷ rest) w = forward next rest (next e w)

module _ {W : Type 0} (next : UsageEvent → W → W) where
  pub record_all-Credited :
      (events : List UsageEvent) (r : UsageRecorder) (w : W)
      → Credited events r (record_all next events (r, w)).0
        × ((record_all next events (r, w)).1 ≡ forward next events w)
  unfolding record_all record_usage
  record_all-Credited [] r w = (
    record {
      completions = refl;
      rejections = refl;
      double_spend_tokens = refl;
      client_disconnect_tokens = refl;
    },
    refl,
  )
  record_all-Credited (e ∷ rest) r w =
      let s = count_event-Credited e r in
      let (c, f) = record_all-Credited rest (count_event e r) (next e w) in
      (
        record {
          completions = c.completions ∙ ap (apply_all completions_credit rest) s.completions;
          rejections = c.rejections ∙ ap (apply_all rejections_credit rest) s.rejections;
          double_spend_tokens =
              c.double_spend_tokens ∙ ap (apply_all double_spend_credit rest) s.double_spend_tokens;
          client_disconnect_tokens =
              c.client_disconnect_tokens
              ∙ ap (apply_all disconnect_credit rest) s.client_disconnect_tokens;
        },
        f,
      )
