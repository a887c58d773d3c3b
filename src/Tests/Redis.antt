-- ===== src/Tests/Redis.antt =====
-- The limiters over a server that is written down: two maps, of the values and of the lifetimes.
use llmgateway_go.Prelude.{
  ℕ, ◌+◌, ◌-◌, ◌*◌, ◌<◌, ◌≤◌, String, ◌==◌, eq_iff, eq_refl, List, [], ◌∷◌, ◌≡◌, ◌≢◌, refl, Bool,
  true, false, ◌&&◌, eqb, leb, arith, if◌then◌else◌, Bool-cases, inl, inr,
}
use llmgateway_go.Prelude.Int.{ℤ, pos}
use llmgateway_go.Prelude.Maps.{lookup}
use llmgateway_go.Redis.Store.{Key, rps, tpm, Store, Documented, Reach, answered, lost_after}
use llmgateway_go.Redis.Limiter.{allow, increment}
use llmgateway_go.Redis.Admission.{Ask, admissions, losses, passes, admissions-Bounded}
use llmgateway_go.Redis.TokenLimiter.{check, settle, debit, token_key}
use llmgateway_go.Redis.Ceiling.{Busy, Steps, starts, ends, done, step, Steps-ceiling}

abbrev same : Key → Key → Bool
same (rps a m) (rps b n) = (a == b) && eqb m n
same (tpm a m) (tpm b n) = (a == b) && eqb m n
same (rps a m) (tpm b n) = false
same (tpm a m) (rps b n) = false

same_refl : (k : Key) → same k k ≡ true
same_refl (rps a m) = rw (eq_refl a) (ground arith)
same_refl (tpm a m) = rw (eq_refl a) (ground arith)

same→eq : (j k : Key) → same j k ≡ true → j ≡ k
same→eq (rps a m) (rps b n) h =
    let s = (eq_iff a b).0 (ground arith) in let e : m ≡ n = ground arith in rw (s, e)
same→eq (tpm a m) (tpm b n) h =
    let s = (eq_iff a b).0 (ground arith) in let e : m ≡ n = ground arith in rw (s, e)
same→eq (rps a m) (tpm b n) h = cc
same→eq (tpm a m) (rps b n) h = cc

not_same : (j k : Key) → j ≢ k → same j k ≡ false
not_same j k n = elim (Bool-cases (same j k)) [ inl e ↦ absurd (n (same→eq j k e)) | inr e ↦ e ]

abbrev Server : Type 0
Server = (Key → ℕ) × (Key → ℕ)

abbrev empty : Server
empty = (λ k. 0, λ k. 0)

abbrev server : Store Server
server = record {
  value = λ k w. w.0 k;
  left = λ k w. w.1 k;
  incr_by = λ k n w. (w.0 k + n, (λ j. if same j k then w.0 j + n else w.0 j, w.1));
  expire = λ k n w. (w.0, λ j. if same j k then n * 1_000_000_000 else w.1 j);
  wait = λ d w. (λ j. if leb (w.1 j) d then 0 else w.0 j, λ j. w.1 j - d);
}

server-Documented : Documented server
server-Documented = record {
  incr_by-result = λ k n w. refl;
  incr_by-value = λ k n w. rw (same_refl k);
  incr_by-other = λ k j n w h. rw (not_same j k h);
  incr_by-left = λ k j n w. refl;
  expire-value = λ k j n w. refl;
  expire-left = λ k n w. rw (same_refl k);
  expire-other = λ k j n w h. rw (not_same j k h);
  wait-value = λ k d w h. ground arith;
  wait-left = λ k d w. refl;
}

abbrev quotas : List (String × ℤ)
quotas = ("rag", pos 2) ∷ []

abbrev at : ℕ → String → Reach → Ask
at gap app reach = record { gap = gap; app = app; reach = reach }

abbrev asks : List Ask
asks =
    at 1 "rag" answered
    ∷ at 5 "agent" answered
    ∷ at 5 "rag" lost_after
    ∷ at 100_000_000 "rag" answered
    ∷ []

two_asked : admissions server quotas "rag" asks 0 empty ≡ 1
unfolding admissions allow increment lookup
two_asked = refl

admissions-Bounded_example :
    (admissions server quotas "rag" asks 0 empty ≤ 2)
    × (passes server quotas "rag" asks 0 empty ≤ 2 + losses server quotas "rag" asks 0 empty)
unfolding lookup
admissions-Bounded_example =
    admissions-Bounded server quotas "rag" server-Documented 2 refl (ground arith) asks 0 empty refl
      refl

abbrev counted : Server
counted = (allow server quotas "rag" 7 answered empty).1

abbrev idle : Busy Server
idle = record { now = 0; world = empty; running = 0 }

abbrev started : Busy Server
started = record { now = 0; world = empty; running = 1 }

abbrev finished : Busy Server
finished = record {
  now = 0;
  world = (settle server quotas "rag" (pos 30) 0 answered empty).1;
  running = 0;
}

one_request : Steps server quotas "rag" 2 30 idle finished
unfolding check lookup
one_request =
    step idle started finished (starts idle refl (ground arith))
      (step started finished finished (ends 0 0 30 empty answered (ground arith)) (done finished))

Steps-ceiling_example : server.value (token_key "rag" 0) finished.world < 2 + 30 * 2
unfolding lookup
Steps-ceiling_example =
    Steps-ceiling server quotas "rag" 2 30 server-Documented 2 refl (ground arith) one_request refl
      refl

spent : server.value (token_key "rag" 0) finished.world ≡ 30
unfolding settle debit lookup
spent = refl
