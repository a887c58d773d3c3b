-- ===== src/ProviderKeys/Fetched.antt =====
-- internal/providerkeys/vault.go: Fetch against a description of the conversations with Vault that are
-- meant to happen.
use Prim.Native.String.{◌++◌ as ◌with◌}
use mathlib.Core.List.{append_assoc}
use llmgateway_go.Prelude.{
  ℕ, String, ◌==◌, eq_iff, not, ◌≡◌, ◌≢◌, ◌⊎◌, inl, inr, refl, sym, ◌∙◌, List, [], ◌∷◌, ◌++◌, ap,
  subst, none, some, true, false, Bool-cases, if◌then◌else◌,
}
use llmgateway_go.Prelude.Results.{Result, ok, err}
use llmgateway_go.Prelude.Texts.{trim_prefix}
use llmgateway_go.ProviderKeys.Vault.{
  VaultError, Host, Act, login, read, Session, credential_of, noted, kept, read_secret, read_at,
  with_account, reauthenticate, current_token, read_again, after_read, is_rejected, with_token,
  fetch,
}

abbrev pub Fails : Result VaultError String → Type 0
Fails (ok k) = ⊥
Fails (err e) = Unit

-- One last read, with the token: its credential is the answer.
abbrev pub IsLast : String → List Act → Result VaultError String → Type 0
IsLast t (read u status k ∷ []) r = (u ≡ t) × (credential_of r ≡ k)
IsLast t _ r = ⊥

-- After a rejected token: one login, and one last read with the new token. The token kept is the new one.
abbrev pub IsRetry : String → List Act → Result VaultError String → String → Type 0
IsRetry t (login none ∷ []) r t' = Fails r × (t' ≡ t)
IsRetry t (login (some new) ∷ rest) r t' = IsLast new rest r × (t' ≡ new)
IsRetry t _ r t' = ⊥

-- A read with a token, which ends the fetch unless Vault rejected the token.
abbrev pub IsReading : String → List Act → Result VaultError String → String → Type 0
IsReading t (read u status k ∷ rest) r t' =
    (u ≡ t)
    × (((is_rejected status ≡ true) × (k ≡ none) × IsRetry t rest r t')
        ⊎ (((k ≢ none) ⊎ (is_rejected status ≡ false))
            × ((rest ≡ []) × (credential_of r ≡ k) × (t' ≡ t))))
IsReading t _ r t' = ⊥

-- The first fetch logs in before it reads.
abbrev pub IsFirst : List Act → Result VaultError String → String → Type 0
IsFirst (login none ∷ []) r t' = Fails r × (t' ≡ "")
IsFirst (login (some t) ∷ rest) r t' = IsReading t rest r t'
IsFirst _ r t' = ⊥

abbrev pub IsConversation : String → List Act → Result VaultError String → String → Type 0
IsConversation held acts r t' =
    (((held == "") ≡ false) × IsReading held acts r t') ⊎ ((held ≡ "") × IsFirst acts r t')

-- What was done is of a kind.
abbrev pub Shown :
    {W : Type 0}
    → (List Act → Result VaultError String → String → Type 0)
    → Session W
    → Result VaultError String × Session W
    → Type 0
Shown P s (r, s') = (acts : List Act) × (s'.acts ≡ s.acts ++ acts) × P acts r s'.vault.token

some_none : {k : String} → some k ≢ none
some_none e = subst (λ o. elim o [ none ↦ ⊥ | some k ↦ Unit ]) e tt

-- One act more in front of what was done.
after_act :
    {W : Type 0} (P Q : List Act → Result VaultError String → String → Type 0) (a : Act)
    (s s' : Session W) (p : Result VaultError String × Session W)
    → s'.acts ≡ s.acts ++ a ∷ []
    → ((acts : List Act) (r : Result VaultError String) (t : String)
        → P acts r t
        → Q (a ∷ acts) r t)
    → Shown P s' p
    → Shown Q s p
after_act P Q a s s' (r, s'') h f (acts, e, x) = (
  a ∷ acts,
  e ∙ ap (λ l. l ++ acts) h ∙ append_assoc s.acts (a ∷ []) acts,
  f acts r s''.vault.token x,
)

module _ {W : Type 0} (host : Host W) (path : String) where
  read_again-IsRetry :
      (t : String) (s : Session W) (p : Result VaultError String × W)
      → s.vault.token ≡ t
      → Shown (IsRetry t) s (read_again host path (kept s p))
  unfolding read_secret
  read_again-IsRetry t s (err e, w) h = (login none ∷ [], refl, (tt, h))
  read_again-IsRetry t s (ok new, w) h =
      after_act (λ acts r t'. IsLast new acts r × (t' ≡ new)) (IsRetry t) (login (some new)) s
        (kept s (ok new, w)).1 (read_again host path (kept s (ok new, w))) refl (λ acts r t' x. x)
        (_, refl, ((refl, refl), refl))

  after_read-IsReading :
      (t : String) (s : Session W) (p : (Result VaultError String × ℕ) × W)
      → s.vault.token ≡ t
      → Shown (IsReading t) s (after_read host path (noted t s p))
  unfolding read_secret reauthenticate
  after_read-IsReading t s ((ok k, status), w) h =
      (read t status (some k) ∷ [], refl, (refl, inr (inl some_none, (refl, refl, h))))
  after_read-IsReading t s ((err e, status), w) h =
      let s' = (noted t s ((err e, status), w)).1 in
      elim (Bool-cases (is_rejected status)) [
        | inl is_yes ↦
            subst
              (λ b.
                Shown (IsReading t) s
                  (if b then read_again host path (reauthenticate host s') else (err e, s')))
              (sym is_yes)
              (after_act (IsRetry t) (IsReading t) (read t status none) s s'
                (read_again host path (reauthenticate host s')) refl
                (λ acts r t' x. (refl, inl (is_yes, refl, x)))
                (read_again-IsRetry t s'
                  (with_account host s'.vault (host.read_file s'.vault.token_path w)) h))
        | inr is_no ↦
            subst
              (λ b.
                Shown (IsReading t) s
                  (if b then read_again host path (reauthenticate host s') else (err e, s')))
              (sym is_no) (read t status none ∷ [], refl, (refl, inr (inr is_no, (refl, refl, h))))
      ]

  read_secret-IsReading :
      (t : String) (s : Session W)
      → s.vault.token ≡ t
      → Shown (IsReading t) s (after_read host path (read_secret host path t s))
  unfolding read_secret reauthenticate
  read_secret-IsReading t s h =
      let url : String = s.vault.address with ("/v1/" with trim_prefix b'/' path) in
      after_read-IsReading t s
        (read_at host url (record { url = url; headers = ("X-Vault-Token", t) ∷ []; body = "" })
          s.world)
        h

  -- The first fetch: the login's answer decides.
  with_token-IsFirst :
      (s : Session W) (p : Result VaultError String × W)
      → s.vault.token ≡ ""
      → Shown IsFirst s (with_token host path (kept s p))
  unfolding read_secret reauthenticate
  with_token-IsFirst s (err e, w) h = (login none ∷ [], refl, (tt, h))
  with_token-IsFirst s (ok t, w) h =
      let s' = (kept s (ok t, w)).1 in
      after_act (IsReading t) IsFirst (login (some t)) s s'
        (with_token host path (kept s (ok t, w))) refl (λ acts r t' x. x)
        (read_secret-IsReading t s' refl)

  -- A fetch of a credential is one of the conversations meant: it logs in first exactly where no token
  -- is held, reads once, and after a status of 401 or 403 with no credential logs in once more and reads
  -- a last time; every read uses the token that the login before it gave, or the one held; the answer is
  -- the last read's credential, or an error where a login failed or that read gave none; and the token
  -- held afterwards is the one of the last login that gave one.
  pub fetch-IsConversation :
      (s : Session W) → Shown (IsConversation s.vault.token) s (fetch host path s)
  unfolding fetch current_token read_secret reauthenticate
  fetch-IsConversation s = elim (Bool-cases (s.vault.token == "")) [
    | inl is_none ↦
        subst
          (λ b.
            Shown (IsConversation s.vault.token) s (
              with_token host path
                (if not b then (ok s.vault.token, s) else reauthenticate host s)))
          (sym is_none)
          (let no_token : s.vault.token ≡ "" = (eq_iff s.vault.token "").0 is_none in
            let (acts, e, x) =
              with_token-IsFirst s
                (with_account host s.vault (host.read_file s.vault.token_path s.world)) no_token in
            (acts, e, inr (no_token, x)))
    | inr is_held ↦
        subst
          (λ b.
            Shown (IsConversation s.vault.token) s (
              with_token host path
                (if not b then (ok s.vault.token, s) else reauthenticate host s)))
          (sym is_held)
          (let (acts, e, x) = read_secret-IsReading s.vault.token s refl in
            (acts, e, inl (is_held, x)))
  ]
