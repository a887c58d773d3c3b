-- ===== src/Config/Secrets.antt =====
-- The secret source: secretSourceWire.toDomain.
pub mod Reads
use llmgateway_go.Prelude.{
  ◌⊎◌, String, ◌==◌, List, [], ◌∷◌, ◌≡◌, refl, inl, inr, Bool, true, false, not, ◌&&◌, ◌||◌, All,
  Bool-cases, arith, if◌then◌else◌, ltb, length, subst, sym, ap,
}
use llmgateway_go.Prelude.Int.{ℤ, pos, ltz, lez, ◌<ℤ◌}
use llmgateway_go.Prelude.Maps.{insert, get_or, All-insert}
use llmgateway_go.Prelude.Sorted.{sort_entries}
use llmgateway_go.Prelude.Results.{Result, ok, err, and_then, and_then-ok, ok-injective}
use llmgateway_go.Config.{
  SecretSourceWire, SecretSource, Vault, ProviderSecret, ConfigError, secret_kind_unknown,
  secret_kind_required, secret_interval_not_positive, vault_incomplete, vault_unread,
  secret_path_required, secret_unrouted, secret_provider_interval, default_refresh_interval,
}

-- interval < 0 is refused, and 0 takes the default
abbrev pub is_zero : ℤ → Bool
is_zero interval = lez interval (pos 0) && lez (pos 0) interval

abbrev pub or_default : ℤ → ℤ → ℤ
or_default default interval = if is_zero interval then default else interval

-- defaultVaultAuthPath
unfoldable pub or_mount : String → String
or_mount path = if path == "" then "auth/kubernetes" else path

-- The switch on the kind and the vault block.
unfoldable pub vault_of : String → Vault → Result ConfigError Vault
vault_of kind vault =
    if kind == "vault"
    then if vault.address == "" || vault.role == ""
      then err vault_incomplete
      else ok (record vault { auth_path = or_mount vault.auth_path })
    else if vault.address == "" && vault.role == "" && vault.auth_path == ""
    then ok vault
    else err (vault_unread kind)

module _ (routed : List (String × Bool)) (block_interval : ℤ) where
  unfoldable pub secret_of : String → ProviderSecret → Result ConfigError ProviderSecret
  secret_of name p =
      if p.path == ""
      then err (secret_path_required name)
      else if not (get_or name false routed)
      then err (secret_unrouted name)
      else if ltz p.refresh_interval (pos 0)
      then err (secret_provider_interval name)
      else ok (record p { refresh_interval = or_default block_interval p.refresh_interval })

  -- The loop over the sorted names.
  unfoldable pub secrets_of :
      List (String × ProviderSecret)
      → List (String × ProviderSecret)
      → Result ConfigError (List (String × ProviderSecret))
  secrets_of [] secrets = ok secrets
  secrets_of ((name, p) ∷ rest) secrets =
      and_then (secret_of name p) (λ s. secrets_of rest (insert name s secrets))

abbrev pub block_interval_of : ℤ → ℤ
block_interval_of interval = or_default default_refresh_interval interval

abbrev pub source_of :
    String → Vault → List (String × ProviderSecret) → Result ConfigError SecretSource
source_of kind vault secrets = ok (record { kind = kind; vault = vault; providers = secrets })

abbrev pub read_secrets :
    SecretSourceWire → List (String × Bool) → Vault → Result ConfigError SecretSource
read_secrets w routed vault =
    and_then
      (secrets_of routed (block_interval_of w.refresh_interval) (sort_entries w.providers) [])
      (source_of w.kind vault)

unfoldable pub secrets_to_domain :
    SecretSourceWire → List (String × Bool) → Result ConfigError SecretSource
secrets_to_domain w routed =
    if not (w.kind == "" || w.kind == "file" || w.kind == "vault")
    then err (secret_kind_unknown w.kind)
    else if w.kind == "" && ltb 0 (length w.providers)
    then err secret_kind_required
    else if ltz w.refresh_interval (pos 0)
    then err secret_interval_not_positive
    else and_then (vault_of w.kind w.vault) (read_secrets w routed)

-- ------------------------------------------------------------------ what was accepted

-- A secret that can be read: it has a path, a cadence, and a provider that some route names.
abbrev pub Usable : List (String × Bool) → String × ProviderSecret → Type 0
Usable routed e =
    ((e.1.path == "") ≡ false) × (pos 0 <ℤ e.1.refresh_interval) × (get_or e.0 false routed ≡ true)

-- The vault block is complete where it is read, and empty where it is not.
abbrev pub Whole : String → Vault → Type 0
Whole kind vault =
    (((kind == "vault") ≡ true)
      × ((vault.address == "") ≡ false)
      × ((vault.role == "") ≡ false)
      × ((vault.auth_path == "") ≡ false))
    ⊎ (((kind == "vault") ≡ false)
        × ((vault.address == "") ≡ true)
        × ((vault.role == "") ≡ true)
        × ((vault.auth_path == "") ≡ true))

or_mount-set : (path : String) → (or_mount path == "") ≡ false
unfolding or_mount
or_mount-set path = elim (Bool-cases (path == "")) [ inl e ↦ rw e refl | inr e ↦ rw e e ]

vault_of-Whole :
    (kind : String) (vault : Vault) {v : Vault} → vault_of kind vault ≡ ok v → Whole kind v
unfolding vault_of
vault_of-Whole kind vault h = ground (arith, or_mount-set vault.auth_path)

secret_of-Usable :
    (routed : List (String × Bool)) (interval : ℤ) (name : String) (p : ProviderSecret)
    {s : ProviderSecret}
    → pos 0 <ℤ interval
    → secret_of routed interval name p ≡ ok s
    → Usable routed (name, s)
unfolding secret_of
secret_of-Usable routed interval name p {s} i h = ground arith

secrets_of-Usable :
    (routed : List (String × Bool)) (interval : ℤ)
    (entries secrets : List (String × ProviderSecret)) {result : List (String × ProviderSecret)}
    → pos 0 <ℤ interval
    → All (Usable routed) secrets
    → secrets_of routed interval entries secrets ≡ ok result
    → All (Usable routed) result
unfolding secrets_of
secrets_of-Usable routed interval [] secrets i h e = subst (All (Usable routed)) (ok-injective e) h
secrets_of-Usable routed interval ((name, p) ∷ rest) secrets i h e =
    let (s, e', f) = and_then-ok (secret_of routed interval name p) _ e in
    secrets_of-Usable routed interval rest (insert name s secrets) i
      (All-insert (Usable routed) name s secrets (secret_of-Usable routed interval name p i e') h) f

pub record Accepted (routed : List (String × Bool)) (s : SecretSource) : Type 0 where
  pub kind_known : (s.kind == "" || s.kind == "file" || s.kind == "vault") ≡ true
  pub vault_whole : Whole s.kind s.vault
  pub secrets_usable : All (Usable routed) s.providers

block_interval_of-positive : (i : ℤ) → ltz i (pos 0) ≡ false → pos 0 <ℤ block_interval_of i
block_interval_of-positive i h = ground arith

-- A secret source that is accepted is of a known kind, has a vault block exactly where the kind reads
-- one, and each of its secrets has a path, a positive cadence and a provider that some route names.
pub secrets_to_domain-Accepted :
    (w : SecretSourceWire) (routed : List (String × Bool)) {s : SecretSource}
    → secrets_to_domain w routed ≡ ok s
    → Accepted routed s
unfolding secrets_to_domain
secrets_to_domain-Accepted w routed {s} h =
    let k : (w.kind == "" || w.kind == "file" || w.kind == "vault") ≡ true = ground arith in
    let i : ltz w.refresh_interval (pos 0) ≡ false = ground arith in
    let h' : and_then (vault_of w.kind w.vault) (read_secrets w routed) ≡ ok s = ground arith in
    let (v, ev, f) = and_then-ok (vault_of w.kind w.vault) (read_secrets w routed) h' in
    let (m, em, g) = and_then-ok _ (source_of w.kind v) f in
    subst (Accepted routed) (ok-injective g) (record {
      kind_known = k;
      vault_whole = vault_of-Whole w.kind w.vault ev;
      secrets_usable =
          secrets_of-Usable routed (block_interval_of w.refresh_interval) (sort_entries w.providers)
            [] (block_interval_of-positive w.refresh_interval i) tt em;
    })

nothing_read :
    (routed : List (String × Bool)) (interval : ℤ) (ps : List (String × ProviderSecret))
    {m : List (String × ProviderSecret)}
    → ltb 0 (length ps) ≡ false
    → secrets_of routed interval (sort_entries ps) [] ≡ ok m
    → m ≡ []
unfolding secrets_of sort_entries
nothing_read routed interval [] h e = sym (ok-injective e)
nothing_read routed interval (x ∷ xs) h e = absurd (ground (arith, h))

-- A secret source that names no kind has no provider.
pub secrets_to_domain-kindless :
    (w : SecretSourceWire) (routed : List (String × Bool)) {s : SecretSource}
    → secrets_to_domain w routed ≡ ok s
    → (s.kind == "") ≡ true
    → s.providers ≡ []
unfolding secrets_to_domain
secrets_to_domain-kindless w routed {s} h k =
    let h' : and_then (vault_of w.kind w.vault) (read_secrets w routed) ≡ ok s = ground arith in
    let (v, ev, f) = and_then-ok (vault_of w.kind w.vault) (read_secrets w routed) h' in
    let (m, em, g) = and_then-ok _ (source_of w.kind v) f in
    let same : w.kind ≡ s.kind = ap (λ x. x.kind) (ok-injective g) in
    let k' : (w.kind == "") ≡ true = rw same k in
    let none_there : ltb 0 (length w.providers) ≡ false = ground (arith, k') in
    rw (← ap (λ x. x.providers) (ok-injective g))
      (nothing_read routed (block_interval_of w.refresh_interval) w.providers none_there em)
