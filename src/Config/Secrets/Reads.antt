-- ===== src/Config/Secrets/Reads.antt =====
-- secretSourceWire.toDomain: the secrets that it reads, beside those of the file.
use llmgateway_go.Prelude.{
  String, List, [], ◌∷◌, ◌≡◌, sym, ap, ◌∙◌, subst, some, Bool, All, arith, eq_iff,
}
use llmgateway_go.Prelude.Int.{ℤ}
use llmgateway_go.Prelude.Maps.{lookup, insert, lookup-insert}
use llmgateway_go.Prelude.Sorted.{
  IsOther, IsMap, sort_entries, sort_entries-IsMap, All-sort_entries_of,
}
use llmgateway_go.Prelude.Results.{ok, and_then, and_then-ok, ok-injective}
use llmgateway_go.Config.{
  SecretSourceWire, SecretSource, ProviderSecret, ConfigError, default_refresh_interval,
}
use llmgateway_go.Config.Secrets.{
  or_default, secret_of, secrets_of, vault_of, read_secrets, block_interval_of, source_of,
  secrets_to_domain,
}

-- The secret of a provider in the file, with the cadence that it or its block or the default has.
abbrev pub read_as : ℤ → ProviderSecret → ProviderSecret
read_as interval p = record p {
  refresh_interval = or_default (or_default default_refresh_interval interval) p.refresh_interval;
}

module _ (routed : List (String × Bool)) (interval : ℤ) where
  abbrev Reads : List (String × ProviderSecret) → String × ProviderSecret → Type 0
  Reads m e = lookup e.0 m ≡ some (read_as interval e.1)

  secret_of-read :
      (name : String) (p : ProviderSecret) {s : ProviderSecret}
      → secret_of routed (block_interval_of interval) name p ≡ ok s
      → s ≡ read_as interval p
  unfolding secret_of
  secret_of-read name p {s} h = sym (ok-injective {E = ConfigError} (ground (arith, h)))

  secrets_of-others :
      (name : String) (entries secrets : List (String × ProviderSecret))
      {m : List (String × ProviderSecret)}
      → All (IsOther name) entries
      → secrets_of routed (block_interval_of interval) entries secrets ≡ ok m
      → lookup name m ≡ lookup name secrets
  unfolding secrets_of
  secrets_of-others name [] secrets h e = ap (lookup name) (sym (ok-injective e))
  secrets_of-others name ((q, p) ∷ rest) secrets h e =
      let (s, a, f) = and_then-ok (secret_of routed (block_interval_of interval) q p) _ e in
      secrets_of-others name rest (insert q s secrets) h.1 f
      ∙ ground (arith, lookup-insert q name s secrets, h.0, eq_iff q name, eq_iff name q)

  secrets_of-Reads :
      (entries secrets : List (String × ProviderSecret)) {m : List (String × ProviderSecret)}
      → IsMap entries
      → secrets_of routed (block_interval_of interval) entries secrets ≡ ok m
      → All (Reads m) entries
  unfolding secrets_of
  secrets_of-Reads [] secrets h e = tt
  secrets_of-Reads ((q, p) ∷ rest) secrets h e =
      let (s, a, f) = and_then-ok (secret_of routed (block_interval_of interval) q p) _ e in
      (
        secrets_of-others q rest (insert q s secrets) h.0 f
            ∙ ground (arith, lookup-insert q q s secrets, eq_iff q q)
            ∙ ap some (secret_of-read q p a),
        secrets_of-Reads rest (insert q s secrets) h.1 f,
      )

pub secrets_to_domain-Reads :
    (w : SecretSourceWire) (routed : List (String × Bool)) {s : SecretSource}
    → IsMap w.providers
    → secrets_to_domain w routed ≡ ok s
    → All (λ e. lookup e.0 s.providers ≡ some (read_as w.refresh_interval e.1)) w.providers
unfolding secrets_to_domain
secrets_to_domain-Reads w routed {s} d h =
    let h' : and_then (vault_of w.kind w.vault) (read_secrets w routed) ≡ ok s = ground arith in
    let (v, ev, f) = and_then-ok (vault_of w.kind w.vault) (read_secrets w routed) h' in
    let (m, em, g) = and_then-ok _ (source_of w.kind v) f in
    subst
      (λ s. All (λ e. lookup e.0 s.providers ≡ some (read_as w.refresh_interval e.1)) w.providers)
      (ok-injective g)
      (All-sort_entries_of (λ e. lookup e.0 m ≡ some (read_as w.refresh_interval e.1)) w.providers
        (secrets_of-Reads routed w.refresh_interval (sort_entries w.providers) []
          (sort_entries-IsMap w.providers d) em))
