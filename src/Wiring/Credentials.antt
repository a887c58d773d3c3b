-- ===== src/Wiring/Credentials.antt =====
-- cmd/gateway/main.go: newFetcher and the cache of credentials, over a file that was accepted.
use llmgateway_go.Prelude.{
  String, ◌==◌, List, [], ◌∷◌, ◌≡◌, refl, sym, ap, subst, ◌∙◌, Option, none, some, Bool, true,
  false, All, All-map, not, ◌&&◌, ◌||◌, eqb, length, arith, Bool-cases, inl, inr,
}
use llmgateway_go.Prelude.Maps.{lookup, lookup-insert}
use llmgateway_go.Prelude.Sorted.{IsMap}
use llmgateway_go.Prelude.Results.{ok}
use llmgateway_go.Config.{Wire, Config, ProviderSecret, SecretSource, SecretSourceWire}
use llmgateway_go.Config.Load.{to_domain, to_domain-Parts}
use llmgateway_go.Config.Secrets.Reads.{read_as, secrets_to_domain-Reads}
use llmgateway_go.Config.Secrets.{
  secrets_to_domain-Accepted, secrets_to_domain-kindless, Usable, Whole,
}
use llmgateway_go.ProviderKeys.{Source, Cache, new_entry, fresh_entries}
use llmgateway_go.ProviderKeys.Vault.{new_vault}
use llmgateway_go.Wiring.{
  Fetcher, file, new_fetcher, key_source, entries_of, sources_of, pathless, is_nil, new_keys,
  credentials,
}

entry_of :
    (name : String) (ps : List (String × ProviderSecret)) {p : ProviderSecret}
    → lookup name ps ≡ some p
    → lookup name (fresh_entries (entries_of ps)) ≡ some (new_entry (key_source p))
unfolding lookup
entry_of name [] h = absurd (ground (arith, h))
entry_of name ((q, s) ∷ rest) {p} h =
    let m = fresh_entries (entries_of rest) in
    elim (Bool-cases (q == name)) [
      | inl same ↦
          lookup-insert q name (new_entry (key_source s)) m
          ∙ rw same (
              ap (λ o. elim o [ none ↦ none | some x ↦ some (new_entry (key_source x)) ])
                (rw same at h))
      | inr other ↦
          lookup-insert q name (new_entry (key_source s)) m
          ∙ rw other (entry_of name rest (rw other at h))
    ]

pathless-none :
    (routed : List (String × Bool)) (ps : List (String × ProviderSecret))
    → All (Usable routed) ps
    → pathless (entries_of ps) ≡ none
unfolding pathless
pathless-none routed [] h = refl
pathless-none routed ((q, s) ∷ rest) h = let p = h.0.0 in rw p (pathless-none routed rest h.1)

-- The fetcher that an accepted source gets: none only where it names no kind.
fetcher_of :
    (src : SecretSource)
    → Whole src.kind src.vault
    → (f : Option Fetcher) × (new_fetcher src ≡ ok f)
      × ((src.kind == "") ≡ false
          → (src.kind == "" || src.kind == "file" || src.kind == "vault") ≡ true
          → is_nil f ≡ false)
unfolding new_fetcher new_vault
fetcher_of src (inl (k, a, r, p)) = rw (k, a, r, p) (_, refl, λ n m. refl)
fetcher_of src (inr (k, a, r, p)) = elim (Bool-cases (src.kind == "file")) [
  | inl e ↦ rw (k, e) (some file, refl, λ n m. refl)
  | inr e ↦ rw (k, e) (none, refl, λ n m. absurd (ground (arith, n, m)))
]

-- A cache over the sources, where the paths are there and a fetcher is, if one is needed.
keys_of :
    (f : Option Fetcher) (sources : List (String × Source))
    → (is_nil f && not (eqb (length sources) 0)) ≡ false
    → pathless sources ≡ none
    → new_keys f sources ≡ ok (fresh_entries sources)
unfolding new_keys
keys_of f sources h p = rw (h, p) refl

-- The entry that a provider's secret in the file stands for.
abbrev pub Entered : SecretSourceWire → Cache → String × ProviderSecret → Type 0
Entered w c e = lookup e.0 c ≡ some (new_entry (key_source (read_as w.refresh_interval e.1)))

-- With a file that is accepted, whose secrets have each another provider, the cache of credentials is built,
-- and each provider that the file has a secret for has an entry with the path of that secret in the file
-- and its cadence there, or its block's, or the default, and no key yet.
pub credentials-built :
    (w : Wire) {cfg : Config}
    → IsMap w.secret_source.providers
    → to_domain w ≡ ok cfg
    → (c : Cache) × (credentials cfg.secret_source ≡ ok c)
      × All (Entered w.secret_source c) w.secret_source.providers
unfolding credentials
credentials-built w {cfg} d h =
    let p = to_domain-Parts w {cfg = cfg} h in
    let src = p.secrets in
    let a = secrets_to_domain-Accepted w.secret_source p.routed.names p.secrets_read in
    let (f, e, g) = fetcher_of src a.vault_whole in
    let needed : (is_nil f && not (eqb (length (sources_of src)) 0)) ≡ false =
      elim (Bool-cases (src.kind == "")) [
        | inl k ↦
            subst (λ ps. (is_nil f && not (eqb (length (entries_of ps)) 0)) ≡ false)
              (sym (secrets_to_domain-kindless w.secret_source p.routed.names p.secrets_read k))
              (ground arith)
        | inr k ↦ rw (g k a.kind_known) refl
      ] in
    subst
      (λ s.
        (c : Cache) × (credentials s ≡ ok c)
        × All (Entered w.secret_source c) w.secret_source.providers)
      (sym (ap (λ c. c.secret_source) p.assembled))
      (
        fresh_entries (sources_of src),
        rw e (
            keys_of f (sources_of src) needed
              (pathless-none p.routed.names src.providers a.secrets_usable)),
        All-map w.secret_source.providers (λ e r. entry_of e.0 src.providers r)
            (secrets_to_domain-Reads w.secret_source p.routed.names d p.secrets_read),
      )
