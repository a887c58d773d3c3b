-- ===== src/Config/Tables.antt =====
-- The tables that the loop over the apps leaves: each subject stands for the app that names it.
use llmgateway_go.Prelude.{
  String, ◌==◌, eq_iff, List, [], ◌∷◌, ◌≡◌, refl, sym, subst, none, Bool, false, All, arith,
}
use llmgateway_go.Prelude.Int.{ℤ}
use llmgateway_go.Prelude.Maps.{lookup, lookup-insert, All-insert}
use llmgateway_go.Prelude.Results.{ok, and_then-ok, ok-injective}
use llmgateway_go.Gateway.Domain.{FailoverPolicy}
use llmgateway_go.Config.{AppWire}
use llmgateway_go.Config.Policy.{policy_to_domain}
use llmgateway_go.Config.Apps.{
  Tables, app_of, enter, first_unrouted, first_unrouted-none, load_app, load_app-ok, load_apps,
  Resolved, Capped, Kept,
}

module _ (cap : ℤ) (models : List (String × Bool)) where
  enter-Kept :
      (name : String) (a : AppWire) (t : Tables) (policy : FailoverPolicy)
      → lookup a.subject t.subjects ≡ none
      → Kept cap models t (enter name a t policy)
  enter-Kept name a t policy e s o h = (
    ground (arith, lookup-insert a.subject s name t.subjects, eq_iff a.subject s),
    ground (arith, lookup-insert a.subject s (app_of name a policy) t.apps, eq_iff a.subject s),
  )

  enter-Resolved :
      (name : String) (a : AppWire) (t : Tables) (policy : FailoverPolicy)
      → policy_to_domain a.failover_policy ≡ ok policy
      → first_unrouted cap models policy.allowed ≡ none
      → (a.subject == "") ≡ false
      → Resolved cap models name a (enter name a t policy)
  enter-Resolved name a t policy p u e =
      let app = app_of name a policy in
      record {
        app = app;
        found =
            ground
              (arith, lookup-insert a.subject a.subject app t.apps, eq_iff a.subject a.subject);
        owned =
            ground (
              arith,
              lookup-insert a.subject a.subject name t.subjects,
              eq_iff a.subject a.subject,
            );
        named = refl;
        deadline = refl;
        policy = p;
        routable = first_unrouted-none cap models policy.allowed u;
        has_subject = e;
      }

  Resolved-Kept :
      (name : String) (a : AppWire) (t t' : Tables)
      → Kept cap models t t'
      → Resolved cap models name a t
      → Resolved cap models name a t'
  Resolved-Kept name a t t' k r =
      let (o, e) = k a.subject name r.owned in
      record {
        app = r.app;
        found = rw e r.found;
        owned = o;
        named = r.named;
        deadline = r.deadline;
        policy = r.policy;
        routable = r.routable;
        has_subject = r.has_subject;
      }

  pub record Done (entries : List (String × AppWire)) (t t' : Tables) : Type 0 where
    pub kept : Kept cap models t t'
    pub resolved : All (λ e. Resolved cap models e.0 e.1 t') entries
    pub capped : All (Capped cap models) t.limits → All (Capped cap models) t'.limits

  pub load_apps-Done :
      (entries : List (String × AppWire)) (t : Tables) {t' : Tables}
      → load_apps cap models entries t ≡ ok t'
      → Done entries t t'
  unfolding load_apps
  load_apps-Done [] t h =
      subst (Done [] t) (ok-injective h)
        (record { kept = λ s o e. (e, refl); resolved = tt; capped = λ c. c })
  load_apps-Done ((name, a) ∷ rest) t {t'} h =
      let (t1, e, f) = and_then-ok (load_app cap models name a t) (load_apps cap models rest) h in
      let d = load_apps-Done rest t1 {t' = t'} f in
      let (policy, p, u, same, sub, free, under) = load_app-ok cap models name a t e in
      let k : Kept cap models t t1 =
        subst (Kept cap models t) (sym same) (enter-Kept name a t policy free) in
      let r : Resolved cap models name a t1 =
        subst (Resolved cap models name a) (sym same) (enter-Resolved name a t policy p u sub) in
      record {
        kept = λ s o q. let (q1, q2) = k s o q in let (q3, q4) = d.kept s o q1 in (q3, rw (q4, q2));
        resolved = (Resolved-Kept name a t1 t' d.kept r, d.resolved);
        capped = λ c. d.capped (
            subst (λ x. All (Capped cap models) x.limits) (sym same)
              (All-insert (Capped cap models) name a.limits t.limits under c));
      }
