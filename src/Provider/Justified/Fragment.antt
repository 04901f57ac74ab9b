-- ===== src/Provider/Justified/Fragment.antt =====
-- The write of the fragment in `applyCoreDNS` is no dry run's.
use external_dns_cloudflare.Prelude.{ok, ◌&&◌, ◌∷◌, false, ◌≡◌, List, Text, Assoc}
use external_dns_cloudflare.Provider.CoreDns.{
  is_empty, removals, empty_rewrites, plan_rewrites, write_fragment, write_planned, apply_coredns,
}
use external_dns_cloudflare.Errors.{Error}
use external_dns_cloudflare.Provider.State.{
  Env, Endpoint, History, FragmentWriter, pure, perform, fragment_apply,
}
use external_dns_cloudflare.Provider.Yields.{
  Keeps, AnyResult, Keeps-pure, Keeps-perform, Keeps-bind, Yields-if, Yields-result, Yields-option,
  keeps_rules,
}

module _ (env : Env) (Q : History → Type 0) (remove : List Text)
    (step : (add : Assoc Text)
      → env.dry_run ≡ false
      → (h : History) → Q h
      → Q (fragment_apply add remove ∷ h)) where
  write_fragment-Keeps :
      (w : FragmentWriter) (add : Assoc Text)
      → env.dry_run ≡ false
      → Keeps Q (write_fragment env w add remove)
  unfolding write_fragment
  write_fragment-Keeps w add wet =
      Keeps-bind Q AnyResult (perform (fragment_apply add remove) _) _
        (Keeps-perform Q (fragment_apply add remove) _ (step add wet)) λ after. search keeps_rules

  write_planned-Keeps :
      (w : FragmentWriter) (skipped : Assoc Error) (add : Assoc Text)
      → Keeps Q (write_planned env w skipped add remove)
  unfolding write_planned
  write_planned-Keeps w skipped add =
      Yields-if Q AnyResult env.dry_run _ _ (λ dry. search keeps_rules)
        λ wet.
          Keeps-bind Q AnyResult (write_fragment env w add remove) _
            (write_fragment-Keeps w add wet)
            λ after.
              Yields-result Q AnyResult after _ _ (λ e _. Keeps-pure Q _)
                (λ rewrites _. search keeps_rules)

pub apply_coredns-Keeps :
    (env : Env) (Q : History → Type 0) (creates deletes : List Endpoint)
    → ((add : Assoc Text)
        → env.dry_run ≡ false
        → (h : History) → Q h
        → Q (fragment_apply add (removals env deletes) ∷ h))
    → Keeps Q (apply_coredns env creates deletes)
unfolding apply_coredns
apply_coredns-Keeps env Q creates deletes step =
    Yields-option Q AnyResult env.coredns _ _ (λ _. Keeps-pure Q _)
      λ w _.
        let planned = plan_rewrites env w creates empty_rewrites in
        let remove = removals env deletes in
        Yields-if Q AnyResult (is_empty planned.added && is_empty remove)
          (pure (ok planned.skipped)) (write_planned env w planned.skipped planned.added remove)
          (λ _. Keeps-pure Q (ok planned.skipped))
          (λ _. write_planned-Keeps env Q remove step w planned.skipped planned.added)
