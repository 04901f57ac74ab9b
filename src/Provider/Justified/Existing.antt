-- ===== src/Provider/Justified/Existing.antt =====
-- The deletes and the retargets are justified.
use external_dns_cloudflare.Prelude.{
  refl, eq_iff, ◌==◌, sym, to_lower, arith, lookup, true, [], false, ◌≡◌, Text, not, Assoc, Bool,
  IsIn, All-members,
}
use external_dns_cloudflare.Cloudflare.{HostnameRoute}
use external_dns_cloudflare.Tunnel.{resolve}
use external_dns_cloudflare.Provider.State.{
  Env, Endpoint, Changes, History, perform, delete_route, patch_route,
}
use external_dns_cloudflare.Provider.Yields.{
  Keeps, AnyResult, Keeps-pure, Keeps-perform, Keeps-bind, Keeps-answer, Yields-if, Yields-option,
  Keeps-each, keeps_rules,
}
use external_dns_cloudflare.Provider.Records.{is_eligible}
use external_dns_cloudflare.Provider.Existing.{
  delete_found, delete_one, apply_deletes, retarget, update_one, apply_updates,
}
use external_dns_cloudflare.Provider.Justified.{Steps, DeleteReason, PatchReason}
use external_dns_cloudflare.Provider.Justified.Lists.{IsIndex}

not-true : (b : Bool) → not b ≡ false → b ≡ true
not-true b h = ground arith

module _ (env : Env) (changes : Changes) (Q : History → Type 0) (step : Steps env changes Q)
    (index : Assoc HostnameRoute) (good : IsIndex env (is_eligible env) index) where
  delete_found-Keeps :
      (ep : Endpoint) (r : HostnameRoute)
      → (env.dry_run ≡ false → DeleteReason env changes r.id)
      → Keeps Q (delete_found env ep r)
  unfolding delete_found
  delete_found-Keeps ep r why =
      Yields-if Q AnyResult env.dry_run _ _ (λ dry. search keeps_rules)
        λ wet.
          Keeps-bind Q AnyResult (perform (delete_route r.id) _) _
            (Keeps-perform Q (delete_route r.id) _ (step (delete_route r.id) refl (why wet)))
            λ answer. Keeps-answer Q _ answer _ _ (λ e. Keeps-pure Q _) (λ a. search keeps_rules)

  delete_one-Keeps : (ep : Endpoint) → IsIn ep changes.deletes → Keeps Q (delete_one env index ep)
  unfolding delete_one
  delete_one-Keeps ep member =
      Yields-if Q AnyResult (not (env.matches ep.dns_name)) _ _ (λ _. Keeps-pure Q [])
        λ inside.
          Yields-option Q AnyResult (lookup (to_lower ep.dns_name) index) _ _ (λ _. Keeps-pure Q [])
            λ r found.
              let known = good (to_lower ep.dns_name) r found in
              delete_found-Keeps ep r λ wet. record {
                wet = wet;
                route = r;
                same_id = refl;
                listed = known.0;
                eligible = known.1;
                endpoint = ep;
                asked = (member, sym known.2, not-true _ inside);
              }

  pub apply_deletes-Keeps : Keeps Q (apply_deletes env index changes.deletes)
  unfolding apply_deletes
  apply_deletes-Keeps =
      Keeps-each Q (delete_one env index) changes.deletes
        (All-members (λ ep. Keeps Q (delete_one env index ep)) changes.deletes delete_one-Keeps)

  retarget-Keeps :
      (ep : Endpoint) (want : Text) (r : HostnameRoute)
      → (env.dry_run ≡ false
          → PatchReason env changes r.id
              (record { hostname = r.hostname; tunnel_id = want; comment = r.comment }))
      → Keeps Q (retarget env ep want r)
  unfolding retarget
  retarget-Keeps ep want r why =
      Yields-if Q AnyResult env.dry_run _ _ (λ dry. search keeps_rules)
        λ wet.
          Keeps-bind Q AnyResult (perform (patch_route r.id _) _) _
            (Keeps-perform Q (patch_route r.id _) _ (step (patch_route r.id _) refl (why wet)))
            λ answer. Keeps-answer Q _ answer _ _ (λ e. Keeps-pure Q _) (λ a. search keeps_rules)

  update_one-Keeps :
      (ep : Endpoint) → IsIn ep changes.update_new → Keeps Q (update_one env index ep)
  unfolding update_one
  update_one-Keeps ep member =
      Yields-if Q AnyResult (not (env.matches ep.dns_name)) _ _ (λ _. Keeps-pure Q [])
        λ inside.
          Yields-option Q AnyResult (resolve env.resolver ep.dns_name) _ _ (λ _. Keeps-pure Q _)
            λ want target.
              Yields-option Q AnyResult (lookup (to_lower ep.dns_name) index) _ _
                (λ _. Keeps-pure Q [])
                λ r found.
                  let known = good (to_lower ep.dns_name) r found in
                  Yields-if Q AnyResult (r.tunnel_id == want) _ _ (λ _. Keeps-pure Q [])
                    λ moved. retarget-Keeps ep want r λ wet. record {
                      wet = wet;
                      route = r;
                      same_id = refl;
                      listed = known.0;
                      eligible = known.1;
                      endpoint = ep;
                      asked = (member, sym known.2, not-true _ inside);
                      target = target;
                      moved = λ e. cc ((eq_iff r.tunnel_id want).1 e, moved);
                      same_hostname = refl;
                      same_comment = refl;
                    }

  pub apply_updates-Keeps : Keeps Q (apply_updates env index changes.update_new)
  unfolding apply_updates
  apply_updates-Keeps =
      Keeps-each Q (update_one env index) changes.update_new
        (All-members (λ ep. Keeps Q (update_one env index ep)) changes.update_new update_one-Keeps)
