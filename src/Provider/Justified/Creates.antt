-- ===== src/Provider/Justified/Creates.antt =====
-- The creates and the adoptions are justified.
use external_dns_cloudflare.Provider.Justified.{
  list_routes, Steps, resolve, comment, route_owner, is_live, HostnameRoute, AdoptReason,
  CreateReason,
}
use external_dns_cloudflare.Prelude.{
  [], sym, ◌++◌, ◌∷◌, to_lower, All, is_some, refl, All-members, List, IsIn, eq_iff, ◌==◌, none,
  arith, some, true, lookup, false, ◌≡◌, not, Assoc, Bool, Text,
}
use external_dns_cloudflare.Cloudflare.{HostnameRoute, err_code_hostname_already_routed}
use external_dns_cloudflare.Provider.State.{
  Env, Endpoint, Changes, History, perform, create_route, patch_comment,
}
use external_dns_cloudflare.Errors.{Error, has_code}
use external_dns_cloudflare.Provider.Pending.Calls.{set_pending-calls, clear_pending-calls}
use external_dns_cloudflare.Provider.Yields.{
  Keeps, AnyResult, Keeps-pure, Keeps-silent, Keeps-perform, Keeps-bind, Keeps-answer, Yields-if,
  Yields-option, keeps_rules,
}
use external_dns_cloudflare.Provider.Creates.{
  adopt_untagged_route, adopt, Account, account_listed, conflict, create_missing, create_on,
  create_one, creates_from, apply_creates,
}
use external_dns_cloudflare.Provider.Pending.{set_pending, clear_pending}
use external_dns_cloudflare.Provider.Justified.Lists.{IsIndex, account_route_index-Keeps}

not-true : (b : Bool) → not b ≡ false → b ≡ true
not-true b h = ground arith

module _ (env : Env) (changes : Changes) (Q : History → Type 0) (step : Steps env changes Q)
    (existing : Assoc HostnameRoute) (good : IsIndex env is_live existing)
    (adopts : (host : Text) (r : HostnameRoute)
      → lookup host existing ≡ some r
      → env.adopt_untagged ≡ true) where
  adopt-Keeps :
      (r : HostnameRoute) (want : Text)
      → (env.dry_run ≡ false
          → r.tunnel_id ≡ want
          → route_owner r.comment ≡ none
          → AdoptReason env changes r.id (comment env.owner_id))
      → Keeps Q (adopt env r want)
  unfolding adopt adopt_untagged_route
  adopt-Keeps r want why =
      Yields-if Q AnyResult (not (r.tunnel_id == want)) _ _ (λ _. Keeps-pure Q _)
        λ same.
          Yields-option Q AnyResult (route_owner r.comment) _ _
            (λ free.
              Yields-if Q AnyResult env.dry_run _ _ (λ dry. search keeps_rules)
                λ wet.
                  Keeps-bind Q AnyResult (perform (patch_comment r.id _) _) _
                    (Keeps-perform Q (patch_comment r.id _) _ (
                      step (patch_comment r.id _) refl
                        (why wet ((eq_iff r.tunnel_id want).0 (not-true _ same)) free)))
                    λ answer.
                      Keeps-answer Q _ answer _ _ (λ e. Keeps-pure Q _) (λ a. search keeps_rules))
            (λ owner _.
              Yields-if Q AnyResult (owner == env.owner_id) _ _ (λ _. Keeps-pure Q _)
                (λ _. Keeps-pure Q _))

  account_listed-Keeps : (account : Account) → Keeps Q (account_listed env account)
  unfolding account_listed
  account_listed-Keeps none = account_route_index-Keeps env Q λ tid. step (list_routes tid) refl tt
  account_listed-Keeps (some index) = Keeps-pure Q index

  conflict-Keeps : (account : Account) (host tid : Text) → Keeps Q (conflict env account host tid)
  unfolding conflict
  conflict-Keeps account host tid =
      Keeps-bind Q AnyResult (account_listed env account) _ (account_listed-Keeps account) λ index.
        Keeps-bind Q AnyResult (set_pending env host _) _
          (Keeps-silent Q (set_pending env host _) (set_pending-calls env host _))
          λ _. Keeps-pure Q _

  create_missing-Keeps :
      (account : Account) (ep : Endpoint) (tid : Text)
      → (env.dry_run ≡ false → CreateReason env changes ep.dns_name tid (comment env.owner_id))
      → Keeps Q (create_missing env account ep tid)
  unfolding create_missing
  create_missing-Keeps account ep tid why =
      Yields-if Q AnyResult env.dry_run _ _ (λ dry. search keeps_rules)
        λ wet.
          Keeps-bind Q AnyResult (perform (create_route ep.dns_name tid (comment env.owner_id)) _) _
            (Keeps-perform Q (create_route ep.dns_name tid (comment env.owner_id)) _
              (step (create_route ep.dns_name tid (comment env.owner_id)) refl (why wet)))
            λ answer.
              Keeps-answer Q _ answer _ _
                (λ e.
                  Yields-if Q AnyResult (has_code e err_code_hostname_already_routed) _ _
                    (λ _. conflict-Keeps account (to_lower ep.dns_name) tid) (λ _. Keeps-pure Q _))
                (λ a.
                  Keeps-bind Q AnyResult (clear_pending env (to_lower ep.dns_name)) _
                    (Keeps-silent Q (clear_pending env (to_lower ep.dns_name))
                      (clear_pending-calls env (to_lower ep.dns_name)))
                    λ _. search keeps_rules)

  create_one-Keeps :
      (skipped : Assoc Error) (account : Account) (ep : Endpoint)
      → IsIn ep changes.create
      → Keeps Q (create_one env existing skipped account ep)
  unfolding create_one create_on
  create_one-Keeps skipped account ep member =
      Yields-if Q AnyResult (not (env.matches ep.dns_name)) _ _ (λ _. Keeps-pure Q _)
        λ inside.
          Yields-if Q AnyResult (is_some (lookup (to_lower ep.dns_name) skipped)) _ _
            (λ _. Keeps-pure Q _)
            λ kept.
              Yields-option Q AnyResult (resolve env.resolver ep.dns_name) _ _ (λ _. Keeps-pure Q _)
                λ tid target.
                  Yields-option Q AnyResult (lookup (to_lower ep.dns_name) existing) _ _
                    (λ _. create_missing-Keeps account ep tid λ wet. record {
                      wet = wet;
                      endpoint = ep;
                      same_host = refl;
                      asked = (member, refl, not-true _ inside);
                      target = target;
                      tagged = refl;
                    })
                    (λ r found.
                      let known = good (to_lower ep.dns_name) r found in
                      Keeps-bind Q AnyResult (adopt env r tid) _
                        (adopt-Keeps r tid λ wet same free. record {
                          wet = wet;
                          adopts = adopts (to_lower ep.dns_name) r found;
                          route = r;
                          same_id = refl;
                          listed = known.0;
                          live = known.1;
                          untagged = free;
                          endpoint = ep;
                          asked = (member, sym known.2, not-true _ inside);
                          target = cc;
                          tagged = refl;
                        })
                        λ errs. Keeps-pure Q _)

  creates_from-Keeps :
      (skipped : Assoc Error) (account : Account) (eps : List Endpoint)
      → All (λ ep. IsIn ep changes.create) eps
      → Keeps Q (creates_from env existing skipped account eps)
  unfolding creates_from
  creates_from-Keeps skipped account [] _ = Keeps-pure Q []
  creates_from-Keeps skipped account (ep ∷ eps) (m, ms) =
      Keeps-bind Q AnyResult (create_one env existing skipped account ep) _
        (create_one-Keeps skipped account ep m)
        λ (errs, account').
          Keeps-bind Q AnyResult (creates_from env existing skipped account' eps) _
            (creates_from-Keeps skipped account' eps ms) λ more. Keeps-pure Q (errs ++ more)

  pub apply_creates-Keeps :
      (skipped : Assoc Error) → Keeps Q (apply_creates env existing skipped changes.create)
  unfolding apply_creates
  apply_creates-Keeps skipped =
      creates_from-Keeps skipped none changes.create
        (All-members (λ ep. IsIn ep changes.create) changes.create λ ep m. m)
