-- ===== src/Provider/Justified/Apply.antt =====
-- Every call of `ApplyChanges` is justified.
use external_dns_cloudflare.Provider.Justified.{fragment_apply, Call, Justified, Steps}
use external_dns_cloudflare.Prelude.{
  refl, ◌∷◌, lookup-nil, ok_injective, true, some, ◌≡◌, lookup, Text, &&-true, ◌||◌, not, [], Assoc,
  ◌&&◌, Result, ok,
}
use mathlib.Core.Path.{subst}
use external_dns_cloudflare.Errors.{Error}
use external_dns_cloudflare.Provider.Records.{is_eligible, is_live}
use external_dns_cloudflare.Cloudflare.{HostnameRoute}
use external_dns_cloudflare.Provider.State.{Env, Changes, State, History, list_routes}
use external_dns_cloudflare.Provider.Yields.{
  Since, Since-none, Since-step, Yields, Keeps, AnyResult, Keeps-pure, Yields-pure, Keeps-bind,
  Yields-bind, Yields-if, Yields-result, keeps_rules,
}
use external_dns_cloudflare.Provider.Apply.{
  is_nil, index_needed, adoption_needed, mutate, write_then_mutate, apply_planned, apply_changes,
}
use external_dns_cloudflare.Provider.CoreDns.{apply_coredns}
use external_dns_cloudflare.Provider.Existing.{apply_deletes, apply_updates}
use external_dns_cloudflare.Provider.Creates.{apply_creates}
use external_dns_cloudflare.Provider.Justified.Lists.{
  IsIndex, GivesIndex, owned_route_index-GivesIndex, adoption_index-GivesIndex, no_routes,
}
use external_dns_cloudflare.Provider.Justified.Fragment.{apply_coredns-Keeps}
use external_dns_cloudflare.Provider.Justified.Existing.{apply_deletes-Keeps, apply_updates-Keeps}
use external_dns_cloudflare.Provider.Justified.Creates.{apply_creates-Keeps}

-- An index of adoptions that is empty unless the instance adopts
abbrev pub Adoptions : Env → Result Error (Assoc HostnameRoute) → Type 0
Adoptions env answer =
    (index : Assoc HostnameRoute)
    → answer ≡ ok index
    → IsIndex env is_live index
      × ((host : Text) (r : HostnameRoute) → lookup host index ≡ some r → env.adopt_untagged ≡ true)

no-Adoptions : (env : Env) → Adoptions env (ok [])
no-Adoptions env index e =
    subst
      (λ i.
        IsIndex env is_live i
        × ((host : Text) (r : HostnameRoute) → lookup host i ≡ some r → env.adopt_untagged ≡ true))
      (ok_injective [] index e)
      (no_routes env is_live, λ host r f. cc (lookup-nil {0} {V = HostnameRoute} host))

module _ (env : Env) (changes : Changes) (Q : History → Type 0)
    (list_step : (tid : Text) (h : History) → Q h → Q (list_routes tid ∷ h)) where
  pub index_needed-GivesIndex :
      Yields Q (GivesIndex env (is_eligible env)) (index_needed env changes)
  unfolding index_needed
  index_needed-GivesIndex =
      Yields-if Q (GivesIndex env (is_eligible env))
        (not (is_nil changes.deletes) || not (is_nil changes.update_new)) _ _
        (λ _. owned_route_index-GivesIndex env Q list_step)
        λ _. Yields-pure Q (GivesIndex env (is_eligible env)) (ok []) (λ i e.
          subst (IsIndex env (is_eligible env)) (ok_injective [] i e)
            (no_routes env (is_eligible env)))

  pub adoption_needed-Adoptions : Yields Q (Adoptions env) (adoption_needed env changes)
  unfolding adoption_needed
  adoption_needed-Adoptions =
      Yields-if Q (Adoptions env) (env.adopt_untagged && not (is_nil changes.create)) _ _
        (λ needed.
          let y = adoption_index-GivesIndex env Q list_step in
          record {
            calls = y.calls;
            result = λ s q index e.
                (y.result s q index e, λ host r f. (&&-true env.adopt_untagged _ needed).0);
          })
        λ _. Yields-pure Q (Adoptions env) (ok []) (no-Adoptions env)

module _ (env : Env) (changes : Changes) (Q : History → Type 0) (step : Steps env changes Q) where
  pub mutate-Keeps :
      (index existing : Assoc HostnameRoute) (skipped : Assoc Error)
      → IsIndex env (is_eligible env) index
      → Adoptions env (ok existing)
      → Keeps Q (mutate env changes index existing skipped)
  unfolding mutate
  mutate-Keeps index existing skipped good live =
      Keeps-bind Q AnyResult (apply_deletes env index changes.deletes) _
        (apply_deletes-Keeps env changes Q step index good)
        λ deleted.
          Keeps-bind Q AnyResult (apply_updates env index changes.update_new) _
            (apply_updates-Keeps env changes Q step index good)
            λ updated.
              Keeps-bind Q AnyResult (apply_creates env existing skipped changes.create) _
                (apply_creates-Keeps env changes Q step existing (live existing refl).0
                  (live existing refl).1 skipped)
                λ created. Keeps-pure Q _

module _ (env : Env) (changes : Changes) (before : History) where
  abbrev Q : History → Type 0
  Q = Since (Justified env changes) before

  step : (c : Call) (h : History) → Justified env changes c → Q h → Q (c ∷ h)
  step = Since-step (Justified env changes) before

  list_step : (tid : Text) (h : History) → Q h → Q (list_routes tid ∷ h)
  list_step tid h q = step (list_routes tid) h tt q

  write_then_mutate-Keeps :
      (index existing : Assoc HostnameRoute)
      → IsIndex env (is_eligible env) index
      → Adoptions env (ok existing)
      → Keeps Q (write_then_mutate env changes index existing)
  unfolding write_then_mutate
  write_then_mutate-Keeps index existing good live =
      Keeps-bind Q AnyResult (apply_coredns env changes.create changes.deletes) _
        (apply_coredns-Keeps env Q changes.create changes.deletes
          λ add wet h q. step (fragment_apply add _) h wet q)
        λ answer.
          Yields-result Q AnyResult answer _ _ (λ e _. Keeps-pure Q _)
            λ skipped _.
              mutate-Keeps env changes Q (λ c other why h q. step c h why q) index existing skipped
                good live

  apply_planned-Keeps : Keeps Q (apply_planned env changes)
  unfolding apply_planned
  apply_planned-Keeps =
      Yields-bind Q AnyResult (index_needed env changes) _
        (index_needed-GivesIndex env changes Q list_step)
        λ answer good.
          Yields-result Q AnyResult answer _ _ (λ e _. Keeps-pure Q _)
            λ index p.
              Yields-bind Q AnyResult (adoption_needed env changes) _
                (adoption_needed-Adoptions env changes Q list_step)
                λ answer' live.
                  Yields-result Q AnyResult answer' _ _ (λ e _. Keeps-pure Q _)
                    λ existing p'.
                      write_then_mutate-Keeps index existing (good index p)
                        (subst (λ r. Adoptions env r) p' live)

  apply_changes-Keeps : Keeps Q (apply_changes env changes)
  unfolding apply_changes
  apply_changes-Keeps =
      Yields-if Q AnyResult
        (is_nil changes.create && (is_nil changes.deletes && is_nil changes.update_new)) _ _
        (λ _. Keeps-pure Q [])
        λ _.
          Keeps-bind Q AnyResult (apply_planned env changes) _ apply_planned-Keeps
            λ errs. search keeps_rules

-- Every call that `ApplyChanges` makes is justified by the plan, whatever was called before, and
-- whatever the account, the cluster and other writers answer: a delete is of a live, manageable
-- route, listed on a tunnel of the resolver, whose host the plan deletes; a retarget is of such a
-- route whose host the plan updates, onto the tunnel that the host resolves to, which is another than
-- the route's, and keeps hostname and comment; an adoption is of a live route without a tag, on the
-- tunnel that a host which the plan creates resolves to, by an instance that adopts; a create is of a
-- host that the plan creates, on the tunnel that it resolves to; both write this owner's tag; all
-- hosts pass the filter, and neither of these nor a write of the fragment is made in a dry run.
pub apply_changes-Justified :
    (env : Env) (changes : Changes) (s : State)
    → Since (Justified env changes) s.calls (apply_changes env changes s).1.calls
apply_changes-Justified env changes s =
    (apply_changes-Keeps env changes s.calls).calls s (Since-none (Justified env changes) s.calls)
