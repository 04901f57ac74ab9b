-- ===== src/Provider/Cost/Apply.antt =====
-- `ApplyChanges` of internal/provider/provider.go makes a number of calls that the plan bounds.
use external_dns_cloudflare.Prelude.{
  ◌*◌, ◌≤◌, none, ok, ◌||◌, to_lower, lookup, is_some, ◌++◌, [], arith, ◌∷◌, not, ◌+◌, ◌&&◌, length,
  ℕ, List, Assoc,
}
use external_dns_cloudflare.Provider.Cost.{
  Costs-frame, Costs, none_left, Costs-pure, Costs-done, Costs-perform, Costs-bind, Costs-both,
  Costs-le, Costs-if, Costs-result, Costs-option, Costs-counted, Costs-each,
}
use external_dns_cloudflare.Errors.{Error, Context}
use external_dns_cloudflare.Cloudflare.{HostnameRoute}
use external_dns_cloudflare.Metrics.{observe_apply}
use external_dns_cloudflare.Tunnel.{resolve, tunnels}
use external_dns_cloudflare.Provider.State.{
  Env, Endpoint, Changes, State, ◌>>=◌, ◌>>◌, pure, emit, perform, fragment_apply,
}
use external_dns_cloudflare.Provider.Records.{is_live, is_eligible}
use external_dns_cloudflare.Provider.Index.{owned_route_index, adoption_index}
use external_dns_cloudflare.Provider.Existing.{delete_one, apply_deletes, update_one, apply_updates}
use external_dns_cloudflare.Provider.Creates.{
  adopt, Account, create_on, create_one, creates_from, apply_creates,
}
use external_dns_cloudflare.Provider.CoreDns.{
  write_fragment, write_planned, apply_coredns, plan_rewrites, empty_rewrites, removals, is_empty,
}
use external_dns_cloudflare.Provider.Apply.{
  is_nil, index_needed, adoption_needed, mutate, write_then_mutate, apply_planned, apply_changes,
}
use external_dns_cloudflare.Provider.Cost.Parts.{
  room, room_after, index_tunnels-Costs, delete_one-Costs, update_one-Costs, adopt-Costs,
  create_missing-Costs,
}

module _ (env : Env) where
  create_one-Costs :
      (existing : Assoc HostnameRoute) (skipped : Assoc Error) (account : Account) (ep : Endpoint)
      → Costs (room_after env) (1 + room env account) (create_one env existing skipped account ep)
  unfolding create_one create_on
  create_one-Costs existing skipped account ep =
      let budget = 1 + room env account in
      Costs-if (room_after env) budget (not (env.matches ep.dns_name)) _ _
        (Costs-pure (room_after env) budget ([], account) (omega arith))
        (Costs-if (room_after env) budget (is_some (lookup (to_lower ep.dns_name) skipped)) _ _
          (Costs-pure (room_after env) budget ([], account) (omega arith))
          (Costs-option (room_after env) budget (resolve env.resolver ep.dns_name) _ _
            (Costs-pure (room_after env) budget (_, account) (omega arith))
            λ tid.
              Costs-option (room_after env) budget (lookup (to_lower ep.dns_name) existing) _ _
                (create_missing-Costs env account ep tid)
                λ r.
                  Costs-both (room_after env) 1 (room env account) (adopt env r tid) _
                    (adopt-Costs env r tid)
                    λ errs.
                      Costs-pure (room_after env) (room env account) (errs, account) (omega arith)))

  creates_from-Costs :
      (existing : Assoc HostnameRoute) (skipped : Assoc Error) (account : Account)
      (eps : List Endpoint)
      → Costs none_left
          (length eps + room env account)
          (creates_from env existing skipped account eps)
  unfolding creates_from
  creates_from-Costs existing skipped account [] = Costs-done (0 + room env account) []
  creates_from-Costs existing skipped account (ep ∷ eps) =
      Costs-bind (λ (r : List Error × Account). length eps + room env r.1) none_left _
        (create_one env existing skipped account ep) _
        (Costs-le _ (length eps + (1 + room env account)) _ _ (omega arith) (
          Costs-frame (room_after env) (1 + room env account) (length eps) _
            (create_one-Costs existing skipped account ep)))
        λ (errs, account').
          Costs-le none_left (length eps + room env account' + 0) _ _ (omega arith) (
            Costs-both none_left (length eps + room env account') 0
              (creates_from env existing skipped account' eps) _
              (creates_from-Costs existing skipped account' eps)
              λ more. Costs-done 0 (errs ++ more))

  apply_coredns-Costs :
      (creates deletes : List Endpoint) → Costs none_left 1 (apply_coredns env creates deletes)
  unfolding apply_coredns write_planned write_fragment
  apply_coredns-Costs creates deletes =
      Costs-option none_left 1 env.coredns _ _ (Costs-done 1 _) λ w.
        let planned = plan_rewrites env w creates empty_rewrites in
        let remove = removals env deletes in
        Costs-if none_left 1 (is_empty planned.added && is_empty remove) _ _ (Costs-done 1 _) (
          Costs-if none_left 1 env.dry_run _ _ (Costs-counted none_left 1 _ _ (omega arith)) (
            Costs-both none_left 1 0
              (perform (fragment_apply planned.added remove) _ >>= λ now. emit _ >> pure now) _
              (Costs-both none_left 1 0 (perform (fragment_apply planned.added remove) _) _
                (Costs-perform (fragment_apply planned.added remove) _)
                λ now. Costs-counted none_left 0 _ now (omega arith))
              λ now.
                Costs-result none_left 0 now _ _ (λ e. Costs-done 0 _)
                  (λ r. Costs-counted none_left 0 _ _ (omega arith))))

  index_needed-Costs :
      (changes : Changes)
      → Costs none_left (length (tunnels env.resolver)) (index_needed env changes)
  unfolding index_needed owned_route_index
  index_needed-Costs changes =
      let listed = length (tunnels env.resolver) in
      Costs-if none_left listed (not (is_nil changes.deletes) || not (is_nil changes.update_new)) _
        _
        (index_tunnels-Costs env Context.list_for_delete (is_eligible env) (tunnels env.resolver)
          [])
        (Costs-done listed (ok []))

  adoption_needed-Costs :
      (changes : Changes)
      → Costs none_left (length (tunnels env.resolver)) (adoption_needed env changes)
  unfolding adoption_needed adoption_index
  adoption_needed-Costs changes =
      let listed = length (tunnels env.resolver) in
      Costs-if none_left listed (env.adopt_untagged && not (is_nil changes.create)) _ _
        (index_tunnels-Costs env Context.list_for_adoption is_live (tunnels env.resolver) [])
        (Costs-done listed (ok []))

module _ (env : Env) (changes : Changes) where
  -- The endpoints of the plan, and a list of the account
  abbrev pub planned_budget : ℕ
  planned_budget =
      length changes.deletes + (length changes.update_new + (length changes.create + 1))

  mutate-Costs :
      (index existing : Assoc HostnameRoute) (skipped : Assoc Error)
      → Costs none_left planned_budget (mutate env changes index existing skipped)
  unfolding mutate apply_deletes apply_updates apply_creates
  mutate-Costs index existing skipped =
      Costs-both none_left (length changes.deletes) _ (apply_deletes env index changes.deletes) _
        (Costs-each (delete_one env index) changes.deletes (delete_one-Costs env index))
        λ deleted.
          Costs-both none_left (length changes.update_new) _
            (apply_updates env index changes.update_new) _
            (Costs-each (update_one env index) changes.update_new (update_one-Costs env index))
            λ updated. Costs-le none_left (length changes.create + 1 + 0) _ _ (omega arith) (
              Costs-both none_left (length changes.create + 1) 0
                (apply_creates env existing skipped changes.create) _
                (creates_from-Costs env existing skipped none changes.create)
                λ created. Costs-done 0 _)

  -- The lists of both indices, a write of the fragment, and what the plan may cost
  abbrev pub budget : ℕ
  budget = length (tunnels env.resolver) + (length (tunnels env.resolver) + (1 + planned_budget))

  apply_planned-Costs : Costs none_left budget (apply_planned env changes)
  unfolding apply_planned write_then_mutate
  apply_planned-Costs =
      let listed = length (tunnels env.resolver) in
      Costs-both none_left listed _ (index_needed env changes) _ (index_needed-Costs env changes)
        λ answer.
          Costs-result none_left _ answer _ _ (λ e. Costs-done _ _)
            λ index.
              Costs-both none_left listed (1 + planned_budget) (adoption_needed env changes) _
                (adoption_needed-Costs env changes)
                λ answer'.
                  Costs-result none_left (1 + planned_budget) answer' _ _ (λ e. Costs-done _ _)
                    λ existing.
                      Costs-both none_left 1 planned_budget
                        (apply_coredns env changes.create changes.deletes) _
                        (apply_coredns-Costs env changes.create changes.deletes)
                        λ written.
                          Costs-result none_left planned_budget written _ _ (λ e. Costs-done _ _)
                            (λ skipped. mutate-Costs index existing skipped)

  apply_changes-Costs : Costs none_left budget (apply_changes env changes)
  unfolding apply_changes
  apply_changes-Costs =
      Costs-if none_left budget
        (is_nil changes.create && (is_nil changes.deletes && is_nil changes.update_new)) _ _
        (Costs-done budget [])
        (Costs-le none_left (budget + 0) budget _ (omega arith) (
          Costs-both none_left budget 0 (apply_planned env changes) _ apply_planned-Costs
            λ errs. Costs-counted none_left 0 (observe_apply env.metrics) errs (omega arith)))

  -- However its calls are answered, `ApplyChanges` makes no more calls than two for each tunnel that
  -- is listed, one for each endpoint of the plan, and two.
  pub apply_changes-le-budget :
      (s : State)
      → length (apply_changes env changes s).1.calls
        ≤ length s.calls
          + (2 * length (tunnels env.resolver)
              + (length changes.deletes + length changes.update_new + length changes.create)
              + 2)
  apply_changes-le-budget s = omega (arith, apply_changes-Costs.spent s)
