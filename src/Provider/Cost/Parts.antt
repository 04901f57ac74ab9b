-- ===== src/Provider/Cost/Parts.antt =====
-- The calls that the parts of `ApplyChanges` of internal/provider/provider.go make.
use external_dns_cloudflare.Prelude.{
  suc, none, to_lower, ◌==◌, lookup, ◌∷◌, ◌+◌, some, not, length, arith, [], ℕ, Assoc, List, Text,
  Bool,
}
use external_dns_cloudflare.Errors.{Error, Context, has_code}
use external_dns_cloudflare.Cloudflare.{HostnameRoute, err_code_hostname_already_routed}
use external_dns_cloudflare.Tunnel.{resolve}
use external_dns_cloudflare.Provider.State.{
  Env, Endpoint, list_routes, create_route, delete_route, patch_route, patch_comment,
}
use external_dns_cloudflare.Provider.Ownership.{comment, route_owner}
use external_dns_cloudflare.Provider.Records.{list_counted}
use external_dns_cloudflare.Provider.Index.{index_routes, index_tunnels, account_route_index}
use external_dns_cloudflare.Provider.Pending.{set_pending, clear_pending}
use external_dns_cloudflare.Provider.Pending.Calls.{set_pending-calls, clear_pending-calls}
use external_dns_cloudflare.Provider.Existing.{
  delete_found, delete_one, retarget, update_to, update_one,
}
use external_dns_cloudflare.Provider.Creates.{
  adopt_untagged_route, adopt, Account, account_listed, conflict, create_missing,
}
use external_dns_cloudflare.Provider.Cost.{
  Costs, none_left, Costs-silent, Costs-pure, Costs-done, Costs-both, Costs-after, Costs-le,
  Costs-if, Costs-result, Costs-option, Costs-counted, Costs-answered,
}

module _ (env : Env) where
  list_counted-Costs : (tid label : Text) → Costs none_left 1 (list_counted env tid label)
  unfolding list_counted
  list_counted-Costs tid label =
      Costs-answered none_left 0 (list_routes tid) _ _ _ _
        (λ e. Costs-counted none_left 0 _ _ (omega arith)) (λ a. Costs-done 0 _)

  pub index_tunnels-Costs :
      (what : Context) (test : HostnameRoute → Bool) (tids : List Text)
      (index : Assoc HostnameRoute)
      → Costs none_left (length tids) (index_tunnels env what test tids index)
  unfolding index_tunnels
  index_tunnels-Costs what test [] index = Costs-done 0 _
  index_tunnels-Costs what test (tid ∷ tids) index =
      Costs-le none_left (1 + length tids) (suc (length tids)) _ (omega arith) (
        Costs-both none_left 1 (length tids) (list_counted env tid tid) _
          (list_counted-Costs tid tid)
          λ answer.
            Costs-result none_left (length tids) answer _ _ (λ e. Costs-done (length tids) _)
              (λ routes. index_tunnels-Costs what test tids (index_routes test routes index)))

  pub delete_one-Costs :
      (index : Assoc HostnameRoute) (ep : Endpoint) → Costs none_left 1 (delete_one env index ep)
  unfolding delete_one delete_found
  delete_one-Costs index ep =
      Costs-if none_left 1 (not (env.matches ep.dns_name)) _ _ (Costs-done 1 []) (
        Costs-option none_left 1 (lookup (to_lower ep.dns_name) index) _ _ (Costs-done 1 []) λ r.
          Costs-if none_left 1 env.dry_run _ _ (Costs-counted none_left 1 _ [] (omega arith)) (
            Costs-answered none_left 0 (delete_route r.id) _ _ _ _ (λ e. Costs-done 0 _)
              (λ a. Costs-counted none_left 0 _ _ (omega arith))))

  pub update_one-Costs :
      (index : Assoc HostnameRoute) (ep : Endpoint) → Costs none_left 1 (update_one env index ep)
  unfolding update_one update_to retarget
  update_one-Costs index ep =
      Costs-if none_left 1 (not (env.matches ep.dns_name)) _ _ (Costs-done 1 []) (
        Costs-option none_left 1 (resolve env.resolver ep.dns_name) _ _ (Costs-done 1 _) λ want.
          Costs-option none_left 1 (lookup (to_lower ep.dns_name) index) _ _ (Costs-done 1 []) λ r.
            Costs-if none_left 1 (r.tunnel_id == want) _ _ (Costs-done 1 []) (
              Costs-if none_left 1 env.dry_run _ _ (Costs-counted none_left 1 _ [] (omega arith)) (
                Costs-answered none_left 0 (patch_route r.id _) _ _ _ _ (λ e. Costs-done 0 _)
                  (λ a. Costs-counted none_left 0 _ _ (omega arith)))))

  pub adopt-Costs : (r : HostnameRoute) (want : Text) → Costs none_left 1 (adopt env r want)
  unfolding adopt adopt_untagged_route
  adopt-Costs r want = Costs-if none_left 1 (not (r.tunnel_id == want)) _ _ (Costs-done 1 _) (
      Costs-option none_left 1 (route_owner r.comment) _ _
        (Costs-if none_left 1 env.dry_run _ _ (Costs-counted none_left 1 _ [] (omega arith)) (
          Costs-answered none_left 0 (patch_comment r.id (comment env.owner_id)) _ _ _ _
            (λ e. Costs-done 0 _) (λ a. Costs-counted none_left 0 _ _ (omega arith))))
        λ owner. Costs-if none_left 1 (owner == env.owner_id) _ _ (Costs-done 1 _) (Costs-done 1 _))

  -- The list of the account, as long as it has not been asked for
  abbrev pub room : Account → ℕ
  room none = 1
  room (some index) = 0

  abbrev pub room_after : List Error × Account → ℕ
  room_after r = room r.1

  account_listed-Costs :
      (account : Account) → Costs none_left (room account) (account_listed env account)
  unfolding account_listed account_route_index
  account_listed-Costs none =
      Costs-both none_left 1 0 (list_counted env [] _) _ (list_counted-Costs [] _)
        λ answer. Costs-result none_left 0 answer _ _ (λ e. Costs-done 0 _) (λ a. Costs-done 0 _)
  account_listed-Costs (some index) = Costs-done 0 index

  conflict-Costs :
      (account : Account) (host tid : Text)
      → Costs room_after (room account) (conflict env account host tid)
  unfolding conflict
  conflict-Costs account host tid =
      Costs-le room_after (room account + 0) (room account) _ (omega arith) (
        Costs-both room_after (room account) 0 (account_listed env account) _
          (account_listed-Costs account)
          λ index.
            Costs-after room_after 0 (set_pending env host _) _
              (Costs-silent (set_pending env host _) (set_pending-calls env host _))
              λ _. Costs-pure room_after 0 _ (omega arith))

  pub create_missing-Costs :
      (account : Account) (ep : Endpoint) (tid : Text)
      → Costs room_after (1 + room account) (create_missing env account ep tid)
  unfolding create_missing
  create_missing-Costs account ep tid =
      Costs-if room_after (1 + room account) env.dry_run _ _
        (Costs-counted room_after (1 + room account) _ ([], account) (omega arith))
        (Costs-answered room_after (room account)
          (create_route ep.dns_name tid (comment env.owner_id)) _ _ _ _
          (λ e.
            Costs-if room_after (room account) (has_code e err_code_hostname_already_routed) _ _
              (conflict-Costs account (to_lower ep.dns_name) tid)
              (Costs-pure room_after (room account) (_, account) (omega arith)))
          (λ a.
            Costs-after room_after (room account) (clear_pending env (to_lower ep.dns_name)) _
              (Costs-silent (clear_pending env (to_lower ep.dns_name))
                (clear_pending-calls env (to_lower ep.dns_name)))
              λ _. Costs-counted room_after (room account) _ ([], account) (omega arith)))
