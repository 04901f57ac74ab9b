-- ===== src/Provider/Reported/Existing.antt =====
-- `applyDeletes` and `applyUpdates` of internal/provider/provider.go report each call that fails.
use external_dns_cloudflare.Provider.Reported.{
  History, IsNil, IsOk, Reports, Reports-pure, Reports-counted, failed, Reports-if, Reports-option,
  Reports-answered, Reports-each,
}
use external_dns_cloudflare.Prelude.{refl, ◌==◌, to_lower, lookup, Text, [], List, Assoc, not}
use external_dns_cloudflare.Cloudflare.{HostnameRoute}
use external_dns_cloudflare.Tunnel.{resolve}
use external_dns_cloudflare.Provider.State.{Env, Endpoint, delete_route, patch_route}
use external_dns_cloudflare.Provider.Existing.{
  delete_found, delete_one, apply_deletes, retarget, update_to, update_one, apply_updates,
}

module _ (env : Env) (before : History) (index : Assoc HostnameRoute) where
  delete_found-Reports :
      (ep : Endpoint) (r : HostnameRoute) → Reports env before IsNil (delete_found env ep r)
  unfolding delete_found
  delete_found-Reports ep r =
      Reports-if env before IsNil env.dry_run _ _ (λ dry. Reports-counted env before IsNil _ [])
        λ real.
          Reports-answered env before IsOk IsNil (delete_route r.id) _ _ _ _ (λ h e. e)
            (λ e s q. failed _ s q) (λ a. refl) (λ e. Reports-pure env before IsNil _)
            (λ a. Reports-counted env before IsNil _ [])

  delete_one-Reports : (ep : Endpoint) → Reports env before IsNil (delete_one env index ep)
  unfolding delete_one
  delete_one-Reports ep =
      Reports-if env before IsNil (not (env.matches ep.dns_name)) _ _
        (λ _. Reports-pure env before IsNil [])
        λ inside.
          Reports-option env before IsNil (lookup (to_lower ep.dns_name) index) _ _
            (Reports-pure env before IsNil []) λ r _. delete_found-Reports ep r

  pub apply_deletes-Reports :
      (eps : List Endpoint) → Reports env before IsNil (apply_deletes env index eps)
  unfolding apply_deletes
  apply_deletes-Reports eps = Reports-each env before (delete_one env index) eps delete_one-Reports

  retarget-Reports :
      (ep : Endpoint) (want : Text) (r : HostnameRoute)
      → Reports env before IsNil (retarget env ep want r)
  unfolding retarget
  retarget-Reports ep want r =
      Reports-if env before IsNil env.dry_run _ _ (λ dry. Reports-counted env before IsNil _ [])
        λ real.
          Reports-answered env before IsOk IsNil (patch_route r.id _) _ _ _ _ (λ h e. e)
            (λ e s q. failed _ s q) (λ a. refl) (λ e. Reports-pure env before IsNil _)
            (λ a. Reports-counted env before IsNil _ [])

  update_one-Reports : (ep : Endpoint) → Reports env before IsNil (update_one env index ep)
  unfolding update_one update_to
  update_one-Reports ep =
      Reports-if env before IsNil (not (env.matches ep.dns_name)) _ _
        (λ _. Reports-pure env before IsNil [])
        λ inside.
          Reports-option env before IsNil (resolve env.resolver ep.dns_name) _ _
            (Reports-pure env before IsNil _)
            λ want _.
              Reports-option env before IsNil (lookup (to_lower ep.dns_name) index) _ _
                (Reports-pure env before IsNil [])
                λ r _.
                  Reports-if env before IsNil (r.tunnel_id == want) _ _
                    (λ _. Reports-pure env before IsNil []) (λ _. retarget-Reports ep want r)

  pub apply_updates-Reports :
      (eps : List Endpoint) → Reports env before IsNil (apply_updates env index eps)
  unfolding apply_updates
  apply_updates-Reports eps = Reports-each env before (update_one env index) eps update_one-Reports
