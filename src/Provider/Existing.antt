-- ===== src/Provider/Existing.antt =====
-- `applyDeletes` and `applyUpdates` of internal/provider/provider.go.
use external_dns_cloudflare.Prelude.{
  ◌==◌, not, succeeds, err, none, to_lower, some, lookup, if◌then◌else◌, [], ok, ◌∷◌, Text, List,
  Assoc,
}
use external_dns_cloudflare.Errors.{Error, Context, wrap, no_tunnel}
use external_dns_cloudflare.Cloudflare.{HostnameRoute, RoutePatch}
use external_dns_cloudflare.Tunnel.{resolve}
use external_dns_cloudflare.Metrics.{
  api_request, dry_run_skip, route_deleted, route_retargeted, op_delete, op_retarget,
}
use external_dns_cloudflare.Provider.State.{
  Env, Endpoint, M, ◌>>=◌, ◌>>◌, emit, pure, perform, each, patch_route, delete_route,
}

unfoldable pub delete_found : Env → Endpoint → HostnameRoute → M (List Error)
delete_found env ep r =
    if env.dry_run then (do emit (dry_run_skip env.metrics op_delete); pure []) else (do
      answer ← perform (delete_route r.id) (λ h. env.client.delete_hostname_route h r.id)
      emit (api_request env.metrics op_delete (succeeds answer))
      elim answer [
        | err e ↦ pure (wrap (Context.delete_route ep.dns_name) e ∷ [])
        | ok _ ↦ (do emit (route_deleted env.metrics); pure [])
      ])

-- One round of `applyDeletes`
unfoldable pub delete_one : Env → Assoc HostnameRoute → Endpoint → M (List Error)
unfolding delete_found
delete_one env index ep =
    if not (env.matches ep.dns_name) then pure [] else elim (lookup (to_lower ep.dns_name) index) [
      | none ↦ pure []
      | some r ↦ delete_found env ep r
    ]

unfoldable pub apply_deletes : Env → Assoc HostnameRoute → List Endpoint → M (List Error)
unfolding delete_one each
apply_deletes env index = each (delete_one env index)

unfoldable pub retarget : Env → Endpoint → Text → HostnameRoute → M (List Error)
retarget env ep want r =
    let patch : RoutePatch = record {
      hostname = r.hostname;
      tunnel_id = want;
      comment = r.comment;
    } in
    if env.dry_run then (do emit (dry_run_skip env.metrics op_retarget); pure []) else (do
      answer ← perform (patch_route r.id patch) (λ h. env.client.patch_hostname_route h r.id patch)
      emit (api_request env.metrics op_retarget (succeeds answer))
      elim answer [
        | err e ↦ pure (wrap (Context.retarget_route ep.dns_name want) e ∷ [])
        | ok _ ↦ (do emit (route_retargeted env.metrics); pure [])
      ])

unfoldable pub update_to : Env → Assoc HostnameRoute → Endpoint → Text → M (List Error)
unfolding retarget
update_to env index ep want = elim (lookup (to_lower ep.dns_name) index) [
  | none ↦ pure []
  | some r ↦ if r.tunnel_id == want then pure [] else retarget env ep want r
]

-- One round of `applyUpdates`
unfoldable pub update_one : Env → Assoc HostnameRoute → Endpoint → M (List Error)
unfolding update_to
update_one env index ep =
    if not (env.matches ep.dns_name) then pure [] else elim (resolve env.resolver ep.dns_name) [
      | none ↦ pure (no_tunnel ep.dns_name ∷ [])
      | some want ↦ update_to env index ep want
    ]

unfoldable pub apply_updates : Env → Assoc HostnameRoute → List Endpoint → M (List Error)
unfolding update_one each
apply_updates env index = each (update_one env index)
