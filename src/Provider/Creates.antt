-- ===== src/Provider/Creates.antt =====
-- `applyCreates`, `classifyConflict` and `adopt` of internal/provider/provider.go.
use external_dns_cloudflare.Prelude.{
  is_some, ◌&&◌, ◌==◌, not, succeeds, err, ◌++◌, none, to_lower, some, lookup, if◌then◌else◌, [],
  ok, ◌∷◌, Option, Text, List, Assoc,
}
use external_dns_cloudflare.Errors.{
  Error, Context, wrap, no_tunnel, refuse_other_tunnel, refuse_other_owner, has_code,
}
use external_dns_cloudflare.Cloudflare.{HostnameRoute, err_code_hostname_already_routed}
use external_dns_cloudflare.Tunnel.{resolve}
use external_dns_cloudflare.Metrics.{
  Reason, pending_self, pending_other, pending_untagged, pending_unknown, api_request, dry_run_skip,
  route_created, route_adopted, op_create, op_patch,
}
use external_dns_cloudflare.Provider.State.{
  Env, Endpoint, M, ◌>>=◌, ◌>>◌, emit, pure, perform, create_route, patch_comment,
}
use external_dns_cloudflare.Provider.Ownership.{comment, route_owner, owns}
use external_dns_cloudflare.Provider.Pending.{set_pending, clear_pending}
use external_dns_cloudflare.Provider.Index.{account_route_index}

unfoldable pub adopt_untagged_route : Env → HostnameRoute → M (List Error)
adopt_untagged_route env r =
    if env.dry_run then (do emit (dry_run_skip env.metrics op_patch); pure []) else (do
      let tag = comment env.owner_id
      answer ←
          perform (patch_comment r.id tag) (λ h. env.client.patch_hostname_route_comment h r.id tag)
      emit (api_request env.metrics op_patch (succeeds answer))
      elim answer [
        | err e ↦ pure (wrap (Context.adopt_route r.hostname r.id) e ∷ [])
        | ok _ ↦ (do emit (route_adopted env.metrics); pure [])
      ])

-- `adopt`
unfoldable pub adopt : Env → HostnameRoute → Text → M (List Error)
unfolding adopt_untagged_route
adopt env r want =
    if not (r.tunnel_id == want)
    then pure (refuse_other_tunnel r.hostname r.id r.tunnel_id want ∷ [])
    else elim (route_owner r.comment) [
      | some owner ↦
          if owner == env.owner_id
          then pure []
          else pure (refuse_other_owner r.hostname r.id owner ∷ [])
      | none ↦ adopt_untagged_route env r
    ]

unfoldable pub classify_found : Env → Text → HostnameRoute → Reason
classify_found env want r =
    if owns env.owner_id r && r.tunnel_id == want
    then pending_self
    else if owns env.owner_id r
    then pending_self
    else if is_some (route_owner r.comment)
    then pending_other
    else pending_untagged

-- `classifyConflict`, for the route that holds the hostname, if one was found
unfoldable pub classify_conflict : Env → Text → Option HostnameRoute → Reason
unfolding classify_found
classify_conflict env want none = pending_unknown
classify_conflict env want (some r) = classify_found env want r

-- `accountRoutes`, if `accountListed`
abbrev pub Account : Type 0
Account = Option (Assoc HostnameRoute)

-- The list of the account, asked for at most once
unfoldable pub account_listed : Env → Account → M (Assoc HostnameRoute)
unfolding account_route_index
account_listed env none = account_route_index env
account_listed env (some index) = pure index

unfoldable pub conflict : Env → Account → Text → Text → M (List Error × Account)
unfolding account_listed classify_conflict set_pending
conflict env account host tid = do
  index ← account_listed env account
  set_pending env host (classify_conflict env tid (lookup host index))
  pure ([], some index)

unfoldable pub create_missing : Env → Account → Endpoint → Text → M (List Error × Account)
unfolding conflict clear_pending
create_missing env account ep tid =
    let host = to_lower ep.dns_name in
    let tag = comment env.owner_id in
    if env.dry_run then (do emit (dry_run_skip env.metrics op_create); pure ([], account)) else (do
      answer ←
          perform (create_route ep.dns_name tid tag)
            (λ h. env.client.create_hostname_route h ep.dns_name tid tag)
      emit (api_request env.metrics op_create (succeeds answer))
      elim answer [
        | err e ↦
            if has_code e err_code_hostname_already_routed
            then conflict env account host tid
            else pure (wrap (Context.create_route ep.dns_name) e ∷ [], account)
        | ok _ ↦ (do clear_pending env host; emit (route_created env.metrics); pure ([], account))
      ])

unfoldable pub create_on :
    Env → Assoc HostnameRoute → Account → Endpoint → Text → M (List Error × Account)
unfolding adopt create_missing
create_on env existing account ep tid = elim (lookup (to_lower ep.dns_name) existing) [
  | some r ↦ (do errs ← adopt env r tid; pure (errs, account))
  | none ↦ create_missing env account ep tid
]

-- One round of `applyCreates`
unfoldable pub create_one :
    Env → Assoc HostnameRoute → Assoc Error → Account → Endpoint → M (List Error × Account)
unfolding create_on
create_one env existing skipped account ep =
    if not (env.matches ep.dns_name)
    then pure ([], account)
    else if is_some (lookup (to_lower ep.dns_name) skipped)
    then pure ([], account)
    else elim (resolve env.resolver ep.dns_name) [
      | none ↦ pure (no_tunnel ep.dns_name ∷ [], account)
      | some tid ↦ create_on env existing account ep tid
    ]

unfoldable pub creates_from :
    Env → Assoc HostnameRoute → Assoc Error → Account → List Endpoint → M (List Error)
unfolding create_one
creates_from env existing skipped account [] = pure []
creates_from env existing skipped account (ep ∷ eps) = do
  (errs, account') ← create_one env existing skipped account ep
  more ← creates_from env existing skipped account' eps
  pure (errs ++ more)

unfoldable pub apply_creates :
    Env → Assoc HostnameRoute → Assoc Error → List Endpoint → M (List Error)
unfolding creates_from
apply_creates env existing skipped = creates_from env existing skipped none
