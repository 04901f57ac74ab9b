-- ===== src/Provider/Adjust.antt =====
-- `AdjustEndpoints` and `reportUndesired` of internal/provider/provider.go.
use external_dns_cloudflare.Prelude.{
  not, contains, length, if◌then◌else◌, insert, err, ok, some, none, [], Result, ◌∷◌, Text, List,
  Option, Assoc,
}
use external_dns_cloudflare.Errors.{Error}
use external_dns_cloudflare.Tunnel.{target_for}
use external_dns_cloudflare.Metrics.{set_routes_undesired}
use external_dns_cloudflare.Provider.State.{Env, Endpoint, M, ◌>>=◌, ◌>>◌, get, emit, pure}
use external_dns_cloudflare.Provider.Records.{record_type, log_set_change, host_set}
use external_dns_cloudflare.Provider.Pending.{retain_pending}
use external_dns_cloudflare.Provider.CoreDns.{reconcile_existing_coredns, prune_coredns}

unfoldable pub copy_labels : Assoc Text → Assoc Text → Assoc Text
copy_labels [] labels = labels
copy_labels ((k, v) ∷ more) labels = copy_labels more (insert k v labels)

-- A candidate as it is handed back, or `none` if it is dropped
unfoldable pub adjusted : Env → Endpoint → Option Endpoint
unfolding copy_labels
adjusted env ep =
    let canonical : Option Endpoint = elim (target_for env.resolver ep.dns_name) [
      | none ↦ none
      | some target ↦
          let fresh = env.new_endpoint ep.dns_name record_type target in
          some (record fresh { labels = copy_labels ep.labels fresh.labels })
    ] in
    if not (env.matches ep.dns_name) then none else canonical

unfoldable pub adjust_all : Env → List Endpoint → List Endpoint
unfolding adjusted
adjust_all env [] = []
adjust_all env (ep ∷ eps) =
    let rest = adjust_all env eps in elim (adjusted env ep) [ none ↦ rest | some a ↦ a ∷ rest ]

unfoldable pub undesired_of : List Text → List Text → List Text
undesired_of desired [] = []
undesired_of desired (host ∷ hosts) =
    let rest = undesired_of desired hosts in if contains host desired then rest else host ∷ rest

unfoldable pub report_undesired : Env → List Text → M (Unit {0})
unfolding undesired_of log_set_change
report_undesired env desired = do
  s ← get
  let undesired = undesired_of desired s.records_hosts
  emit (set_routes_undesired env.metrics (length undesired))
  log_set_change (λ s. s.last_undesired) (λ k s. record s { last_undesired = k }) undesired

-- The endpoints, or the errors that are joined
unfoldable pub adjust_endpoints : Env → List Endpoint → M (Result (List Error) (List Endpoint))
unfolding adjust_all host_set retain_pending reconcile_existing_coredns report_undesired
    prune_coredns
adjust_endpoints env endpoints = do
  let out = adjust_all env endpoints
  let desired = host_set out []
  retain_pending env (λ host. contains host desired)
  errs ← reconcile_existing_coredns env out
  elim errs [
    | (e ∷ es) ↦ pure (err (e ∷ es))
    | [] ↦ (do report_undesired env desired; prune_coredns env desired; pure (ok out))
  ]
