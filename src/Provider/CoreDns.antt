-- ===== src/Provider/CoreDns.antt =====
-- The in-cluster half of internal/provider/provider.go: `applyCoreDNS`, `skippedErrors`,
-- `reconcileExistingCoreDNS` and `pruneCoreDNS`.
use external_dns_cloudflare.Prelude.{
  ◌==◌, is_some, contains_byte, contains, ◌&&◌, length, succeeds, not, false, true, ok, some, none,
  err, if◌then◌else◌, keys, Bool, Result, ◌∷◌, lookup, insert, [], List, to_lower, Text, Option,
  Assoc,
}
use external_dns_cloudflare.Errors.{Error, Context, wrap, wildcard, no_resource_label}
use external_dns_cloudflare.Tunnel.{resolve}
use external_dns_cloudflare.Metrics.{
  dry_run_skip, op_fragment, op_prune, coredns_write, set_coredns_rewrites, coredns_prune_count,
}
use external_dns_cloudflare.Provider.State.{
  Env, Endpoint, FragmentWriter, M, ◌>>=◌, ◌>>◌, get, emit, pure, perform, fragment_apply,
  fragment_load,
}
use external_dns_cloudflare.Provider.Records.{owned_snapshot}
use external_dns_cloudflare.Prelude.Sort.{sort_strings}

-- The variables `skipped` and `add` of `applyCoreDNS`
pub record Rewrites : Type 0 where
  pub skipped : Assoc Error
  pub added : Assoc Text

unfoldable pub text_or_empty : Option Text → Text
text_or_empty none = []
text_or_empty (some t) = t

unfoldable pub skip : Text → Error → Rewrites → Rewrites
skip host e a = record a { skipped = insert host e a.skipped }

-- One round of the first loop
unfoldable pub plan_rewrite : Env → FragmentWriter → Endpoint → Rewrites → Rewrites
unfolding skip text_or_empty
plan_rewrite env w ep a =
    let host = to_lower ep.dns_name in
    let resource = text_or_empty (lookup env.resource_label ep.labels) in
    let answered : Rewrites = elim (w.service_target resource) [
      | err e ↦ skip host (wrap (Context.coredns_answer ep.dns_name) e) a
      | ok target ↦ record a { added = insert host target a.added }
    ] in
    if not (env.matches ep.dns_name)
    then a
    else if contains_byte b'*' host
    then skip host (wildcard ep.dns_name) a
    else if resource == []
    then skip host (no_resource_label ep.dns_name) a
    else answered

unfoldable pub plan_rewrites : Env → FragmentWriter → List Endpoint → Rewrites → Rewrites
unfolding plan_rewrite
plan_rewrites env w [] a = a
plan_rewrites env w (ep ∷ eps) a = plan_rewrites env w eps (plan_rewrite env w ep a)

-- The hosts of the second loop
unfoldable pub removals : Env → List Endpoint → List Text
removals env [] = []
removals env (ep ∷ eps) =
    let rest = removals env eps in
    if env.matches ep.dns_name then to_lower ep.dns_name ∷ rest else rest

-- The write of the fragment, and what is recorded of it
unfoldable pub write_fragment :
    Env → FragmentWriter → Assoc Text → List Text → M (Result Error (Assoc Text))
write_fragment env w add remove = do
  after ← perform (fragment_apply add remove) (λ h. w.apply h add remove)
  emit (coredns_write env.metrics (succeeds after))
  pure after

unfoldable pub empty_rewrites : Rewrites
empty_rewrites = record { skipped = []; added = [] }

unfoldable pub write_planned :
    Env → FragmentWriter → Assoc Error → Assoc Text → List Text → M (Result Error (Assoc Error))
unfolding write_fragment
write_planned env w skipped add remove =
    if env.dry_run then (do emit (dry_run_skip env.metrics op_fragment); pure (ok skipped)) else (do
      after ← write_fragment env w add remove
      elim after [
        | err e ↦ pure (err (wrap (Context.update_fragment w.key) e))
        | ok rewrites ↦ (do
          emit (set_coredns_rewrites env.metrics (length rewrites))
          pure (ok skipped))
      ])

unfoldable pub is_empty {ℓ} : {A : Type ℓ} → List A → Bool
is_empty [] = true
is_empty (x ∷ xs) = false

-- `applyCoreDNS`, of `changes.Create` and `changes.Delete`
unfoldable pub apply_coredns : Env → List Endpoint → List Endpoint → M (Result Error (Assoc Error))
unfolding plan_rewrites empty_rewrites removals write_planned is_empty
apply_coredns env creates deletes = elim env.coredns [
  | none ↦ pure (ok [])
  | some w ↦
      let planned = plan_rewrites env w creates empty_rewrites in
      let remove = removals env deletes in
      if is_empty planned.added && is_empty remove
      then pure (ok planned.skipped)
      else write_planned env w planned.skipped planned.added remove
]

unfoldable pub errors_of : List Text → Assoc Error → List Error
errors_of [] skipped = []
errors_of (host ∷ hosts) skipped =
    let rest = errors_of hosts skipped in
    elim (lookup host skipped) [ none ↦ rest | some e ↦ e ∷ rest ]

-- `skippedErrors`
unfoldable pub skipped_errors : Assoc Error → List Error
unfolding errors_of
skipped_errors skipped = errors_of (sort_strings (keys skipped)) skipped

-- The names that `reconcileExistingCoreDNS` hands to `applyCoreDNS`
unfoldable pub existing_only : List Text → List Endpoint → List Endpoint
existing_only existing [] = []
existing_only existing (ep ∷ eps) =
    let rest = existing_only existing eps in
    let host = to_lower ep.dns_name in
    if contains host existing && not (contains_byte b'*' host) then ep ∷ rest else rest

unfoldable pub reconcile_names : Env → List Endpoint → M (List Error)
unfolding apply_coredns skipped_errors
reconcile_names env [] = pure []
reconcile_names env (ep ∷ eps) = do
  answer ← apply_coredns env (ep ∷ eps) []
  elim answer [ err e ↦ pure (e ∷ []) | ok skipped ↦ pure (skipped_errors skipped) ]

-- `reconcileExistingCoreDNS`; no errors are a nil error.
unfoldable pub reconcile_existing_coredns : Env → List Endpoint → M (List Error)
unfolding reconcile_names existing_only is_empty
reconcile_existing_coredns env desired = elim env.coredns [
  | none ↦ pure []
  | some w ↦ (do
    s ← get
    if is_empty s.records_hosts
        then pure []
        else reconcile_names env (existing_only s.records_hosts desired))
]

-- The tests in the loop of `pruneCoreDNS`
unfoldable pub is_stale : Env → List Text → List Text → Text → Bool
is_stale env owned desired host =
    not (contains host owned)
    && (not (contains host desired) && (env.matches host && is_some (resolve env.resolver host)))

unfoldable pub stale_hosts : Env → List Text → List Text → List Text → List Text
unfolding is_stale
stale_hosts env owned desired [] = []
stale_hosts env owned desired (host ∷ hosts) =
    let rest = stale_hosts env owned desired hosts in
    if is_stale env owned desired host then host ∷ rest else rest

unfoldable pub prune_write : Env → FragmentWriter → List Text → M (Unit {0})
unfolding write_fragment
prune_write env w remove = if env.dry_run then emit (dry_run_skip env.metrics op_prune) else (do
  after ← write_fragment env w [] remove
  elim after [
    | err e ↦ pure tt
    | ok rewrites ↦ (do
      emit (set_coredns_rewrites env.metrics (length rewrites))
      emit (coredns_prune_count env.metrics (length remove)))
  ])

unfoldable pub prune_from : Env → FragmentWriter → List Text → List Text → M (Unit {0})
unfolding prune_write stale_hosts is_empty
prune_from env w owned desired = do
  current ← perform fragment_load w.load
  elim current [
    | err e ↦ pure tt
    | ok rewrites ↦
        let remove = stale_hosts env owned desired (keys rewrites) in
        if is_empty remove then pure tt else prune_write env w (sort_strings remove)
  ]

unfoldable pub prune_enabled : Env → FragmentWriter → List Text → M (Unit {0})
unfolding prune_from owned_snapshot
prune_enabled env w desired = do
  s ← get
  elim (owned_snapshot s) [ none ↦ pure tt | some owned ↦ prune_from env w owned desired ]

-- `pruneCoreDNS`; a failure is logged only.
unfoldable pub prune_coredns : Env → List Text → M (Unit {0})
unfolding prune_enabled
prune_coredns env desired = elim env.coredns [
  | none ↦ pure tt
  | some w ↦ if not env.coredns_prune then pure tt else prune_enabled env w desired
]
