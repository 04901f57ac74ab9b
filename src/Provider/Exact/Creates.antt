-- ===== src/Provider/Exact/Creates.antt =====
-- `applyCreates` of internal/provider/provider.go makes the planned creates and adoptions.
use external_dns_cloudflare.Cloudflare.{err_code_hostname_already_routed, HostnameRoute}
use external_dns_cloudflare.Provider.Exact.{
  Makes-list, Makes-silent, list_routes, Error, Makes, Makes-pure, Makes-emit, Makes-bind,
  Makes-then, Makes-first, Makes-if, Makes-result, Makes-answered, calls_of,
}
use external_dns_cloudflare.Prelude.{
  refl, ◌++◌, none, ◌∷◌, inl, List, Option-cases, inr, is_some, to_lower, ◌==◌, ◌≡◌, lookup,
  Bool-cases, some, [], Assoc, Text, Bool,
}
use mathlib.Core.Path.{subst}
use external_dns_cloudflare.Tunnel.{resolve}
use external_dns_cloudflare.Provider.Ownership.{comment, route_owner}
use external_dns_cloudflare.Provider.Records.{list_counted}
use external_dns_cloudflare.Provider.Index.{account_route_index}
use external_dns_cloudflare.Provider.Pending.{set_pending, clear_pending}
use external_dns_cloudflare.Provider.Pending.Calls.{set_pending-calls, clear_pending-calls}
use external_dns_cloudflare.Errors.{Error, has_code}
use external_dns_cloudflare.Metrics.{route_created}
use external_dns_cloudflare.Provider.State.{
  Env, Endpoint, create_route, patch_comment, emit, pure, perform, ◌>>◌,
}
use external_dns_cloudflare.Provider.Creates.{
  adopt_untagged_route, adopt, Account, account_listed, conflict, create_missing, create_on,
  create_one, creates_from, apply_creates,
}
use external_dns_cloudflare.Provider.Exact.Planned.{
  Makes-nothing, creation_of, made_on, unless, unless-calls_of,
}

module _ (env : Env) where
  list_counted-Makes : (tid label : Text) → Makes [] (list_counted env tid label)
  unfolding list_counted
  list_counted-Makes tid label =
      Makes-first [] (perform (list_routes tid) _) _ (Makes-list tid _) λ answer.
        Makes-first [] (emit _) _ (Makes-emit _) λ _.
          Makes-result [] answer _ _
            (λ e _. Makes-first [] (emit _) _ (Makes-emit _) λ _. Makes-pure _)
            (λ a _. Makes-pure _)

  account_listed-Makes : (account : Account) → Makes [] (account_listed env account)
  unfolding account_listed account_route_index
  account_listed-Makes none =
      Makes-first [] (list_counted env [] _) _ (list_counted-Makes [] _)
        λ answer. Makes-result [] answer _ _ (λ e _. Makes-pure _) (λ a _. Makes-pure _)
  account_listed-Makes (some index) = Makes-pure index

  conflict-Makes : (account : Account) (host tid : Text) → Makes [] (conflict env account host tid)
  unfolding conflict
  conflict-Makes account host tid =
      Makes-first [] (account_listed env account) _ (account_listed-Makes account) λ index.
        Makes-first [] (set_pending env host _) _
          (Makes-silent (set_pending env host _) (set_pending-calls env host _)) λ _. Makes-pure _

  created-Makes :
      (account : Account) (host : Text)
      → Makes {A = List Error × Account} []
          (clear_pending env host >> (emit (route_created env.metrics) >> pure ([], account)))
  created-Makes account host =
      Makes-first [] (clear_pending env host) _
        (Makes-silent (clear_pending env host) (clear_pending-calls env host))
        λ _. Makes-first [] (emit _) _ (Makes-emit _) λ _. Makes-pure _

  create_missing-Makes :
      (account : Account) (ep : Endpoint) (tid : Text)
      → Makes
          (unless env.dry_run (create_route ep.dns_name tid (comment env.owner_id) ∷ []))
          (create_missing env account ep tid)
  unfolding create_missing
  create_missing-Makes account ep tid = elim (Bool-cases env.dry_run) [
    | inl dry ↦ rw (create_missing, dry) (Makes-then [] (emit _) _ (Makes-emit _) λ _. Makes-pure _)
    | inr real ↦
        rw (create_missing, real)
          (Makes-answered (create_route ep.dns_name tid (comment env.owner_id)) _ _ _ _ refl
            (λ e.
              Makes-if [] (has_code e err_code_hostname_already_routed) _ _
                (λ _. conflict-Makes account (to_lower ep.dns_name) tid) (λ _. Makes-pure _))
            (λ a. created-Makes account (to_lower ep.dns_name)))
  ]

  untagged-Makes :
      (r : HostnameRoute)
      → Makes
          (unless env.dry_run (patch_comment r.id (comment env.owner_id) ∷ []))
          (adopt_untagged_route env r)
  unfolding adopt_untagged_route
  untagged-Makes r = elim (Bool-cases env.dry_run) [
    | inl dry ↦
        rw (adopt_untagged_route, dry) (Makes-then [] (emit _) _ (Makes-emit _) λ _. Makes-pure [])
    | inr real ↦
        rw (adopt_untagged_route, real)
          (Makes-answered (patch_comment r.id (comment env.owner_id)) _ _ _ _ refl
            (λ e. Makes-pure _) (λ a. Makes-then [] (emit _) _ (Makes-emit _) λ _. Makes-pure []))
  ]

  adopt-Makes :
      (name : Text) (r : HostnameRoute) (want : Text)
      → Makes (unless env.dry_run (made_on env name (some want) (some r))) (adopt env r want)
  unfolding adopt
  adopt-Makes name r want = elim (Bool-cases (r.tunnel_id == want)) [
    | inr other ↦ rw (adopt, other) (Makes-nothing env.dry_run _)
    | inl same ↦ elim (Option-cases (route_owner r.comment)) [
      | inl free ↦ rw (adopt, same, free) (untagged-Makes r)
      | inr (owner, e) ↦
          rw (adopt, same, e)
            (Makes-if (unless env.dry_run []) (owner == env.owner_id) _ _
              (λ _. Makes-nothing env.dry_run _) (λ _. Makes-nothing env.dry_run _))
    ]
  ]

  create_on-Makes :
      (existing : Assoc HostnameRoute) (account : Account) (ep : Endpoint) (tid : Text)
      → Makes
          (unless env.dry_run
            (made_on env ep.dns_name (some tid) (lookup (to_lower ep.dns_name) existing)))
          (create_on env existing account ep tid)
  unfolding create_on
  create_on-Makes existing account ep tid =
      elim (Option-cases (lookup (to_lower ep.dns_name) existing)) [
        | inl e ↦ rw (create_on, e) (create_missing-Makes account ep tid)
        | inr (r, e) ↦
            rw (create_on, e)
              (Makes-then _ (adopt env r tid) _ (adopt-Makes ep.dns_name r tid)
                λ errs. Makes-pure _)
      ]

module _ (env : Env) (existing : Assoc HostnameRoute) (skipped : Assoc Error)
    (unanswered : Text → Bool)
    (same : (host : Text) → unanswered host ≡ is_some (lookup host skipped)) where
  create_one-Makes :
      (account : Account) (ep : Endpoint)
      → Makes
          (unless env.dry_run (creation_of env existing unanswered ep))
          (create_one env existing skipped account ep)
  unfolding create_one
  create_one-Makes account ep = elim (Bool-cases (env.matches ep.dns_name)) [
    | inr outside ↦ rw (create_one, outside) (Makes-nothing env.dry_run _)
    | inl inside ↦ elim (Bool-cases (is_some (lookup (to_lower ep.dns_name) skipped))) [
      | inl bad ↦
          rw (create_one, inside, same (to_lower ep.dns_name), bad) (Makes-nothing env.dry_run _)
      | inr good ↦ elim (Option-cases (resolve env.resolver ep.dns_name)) [
        | inl e ↦
            rw (create_one, inside, same (to_lower ep.dns_name), good, e)
              (Makes-nothing env.dry_run _)
        | inr (tid, e) ↦
            rw (create_one, inside, same (to_lower ep.dns_name), good, e)
              (create_on-Makes env existing account ep tid)
      ]
    ]
  ]

  creates_from-Makes :
      (account : Account) (eps : List Endpoint)
      → Makes
          (calls_of (λ ep. unless env.dry_run (creation_of env existing unanswered ep)) eps)
          (creates_from env existing skipped account eps)
  unfolding creates_from
  creates_from-Makes account [] = Makes-pure []
  creates_from-Makes account (ep ∷ eps) =
      Makes-bind (unless env.dry_run (creation_of env existing unanswered ep)) _
        (create_one env existing skipped account ep) _ (create_one-Makes account ep)
        λ (errs, account').
          Makes-then _ (creates_from env existing skipped account' eps) _
            (creates_from-Makes account' eps) λ more. Makes-pure (errs ++ more)

  pub apply_creates-Makes :
      (eps : List Endpoint)
      → Makes
          (unless env.dry_run (calls_of (creation_of env existing unanswered) eps))
          (apply_creates env existing skipped eps)
  unfolding apply_creates
  apply_creates-Makes eps =
      subst (λ cs. Makes cs (creates_from env existing skipped none eps))
        (unless-calls_of env.dry_run (creation_of env existing unanswered) eps)
        (creates_from-Makes none eps)
