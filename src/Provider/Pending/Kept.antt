-- ===== src/Provider/Pending/Kept.antt =====
-- The hostnames that `retainPending` of internal/provider/provider.go keeps, and the parts of the
-- provider that leave the pending hostnames alone.
use external_dns_cloudflare.Prelude.{
  keys, ◌&&◌, refl, eq_iff, false, arith, true, not, [], ◌∷◌, none, List, ◌≡◌, if◌then◌else◌, Assoc,
  Text, lookup, Bool,
}
use external_dns_cloudflare.Prelude.Sort.{sort_strings}
use external_dns_cloudflare.Errors.{Error}
use external_dns_cloudflare.Metrics.{Reason}
use external_dns_cloudflare.Provider.State.{
  Env, Endpoint, State, FragmentWriter, ◌>>=◌, get, emit, perform, fragment_apply, fragment_load,
}
use external_dns_cloudflare.Provider.Pending.{publish_pending, keep_only, drops, retain_pending}
use external_dns_cloudflare.Provider.Records.{owned_snapshot}
use external_dns_cloudflare.Provider.CoreDns.{
  write_fragment, write_planned, apply_coredns, plan_rewrites, empty_rewrites, removals, is_empty,
  reconcile_names, reconcile_existing_coredns, existing_only, stale_hosts, prune_write, prune_from,
  prune_enabled, prune_coredns,
}
use external_dns_cloudflare.Provider.Pending.Holds.{
  Memory, Holds, Any, Holds-done, Holds-emit, Holds-get, Holds-perform, Holds-bind, Holds-if,
  Holds-result, Holds-option, Holds-counted,
}

-- Those of the hostnames for which `keep` holds
pub lookup-keep_only_if :
    (keep : Text → Bool) (k : Text) (m : Assoc Reason)
    → lookup k (keep_only keep m) ≡ (if keep k then lookup k m else none)
unfolding lookup keep_only
lookup-keep_only_if keep k [] = ground arith
lookup-keep_only_if keep k ((j, r) ∷ m) = ground (arith, eq_iff j k, lookup-keep_only_if keep k m)

kept_if :
    (env : Env) (b : Bool) (s : State)
    → (if b then publish_pending env s else (tt, s)).1.pending ≡ s.pending
unfolding publish_pending ◌>>=◌ get emit
kept_if env true s = refl
kept_if env false s = refl

pub retain_pending-keep_only :
    (env : Env) (keep : Text → Bool) (s : State)
    → (retain_pending env keep s).1.pending ≡ keep_only keep s.pending
unfolding retain_pending
retain_pending-keep_only env keep s =
    kept_if env (drops keep s.pending) (record s { pending = keep_only keep s.pending })

module _ (P : Memory → Type 0) (env : Env) where
  write_planned-Holds :
      (w : FragmentWriter) (skipped : Assoc Error) (add : Assoc Text) (remove : List Text)
      → Holds P Any (write_planned env w skipped add remove)
  unfolding write_planned write_fragment
  write_planned-Holds w skipped add remove =
      Holds-if P Any env.dry_run _ _ (λ _. Holds-counted P Any _ _ tt)
        λ _.
          Holds-bind P Any _ _
            (Holds-bind P Any (perform (fragment_apply add remove) _) _ (Holds-perform P _ _)
              λ now _. Holds-counted P Any _ now tt)
            λ now _.
              Holds-result P Any now _ _ (λ e _. Holds-done P _) (λ r _. Holds-counted P Any _ _ tt)

  pub apply_coredns-Holds :
      (creates deletes : List Endpoint) → Holds P Any (apply_coredns env creates deletes)
  unfolding apply_coredns
  apply_coredns-Holds creates deletes =
      Holds-option P Any env.coredns _ _ (λ _. Holds-done P _)
        λ w _.
          let planned = plan_rewrites env w creates empty_rewrites in
          let remove = removals env deletes in
          Holds-if P Any (is_empty planned.added && is_empty remove) _ _ (λ _. Holds-done P _)
            (λ _. write_planned-Holds w planned.skipped planned.added remove)

  reconcile_names-Holds : (eps : List Endpoint) → Holds P Any (reconcile_names env eps)
  unfolding reconcile_names
  reconcile_names-Holds [] = Holds-done P []
  reconcile_names-Holds (ep ∷ eps) =
      Holds-bind P Any (apply_coredns env (ep ∷ eps) []) _ (apply_coredns-Holds (ep ∷ eps) [])
        λ answer _. Holds-result P Any answer _ _ (λ e _. Holds-done P _) (λ k _. Holds-done P _)

  pub reconcile-Holds :
      (desired : List Endpoint) → Holds P Any (reconcile_existing_coredns env desired)
  unfolding reconcile_existing_coredns
  reconcile-Holds desired =
      Holds-option P Any env.coredns _ _ (λ _. Holds-done P _)
        λ w _. Holds-bind P Any get _ (Holds-get P) λ s _.
          Holds-if P Any (is_empty s.records_hosts) _ _ (λ _. Holds-done P _)
            (λ _. reconcile_names-Holds (existing_only s.records_hosts desired))

  prune_write-Holds :
      (w : FragmentWriter) (remove : List Text) → Holds P Any (prune_write env w remove)
  unfolding prune_write write_fragment
  prune_write-Holds w remove =
      Holds-if P Any env.dry_run _ _ (λ _. Holds-emit P _)
        λ _.
          Holds-bind P Any _ _
            (Holds-bind P Any (perform (fragment_apply [] remove) _) _ (Holds-perform P _ _)
              λ now _. Holds-counted P Any _ now tt)
            λ now _.
              Holds-result P Any now _ _ (λ e _. Holds-done P _)
                (λ r _. Holds-bind P Any (emit _) _ (Holds-emit P _) λ _ _. Holds-emit P _)

  prune_from-Holds :
      (w : FragmentWriter) (owned desired : List Text)
      → Holds P Any (prune_from env w owned desired)
  unfolding prune_from
  prune_from-Holds w owned desired =
      Holds-bind P Any (perform fragment_load w.load) _ (Holds-perform P _ _) λ current _.
        Holds-result P Any current _ _ (λ e _. Holds-done P _)
          λ rewrites _.
            let remove = stale_hosts env owned desired (keys rewrites) in
            Holds-if P Any (is_empty remove) _ _ (λ _. Holds-done P tt)
              (λ _. prune_write-Holds w (sort_strings remove))

  pub prune_coredns-Holds : (desired : List Text) → Holds P Any (prune_coredns env desired)
  unfolding prune_coredns prune_enabled
  prune_coredns-Holds desired =
      Holds-option P Any env.coredns _ _ (λ _. Holds-done P _)
        λ w _.
          Holds-if P Any (not env.coredns_prune) _ _ (λ _. Holds-done P _)
            λ _. Holds-bind P Any get _ (Holds-get P) λ s _.
              Holds-option P Any (owned_snapshot s) _ _ (λ _. Holds-done P _)
                (λ owned _. prune_from-Holds w owned desired)
