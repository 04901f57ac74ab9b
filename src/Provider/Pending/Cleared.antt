-- ===== src/Provider/Pending/Cleared.antt =====
-- Which hostnames stay pending: what `Records` and `AdjustEndpoints` of
-- internal/provider/provider.go leave of them.
use external_dns_cloudflare.Prelude.{
  length, sym, ◌∙◌, refl, ap, none, contains, true, not, ok, lookup, ◌∷◌, [], if◌then◌else◌, err,
  Text, ◌≡◌, false, Option, Result, List, Assoc, Bool,
}
use mathlib.Core.Path.{subst}
use external_dns_cloudflare.Errors.{Error}
use external_dns_cloudflare.Metrics.{
  Reason, set_routes_by_tunnel, set_records_managed, set_routes_out_of_filter,
}
use external_dns_cloudflare.Tunnel.{tunnels}
use external_dns_cloudflare.Provider.State.{
  Env, Endpoint, State, M, ◌>>=◌, ◌>>◌, pure, get, modify, emit, list_routes,
}
use external_dns_cloudflare.Provider.Pending.{keep_only, retain_pending}
use external_dns_cloudflare.Provider.Records.{
  Scan, list_counted, scan_tunnels, log_set_change, host_set, mark_records_incomplete,
  remember_record_hosts, empty_scan, finish_records, conclude, records,
}
use external_dns_cloudflare.Provider.CoreDns.{reconcile_existing_coredns, prune_coredns}
use external_dns_cloudflare.Provider.Adjust.{
  adjust_all, report_undesired, adjust_endpoints, undesired_of,
}
use external_dns_cloudflare.Provider.Pending.Holds.{
  Memory, memory, Holds, Any, Holds-done, Holds-emit, Holds-get, Holds-bind, Holds-result,
  Holds-counted, Holds-answered,
}
use external_dns_cloudflare.Provider.Pending.Kept.{
  lookup-keep_only_if, retain_pending-keep_only, reconcile-Holds, prune_coredns-Holds,
}

either_pending :
    (b : Bool) (s s' : State) (m : Assoc Reason)
    → s.pending ≡ m
    → s'.pending ≡ m
    → (if b then s else s').pending ≡ m
either_pending true s s' m e e' = e
either_pending false s s' m e e' = e'

either_memory :
    (b : Bool) (s s' : State) (m : Memory)
    → memory s ≡ m
    → memory s' ≡ m
    → memory (if b then s else s') ≡ m
either_memory true s s' m e e' = e
either_memory false s s' m e e' = e'

-- The hostnames of the endpoints
abbrev pub hosts_of : List Endpoint → List Text
hosts_of eps = host_set eps []

-- What `Records` leaves of the pending hostnames: all if it fails, and else those that it does not
-- report.
abbrev pub Leaves : Result Error (List Endpoint) → Assoc Reason → Assoc Reason → Type 0
Leaves (err e) before now = now ≡ before
Leaves (ok eps) before now =
    (host : Text)
    → lookup host now ≡ (if contains host (hosts_of eps) then none else lookup host before)

if-not : (b : Bool) (o : Option Reason) → (if not b then o else none) ≡ (if b then none else o)
if-not true o = refl
if-not false o = refl

module _ (env : Env) where
  undesired-Holds :
      (P : Memory → Type 0) (hosts : List Text)
      → Holds P Any
          (log_set_change (λ s. s.last_undesired) (λ k s. record s { last_undesired = k }) hosts)
  unfolding log_set_change
  undesired-Holds P hosts = record {
    kept = λ s p. subst P (sym (either_memory _ _ _ (memory s) refl refl)) p;
    result = λ s p. tt;
  }

  pub report_undesired-Holds :
      (P : Memory → Type 0) (desired : List Text) → Holds P Any (report_undesired env desired)
  unfolding report_undesired
  report_undesired-Holds P desired = Holds-bind P Any get _ (Holds-get P) λ s _.
      Holds-bind P Any (emit _) _ (Holds-emit P _)
        λ _ _. undesired-Holds P (undesired_of desired s.records_hosts)

  reported-Holds :
      (P : Memory → Type 0) (out : List Endpoint) (desired : List Text) (errs : List Error)
      → let m : M (Result (List Error) (List Endpoint)) = elim errs [
        | (e ∷ es) ↦ pure (err (e ∷ es))
        | [] ↦ (do report_undesired env desired; prune_coredns env desired; pure (ok out))
      ] in
        Holds P Any m
  reported-Holds P out desired (e ∷ es) = Holds-done P _
  reported-Holds P out desired [] =
      Holds-bind P Any (report_undesired env desired) _ (report_undesired-Holds P desired) λ _ _.
        Holds-bind P Any (prune_coredns env desired) _ (prune_coredns-Holds P env desired)
          λ _ _. Holds-done P (ok out)

  -- After `AdjustEndpoints`, the hostnames that are pending are those that were and that are desired,
  -- each for the reason that it was, whether or not an error is returned.
  pub adjust_endpoints-pending :
      (eps : List Endpoint) (s : State) (host : Text)
      → lookup host (adjust_endpoints env eps s).1.pending
        ≡ (if contains host (hosts_of (adjust_all env eps)) then lookup host s.pending else none)
  unfolding adjust_endpoints ◌>>=◌
  adjust_endpoints-pending eps s host =
      let out = adjust_all env eps in
      let desired = hosts_of out in
      let keep : Text → Bool = λ h. contains h desired in
      let P : Memory → Type 0 = λ m. m.0 ≡ keep_only keep s.pending in
      let later =
        Holds-bind P Any (reconcile_existing_coredns env out) _ (reconcile-Holds P env out)
          λ errs _. reported-Holds P out desired errs in
      ap (lookup host)
        (later.kept (retain_pending env keep s).1 (retain_pending-keep_only env keep s))
      ∙ lookup-keep_only_if keep host s.pending

  pub list_counted-Holds :
      (P : Memory → Type 0) (tid label : Text) → Holds P Any (list_counted env tid label)
  unfolding list_counted
  list_counted-Holds P tid label =
      Holds-answered P Any (list_routes tid) _ _ _ _ (λ e h _. Holds-counted P Any _ _ tt)
        (λ a h _. Holds-done P _)

  scan_tunnels-Holds :
      (P : Memory → Type 0) (tids : List Text) (a : Scan) → Holds P Any (scan_tunnels env tids a)
  unfolding scan_tunnels
  scan_tunnels-Holds P [] a = Holds-done P (ok a)
  scan_tunnels-Holds P (tid ∷ tids) a =
      Holds-bind P Any (list_counted env tid tid) _ (list_counted-Holds P tid tid) λ answer _.
        Holds-result P Any answer _ _ (λ e _. Holds-done P _)
          (λ routes _. scan_tunnels-Holds P tids _)

  finish_records-keep_only :
      (a : Scan) (s : State)
      → (finish_records env a s).1.pending
        ≡ keep_only (λ h. not (contains h (hosts_of a.out))) s.pending
  unfolding finish_records log_set_change remember_record_hosts ◌>>=◌ pure get modify emit
  finish_records-keep_only a s =
      let keep : Text → Bool = λ h. not (contains h (hosts_of a.out)) in
      let counted : M (Unit {0}) =
        emit (set_routes_by_tunnel env.metrics a.per_tunnel)
        >> (emit (set_records_managed env.metrics (length a.out))
            >> emit (set_routes_out_of_filter env.metrics (length a.out_of_filter))) in
      let s1 : State = (counted s).1 in
      let s2 : State =
        (log_set_change (λ s. s.last_out_of_filter) (λ k s. record s { last_out_of_filter = k })
          a.out_of_filter s1).1 in
      let s3 : State = (remember_record_hosts a.out a.owned s2).1 in
      retain_pending-keep_only env keep s3
      ∙ ap (keep_only keep) (either_pending _ _ _ s.pending refl refl)

  conclude-Leaves :
      (q : Result Error Scan) (s : State)
      → Leaves (conclude env q s).0 s.pending (conclude env q s).1.pending
  unfolding conclude ◌>>=◌ pure
  conclude-Leaves (err e) s = refl
  conclude-Leaves (ok a) s = λ host.
      ap (lookup host) (finish_records-keep_only a s)
      ∙ lookup-keep_only_if (λ h. not (contains h (hosts_of a.out))) host s.pending
      ∙ if-not (contains host (hosts_of a.out)) (lookup host s.pending)

  -- After `Records`, the hostnames that are pending are those that were, if it fails, and if it
  -- succeeds, those that were and that it does not report, each for the reason that it was.
  pub records-pending : (s : State) → Leaves (records env s).0 s.pending (records env s).1.pending
  unfolding records mark_records_incomplete ◌>>=◌ modify
  records-pending s =
      let s0 : State = record s { records_ok = false } in
      let scan = scan_tunnels env (tunnels env.resolver) empty_scan in
      let same =
        (scan_tunnels-Holds (λ m. m.0 ≡ s.pending) (tunnels env.resolver) empty_scan).kept s0
          refl in
      subst (λ m. Leaves (records env s).0 m (records env s).1.pending) same
        (conclude-Leaves (scan s0).0 (scan s0).1)
