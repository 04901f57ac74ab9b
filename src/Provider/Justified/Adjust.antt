-- ===== src/Provider/Justified/Adjust.antt =====
-- What `AdjustEndpoints` may call.
use external_dns_cloudflare.Prelude.{
  ok, err, contains, Result, inr, inl, Bool-cases, ◌⊎◌, refl, false, [], ◌∷◌, if◌then◌else◌, true,
  List, Text, Bool, ◌≡◌,
}
use external_dns_cloudflare.Provider.State.{
  Env, Endpoint, State, Call, History, M, ◌>>=◌, get, emit, fragment_load, fragment_apply,
  list_routes, create_route, patch_comment, patch_route, delete_route, pure, ◌>>◌,
}
use external_dns_cloudflare.Provider.Yields.{
  Since, Since-none, Since-step, Keeps, AnyResult, Keeps-pure, Keeps-silent, Keeps-emit, Keeps-get,
  Keeps-bind, Yields-if, Yields-result, Yields-option, Since-mono, Since-trans,
}
use external_dns_cloudflare.Provider.Records.{log_set_change}
use external_dns_cloudflare.Provider.Pending.{retain_pending, publish_pending, keep_only, drops}
use external_dns_cloudflare.Provider.CoreDns.{
  apply_coredns, reconcile_names, reconcile_existing_coredns, existing_only, prune_coredns,
  is_empty, removals,
}
use external_dns_cloudflare.Provider.Adjust.{
  adjust_all, report_undesired, undesired_of, adjust_endpoints,
}
use external_dns_cloudflare.Provider.Justified.Fragment.{apply_coredns-Keeps}
use external_dns_cloudflare.Errors.{Error}
use external_dns_cloudflare.Provider.Pending.Holds.{Memory}
use external_dns_cloudflare.Provider.Pending.Kept.{reconcile-Holds}
use external_dns_cloudflare.Provider.Pending.Cleared.{hosts_of, report_undesired-Holds}
use external_dns_cloudflare.Provider.Justified.Prune.{PruneReason, MayPrune, prune_coredns-MayPrune}
use mathlib.Core.Path.{subst}

-- A call of `AdjustEndpoints`, for the owned hosts and the desired ones: a load, where pruning is
-- enabled, or a write, outside a dry run, that removes nothing or prunes
abbrev pub MayAdjust : Env → List Text → List Text → Call → Type 0
MayAdjust env owned desired fragment_load = env.coredns_prune ≡ true
MayAdjust env owned desired (fragment_apply add remove) =
    (env.dry_run ≡ false) × ((remove ≡ []) ⊎ PruneReason env owned desired add remove)
MayAdjust env owned desired _ = ⊥

retained_owned :
    (env : Env) (keep : Text → Bool) (s : State)
    → (retain_pending env keep s).1.owned_hosts ≡ s.owned_hosts
unfolding retain_pending publish_pending ◌>>=◌ get emit
retained_owned env keep s = elim (Bool-cases (drops keep s.pending)) [
  | inl e ↦ rw e refl
  | inr e ↦ rw e refl
]

module _ (Q : History → Type 0) where
  published-calls :
      (env : Env) (b : Bool) (s : State)
      → (if b then publish_pending env s else (tt, s)).1.calls ≡ s.calls
  unfolding publish_pending ◌>>=◌
  published-calls env true s = refl
  published-calls env false s = refl

  retain_pending-Keeps : (env : Env) (keep : Text → Bool) → Keeps Q (retain_pending env keep)
  unfolding retain_pending
  retain_pending-Keeps env keep = Keeps-silent Q (retain_pending env keep) λ s.
      published-calls env (drops keep s.pending) (record s { pending = keep_only keep s.pending })

  one_of-calls :
      (b : Bool) (h : History) (s s' : State)
      → s.calls ≡ h
      → s'.calls ≡ h
      → (if b then s else s').calls ≡ h
  one_of-calls true h s s' e e' = e
  one_of-calls false h s s' e e' = e'

  remember_undesired-Keeps :
      (hosts : List Text)
      → Keeps Q
          (log_set_change (λ s. s.last_undesired) (λ k s. record s { last_undesired = k }) hosts)
  unfolding log_set_change
  remember_undesired-Keeps hosts =
      Keeps-silent Q
        (log_set_change (λ s. s.last_undesired) (λ k s. record s { last_undesired = k }) hosts)
        λ s. one_of-calls _ s.calls _ _ refl refl

module _ (env : Env) (s : State) (desired : List Text) where
  abbrev Reason : Call → Type 0
  Reason = MayAdjust env s.owned_hosts desired

  abbrev Q : History → Type 0
  Q = Since Reason s.calls

  reconcile_names-Keeps : (eps : List Endpoint) → Keeps Q (reconcile_names env eps)
  unfolding reconcile_names removals
  reconcile_names-Keeps [] = Keeps-pure Q []
  reconcile_names-Keeps (ep ∷ eps) =
      Keeps-bind Q AnyResult (apply_coredns env (ep ∷ eps) []) _
        (apply_coredns-Keeps env Q (ep ∷ eps) []
          λ add wet h q. Since-step Reason s.calls (fragment_apply add []) h (wet, inl refl) q)
        λ answer.
          Yields-result Q AnyResult answer _ _ (λ e _. Keeps-pure Q _) (λ skipped _. Keeps-pure Q _)

  reconcile-Keeps : (eps : List Endpoint) → Keeps Q (reconcile_existing_coredns env eps)
  unfolding reconcile_existing_coredns
  reconcile-Keeps eps =
      Yields-option Q AnyResult env.coredns _ _ (λ _. Keeps-pure Q [])
        λ w _. Keeps-bind Q AnyResult get _ (Keeps-get Q) λ now.
          Yields-if Q AnyResult (is_empty now.records_hosts) _ _ (λ _. Keeps-pure Q [])
            λ _. reconcile_names-Keeps (existing_only now.records_hosts eps)

  report_undesired-Keeps : Keeps Q (report_undesired env desired)
  unfolding report_undesired
  report_undesired-Keeps = Keeps-bind Q AnyResult get _ (Keeps-get Q) λ now.
      Keeps-bind Q AnyResult (emit _) _ (Keeps-emit Q _)
        λ _. remember_undesired-Keeps Q (undesired_of desired now.records_hosts)

  -- The owned hosts are those of `s`.
  abbrev Same : Memory → Type 0
  Same m = m.1 ≡ s.owned_hosts

  MayPrune-MayAdjust :
      (now : State)
      → now.owned_hosts ≡ s.owned_hosts
      → (c : Call) → MayPrune env now desired c
      → Reason c
  MayPrune-MayAdjust now same fragment_load (on, _) = on
  MayPrune-MayAdjust now same (fragment_apply add remove) (_, why) =
      (why.wet, inr (subst (λ o. PruneReason env o desired add remove) same why))
  MayPrune-MayAdjust now same (list_routes tid) h = elim h [ ]
  MayPrune-MayAdjust now same (create_route host tid tag) h = elim h [ ]
  MayPrune-MayAdjust now same (patch_comment id tag) h = elim h [ ]
  MayPrune-MayAdjust now same (patch_route id p) h = elim h [ ]
  MayPrune-MayAdjust now same (delete_route id) h = elim h [ ]

  prune-Since :
      (now : State)
      → now.owned_hosts ≡ s.owned_hosts
      → Q now.calls
      → Q (prune_coredns env desired now).1.calls
  prune-Since now same q =
      Since-trans Reason s.calls now.calls (prune_coredns env desired now).1.calls q (
        Since-mono (MayPrune env now desired) Reason now.calls _ (MayPrune-MayAdjust now same)
          (prune_coredns-MayPrune env now desired))

  -- What follows the reconciliation
  finished :
      (out : List Endpoint) (errs : List Error) (now : State)
      → now.owned_hosts ≡ s.owned_hosts
      → Q now.calls
      → let m : M (Result (List Error) (List Endpoint)) = elim errs [
        | (e ∷ es) ↦ pure (err (e ∷ es))
        | [] ↦ (do report_undesired env desired; prune_coredns env desired; pure (ok out))
      ] in
        Q (m now).1.calls
  unfolding ◌>>=◌ pure
  finished out (e ∷ es) now same q = q
  finished out [] now same q =
      prune-Since (report_undesired env desired now).1
        ((report_undesired-Holds env Same desired).kept now same)
        (report_undesired-Keeps.calls now q)

-- `AdjustEndpoints` makes no call of the Cloudflare API, whatever was called before; it reads the
-- fragment only where pruning is enabled, and writes it only outside a dry run. Such a write removes
-- no rewrite, or it adds none and removes only those of hosts that were loaded, that no route has
-- which the last `Records` has found this instance to own, that are not desired, that pass the domain
-- filter and that resolve to a tunnel.
pub adjust_endpoints-MayAdjust :
    (env : Env) (eps : List Endpoint) (s : State)
    → Since
        (MayAdjust env s.owned_hosts (hosts_of (adjust_all env eps)))
        s.calls
        (adjust_endpoints env eps s).1.calls
unfolding adjust_endpoints ◌>>=◌
adjust_endpoints-MayAdjust env eps s =
    let out = adjust_all env eps in
    let desired = hosts_of out in
    let keep : Text → Bool = λ h. contains h desired in
    let first : State = (retain_pending env keep s).1 in
    let kept =
      (reconcile-Holds (Same env s desired) env out).kept first (retained_owned env keep s) in
    finished env s desired out (reconcile_existing_coredns env out first).0
      (reconcile_existing_coredns env out first).1 kept
      ((reconcile-Keeps env s desired out).calls first (
        (retain_pending-Keeps (Q env s desired) env keep).calls s
          (Since-none (MayAdjust env s.owned_hosts desired) s.calls)))
