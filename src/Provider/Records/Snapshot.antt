-- ===== src/Provider/Records/Snapshot.antt =====
-- When the snapshot that `Records` of internal/provider/provider.go keeps is taken to be complete.
use external_dns_cloudflare.Prelude.{
  length, ok, err, Result, contains, not, [], refl, ◌∙◌, inr, Bool-cases, inl, Bool, ◌∷◌,
  Result-cases, succeeds, List, Text, ◌≡◌, true, false,
}
use external_dns_cloudflare.Provider.State.{
  ◌>>◌, Env, State, M, ◌>>=◌, get, modify, emit, pure, perform,
}
use external_dns_cloudflare.Metrics.{
  set_routes_by_tunnel, set_records_managed, set_routes_out_of_filter,
}
use external_dns_cloudflare.Provider.Records.{
  conclude, Scan, records, scan_tunnels, list_counted, finish_records, mark_records_incomplete,
  remember_record_hosts, log_set_change, empty_scan,
}
use external_dns_cloudflare.Errors.{Error}
use external_dns_cloudflare.Tunnel.{tunnels}
use external_dns_cloudflare.Provider.Pending.{retain_pending, publish_pending, drops}

-- The action leaves the flag as it is.
abbrev KeepsFlag : {A : Type 0} → M A → Type 0
KeepsFlag m = (s : State) → (m s).1.records_ok ≡ s.records_ok

module _ (env : Env) where
  list_counted-KeepsFlag : (tid label : Text) → KeepsFlag (list_counted env tid label)
  unfolding list_counted ◌>>=◌ perform emit pure
  list_counted-KeepsFlag tid label s =
      elim (Result-cases (env.client.list_hostname_routes s.calls tid)) [
        | inl (routes, e) ↦ rw e refl
        | inr (x, e) ↦ rw e refl
      ]

  scan_tunnels-KeepsFlag : (tids : List Text) (a : Scan) → KeepsFlag (scan_tunnels env tids a)
  unfolding scan_tunnels ◌>>=◌ pure
  scan_tunnels-KeepsFlag [] a s = refl
  scan_tunnels-KeepsFlag (tid ∷ tids) a s = elim (Result-cases (list_counted env tid tid s).0) [
    | inl (routes, e) ↦
        rw (scan_tunnels, e) (scan_tunnels-KeepsFlag tids _ _ ∙ list_counted-KeepsFlag tid tid s)
    | inr (x, e) ↦ rw (scan_tunnels, e) (list_counted-KeepsFlag tid tid s)
  ]

  retain_pending-KeepsFlag : (keep : Text → Bool) → KeepsFlag (retain_pending env keep)
  unfolding retain_pending publish_pending ◌>>=◌ get emit
  retain_pending-KeepsFlag keep s = elim (Bool-cases (drops keep s.pending)) [
    | inl e ↦ rw e refl
    | inr e ↦ rw e refl
  ]

  -- `finish_records` up to its last call
  prepare : Scan → M (Unit {0})
  unfolding log_set_change remember_record_hosts
  prepare a = do
    emit (set_routes_by_tunnel env.metrics a.per_tunnel)
    emit (set_records_managed env.metrics (length a.out))
    emit (set_routes_out_of_filter env.metrics (length a.out_of_filter))
    log_set_change (λ s. s.last_out_of_filter) (λ k s. record s { last_out_of_filter = k })
        a.out_of_filter
    remember_record_hosts a.out a.owned

  finish_records_complete : (a : Scan) (s : State) → (finish_records env a s).1.records_ok ≡ true
  unfolding finish_records prepare ◌>>=◌ get emit modify
  finish_records_complete a s =
      let s' : State = (prepare a s).1 in
      retain_pending-KeepsFlag (λ host. not (contains host s'.records_hosts)) s'

  conclude-succeeds :
      (q : Result Error Scan) (s : State)
      → s.records_ok ≡ false
      → (conclude env q s).1.records_ok ≡ succeeds (conclude env q s).0
  unfolding conclude ◌>>=◌ pure
  conclude-succeeds (err e) s h = h
  conclude-succeeds (ok a) s h = finish_records_complete a s

  -- After `Records`, the snapshot is taken to be complete just if it has succeeded.
  pub records-succeeds : (s : State) → (records env s).1.records_ok ≡ succeeds (records env s).0
  unfolding records ◌>>=◌ modify mark_records_incomplete
  records-succeeds s =
      let s0 : State = record s { records_ok = false } in
      let (q, s1) = scan_tunnels env (tunnels env.resolver) empty_scan s0 in
      conclude-succeeds q s1 (scan_tunnels-KeepsFlag (tunnels env.resolver) empty_scan s0)
