-- ===== src/Metrics/Collectors/Valid.antt =====
-- Every method of internal/metrics/metrics.go calls its collectors as `New` has built them.
use external_dns_cloudflare.Metrics.Collectors.{
  set_routes_out_of_filter, set_routes_undesired, set_records_managed, set_coredns_rewrites,
  dry_run_skip, set_dry_run, coredns_write, api_request, Kind, counter, gauge, histogram, options,
  options_of, registered, Method, updates_of, route_created, route_deleted, route_adopted,
  route_retargeted, observe_apply, coredns_prune_count, set_routes_pending, list_error,
  set_routes_by_tunnel,
}
use external_dns_cloudflare.Prelude.{
  ◌==◌, arith, contains-none, sym, All-mono, refl, &&-true, ◌&&◌, ◌≢◌, contains, inr, Pairwise, not,
  map, All, inl, Assoc, [], ◌∷◌, IsIn, length, ℕ, Bool, List, Text, ◌≡◌, true, false,
}
use external_dns_cloudflare.Metrics.{
  Collector, Op, Reason, Update, inc, add_to, set_to, observe, pending_reasons, api_requests,
  routes_created, routes_deleted, routes_adopted, apply_duration, records_managed, dry_run,
  dry_run_skipped, coredns_writes, coredns_rewrite, routes_pending, list_errors, routes_retarget,
  routes_by_tunnel, routes_undesired, routes_out_of_filter, coredns_pruned, set_reasons,
  set_tunnels, unless_nil,
}
use external_dns_cloudflare.Metrics

-- The collector is of the kind, has as many labels, and is registered.
abbrev pub Fits : Collector → Kind → List Text → Type 0
Fits c kind values =
    ((options_of c).kind ≡ kind)
    × (length (options_of c).labels ≡ length values)
    × IsIn c registered

-- The call is one that a collector of its kind has, with a value for each label.
abbrev pub IsValid : Update → Type 0
IsValid (inc c values) = Fits c counter values
IsValid (add_to c n) = Fits c counter []
IsValid (set_to c values n) = Fits c gauge values
IsValid (observe c) = Fits c histogram []

registered_all : (c : Collector) → IsIn c registered
unfolding registered
registered_all api_requests = inl refl
registered_all routes_created = inr (inl refl)
registered_all routes_deleted = inr (inr (inl refl))
registered_all routes_adopted = inr (inr (inr (inl refl)))
registered_all apply_duration = inr (inr (inr (inr (inl refl))))
registered_all records_managed = inr (inr (inr (inr (inr (inl refl)))))
registered_all dry_run = inr (inr (inr (inr (inr (inr (inl refl))))))
registered_all dry_run_skipped = inr (inr (inr (inr (inr (inr (inr (inl refl)))))))
registered_all coredns_writes = inr (inr (inr (inr (inr (inr (inr (inr (inl refl))))))))
registered_all coredns_rewrite = inr (inr (inr (inr (inr (inr (inr (inr (inr (inl refl)))))))))
registered_all routes_pending = inr (inr (inr (inr (inr (inr (inr (inr (inr (inr (inl refl))))))))))
registered_all list_errors =
    inr (inr (inr (inr (inr (inr (inr (inr (inr (inr (inr (inl refl)))))))))))
registered_all routes_retarget =
    inr (inr (inr (inr (inr (inr (inr (inr (inr (inr (inr (inr (inl refl))))))))))))
registered_all routes_by_tunnel =
    inr (inr (inr (inr (inr (inr (inr (inr (inr (inr (inr (inr (inr (inl refl)))))))))))))
registered_all routes_undesired =
    inr (inr (inr (inr (inr (inr (inr (inr (inr (inr (inr (inr (inr (inr (inl refl))))))))))))))
registered_all routes_out_of_filter =
    inr
      (inr (inr (inr (inr (inr (inr (inr (inr (inr (inr (inr (inr (inr (inr (inl refl)))))))))))))))
registered_all coredns_pruned = inr (
    inr (
      inr (inr (inr (inr (inr (inr (inr (inr (inr (inr (inr (inr (inr (inr (inl refl))))))))))))))))

set_reasons-IsValid :
    (reasons : List Reason) (counts : Reason → ℕ) → All IsValid (set_reasons reasons counts)
unfolding set_reasons options_of options
set_reasons-IsValid [] counts = tt
set_reasons-IsValid (r ∷ rs) counts =
    ((refl, refl, registered_all routes_pending), set_reasons-IsValid rs counts)

set_tunnels-IsValid : (counts : Assoc ℕ) → All IsValid (set_tunnels counts)
unfolding set_tunnels options_of options
set_tunnels-IsValid [] = tt
set_tunnels-IsValid ((tid, n) ∷ counts) =
    ((refl, refl, registered_all routes_by_tunnel), set_tunnels-IsValid counts)

-- A nil receiver makes no call.
nil_safe : (call : Method) → updates_of false call ≡ []
unfolding updates_of unless_nil Metrics.api_request Metrics.route_created Metrics.route_deleted
    Metrics.route_adopted Metrics.route_retargeted Metrics.observe_apply Metrics.coredns_write
    Metrics.set_dry_run Metrics.dry_run_skip Metrics.set_coredns_rewrites
    Metrics.set_records_managed Metrics.set_routes_undesired Metrics.set_routes_out_of_filter
    Metrics.coredns_prune_count Metrics.set_routes_pending Metrics.list_error
    Metrics.set_routes_by_tunnel
nil_safe (api_request op fine) = refl
nil_safe route_created = refl
nil_safe route_deleted = refl
nil_safe route_adopted = refl
nil_safe route_retargeted = refl
nil_safe observe_apply = refl
nil_safe (coredns_write fine) = refl
nil_safe (set_dry_run on) = refl
nil_safe (dry_run_skip op) = refl
nil_safe (set_coredns_rewrites n) = refl
nil_safe (set_records_managed n) = refl
nil_safe (set_routes_undesired n) = refl
nil_safe (set_routes_out_of_filter n) = refl
nil_safe (coredns_prune_count n) = refl
nil_safe (set_routes_pending counts) = refl
nil_safe (list_error tid) = refl
nil_safe (set_routes_by_tunnel counts) = refl

-- Every call that a method makes, of a nil receiver or not, is one that a registered collector of its
-- kind has, with a value for each of its labels.
pub updates_of-IsValid : (m : Bool) (call : Method) → All IsValid (updates_of m call)
unfolding updates_of unless_nil options_of options Metrics.api_request Metrics.route_created
    Metrics.route_deleted Metrics.route_adopted Metrics.route_retargeted Metrics.observe_apply
    Metrics.coredns_write Metrics.set_dry_run Metrics.dry_run_skip Metrics.set_coredns_rewrites
    Metrics.set_records_managed Metrics.set_routes_undesired Metrics.set_routes_out_of_filter
    Metrics.coredns_prune_count Metrics.set_routes_pending Metrics.list_error
    Metrics.set_routes_by_tunnel pending_reasons
updates_of-IsValid false call = rw nil_safe tt
updates_of-IsValid true (api_request op fine) = ((refl, refl, registered_all api_requests), tt)
updates_of-IsValid true route_created = ((refl, refl, registered_all routes_created), tt)
updates_of-IsValid true route_deleted = ((refl, refl, registered_all routes_deleted), tt)
updates_of-IsValid true route_adopted = ((refl, refl, registered_all routes_adopted), tt)
updates_of-IsValid true route_retargeted = ((refl, refl, registered_all routes_retarget), tt)
updates_of-IsValid true observe_apply = ((refl, refl, registered_all apply_duration), tt)
updates_of-IsValid true (coredns_write fine) = ((refl, refl, registered_all coredns_writes), tt)
updates_of-IsValid true (set_dry_run on) = ((refl, refl, registered_all dry_run), tt)
updates_of-IsValid true (dry_run_skip op) = ((refl, refl, registered_all dry_run_skipped), tt)
updates_of-IsValid true (set_coredns_rewrites n) =
    ((refl, refl, registered_all coredns_rewrite), tt)
updates_of-IsValid true (set_records_managed n) = ((refl, refl, registered_all records_managed), tt)
updates_of-IsValid true (set_routes_undesired n) =
    ((refl, refl, registered_all routes_undesired), tt)
updates_of-IsValid true (set_routes_out_of_filter n) =
    ((refl, refl, registered_all routes_out_of_filter), tt)
updates_of-IsValid true (coredns_prune_count n) = ((refl, refl, registered_all coredns_pruned), tt)
updates_of-IsValid true (set_routes_pending counts) = set_reasons-IsValid pending_reasons counts
updates_of-IsValid true (list_error tid) = ((refl, refl, registered_all list_errors), tt)
updates_of-IsValid true (set_routes_by_tunnel counts) = set_tunnels-IsValid counts

distinct : List Text → Bool
distinct [] = true
distinct (x ∷ xs) = not (contains x xs) && distinct xs

distinct-Pairwise : (xs : List Text) → distinct xs ≡ true → Pairwise (λ x y. x ≢ y) xs
unfolding distinct
distinct-Pairwise [] h = tt
distinct-Pairwise (x ∷ xs) h =
    let (fresh, rest) = &&-true (not (contains x xs)) (distinct xs) h in
    (
      All-mono _ _ xs (λ y n e. n (sym e)) (contains-none x xs (ground arith)),
      distinct-Pairwise xs rest,
    )

-- No two of the collectors that are registered have one name, and every collector is registered.
pub registered-Pairwise :
    Pairwise (λ x y. x ≢ y) (map (λ c. (options_of c).name) registered)
    × ((c : Collector) → IsIn c registered)
unfolding registered options_of options distinct contains ◌==◌
registered-Pairwise =
    (distinct-Pairwise (map (λ c. (options_of c).name) registered) refl, registered_all)
