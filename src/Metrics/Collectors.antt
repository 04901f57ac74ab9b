-- ===== src/Metrics/Collectors.antt =====
-- internal/metrics/metrics.go: the collectors that `New` builds and `MustRegister` registers, and the
-- methods that call them.
pub mod Valid
use external_dns_cloudflare.Prelude.{
  ◌==◌, arith, contains-none, sym, All-mono, refl, &&-true, ◌&&◌, ◌≢◌, contains, inr, Pairwise, not,
  map, All, inl, Assoc, [], ◌∷◌, IsIn, length, ℕ, codes, Bool, List, Text, ◌≡◌, true, false,
}
use external_dns_cloudflare.Metrics.{
  Collector, Op, Reason, Update, inc, add_to, set_to, observe, pending_reasons, api_requests,
  routes_created, routes_deleted, routes_adopted, apply_duration, records_managed, dry_run,
  dry_run_skipped, coredns_writes, coredns_rewrite, routes_pending, list_errors, routes_retarget,
  routes_by_tunnel, routes_undesired, routes_out_of_filter, coredns_pruned, set_reasons,
  set_tunnels, unless_nil,
}
use external_dns_cloudflare.Metrics

pub data Kind : Type 0 where
  counter gauge histogram : Kind

-- What a collector is built with: its kind, its name, and the names of its labels
pub record Options : Type 0 where
  pub kind : Kind
  pub name : Text
  pub labels : List Text

options : Kind → Text → List Text → Options
options kind name labels = record { kind = kind; name = name; labels = labels }

-- `New`
unfoldable pub options_of : Collector → Options
unfolding options
options_of api_requests =
    options counter (codes "api_requests_total") (codes "operation" ∷ codes "result" ∷ [])
options_of routes_created = options counter (codes "routes_created_total") []
options_of routes_deleted = options counter (codes "routes_deleted_total") []
options_of routes_adopted = options counter (codes "routes_adopted_total") []
options_of apply_duration = options histogram (codes "apply_duration_seconds") []
options_of records_managed = options gauge (codes "records_managed") []
options_of dry_run = options gauge (codes "dry_run") []
options_of dry_run_skipped =
    options counter (codes "dry_run_skipped_total") (codes "operation" ∷ [])
options_of coredns_writes = options counter (codes "coredns_writes_total") (codes "result" ∷ [])
options_of coredns_rewrite = options gauge (codes "coredns_rewrites") []
options_of routes_pending = options gauge (codes "routes_pending") (codes "reason" ∷ [])
options_of list_errors = options counter (codes "list_errors_total") (codes "tunnel_id" ∷ [])
options_of routes_retarget = options counter (codes "routes_retargeted_total") []
options_of routes_by_tunnel = options gauge (codes "routes_by_tunnel") (codes "tunnel_id" ∷ [])
options_of routes_undesired = options gauge (codes "routes_undesired") []
options_of routes_out_of_filter = options gauge (codes "routes_out_of_filter") []
options_of coredns_pruned = options counter (codes "coredns_pruned_total") []

-- `MustRegister`
unfoldable pub registered : List Collector
registered =
    api_requests ∷ routes_created ∷ routes_deleted ∷ routes_adopted ∷ apply_duration
    ∷ records_managed ∷ dry_run ∷ dry_run_skipped ∷ coredns_writes ∷ coredns_rewrite
    ∷ routes_pending ∷ list_errors ∷ routes_retarget ∷ routes_by_tunnel ∷ routes_undesired
    ∷ routes_out_of_filter ∷ coredns_pruned ∷ []

-- A call of a method of `Metrics`
pub data Method : Type 0 where
  api_request : Op → Bool → Method
  route_created route_deleted route_adopted route_retargeted observe_apply : Method
  coredns_write set_dry_run : Bool → Method
  dry_run_skip : Op → Method
  set_coredns_rewrites set_records_managed set_routes_undesired : ℕ → Method
  set_routes_out_of_filter coredns_prune_count : ℕ → Method
  set_routes_pending : (Reason → ℕ) → Method
  list_error : Text → Method
  set_routes_by_tunnel : Assoc ℕ → Method

unfoldable pub updates_of : Bool → Method → List Update
updates_of m (api_request op fine) = Metrics.api_request m op fine
updates_of m route_created = Metrics.route_created m
updates_of m route_deleted = Metrics.route_deleted m
updates_of m route_adopted = Metrics.route_adopted m
updates_of m route_retargeted = Metrics.route_retargeted m
updates_of m observe_apply = Metrics.observe_apply m
updates_of m (coredns_write fine) = Metrics.coredns_write m fine
updates_of m (set_dry_run on) = Metrics.set_dry_run m on
updates_of m (dry_run_skip op) = Metrics.dry_run_skip m op
updates_of m (set_coredns_rewrites n) = Metrics.set_coredns_rewrites m n
updates_of m (set_records_managed n) = Metrics.set_records_managed m n
updates_of m (set_routes_undesired n) = Metrics.set_routes_undesired m n
updates_of m (set_routes_out_of_filter n) = Metrics.set_routes_out_of_filter m n
updates_of m (coredns_prune_count n) = Metrics.coredns_prune_count m n
updates_of m (set_routes_pending counts) = Metrics.set_routes_pending m counts
updates_of m (list_error tid) = Metrics.list_error m tid
updates_of m (set_routes_by_tunnel counts) = Metrics.set_routes_by_tunnel m counts
