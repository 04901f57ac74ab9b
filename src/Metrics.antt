-- ===== src/Metrics.antt =====
-- internal/metrics/metrics.go: what each method tells the Prometheus collectors. A method of a nil
-- `*Metrics` does nothing; the first argument of each function says whether it is not nil.
pub mod Collectors
use external_dns_cloudflare.Prelude.{[], if◌then◌else◌, ◌∷◌, codes, Assoc, Bool, Text, List, ℕ}

-- The fields of `Metrics`
pub data Collector : Type 0 where
  api_requests routes_created routes_deleted routes_adopted apply_duration records_managed :
      Collector
  dry_run dry_run_skipped coredns_writes coredns_rewrite routes_pending list_errors : Collector
  routes_retarget routes_by_tunnel routes_undesired routes_out_of_filter coredns_pruned : Collector

-- A call of a collector, with the values of its labels
pub data Update : Type 0 where
  inc : Collector → List Text → Update
  add_to : Collector → ℕ → Update
  set_to : Collector → List Text → ℕ → Update
  -- the seconds are not modelled
  observe : Collector → Update

pub data Op : Type 0 where
  op_list op_create op_delete op_patch op_retarget op_fragment op_prune : Op

unfoldable pub op_label : Op → Text
op_label op_list = codes "list"
op_label op_create = codes "create"
op_label op_delete = codes "delete"
op_label op_patch = codes "patch"
op_label op_retarget = codes "retarget"
op_label op_fragment = codes "fragment"
op_label op_prune = codes "prune"

-- Why a create is refused as already routed
pub data Reason : Type 0 where
  pending_self pending_other pending_untagged pending_unknown : Reason

unfoldable pub reason_label : Reason → Text
reason_label pending_self = codes "self"
reason_label pending_other = codes "other"
reason_label pending_untagged = codes "untagged"
reason_label pending_unknown = codes "unknown"

unfoldable pub pending_reasons : List Reason
pending_reasons = pending_self ∷ pending_other ∷ pending_untagged ∷ pending_unknown ∷ []

-- `result` of `APIRequest` and `CoreDNSWrite`
unfoldable pub result_label : Bool → Text
result_label ok = if ok then codes "success" else codes "error"

unfoldable pub unless_nil : Bool → List Update → List Update
unless_nil m us = if m then us else []

unfoldable pub api_request : Bool → Op → Bool → List Update
unfolding unless_nil
api_request m operation ok =
    unless_nil m (inc api_requests (op_label operation ∷ result_label ok ∷ []) ∷ [])

unfoldable pub route_created : Bool → List Update
unfolding unless_nil
route_created m = unless_nil m (inc routes_created [] ∷ [])

unfoldable pub route_deleted : Bool → List Update
unfolding unless_nil
route_deleted m = unless_nil m (inc routes_deleted [] ∷ [])

unfoldable pub route_adopted : Bool → List Update
unfolding unless_nil
route_adopted m = unless_nil m (inc routes_adopted [] ∷ [])

unfoldable pub route_retargeted : Bool → List Update
unfolding unless_nil
route_retargeted m = unless_nil m (inc routes_retarget [] ∷ [])

unfoldable pub coredns_write : Bool → Bool → List Update
unfolding unless_nil
coredns_write m ok = unless_nil m (inc coredns_writes (result_label ok ∷ []) ∷ [])

unfoldable pub set_coredns_rewrites : Bool → ℕ → List Update
unfolding unless_nil
set_coredns_rewrites m n = unless_nil m (set_to coredns_rewrite [] n ∷ [])

unfoldable pub observe_apply : Bool → List Update
unfolding unless_nil
observe_apply m = unless_nil m (observe apply_duration ∷ [])

unfoldable pub set_records_managed : Bool → ℕ → List Update
unfolding unless_nil
set_records_managed m n = unless_nil m (set_to records_managed [] n ∷ [])

unfoldable pub set_dry_run : Bool → Bool → List Update
unfolding unless_nil
set_dry_run m on = unless_nil m (set_to dry_run [] (if on then 1 else 0) ∷ [])

unfoldable pub dry_run_skip : Bool → Op → List Update
unfolding unless_nil
dry_run_skip m operation = unless_nil m (inc dry_run_skipped (op_label operation ∷ []) ∷ [])

set_reasons : List Reason → (Reason → ℕ) → List Update
set_reasons [] counts = []
set_reasons (r ∷ rs) counts =
    set_to routes_pending (reason_label r ∷ []) (counts r) ∷ set_reasons rs counts

-- Every reason is written, so that one with no hosts reads 0.
unfoldable pub set_routes_pending : Bool → (Reason → ℕ) → List Update
unfolding unless_nil set_reasons pending_reasons
set_routes_pending m counts = unless_nil m (set_reasons pending_reasons counts)

unfoldable pub list_error : Bool → Text → List Update
unfolding unless_nil
list_error m tunnel_id = unless_nil m (inc list_errors (tunnel_id ∷ []) ∷ [])

set_tunnels : Assoc ℕ → List Update
set_tunnels [] = []
set_tunnels ((tid, n) ∷ counts) = set_to routes_by_tunnel (tid ∷ []) n ∷ set_tunnels counts

unfoldable pub set_routes_by_tunnel : Bool → Assoc ℕ → List Update
unfolding unless_nil set_tunnels
set_routes_by_tunnel m counts = unless_nil m (set_tunnels counts)

unfoldable pub set_routes_undesired : Bool → ℕ → List Update
unfolding unless_nil
set_routes_undesired m n = unless_nil m (set_to routes_undesired [] n ∷ [])

unfoldable pub set_routes_out_of_filter : Bool → ℕ → List Update
unfolding unless_nil
set_routes_out_of_filter m n = unless_nil m (set_to routes_out_of_filter [] n ∷ [])

unfoldable pub coredns_prune_count : Bool → ℕ → List Update
unfolding unless_nil
coredns_prune_count m n = unless_nil m (add_to coredns_pruned n ∷ [])
