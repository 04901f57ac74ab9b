-- ===== src/Provider/Records.antt =====
-- `Records` of internal/provider/provider.go, with the snapshot that it keeps for the other two
-- methods.
pub mod Snapshot
pub mod Listed
pub mod Owned
use external_dns_cloudflare.Prelude.{
  ◌++◌, ◌+◌, leb, lookup, none, contains, true, add, ◌==◌, insert, to_lower, some, is_some,
  if◌then◌else◌, err, [], join, ok, succeeds, ◌∷◌, ℕ, Assoc, ◌&&◌, not, codes, Result, length,
  false, Option, List, Bool, Text,
}
use external_dns_cloudflare.Errors.{Error}
use external_dns_cloudflare.Cloudflare.{HostnameRoute}
use external_dns_cloudflare.Tunnel.{target, tunnels}
use external_dns_cloudflare.Metrics.{
  api_request, op_list, list_error, set_records_managed, set_routes_by_tunnel,
  set_routes_out_of_filter,
}
use external_dns_cloudflare.Provider.State.{
  Env, State, Endpoint, M, ◌>>=◌, ◌>>◌, get, modify, emit, pure, perform, list_routes,
}
use external_dns_cloudflare.Provider.Ownership.{manageable}
use external_dns_cloudflare.Provider.Pending.{retain_pending}
use external_dns_cloudflare.Prelude.Sort.{sort_strings}

unfoldable pub record_type : Text
record_type = codes "CNAME"

unfoldable pub is_live : HostnameRoute → Bool
is_live r = not (is_some r.deleted_at)

-- A live route that this instance may manage
unfoldable pub is_eligible : Env → HostnameRoute → Bool
unfolding is_live
is_eligible env r = is_live r && manageable env.owner_id env.ownership_strict r

-- The variables of the loop of `Records`
pub record Scan : Type 0 where
  pub out : List Endpoint
  pub owned : List Text
  pub out_of_filter : List Text
  pub per_tunnel : Assoc ℕ

get_count : Option ℕ → ℕ
get_count none = 0
get_count (some n) = n

-- One round of the inner loop
unfoldable pub scan_route : Env → Text → HostnameRoute → Scan → Scan
unfolding get_count
scan_route env tid r a =
    let host = to_lower r.hostname in
    let counted : Scan = record a {
      per_tunnel = insert tid (get_count (lookup tid a.per_tunnel) + 1) a.per_tunnel;
      owned = add host a.owned;
    } in
    let outside : Scan = record counted { out_of_filter = a.out_of_filter ++ host ∷ [] } in
    let inside : Scan = record counted {
      out = a.out ++ env.new_endpoint r.hostname record_type (target tid) ∷ [];
    } in
    if not (is_eligible env r) then a else if not (env.matches r.hostname) then outside else inside

unfoldable pub scan_routes : Env → Text → List HostnameRoute → Scan → Scan
unfolding scan_route
scan_routes env tid [] a = a
scan_routes env tid (r ∷ rs) a = scan_routes env tid rs (scan_route env tid r a)

-- A call of `ListHostnameRoutes`, counted; the last argument labels a failure.
unfoldable pub list_counted : Env → Text → Text → M (Result Error (List HostnameRoute))
list_counted env tid label = do
  answer ← perform (list_routes tid) (λ h. env.client.list_hostname_routes h tid)
  emit (api_request env.metrics op_list (succeeds answer))
  elim answer [
    | err e ↦ (do emit (list_error env.metrics label); pure (err e))
    | ok routes ↦ pure (ok routes)
  ]

unfoldable pub scan_tunnels : Env → List Text → Scan → M (Result Error Scan)
unfolding list_counted scan_routes
scan_tunnels env [] a = pure (ok a)
scan_tunnels env (tid ∷ tids) a = do
  answer ← list_counted env tid tid
  elim answer [
    | err e ↦ pure (err e)
    | ok routes ↦
        scan_tunnels env tids
          (scan_routes env tid routes (record a { per_tunnel = insert tid 0 a.per_tunnel }))
  ]

-- `logSetChange`, for the field that `last` reads and `remember` writes
unfoldable pub log_set_change : (State → Text) → (Text → State → State) → List Text → M (Unit {0})
log_set_change last remember hosts s =
    let sorted = sort_strings hosts in
    let name = join sorted (codes ",") in
    let s' = remember name s in
    let logged : State = record s' { reports = sorted ∷ s'.reports } in
    (tt, if not (name == last s) && not (leb (length hosts) 0) then logged else s')

unfoldable pub host_set : List Endpoint → List Text → List Text
host_set [] hosts = hosts
host_set (ep ∷ eps) hosts = host_set eps (add (to_lower ep.dns_name) hosts)

unfoldable pub mark_records_incomplete : M (Unit {0})
mark_records_incomplete = modify (λ s. record s { records_ok = false })

unfoldable pub remember_record_hosts : List Endpoint → List Text → M (Unit {0})
unfolding host_set
remember_record_hosts eps owned =
    modify λ s. record s { records_hosts = host_set eps []; owned_hosts = owned; records_ok = true }

unfoldable pub empty_scan : Scan
empty_scan = record { out = []; owned = []; out_of_filter = []; per_tunnel = [] }

-- What follows the loop
unfoldable pub finish_records : Env → Scan → M (Unit {0})
unfolding log_set_change remember_record_hosts retain_pending
finish_records env a = do
  emit (set_routes_by_tunnel env.metrics a.per_tunnel)
  emit (set_records_managed env.metrics (length a.out))
  emit (set_routes_out_of_filter env.metrics (length a.out_of_filter))
  log_set_change (λ s. s.last_out_of_filter) (λ k s. record s { last_out_of_filter = k })
      a.out_of_filter
  remember_record_hosts a.out a.owned
  s ← get
  retain_pending env (λ host. not (contains host s.records_hosts))

-- What follows the loop, or its error
unfoldable pub conclude : Env → Result Error Scan → M (Result Error (List Endpoint))
unfolding finish_records
conclude env (err e) = pure (err e)
conclude env (ok a) = do finish_records env a; pure (ok a.out)

unfoldable pub records : Env → M (Result Error (List Endpoint))
unfolding mark_records_incomplete scan_tunnels empty_scan conclude
records env = do
  mark_records_incomplete
  scanned ← scan_tunnels env (tunnels env.resolver) empty_scan
  conclude env scanned

-- `ownedSnapshot`
unfoldable pub owned_snapshot : State → Option (List Text)
owned_snapshot s = if not s.records_ok then none else some s.owned_hosts
