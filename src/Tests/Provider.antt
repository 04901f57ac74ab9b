-- ===== src/Tests/Provider.antt =====
-- The theorems on internal/provider/provider.go, for an account with one route.
use external_dns_cloudflare.Prelude.{
  refl, arith, ◌≡◌, is_space, some, false, err, true, [], ◌∷◌, none, Text, ok, codes, ◌==◌,
  trim_space, contains,
}
use external_dns_cloudflare.Provider.FragmentFirst.{FragmentFirst}
use external_dns_cloudflare.Provider.FragmentFirst.Apply.{apply_changes-FragmentFirst}
use external_dns_cloudflare.Provider.New.{
  Config, EndpointLibrary, new, drained_resolver, new_resolver,
}
use external_dns_cloudflare.Provider.New.Tunnels.{IsReady, new-IsReady}
use external_dns_cloudflare.Tunnel.{
  TunnelResolver, set_drain, configured, new_single_tunnel_resolver,
}
use external_dns_cloudflare.Metrics.{set_routes_pending, set_dry_run}
use external_dns_cloudflare.Errors.{Error}
use external_dns_cloudflare.Prelude.Strings.Trim.{IsSolid}
use external_dns_cloudflare.Cloudflare.{HostnameRoute}
use external_dns_cloudflare.Provider.State.{Env, Endpoint, Changes, State, RouteApi, FragmentWriter}
use external_dns_cloudflare.Provider.Apply.{apply_changes}
use external_dns_cloudflare.Provider.Justified.{Justified}
use external_dns_cloudflare.Provider.Yields.{Since}
use external_dns_cloudflare.Provider.Justified.Apply.{apply_changes-Justified}
use external_dns_cloudflare.Provider.Justified.Prune.{MayPrune, prune_coredns-MayPrune}
use external_dns_cloudflare.Provider.Justified.Adjust.{MayAdjust, adjust_endpoints-MayAdjust}
use external_dns_cloudflare.Provider.Ownership.{comment, route_owner}
use external_dns_cloudflare.Provider.Ownership.RoundTrip.{route_owner-comment}
use external_dns_cloudflare.Provider.CoreDns.{prune_coredns}
use external_dns_cloudflare.Provider.Adjust.{adjust_endpoints, adjust_all}
use external_dns_cloudflare.Provider.Pending.Cleared.{hosts_of}

abbrev pub route : HostnameRoute
route = record {
  id = codes "r1";
  hostname = codes "App.example.com";
  tunnel_id = codes "t1";
  tunnel_name = codes "home";
  tun_type = codes "cfd_tunnel";
  comment = codes "managed-by=external-dns/me";
  created_at = none;
  deleted_at = none;
}

-- An account that lists one route, and refuses every deletion
abbrev account : RouteApi
account = record {
  list_hostname_routes = λ h tid. ok (route ∷ []);
  create_hostname_route = λ h host tid tag. ok route;
  patch_hostname_route_comment = λ h id tag. ok route;
  patch_hostname_route = λ h id p. ok route;
  delete_hostname_route = λ h id. err (Error.foreign (codes "refused"));
}

abbrev plain_endpoint : Text → Text → Text → Endpoint
plain_endpoint name kind target = record {
  dns_name = name;
  record_type = kind;
  endpoint_target = target;
  labels = [];
}

abbrev pub env : Env
env = record {
  client = account;
  resolver = new_single_tunnel_resolver (codes "t1");
  owner_id = codes "me";
  ownership_strict = true;
  dry_run = false;
  adopt_untagged = false;
  coredns = none;
  matches = λ name. true;
  metrics = true;
  coredns_prune = false;
  resource_label = codes "resource";
  new_endpoint = plain_endpoint;
}

abbrev pub start : State
start = record {
  calls = [];
  updates = [];
  reports = [];
  records_hosts = [];
  owned_hosts = [];
  records_ok = false;
  last_undesired = [];
  last_out_of_filter = [];
  pending = [];
}

abbrev pub app : Endpoint
app = plain_endpoint (codes "app.example.com") (codes "CNAME") (codes "t1.cfargotunnel.com")

-- A plan that deletes one host and creates another
abbrev pub changes : Changes
changes = record {
  create =
      plain_endpoint (codes "new.example.com") (codes "CNAME") (codes "t1.cfargotunnel.com") ∷ [];
  update_new = [];
  deletes = app ∷ [];
}

apply_changes-Justified_example :
    Since (Justified env changes) start.calls (apply_changes env changes start).1.calls
apply_changes-Justified_example = apply_changes-Justified env changes start

-- A fragment with the rewrite of a host that nothing owns
abbrev pub writer : FragmentWriter
writer = record {
  service_target = λ resource. ok (codes "s.n.svc");
  apply = λ h more hosts. ok more;
  load = λ h. ok ((codes "old.example.com", codes "s.n.svc") ∷ []);
  key = codes "k";
}

abbrev pub pruning : Env
pruning = record env { coredns = some writer; coredns_prune = true }

abbrev listed : State
listed = record start {
  records_ok = true;
  records_hosts = codes "app.example.com" ∷ [];
  owned_hosts = codes "app.example.com" ∷ [];
}

prune_coredns-MayPrune_example :
    Since
      (MayPrune pruning listed (codes "app.example.com" ∷ []))
      listed.calls
      (prune_coredns pruning (codes "app.example.com" ∷ []) listed).1.calls
prune_coredns-MayPrune_example =
    prune_coredns-MayPrune pruning listed (codes "app.example.com" ∷ [])

adjust_endpoints-MayAdjust_example :
    Since
      (MayAdjust pruning listed.owned_hosts (hosts_of (adjust_all pruning (app ∷ []))))
      listed.calls
      (adjust_endpoints pruning (app ∷ []) listed).1.calls
adjust_endpoints-MayAdjust_example = adjust_endpoints-MayAdjust pruning (app ∷ []) listed

me-IsSolid : IsSolid (codes "me")
unfolding is_space
me-IsSolid = ground arith

route_owner-comment_example : route_owner (comment (codes "me")) ≡ some (codes "me")
route_owner-comment_example = route_owner-comment (codes "me") me-IsSolid

apply_changes-FragmentFirst_example :
    FragmentFirst writer start.calls (apply_changes pruning changes start).1.calls
apply_changes-FragmentFirst_example = apply_changes-FragmentFirst pruning writer changes refl start

abbrev library : EndpointLibrary
library = record {
  new_domain_filter = λ domains name. true;
  resource_label = codes "resource";
  new_endpoint = plain_endpoint;
}

abbrev config : Config
config = record {
  client = some account;
  tunnel_id = codes "t1";
  tunnel_map = [];
  tunnel_drain = codes "t0" ∷ [];
  domain_filter = [];
  owner_id = codes "me";
  ownership_strict = true;
  dry_run = false;
  adopt_untagged = false;
  coredns = none;
  metrics = false;
  coredns_prune = false;
}

abbrev draining : TunnelResolver
draining = record { entries = []; fallback = codes "t1"; drain = codes "t0" ∷ [] }

abbrev started : Env
started = record env { resolver = draining; metrics = false }

config-accepted : new library config ≡ ok (started, record start { updates = [] ∷ [] ∷ [] })
unfolding new drained_resolver new_resolver ◌==◌ set_drain trim_space contains configured
    new_single_tunnel_resolver set_routes_pending set_dry_run
config-accepted = refl

new-IsReady_example : IsReady started.resolver × (start.records_ok ≡ false) × (start.calls ≡ [])
new-IsReady_example =
    new-IsReady library config started (record start { updates = [] ∷ [] ∷ [] }) config-accepted
