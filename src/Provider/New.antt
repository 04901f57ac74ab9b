-- ===== src/Provider/New.antt =====
-- `New` of internal/provider/provider.go: what a configuration is refused for, and the fields that
-- it sets.
pub mod Tunnels
pub mod Fields
pub mod Listed
use external_dns_cloudflare.Prelude.{
  ◌==◌, suc, zero, inr, inl, true, ok, some, none, false, ◌∷◌, err, if◌then◌else◌, Bool, Assoc, [],
  Text, Result, List, Option, codes,
}
use external_dns_cloudflare.Tunnel.{
  TunnelError, TunnelResolver, new_map_tunnel_resolver, new_single_tunnel_resolver, set_drain,
}
use external_dns_cloudflare.Errors.{Error, tunnel, client_required, tunnel_required}
use external_dns_cloudflare.Metrics.{Update, set_dry_run, set_routes_pending}
use external_dns_cloudflare.Provider.State.{Env, State, RouteApi, FragmentWriter, Endpoint}

-- `Config`, without its logger
pub record Config : Type 0 where
  pub client : Option RouteApi
  pub tunnel_id : Text
  pub tunnel_map : Assoc Text
  pub tunnel_drain : List Text
  pub domain_filter : List Text
  pub owner_id : Text
  pub ownership_strict : Bool
  pub dry_run : Bool
  pub adopt_untagged : Bool
  pub coredns : Option FragmentWriter
  pub metrics : Bool
  pub coredns_prune : Bool

-- What `New` takes from sigs.k8s.io/external-dns; `new_endpoint` is modelled where it returns an
-- endpoint.
pub record EndpointLibrary : Type 0 where
  pub new_domain_filter : List Text → Text → Bool
  pub resource_label : Text
  pub new_endpoint : Text → Text → Text → Endpoint

pub tunnel_result : Result TunnelError TunnelResolver → Result Error TunnelResolver
tunnel_result (err e) = err (tunnel e)
tunnel_result (ok r) = ok r

single : Text → Result Error TunnelResolver
single tunnel_id =
    if tunnel_id == [] then err tunnel_required else ok (new_single_tunnel_resolver tunnel_id)

-- The `switch`: the map first, then the single tunnel
unfoldable pub new_resolver : Text → Assoc Text → Result Error TunnelResolver
unfolding tunnel_result single
new_resolver tunnel_id [] = single tunnel_id
new_resolver tunnel_id (p ∷ m) = tunnel_result (new_map_tunnel_resolver (p ∷ m))

-- The resolver with its draining tunnels
unfoldable pub drained_resolver : Config → Result Error TunnelResolver
unfolding new_resolver tunnel_result
drained_resolver cfg = elim (new_resolver cfg.tunnel_id cfg.tunnel_map) [
  | err e ↦ err e
  | ok r ↦ tunnel_result (set_drain r cfg.tunnel_drain)
]

env_of : EndpointLibrary → Config → RouteApi → TunnelResolver → Env
env_of lib cfg api r = record {
  client = api;
  resolver = r;
  owner_id = cfg.owner_id;
  ownership_strict = cfg.ownership_strict;
  dry_run = cfg.dry_run;
  adopt_untagged = cfg.adopt_untagged;
  coredns = cfg.coredns;
  matches = lib.new_domain_filter cfg.domain_filter;
  metrics = cfg.metrics;
  coredns_prune = cfg.coredns_prune;
  resource_label = lib.resource_label;
  new_endpoint = lib.new_endpoint;
}

-- The two gauges that are published at once, the last one first
first_updates : Config → List (List Update)
first_updates cfg =
    set_routes_pending cfg.metrics (λ r. 0) ∷ set_dry_run cfg.metrics cfg.dry_run ∷ []

first_state : Config → State
unfolding first_updates
first_state cfg = record {
  calls = [];
  updates = first_updates cfg;
  reports = [];
  records_hosts = [];
  owned_hosts = [];
  records_ok = false;
  last_undesired = [];
  last_out_of_filter = [];
  pending = [];
}

unfoldable pub new : EndpointLibrary → Config → Result Error (Env × State)
unfolding drained_resolver env_of first_state
new lib cfg = elim cfg.client [
  | none ↦ err client_required
  | some api ↦ elim (drained_resolver cfg) [
    | err e ↦ err e
    | ok r ↦ ok (env_of lib cfg api r, first_state cfg)
  ]
]
