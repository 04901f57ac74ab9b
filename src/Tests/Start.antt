-- ===== src/Tests/Start.antt =====
-- The theorem on the start of cmd/webhook/main.go, for a server with one tunnel and both halves.
use external_dns_cloudflare.Prelude.{
  refl, cut, to_lower, some, trim_space, ok, ◌∷◌, [], none, ◌==◌, codes, Text, err, lookup, Option,
  true, false, ◌≡◌,
}
use external_dns_cloudflare.Errors.{Error}
use external_dns_cloudflare.Cloudflare.{Client, Http}
use external_dns_cloudflare.CoreDns.{
  ConfigMapApi, Fragment, found, default_key, default_field_manager, default_cluster_domain,
}
use external_dns_cloudflare.Metrics.{set_routes_pending, set_dry_run}
use external_dns_cloudflare.Tunnel.{new_single_tunnel_resolver, set_drain, configured}
use external_dns_cloudflare.Provider.New.{EndpointLibrary, new_resolver, drained_resolver}
use external_dns_cloudflare.Webhook.{
  Environment, must_env, env_or, env_bool, split_csv, parse_tunnel_map, default_owner_id,
}
use external_dns_cloudflare.Webhook.Backend.{new_route_client, backend_cloudflare}
use external_dns_cloudflare.Webhook.Fragment.{Kubernetes, fragment_writer, build_fragment}
use external_dns_cloudflare.Webhook.Start.{Network, Server, route_api, start, config_of}
use external_dns_cloudflare.Webhook.Serve.{
  warnings, default_owner, health_handlers, writes_ok, server_options,
}
use external_dns_cloudflare.Webhook.Start.Started.{IsStarted, start-IsStarted}
use external_dns_cloudflare.Cloudflare
use external_dns_cloudflare.CoreDns
use external_dns_cloudflare.Provider.New

abbrev value_of : Option Text → Text
value_of none = []
value_of (some v) = v

abbrev pub direct : Environment
direct key = value_of (
    lookup key (
      (codes "CF_ACCOUNT_ID", codes "acc")
      ∷ (codes "CF_API_TOKEN", codes "token")
      ∷ (codes "CF_TUNNEL_ID", codes "t1")
      ∷ (codes "COREDNS_CONFIGMAP", codes "dns/custom")
      ∷ []))

-- A network without an answer
abbrev network : Network
network = record {
  http_at = λ h. record {
    send = λ req. err (Error.foreign (codes "down"));
    decode_envelope = λ t. none;
    decode_route_list = λ t. none;
    decode_route = λ t. none;
  };
  pages = 1;
}

abbrev one_key : ConfigMapApi
one_key = record {
  Cluster = Text × Text;
  get_map = λ c name. found (c ∷ []);
  apply_key = λ c name manager key value. (ok tt, (key, value));
}

-- A cluster that is reached by a kubeconfig
abbrev pub cluster : Kubernetes
cluster = record {
  RestConfig = Unit {0};
  Clientset = Unit {0};
  in_cluster_config = err (Error.foreign (codes "not in a cluster"));
  kubeconfig = ok tt;
  new_for_config = λ c. ok tt;
  config_maps = λ set namespace. one_key;
  cluster_at = λ set namespace h. (codes "k", []);
}

abbrev pub library : EndpointLibrary
library = record {
  new_domain_filter = λ domains name. true;
  resource_label = codes "resource";
  new_endpoint = λ name kind target. record {
    dns_name = name;
    record_type = kind;
    endpoint_target = target;
    labels = [];
  };
}

abbrev fragment : Fragment
fragment = record {
  name = codes "custom";
  key = default_key;
  field_manager = default_field_manager;
  cluster_domain = default_cluster_domain;
}

abbrev pub server_on : Network → Server
server_on net = record {
  env = record {
    client = route_api net (Cloudflare.new (codes "acc") (codes "token") []);
    resolver = new_single_tunnel_resolver (codes "t1");
    owner_id = default_owner_id;
    ownership_strict = true;
    dry_run = false;
    adopt_untagged = false;
    coredns = some (fragment_writer cluster tt (codes "dns") fragment);
    matches = λ name. true;
    metrics = true;
    coredns_prune = true;
    resource_label = codes "resource";
    new_endpoint = library.new_endpoint;
  };
  state = record {
    calls = [];
    updates = set_routes_pending true (λ r. 0) ∷ set_dry_run true false ∷ [];
    reports = [];
    records_hosts = [];
    owned_hosts = [];
    records_ok = false;
    last_undesired = [];
    last_out_of_filter = [];
    pending = [];
  };
  route_backend = backend_cloudflare;
  webhook_listen = codes "127.0.0.1:8888";
  health_listen = codes "0.0.0.0:8080";
}

pub server-started :
    (net : Network) → start cluster net library (λ raw. none) direct ≡ ok (server_on net)
unfolding start must_env parse_tunnel_map env_or ◌==◌ lookup trim_space to_lower build_fragment cut
    config_of new_route_client backend_cloudflare CoreDns.new default_key default_field_manager
    default_cluster_domain New.new drained_resolver new_resolver set_drain split_csv env_bool
    default_owner_id new_single_tunnel_resolver configured
server-started net = refl

start-IsStarted_example : IsStarted network (λ raw. none) direct (server_on network)
start-IsStarted_example =
    start-IsStarted cluster network library (λ raw. none) direct (server_on network)
      (server-started network)

-- A server whose owner id is the default warns of it.
server-warns : warnings (server_on network) ≡ default_owner ∷ []
unfolding warnings default_owner_id ◌==◌
server-warns = refl

answers_ready : lookup (codes "/readyz") health_handlers ≡ some writes_ok
unfolding health_handlers lookup ◌==◌
answers_ready = refl

serves_default : (server_options (server_on network)).provider_port ≡ codes "127.0.0.1:8888"
unfolding server_options
serves_default = refl
