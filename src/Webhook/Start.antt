-- ===== src/Webhook/Start.antt =====
-- cmd/webhook/main.go: how the process starts. What the servers do is not modelled.
pub mod Started
pub mod Served
use external_dns_cloudflare.Webhook.Fragment.{Kubernetes, SetupError, build_fragment}
use external_dns_cloudflare.Prelude.{
  inl, length, ◌∷◌, nat_eq, cut, ◌==◌, inr, trim_space, if◌then◌else◌, ◌⊎◌, Assoc, ok, none, some,
  codes, err, [], List, Result, Text, Option, ℕ, ◌≡◌, ◌||◌, ◌&&◌, true, false,
}
use external_dns_cloudflare.Errors.{Error}
use external_dns_cloudflare.Cloudflare.{HostnameRoute, Client, Http, RoutePatch}
use external_dns_cloudflare.CoreDns.{Fragment, ConfigMapApi, FragmentError, load, apply}
use external_dns_cloudflare.Provider.State.{Env, State, RouteApi, FragmentWriter, History}
use external_dns_cloudflare.Provider.New.{Config, EndpointLibrary}
use external_dns_cloudflare.Webhook.{
  Environment, ParseError, env_or, must_env, env_bool, split_csv, parse_tunnel_map,
  default_owner_id,
}
use external_dns_cloudflare.Webhook.Backend.{Url, BackendError, new_route_client}
use external_dns_cloudflare.Webhook.Prune.{PruneClient, PruneDeps, PruneState, run_prune}
use external_dns_cloudflare.Cloudflare
use external_dns_cloudflare.CoreDns
use external_dns_cloudflare.Provider.New

-- What the calls of the client meet: the network after the calls so far, and the pages that a list
-- may ask for before its context ends it.
pub record Network : Type 0 where
  pub http_at : History → Http
  pub pages : ℕ

-- A list that its context has ended
ended : Option (Result Error (List HostnameRoute)) → Result Error (List HostnameRoute)
ended none = err (Error.foreign (codes "context deadline exceeded"))
ended (some answer) = answer

-- The methods of the client, as the provider calls them
unfoldable pub route_api : Network → Client → RouteApi
unfolding ended
route_api net c = record {
  list_hostname_routes =
      λ h tid. ended (Cloudflare.list_hostname_routes c (net.http_at h) net.pages tid);
  create_hostname_route =
      λ h name tid tag. Cloudflare.create_hostname_route c (net.http_at h) name tid tag;
  patch_hostname_route_comment =
      λ h id tag. Cloudflare.patch_hostname_route_comment c (net.http_at h) id tag;
  patch_hostname_route = λ h id p. Cloudflare.patch_hostname_route c (net.http_at h) id p;
  delete_hostname_route = λ h id. Cloudflare.delete_hostname_route c (net.http_at h) id;
}

-- The client of the subcommand
unfoldable pub prune_client : Network → Text → Text → PruneClient
unfolding route_api
prune_client net account_id api_token =
    let api = route_api net (Cloudflare.new account_id api_token []) in
    record {
      list_hostname_routes = api.list_hostname_routes;
      delete_hostname_route = api.delete_hostname_route;
    }

-- What starting reports, each an exit with status 1
pub data StartError : Type 0 where
  missing_variable : Text → StartError
  bad_tunnel_map : ParseError → StartError
  no_tunnel_set : StartError
  fragment : SetupError → StartError
  backend : BackendError → StartError
  provider : Error → StartError

-- The process once it serves
pub record Server : Type 0 where
  pub env : Env
  pub state : State
  pub route_backend : Text
  pub webhook_listen : Text
  pub health_listen : Text

-- The configuration that the environment asks for
unfoldable pub config_of : Environment → Assoc Text → Option FragmentWriter → RouteApi → Config
unfolding env_or env_bool split_csv default_owner_id
config_of getenv tunnel_map writer api = record {
  client = some api;
  tunnel_id = getenv (codes "CF_TUNNEL_ID");
  tunnel_map = tunnel_map;
  tunnel_drain = split_csv (getenv (codes "TUNNEL_DRAIN"));
  domain_filter = split_csv (getenv (codes "DOMAIN_FILTER"));
  owner_id = env_or getenv (codes "OWNER_ID") default_owner_id;
  ownership_strict = env_bool getenv (codes "OWNERSHIP_STRICT") true;
  dry_run = env_bool getenv (codes "DRY_RUN") false;
  adopt_untagged = env_bool getenv (codes "ADOPT_UNTAGGED") false;
  coredns = writer;
  metrics = true;
  coredns_prune = env_bool getenv (codes "COREDNS_PRUNE") true;
}

module _ (k : Kubernetes) (net : Network) (lib : EndpointLibrary) (parse_url : Text → Option Url)
    (getenv : Environment) where
  served : Text → Result Error (Env × State) → Result StartError Server
  served backend_name (err e) = err (provider e)
  served backend_name (ok (env, state)) = ok (record {
    env = env;
    state = state;
    route_backend = backend_name;
    webhook_listen = env_or getenv (codes "WEBHOOK_LISTEN") (codes "127.0.0.1:8888");
    health_listen = env_or getenv (codes "HEALTH_LISTEN") (codes "0.0.0.0:8080");
  })

  with_client :
      Assoc Text
      → Option FragmentWriter
      → Result BackendError (Client × Text)
      → Result StartError Server
  unfolding served config_of
  with_client tunnel_map writer (err e) = err (backend e)
  with_client tunnel_map writer (ok (c, backend_name)) =
      served backend_name (New.new lib (config_of getenv tunnel_map writer (route_api net c)))

  with_fragment : Assoc Text → Result SetupError (Option FragmentWriter) → Result StartError Server
  unfolding with_client
  with_fragment tunnel_map (err e) = err (fragment e)
  with_fragment tunnel_map (ok writer) =
      with_client tunnel_map writer (new_route_client parse_url getenv)

  with_map : Result ParseError (Assoc Text) → Result StartError Server
  unfolding with_fragment
  with_map (err e) = err (bad_tunnel_map e)
  with_map (ok tunnel_map) =
      if getenv (codes "CF_TUNNEL_ID") == [] && nat_eq (length tunnel_map) 0
      then err no_tunnel_set
      else with_fragment tunnel_map
          (build_fragment k getenv (env_or getenv (codes "COREDNS_CONFIGMAP") []))

  -- `main` up to the servers
  unfoldable pub start : Result StartError Server
  unfolding with_map
  start = elim (must_env getenv (codes "CF_ACCOUNT_ID")) [
    | none ↦ err (missing_variable (codes "CF_ACCOUNT_ID"))
    | some account_id ↦ with_map (parse_tunnel_map (getenv (codes "TUNNEL_MAP")))
  ]

  -- `os.Args` after the name of the program: the subcommand, or the server
  unfoldable pub main : List Text → (ℕ × PruneState) ⊎ Result StartError Server
  unfolding start
  main [] = inr start
  main (arg ∷ args) =
      if arg == codes "prune"
      then inl (
          run_prune
            (record {
              getenv = getenv;
              new_client = prune_client net;
              new_domain_filter = lib.new_domain_filter;
            })
            args)
      else inr start
