-- ===== src/Webhook/Start/Served.antt =====
-- What the provider of a started server sees of an account that is served page by page.
use external_dns_cloudflare.Prelude.{◌∙◌, ap, ℕ, Option, List, Text, length, ◌<◌, ok, ◌≡◌}
use external_dns_cloudflare.Provider.State.{History, Env, State, Changes, RouteApi}
use external_dns_cloudflare.Cloudflare.{Client, HostnameRoute}
use external_dns_cloudflare.Cloudflare.Paging.{list_hostname_routes_complete}
use external_dns_cloudflare.Cloudflare.Pages.{HoldsPages, HoldsPages-ServesPages}
use external_dns_cloudflare.Tunnel.{tunnels}
use external_dns_cloudflare.Provider.New.{EndpointLibrary}
use external_dns_cloudflare.Provider.Records.{records}
use external_dns_cloudflare.Provider.Records.Listed.{endpoints_on, records-endpoints_on}
use external_dns_cloudflare.Provider.Apply.{apply_changes}
use external_dns_cloudflare.Provider.Exact.{mutations, after}
use external_dns_cloudflare.Provider.Exact.Planned.{planned_calls}
use external_dns_cloudflare.Provider.Exact.Fragment.{IsWritable}
use external_dns_cloudflare.Provider.Exact.Apply.{apply_changes-planned}
use external_dns_cloudflare.Webhook.{Environment}
use external_dns_cloudflare.Webhook.Backend.{Url}
use external_dns_cloudflare.Webhook.Fragment.{Kubernetes}
use external_dns_cloudflare.Webhook.Start.{Network, Server, start, route_api, ended}
use external_dns_cloudflare.Webhook.Start.Started.{start-IsStarted}

-- After calls of which `P` holds, the network answers each request for a page of a tunnel's list with
-- that page of the account, and a list may ask for more pages than it has routes.
abbrev pub Serves : Network → Client → (Text → List HostnameRoute) → (History → Type 0) → Type 0
Serves net c account P =
    (calls : History) (tid : Text)
    → P calls
    → (per_page : ℕ) × HoldsPages c (net.http_at calls) tid per_page (account tid)
      × (length (account tid) < net.pages)

module _ (net : Network) (c : Client) (account : Text → List HostnameRoute) (P : History → Type 0)
    (serves : Serves net c account P) where
  lists :
      (env : Env)
      → env.client ≡ route_api net c
      → (calls : History) (tid : Text) → P calls
      → env.client.list_hostname_routes calls tid ≡ ok (account tid)
  unfolding route_api ended
  lists env same calls tid p =
      let (per_page, server, enough) = serves calls tid p in
      ap (λ (api : RouteApi). api.list_hostname_routes calls tid) same
      ∙ ap ended (
          list_hostname_routes_complete c (net.http_at calls) tid per_page (account tid)
            (HoldsPages-ServesPages c (net.http_at calls) tid per_page (account tid) server)
            net.pages enough)

module _ (k : Kubernetes) (net : Network) (lib : EndpointLibrary) (parse_url : Text → Option Url)
    (getenv : Environment) (v : Server) (started : start k net lib parse_url getenv ≡ ok v)
    (account : Text → List HostnameRoute) where
  -- Once the server has started: if the network answers a GET of the hostname routes of the client's
  -- account, by the tunnel id and the page number of its query and a page size of 100, with that page
  -- of the routes of that tunnel (of the account, without a tunnel id), whatever calls were made
  -- before, and a list may ask for more pages than it has routes, then `Records` succeeds with the
  -- endpoints of the routes that are live, may be managed and match the domain filter, tunnel by
  -- tunnel.
  pub start-records :
      ((c : Client) → v.env.client ≡ route_api net c → Serves net c account (λ calls. Unit {0}))
      → (s : State) → (records v.env s).0 ≡ ok (endpoints_on v.env account (tunnels v.env.resolver))
  start-records serves s =
      let (c, same, _) = (start-IsStarted k net lib parse_url getenv v started).calls in
      records-endpoints_on v.env account
        (λ calls tid. lists net c account _ (serves c same) v.env same calls tid tt) s

  -- Once the server has started: if the network answers a GET of the hostname routes of the client's
  -- account, by the tunnel id and the page number of its query and a page size of 100, with that page
  -- of the routes of that tunnel (of the account, without a tunnel id), as long as no route was
  -- changed since `before`, a list may ask for more pages than it has routes, and the cluster accepts
  -- the writes of the fragment, then `ApplyChanges` makes exactly the planned changes of routes.
  pub start-planned :
      (before : History)
      → ((c : Client)
          → v.env.client ≡ route_api net c
          → Serves net c account (λ calls. mutations calls ≡ before))
      → IsWritable v.env.coredns
      → (changes : Changes) (s : State) → mutations s.calls ≡ before
      → mutations (apply_changes v.env changes s).1.calls
        ≡ after (planned_calls v.env account changes) before
  start-planned before serves writable changes s q =
      let (c, same, _) = (start-IsStarted k net lib parse_url getenv v started).calls in
      apply_changes-planned v.env account changes before
        (λ calls tid p. lists net c account _ (serves c same) v.env same calls tid p) writable s q
