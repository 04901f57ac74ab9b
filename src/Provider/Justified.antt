-- ===== src/Provider/Justified.antt =====
-- Why `ApplyChanges` may make each of its calls.
pub mod Lists
pub mod Fragment
pub mod Existing
pub mod Creates
pub mod Apply
pub mod Prune
pub mod Adjust
pub mod Spared
use external_dns_cloudflare.Prelude.{
  Bool, ◌∷◌, none, ◌≢◌, ok, some, true, false, to_lower, contains, All, ◌≡◌, List, Text, IsIn,
}
use external_dns_cloudflare.Cloudflare.{HostnameRoute, RoutePatch}
use external_dns_cloudflare.Tunnel.{resolve, tunnels}
use external_dns_cloudflare.Provider.State.{
  Env, Endpoint, Changes, History, Call, list_routes, create_route, patch_comment, patch_route,
  delete_route, fragment_load, fragment_apply,
}
use external_dns_cloudflare.Provider.Ownership.{comment, route_owner}
use external_dns_cloudflare.Provider.Records.{is_live, is_eligible}

-- The account listed the route on a tunnel that this instance lists.
pub record IsListed (env : Env) (r : HostnameRoute) : Type 0 where
  pub before : History
  pub tunnel : Text
  pub routes : List HostnameRoute
  pub known : contains tunnel (tunnels env.resolver) ≡ true
  pub answer : env.client.list_hostname_routes before tunnel ≡ ok routes
  pub member : IsIn r routes

-- The plan has an endpoint for the host, and the domain filter passes it.
abbrev pub Asks : Env → List Endpoint → Text → Endpoint → Type 0
Asks env eps host ep =
    IsIn ep eps × (to_lower ep.dns_name ≡ host) × (env.matches ep.dns_name ≡ true)

-- A delete: of a live, manageable, listed route, whose host the plan deletes.
pub record DeleteReason (env : Env) (changes : Changes) (id : Text) : Type 0 where
  pub wet : env.dry_run ≡ false
  pub route : HostnameRoute
  pub same_id : id ≡ route.id
  pub listed : IsListed env route
  pub eligible : is_eligible env route ≡ true
  pub endpoint : Endpoint
  pub asked : Asks env changes.deletes (to_lower route.hostname) endpoint

-- A retarget: of such a route whose host the plan updates, to the tunnel that the host resolves to,
-- which is another than the route's. Hostname and comment stay.
pub record PatchReason (env : Env) (changes : Changes) (id : Text) (p : RoutePatch) : Type 0 where
  pub wet : env.dry_run ≡ false
  pub route : HostnameRoute
  pub same_id : id ≡ route.id
  pub listed : IsListed env route
  pub eligible : is_eligible env route ≡ true
  pub endpoint : Endpoint
  pub asked : Asks env changes.update_new (to_lower route.hostname) endpoint
  pub target : resolve env.resolver endpoint.dns_name ≡ some p.tunnel_id
  pub moved : route.tunnel_id ≢ p.tunnel_id
  pub same_hostname : p.hostname ≡ route.hostname
  pub same_comment : p.comment ≡ route.comment

-- An adoption: the instance adopts, and the route is live, listed, without an owner tag, and on the
-- tunnel that a host that the plan creates resolves to. The new comment is this owner's tag.
pub record AdoptReason (env : Env) (changes : Changes) (id tag : Text) : Type 0 where
  pub wet : env.dry_run ≡ false
  pub adopts : env.adopt_untagged ≡ true
  pub route : HostnameRoute
  pub same_id : id ≡ route.id
  pub listed : IsListed env route
  pub live : is_live route ≡ true
  pub untagged : route_owner route.comment ≡ none
  pub endpoint : Endpoint
  pub asked : Asks env changes.create (to_lower route.hostname) endpoint
  pub target : resolve env.resolver endpoint.dns_name ≡ some route.tunnel_id
  pub tagged : tag ≡ comment env.owner_id

-- A create: of a host that the plan creates, on the tunnel that it resolves to, with this owner's
-- tag.
pub record CreateReason (env : Env) (changes : Changes) (host tid tag : Text) : Type 0 where
  pub wet : env.dry_run ≡ false
  pub endpoint : Endpoint
  pub same_host : host ≡ endpoint.dns_name
  pub asked : Asks env changes.create (to_lower host) endpoint
  pub target : resolve env.resolver host ≡ some tid
  pub tagged : tag ≡ comment env.owner_id

-- Lists and loads only read; a write of the fragment needs that this is no dry run.
abbrev pub Justified : Env → Changes → Call → Type 0
Justified env changes (list_routes tid) = Unit
Justified env changes (create_route host tid tag) = CreateReason env changes host tid tag
Justified env changes (patch_comment id tag) = AdoptReason env changes id tag
Justified env changes (patch_route id p) = PatchReason env changes id p
Justified env changes (delete_route id) = DeleteReason env changes id
Justified env changes fragment_load = Unit
Justified env changes (fragment_apply add remove) = env.dry_run ≡ false

abbrev pub is_write : Call → Bool
is_write (fragment_apply add remove) = true
is_write _ = false

-- A justified call, other than a write of the fragment, keeps an invariant of the calls.
abbrev pub Steps : Env → Changes → (History → Type 0) → Type 0
Steps env changes Q =
    (c : Call) → is_write c ≡ false → Justified env changes c → (h : History) → Q h → Q (c ∷ h)
