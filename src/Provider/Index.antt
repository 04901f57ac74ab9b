-- ===== src/Provider/Index.antt =====
-- The indices of the live routes: `ownedRouteIndex`, `adoptionIndex` and `accountRouteIndex` of
-- internal/provider/provider.go.
use external_dns_cloudflare.Prelude.{
  codes, insert, err, to_lower, if◌then◌else◌, [], ok, ◌∷◌, Text, List, Assoc, Result, Bool,
}
use external_dns_cloudflare.Errors.{Error, Context, wrap}
use external_dns_cloudflare.Cloudflare.{HostnameRoute}
use external_dns_cloudflare.Tunnel.{tunnels}
use external_dns_cloudflare.Provider.State.{Env, M, ◌>>=◌, pure}
use external_dns_cloudflare.Provider.Records.{is_live, is_eligible, list_counted}

-- The routes of one list that pass the test, by the hostname in lower case
unfoldable pub index_routes :
    (HostnameRoute → Bool) → List HostnameRoute → Assoc HostnameRoute → Assoc HostnameRoute
index_routes test [] index = index
index_routes test (r ∷ rs) index =
    index_routes test rs (if test r then insert (to_lower r.hostname) r index else index)

unfoldable pub index_tunnels :
    Env
    → Context
    → (HostnameRoute → Bool)
    → List Text
    → Assoc HostnameRoute
    → M (Result Error (Assoc HostnameRoute))
unfolding index_routes
index_tunnels env what test [] index = pure (ok index)
index_tunnels env what test (tid ∷ tids) index = do
  answer ← list_counted env tid tid
  elim answer [
    | err e ↦ pure (err (wrap what e))
    | ok routes ↦ index_tunnels env what test tids (index_routes test routes index)
  ]

-- `ownedRouteIndex`
unfoldable pub owned_route_index : Env → M (Result Error (Assoc HostnameRoute))
unfolding index_tunnels is_eligible
owned_route_index env =
    index_tunnels env Context.list_for_delete (is_eligible env) (tunnels env.resolver) []

-- `adoptionIndex`
unfoldable pub adoption_index : Env → M (Result Error (Assoc HostnameRoute))
unfolding index_tunnels is_live
adoption_index env = index_tunnels env Context.list_for_adoption is_live (tunnels env.resolver) []

-- `accountRouteIndex`
unfoldable pub account_route_index : Env → M (Assoc HostnameRoute)
unfolding index_routes is_live
account_route_index env = do
  answer ← list_counted env [] (codes "account")
  elim answer [ err e ↦ pure [] | ok routes ↦ pure (index_routes is_live routes []) ]
