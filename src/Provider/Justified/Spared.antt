-- ===== src/Provider/Justified/Spared.antt =====
-- `Records` and then `AdjustEndpoints` of internal/provider/provider.go: the in-cluster answers of
-- routes are spared.
use external_dns_cloudflare.Prelude.{◌∙◌, All-mono, inr, sym, inl, false, ◌≡◌, List, Text, All}
use mathlib.Core.Path.{subst}
use external_dns_cloudflare.Cloudflare.{HostnameRoute}
use external_dns_cloudflare.Tunnel.{tunnels}
use external_dns_cloudflare.Provider.State.{
  Env, Endpoint, State, Call, list_routes, create_route, patch_comment, patch_route, delete_route,
  fragment_load, fragment_apply,
}
use external_dns_cloudflare.Provider.Yields.{Since, Since-mono}
use external_dns_cloudflare.Provider.Records.{records}
use external_dns_cloudflare.Provider.Records.Listed.{IsSteady}
use external_dns_cloudflare.Provider.Records.Owned.{has_route, records-owned_hosts}
use external_dns_cloudflare.Provider.Exact.Planned.{routes_on}
use external_dns_cloudflare.Provider.Adjust.{adjust_all, adjust_endpoints}
use external_dns_cloudflare.Provider.Pending.Cleared.{hosts_of}
use external_dns_cloudflare.Provider.Justified.Prune.{IsStale}
use external_dns_cloudflare.Provider.Justified.Adjust.{MayAdjust, adjust_endpoints-MayAdjust}

-- The call changes no route, and a write of the fragment removes the answer of no host that one of
-- the routes has which this instance may manage.
abbrev pub Spares : Env → List HostnameRoute → Call → Type 0
Spares env routes (fragment_apply add remove) =
    All (λ host. has_route env host routes ≡ false) remove
Spares env routes fragment_load = Unit
Spares env routes _ = ⊥

module _ (env : Env) (account : Text → List HostnameRoute) (steady : IsSteady env account)
    (s : State) where
  abbrev seen : State
  seen = (records env s).1

  abbrev routes : List HostnameRoute
  routes = routes_on account (tunnels env.resolver)

  MayAdjust-Spares :
      (desired : List Text) (c : Call)
      → MayAdjust env seen.owned_hosts desired c
      → Spares env routes c
  MayAdjust-Spares desired (fragment_apply add remove) (wet, inl e) =
      subst (All (λ host. has_route env host routes ≡ false)) (sym e) tt
  MayAdjust-Spares desired (fragment_apply add remove) (wet, inr why) =
      All-mono (IsStale env seen.owned_hosts desired why.current)
        (λ host. has_route env host routes ≡ false) remove
        (λ host stale. sym (records-owned_hosts env account steady s host) ∙ stale.1) why.stale
  MayAdjust-Spares desired fragment_load on = tt
  MayAdjust-Spares desired (list_routes tid) h = elim h [ ]
  MayAdjust-Spares desired (create_route host tid tag) h = elim h [ ]
  MayAdjust-Spares desired (patch_comment id tag) h = elim h [ ]
  MayAdjust-Spares desired (patch_route id p) h = elim h [ ]
  MayAdjust-Spares desired (delete_route id) h = elim h [ ]

  -- In an account whose lists succeed and do not change, `AdjustEndpoints`, called after `Records`,
  -- calls only the fragment, and removes from it the rewrite of no host that a live route has, in
  -- whatever case, which is on a listed tunnel and which this instance may manage, whether or not the
  -- host matches the domain filter.
  pub adjust_endpoints-Spares :
      (eps : List Endpoint)
      → Since
          (Spares env routes)
          (records env s).1.calls
          (adjust_endpoints env eps (records env s).1).1.calls
  adjust_endpoints-Spares eps =
      Since-mono (MayAdjust env seen.owned_hosts (hosts_of (adjust_all env eps)))
        (Spares env routes) seen.calls _ (MayAdjust-Spares (hosts_of (adjust_all env eps)))
        (adjust_endpoints-MayAdjust env eps seen)
