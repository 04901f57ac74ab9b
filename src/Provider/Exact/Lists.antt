-- ===== src/Provider/Exact/Lists.antt =====
-- The indices of internal/provider/provider.go, for an account that only this provider changes.
use external_dns_cloudflare.Prelude.{
  false, to_lower, refl, insert, ◌∷◌, true, if◌then◌else◌, ◌++◌, ◌||◌, ok, ◌≡◌, ◌&&◌, not, [],
  Assoc, List, Result, Text, Bool,
}
use external_dns_cloudflare.Errors.{Error, Context}
use external_dns_cloudflare.Cloudflare.{HostnameRoute}
use external_dns_cloudflare.Tunnel.{tunnels}
use external_dns_cloudflare.Provider.State.{Env, Changes, M, History, emit, pure, perform, ◌>>=◌}
use external_dns_cloudflare.Provider.Yields.{Yields, Yields-bind, Yields-pure}
use external_dns_cloudflare.Provider.Records.{list_counted, is_eligible, is_live}
use external_dns_cloudflare.Provider.Index.{
  index_routes, index_tunnels, owned_route_index, adoption_index,
}
use external_dns_cloudflare.Provider.Apply.{is_nil, index_needed, adoption_needed}
use external_dns_cloudflare.Provider.Exact.{mutations}
use external_dns_cloudflare.Provider.Exact.Planned.{routes_on, index_on}

-- As long as the changes of routes are those of `before`, every list succeeds, with these routes.
abbrev pub IsStill : Env → (Text → List HostnameRoute) → History → Type 0
IsStill env account before =
    (calls : History) (tid : Text)
    → mutations calls ≡ before
    → env.client.list_hostname_routes calls tid ≡ ok (account tid)

-- The answer is this one.
abbrev pub Gives : {A : Type 0} → A → Result Error A → Type 0
Gives a answer = answer ≡ ok a

-- The index if it is needed
abbrev pub given : Bool → Assoc HostnameRoute → Assoc HostnameRoute
given true index = index
given false index = []

index_routes-append :
    (test : HostnameRoute → Bool) (rs more : List HostnameRoute) (index : Assoc HostnameRoute)
    → index_routes test (rs ++ more) index ≡ index_routes test more (index_routes test rs index)
unfolding index_routes
index_routes-append test [] more index = refl
index_routes-append test (r ∷ rs) more index =
    index_routes-append test rs more
      (if test r then insert (to_lower r.hostname) r index else index)

module _ (env : Env) (account : Text → List HostnameRoute) (before : History)
    (still : IsStill env account before) where
  -- No route has been changed since.
  abbrev Q : History → Type 0
  Q h = mutations h ≡ before

  list_counted-Gives :
      (tid label : Text) → Yields Q (Gives (account tid)) (list_counted env tid label)
  unfolding list_counted ◌>>=◌ perform emit pure
  list_counted-Gives tid label = record {
    calls = λ s q. rw (still s.calls tid q) q;
    result = λ s q. rw (still s.calls tid q);
  }

  index_tunnels-Gives :
      (what : Context) (test : HostnameRoute → Bool) (tids : List Text)
      (index : Assoc HostnameRoute)
      → Yields Q
          (Gives (index_routes test (routes_on account tids) index))
          (index_tunnels env what test tids index)
  unfolding index_tunnels index_routes
  index_tunnels-Gives what test [] index = Yields-pure Q _ (ok index) refl
  index_tunnels-Gives what test (tid ∷ tids) index =
      Yields-bind Q _ (list_counted env tid tid) _ (list_counted-Gives tid tid) λ answer e.
        rw (index_routes-append test (account tid) (routes_on account tids) index, e)
          (index_tunnels-Gives what test tids (index_routes test (account tid) index))

  owned_route_index-Gives :
      Yields Q (Gives (index_on env account (is_eligible env))) (owned_route_index env)
  unfolding owned_route_index
  owned_route_index-Gives =
      index_tunnels-Gives Context.list_for_delete (is_eligible env) (tunnels env.resolver) []

  adoption_index-Gives : Yields Q (Gives (index_on env account is_live)) (adoption_index env)
  unfolding adoption_index
  adoption_index-Gives =
      index_tunnels-Gives Context.list_for_adoption is_live (tunnels env.resolver) []

  given-Gives :
      (b : Bool) (index : Assoc HostnameRoute) (m : M (Result Error (Assoc HostnameRoute)))
      → Yields Q (Gives index) m
      → Yields Q (Gives (given b index)) (if b then m else pure (ok []))
  given-Gives true index m y = y
  given-Gives false index m y = Yields-pure Q _ (ok []) refl

  pub index_needed-Gives :
      (changes : Changes)
      → Yields Q
          (Gives (
            given
              (not (is_nil changes.deletes) || not (is_nil changes.update_new))
              (index_on env account (is_eligible env))))
          (index_needed env changes)
  unfolding index_needed
  index_needed-Gives changes = given-Gives _ _ (owned_route_index env) owned_route_index-Gives

  pub adoption_needed-Gives :
      (changes : Changes)
      → Yields Q
          (Gives (
            given
              (env.adopt_untagged && not (is_nil changes.create))
              (index_on env account is_live)))
          (adoption_needed env changes)
  unfolding adoption_needed
  adoption_needed-Gives changes = given-Gives _ _ (adoption_index env) adoption_index-Gives
