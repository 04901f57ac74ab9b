-- ===== src/Provider/Justified/Lists.antt =====
-- The indices of `ApplyChanges` hold listed routes.
use external_dns_cloudflare.Prelude.{
  contains, ◌∙◌, err, eq_iff, [], lookup-insert, inr, arith, inl, ◌==◌, Bool-cases, ◌∷◌, insert,
  some, to_lower, All, ok, lookup, true, ◌≡◌, List, Result, Assoc, Bool, Text, known-All,
  All-members, lookup-nil, ok_injective,
}
use external_dns_cloudflare.Provider.Yields.{
  Yields-result, Yields, Keeps, AnyResult, Yields-pure, Keeps-pure, Keeps-emit, Yields-perform,
  Yields-bind, Keeps-bind,
}
use mathlib.Core.Path.{subst}
use external_dns_cloudflare.Errors.{Error, Context, wrap}
use external_dns_cloudflare.Cloudflare.{HostnameRoute}
use external_dns_cloudflare.Tunnel.{tunnels}
use external_dns_cloudflare.Provider.State.{Env, History, emit, perform, list_routes}
use external_dns_cloudflare.Provider.Records.{is_live, is_eligible, list_counted}
use external_dns_cloudflare.Provider.Index.{
  index_routes, index_tunnels, owned_route_index, adoption_index, account_route_index,
}
use external_dns_cloudflare.Provider.Justified.{IsListed}

-- A route of an index, under its hostname in lower case
abbrev pub IsIndexed : Env → (HostnameRoute → Bool) → Text × HostnameRoute → Type 0
IsIndexed env test (host, r) = IsListed env r × (test r ≡ true) × (to_lower r.hostname ≡ host)

abbrev pub IsIndex : Env → (HostnameRoute → Bool) → Assoc HostnameRoute → Type 0
IsIndex env test index =
    (host : Text) (r : HostnameRoute) → lookup host index ≡ some r → IsIndexed env test (host, r)

-- A list of the routes that the account gave for a tunnel
abbrev AreListed : Env → Text → Result Error (List HostnameRoute) → Type 0
AreListed env tid answer =
    (routes : List HostnameRoute)
    → answer ≡ ok routes
    → (h : History) × (env.client.list_hostname_routes h tid ≡ ok routes)

IsIndex-insert :
    (env : Env) (test : HostnameRoute → Bool) (r : HostnameRoute) (index : Assoc HostnameRoute)
    → IsListed env r
    → test r ≡ true
    → IsIndex env test index
    → IsIndex env test (insert (to_lower r.hostname) r index)
IsIndex-insert env test r index listed passes old host q e =
    elim (Bool-cases (to_lower r.hostname == host)) [
      | inl same ↦
          let one : r ≡ q = ground (arith, lookup-insert (to_lower r.hostname) host r index) in
          subst (λ x. IsIndexed env test (host, x)) one
            (listed, passes, (eq_iff (to_lower r.hostname) host).0 same)
      | inr other ↦ old host q (ground (arith, lookup-insert (to_lower r.hostname) host r index))
    ]

index_routes-IsIndex :
    (env : Env) (test : HostnameRoute → Bool) (rs : List HostnameRoute)
    (index : Assoc HostnameRoute)
    → All (IsListed env) rs
    → IsIndex env test index
    → IsIndex env test (index_routes test rs index)
unfolding index_routes
index_routes-IsIndex env test [] index _ old = old
index_routes-IsIndex env test (r ∷ rs) index (l, ls) old = elim (Bool-cases (test r)) [
  | inl passes ↦
      rw passes
        (index_routes-IsIndex env test rs _ ls (IsIndex-insert env test r index l passes old))
  | inr fails ↦ rw fails (index_routes-IsIndex env test rs index ls old)
]

-- An index, if there is one
abbrev pub GivesIndex : Env → (HostnameRoute → Bool) → Result Error (Assoc HostnameRoute) → Type 0
GivesIndex env test answer =
    (index : Assoc HostnameRoute) → answer ≡ ok index → IsIndex env test index

pub no_routes : (env : Env) (test : HostnameRoute → Bool) → IsIndex env test []
no_routes env test host r e = cc (lookup-nil {0} {V = HostnameRoute} host)

module _ (env : Env) (Q : History → Type 0)
    (list_step : (tid : Text) (h : History) → Q h → Q (list_routes tid ∷ h)) where
  list_counted-AreListed :
      (tid label : Text) → Yields Q (AreListed env tid) (list_counted env tid label)
  unfolding list_counted
  list_counted-AreListed tid label =
      Yields-bind Q (AreListed env tid) (perform (list_routes tid) _) _
        (Yields-perform Q (AreListed env tid) (list_routes tid) _ (list_step tid)
          (λ h routes e. (h, e)))
        λ answer listed. Keeps-bind Q (AreListed env tid) (emit _) _ (Keeps-emit Q _) λ _.
          Yields-result Q (AreListed env tid) answer _ _
            (λ e p.
              Keeps-bind Q (AreListed env tid) (emit _) _ (Keeps-emit Q _)
                λ _. Yields-pure Q (AreListed env tid) (err e) (λ routes q. cc))
            (λ routes p. Yields-pure Q (AreListed env tid) (ok routes) (λ rs q. listed rs (p ∙ q)))

  from_answer :
      (tid : Text) (routes : List HostnameRoute) (h : History)
      → contains tid (tunnels env.resolver) ≡ true
      → env.client.list_hostname_routes h tid ≡ ok routes
      → All (IsListed env) routes
  from_answer tid routes h known e = All-members (IsListed env) routes λ r m. record {
    before = h;
    tunnel = tid;
    routes = routes;
    known = known;
    answer = e;
    member = m;
  }

  index_tunnels-GivesIndex :
      (what : Context) (test : HostnameRoute → Bool) (tids : List Text)
      (index : Assoc HostnameRoute)
      → All (λ tid. contains tid (tunnels env.resolver) ≡ true) tids
      → IsIndex env test index
      → Yields Q (GivesIndex env test) (index_tunnels env what test tids index)
  unfolding index_tunnels
  index_tunnels-GivesIndex what test [] index _ good =
      Yields-pure Q (GivesIndex env test) (ok index)
        (λ i e. subst (IsIndex env test) (ok_injective index i e) good)
  index_tunnels-GivesIndex what test (tid ∷ tids) index (known, rest) good =
      Yields-bind Q (GivesIndex env test) (list_counted env tid tid) _
        (list_counted-AreListed tid tid)
        λ answer listed.
          Yields-result Q (GivesIndex env test) answer _ _
            (λ e p. Yields-pure Q (GivesIndex env test) (err (wrap what e)) (λ i q. cc))
            (λ routes p.
              index_tunnels-GivesIndex what test tids (index_routes test routes index) rest (
                index_routes-IsIndex env test routes index
                  (from_answer tid routes (listed routes p).0 known (listed routes p).1) good))

  pub owned_route_index-GivesIndex :
      Yields Q (GivesIndex env (is_eligible env)) (owned_route_index env)
  unfolding owned_route_index
  owned_route_index-GivesIndex =
      index_tunnels-GivesIndex _ (is_eligible env) (tunnels env.resolver) []
        (known-All (tunnels env.resolver)) (no_routes env (is_eligible env))

  pub adoption_index-GivesIndex : Yields Q (GivesIndex env is_live) (adoption_index env)
  unfolding adoption_index
  adoption_index-GivesIndex =
      index_tunnels-GivesIndex _ is_live (tunnels env.resolver) []
        (known-All (tunnels env.resolver)) (no_routes env is_live)

  list_counted-Keeps : (tid label : Text) → Keeps Q (list_counted env tid label)
  list_counted-Keeps tid label =
      let y = list_counted-AreListed tid label in record { calls = y.calls; result = λ s q. tt }

  pub account_route_index-Keeps : Keeps Q (account_route_index env)
  unfolding account_route_index
  account_route_index-Keeps =
      Keeps-bind Q AnyResult (list_counted env [] _) _ (list_counted-Keeps [] _) λ answer.
        Yields-result Q AnyResult answer _ _ (λ e _. Keeps-pure Q _) (λ routes _. Keeps-pure Q _)
