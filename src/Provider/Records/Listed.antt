-- ===== src/Provider/Records/Listed.antt =====
-- What `Records` of internal/provider/provider.go returns for an account that does not change.
use external_dns_cloudflare.Prelude.{
  arith, inr, append_assoc, inl, ok_injective, insert, Bool-cases, ap, append-nil, [], refl,
  if◌then◌else◌, ◌∙◌, err, sym, ◌++◌, Result, ◌∷◌, ok, List, Text, ◌≡◌, ◌&&◌, false,
}
use external_dns_cloudflare.Errors.{Error}
use external_dns_cloudflare.Cloudflare.{HostnameRoute}
use external_dns_cloudflare.Tunnel.{tunnels, target}
use external_dns_cloudflare.Provider.State.{
  Env, State, Endpoint, History, ◌>>=◌, modify, emit, pure, perform,
}
use external_dns_cloudflare.Provider.Records.{
  Scan, scan_route, records, scan_tunnels, scan_routes, list_counted, conclude,
  mark_records_incomplete, empty_scan, is_eligible, record_type,
}

-- Every list succeeds, and what it says of a tunnel does not depend on the calls before.
abbrev pub IsSteady : Env → (Text → List HostnameRoute) → Type 0
IsSteady env account =
    (calls : History) (tid : Text) → env.client.list_hostname_routes calls tid ≡ ok (account tid)

-- The endpoints of the routes that are live, may be managed, and match the domain filter
abbrev pub endpoints_of : Env → Text → List HostnameRoute → List Endpoint
endpoints_of env tid [] = []
endpoints_of env tid (r ∷ rs) =
    let rest = endpoints_of env tid rs in
    if is_eligible env r && env.matches r.hostname
    then env.new_endpoint r.hostname record_type (target tid) ∷ rest
    else rest

abbrev pub endpoints_on : Env → (Text → List HostnameRoute) → List Text → List Endpoint
endpoints_on env account [] = []
endpoints_on env account (tid ∷ tids) =
    endpoints_of env tid (account tid) ++ endpoints_on env account tids

module _ (env : Env) where
  scan_route-out :
      (tid : Text) (r : HostnameRoute) (a : Scan)
      → (scan_route env tid r a).out ≡ a.out ++ endpoints_of env tid (r ∷ [])
  unfolding scan_route
  scan_route-out tid r a = elim (Bool-cases (is_eligible env r)) [
    | inl mine ↦ elim (Bool-cases (env.matches r.hostname)) [
      | inl inside ↦ rw (mine, inside) refl
      | inr outside ↦ rw (mine, outside) (sym (append-nil a.out))
    ]
    | inr other ↦ rw other (sym (append-nil a.out))
  ]

  endpoints_of-cons :
      (tid : Text) (r : HostnameRoute) (rs : List HostnameRoute)
      → endpoints_of env tid (r ∷ []) ++ endpoints_of env tid rs ≡ endpoints_of env tid (r ∷ rs)
  endpoints_of-cons tid r rs = ground arith

  scan_routes-out :
      (tid : Text) (rs : List HostnameRoute) (a : Scan)
      → (scan_routes env tid rs a).out ≡ a.out ++ endpoints_of env tid rs
  unfolding scan_routes
  scan_routes-out tid [] a = sym (append-nil a.out)
  scan_routes-out tid (r ∷ rs) a =
      scan_routes-out tid rs (scan_route env tid r a)
      ∙ ap (λ front. front ++ endpoints_of env tid rs) (scan_route-out tid r a)
      ∙ append_assoc a.out (endpoints_of env tid (r ∷ [])) (endpoints_of env tid rs)
      ∙ ap (λ rest. a.out ++ rest) (endpoints_of-cons tid r rs)

  module _ (account : Text → List HostnameRoute) (steady : IsSteady env account) where
    pub list_counted-steady :
        (tid label : Text) (s : State) → (list_counted env tid label s).0 ≡ ok (account tid)
    unfolding list_counted ◌>>=◌ perform emit pure
    list_counted-steady tid label s = rw (steady s.calls tid) refl

    scan_tunnels-steady :
        (tids : List Text) (a : Scan) (s : State)
        → (b : Scan) × ((scan_tunnels env tids a s).0 ≡ ok b)
          × (b.out ≡ a.out ++ endpoints_on env account tids)
    unfolding scan_tunnels ◌>>=◌ pure
    scan_tunnels-steady [] a s = (a, refl, sym (append-nil a.out))
    scan_tunnels-steady (tid ∷ tids) a s =
        let counted : Scan = record a { per_tunnel = insert tid 0 a.per_tunnel } in
        let (b, e, out) =
          scan_tunnels-steady tids (scan_routes env tid (account tid) counted)
            (list_counted env tid tid s).1 in
        (
          b,
          (rw (scan_tunnels, list_counted-steady tid tid s) e),
          out
              ∙ ap (λ front. front ++ endpoints_on env account tids)
                  (scan_routes-out tid (account tid) counted)
              ∙ append_assoc a.out _ _,
        )

    conclude-out :
        (q : Result Error Scan) (b : Scan) (s : State) → q ≡ ok b → (conclude env q s).0 ≡ ok b.out
    unfolding conclude ◌>>=◌ pure
    conclude-out (err e) b s h = cc
    conclude-out (ok a) b s h = ap (λ (x : Scan). ok x.out) (ok_injective a b h)

    -- In an account whose lists succeed and do not change, `Records` returns the endpoints of the
    -- routes that are live, may be managed and match the domain filter, tunnel by tunnel, each with
    -- the target of the tunnel that lists it.
    pub records-endpoints_on :
        (s : State) → (records env s).0 ≡ ok (endpoints_on env account (tunnels env.resolver))
    unfolding records ◌>>=◌ modify mark_records_incomplete empty_scan
    records-endpoints_on s =
        let s0 : State = record s { records_ok = false } in
        let all = tunnels env.resolver in
        let (b, e, out) = scan_tunnels-steady all empty_scan s0 in
        conclude-out (scan_tunnels env all empty_scan s0).0 b (scan_tunnels env all empty_scan s0).1
          e
        ∙ ap ok out
