-- ===== src/Provider/Records/Owned.antt =====
-- The hosts that `Records` of internal/provider/provider.go keeps for the pruning of the fragment.
use external_dns_cloudflare.Provider.Records.{
  log_set_change, remember_record_hosts, empty_scan, mark_records_incomplete, records, conclude,
  finish_records, Scan, scan_route, scan_tunnels, scan_routes, list_counted, is_eligible,
}
use external_dns_cloudflare.Provider.Pending.{publish_pending, retain_pending}
use external_dns_cloudflare.Provider.State.{get, modify, emit, Env, State, ◌>>=◌, pure}
use external_dns_cloudflare.Prelude.{
  or_false, or_regroup, ok_injective, err, true, Result, if◌then◌else◌, inr, contains-add, inl, sym,
  Bool-cases, refl, ◌==◌, ap, [], ◌∙◌, insert, to_lower, ◌&&◌, ◌++◌, ok, ◌∷◌, arith, false, ◌≡◌,
  contains, List, ◌||◌, Text, Bool,
}
use external_dns_cloudflare.Cloudflare.{HostnameRoute}
use external_dns_cloudflare.Errors.{Error}
use external_dns_cloudflare.Tunnel.{tunnels}
use external_dns_cloudflare.Provider.Records.Listed.{IsSteady, list_counted-steady}
use external_dns_cloudflare.Provider.Exact.Planned.{routes_on}

-- A live route that this instance may manage has the host.
abbrev pub has_route : Env → Text → List HostnameRoute → Bool
has_route env host [] = false
has_route env host (r ∷ rs) =
    let rest = has_route env host rs in is_eligible env r && to_lower r.hostname == host || rest

has_route-append :
    (env : Env) (host : Text) (rs more : List HostnameRoute)
    → has_route env host (rs ++ more) ≡ (has_route env host rs || has_route env host more)
has_route-append env host [] more = refl
has_route-append env host (r ∷ rs) more = ground (arith, has_route-append env host rs more)

module _ (env : Env) where
  scan_route-owned :
      (tid host : Text) (r : HostnameRoute) (a : Scan)
      → contains host (scan_route env tid r a).owned
        ≡ (is_eligible env r && to_lower r.hostname == host || contains host a.owned)
  unfolding scan_route
  scan_route-owned tid host r a = elim (Bool-cases (is_eligible env r)) [
    | inl mine ↦ elim (Bool-cases (env.matches r.hostname)) [
      | inl inside ↦ rw (mine, inside) (contains-add host (to_lower r.hostname) a.owned)
      | inr outside ↦ rw (mine, outside) (contains-add host (to_lower r.hostname) a.owned)
    ]
    | inr other ↦ rw other
  ]

  scan_routes-owned :
      (tid host : Text) (rs : List HostnameRoute) (a : Scan)
      → contains host (scan_routes env tid rs a).owned
        ≡ (has_route env host rs || contains host a.owned)
  unfolding scan_routes
  scan_routes-owned tid host [] a = refl
  scan_routes-owned tid host (r ∷ rs) a =
      scan_routes-owned tid host rs (scan_route env tid r a)
      ∙ ap (λ b. has_route env host rs || b) (scan_route-owned tid host r a)
      ∙ or_regroup (has_route env host rs) (is_eligible env r && to_lower r.hostname == host) _

  module _ (account : Text → List HostnameRoute) (steady : IsSteady env account) where
    scan_tunnels-owned :
        (tids : List Text) (a : Scan) (s : State)
        → (b : Scan) × ((scan_tunnels env tids a s).0 ≡ ok b)
          × ((host : Text)
              → contains host b.owned
                ≡ (has_route env host (routes_on account tids) || contains host a.owned))
    unfolding scan_tunnels ◌>>=◌ pure
    scan_tunnels-owned [] a s = (a, refl, λ host. refl)
    scan_tunnels-owned (tid ∷ tids) a s =
        let counted : Scan = record a { per_tunnel = insert tid 0 a.per_tunnel } in
        let (b, e, owned) =
          scan_tunnels-owned tids (scan_routes env tid (account tid) counted)
            (list_counted env tid tid s).1 in
        (
          b,
          (rw (scan_tunnels, list_counted-steady env account steady tid tid s) e),
          λ host.
              owned host
              ∙ ap (λ c. has_route env host (routes_on account tids) || c)
                  (scan_routes-owned tid host (account tid) counted)
              ∙ or_regroup (has_route env host (routes_on account tids))
                  (has_route env host (account tid)) _
              ∙ ap (λ c. c || contains host a.owned)
                  (sym (has_route-append env host (account tid) (routes_on account tids))),
        )

    either_owned :
        (b : Bool) (s s' : State) (hosts : List Text)
        → s.owned_hosts ≡ hosts
        → s'.owned_hosts ≡ hosts
        → (if b then s else s').owned_hosts ≡ hosts
    either_owned true s s' hosts e e' = e
    either_owned false s s' hosts e e' = e'

    published_owned :
        (b : Bool) (s : State)
        → (if b then publish_pending env s else (tt, s)).1.owned_hosts ≡ s.owned_hosts
    unfolding publish_pending ◌>>=◌ get emit
    published_owned true s = refl
    published_owned false s = refl

    finish_records-owned : (a : Scan) (s : State) → (finish_records env a s).1.owned_hosts ≡ a.owned
    unfolding finish_records remember_record_hosts log_set_change retain_pending ◌>>=◌ get emit
        modify
    finish_records-owned a s = published_owned _ _

    conclude-owned :
        (q : Result Error Scan) (b : Scan) (s : State)
        → q ≡ ok b
        → (conclude env q s).1.owned_hosts ≡ b.owned
    unfolding conclude ◌>>=◌ pure
    conclude-owned (err e) b s h = cc
    conclude-owned (ok a) b s h =
        finish_records-owned a s ∙ ap (λ (x : Scan). x.owned) (ok_injective a b h)

    -- In an account whose lists succeed and do not change, `Records` keeps as owned the hosts, in
    -- lower case, of the live routes on the listed tunnels that this instance may manage, and no
    -- others, whether or not they match the domain filter.
    pub records-owned_hosts :
        (s : State) (host : Text)
        → contains host (records env s).1.owned_hosts
          ≡ has_route env host (routes_on account (tunnels env.resolver))
    unfolding records ◌>>=◌ modify mark_records_incomplete empty_scan contains
    records-owned_hosts s host =
        let s0 : State = record s { records_ok = false } in
        let all = tunnels env.resolver in
        let (b, e, owned) = scan_tunnels-owned all empty_scan s0 in
        ap (contains host) (
          conclude-owned (scan_tunnels env all empty_scan s0).0 b
            (scan_tunnels env all empty_scan s0).1 e)
        ∙ owned host
        ∙ or_false _
