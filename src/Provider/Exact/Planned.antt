-- ===== src/Provider/Exact/Planned.antt =====
-- The changes that a plan asks for, read off the plan and the routes of the account.
use external_dns_cloudflare.Provider.Exact.{pure, calls_of, Makes, Makes-pure}
use external_dns_cloudflare.Prelude.{
  refl, ◌≡◌, ◌==◌, ◌&&◌, ◌||◌, not, none, to_lower, some, lookup, if◌then◌else◌, [], ◌∷◌, ◌++◌,
  Text, List, Assoc, Bool, Option, true, false, is_some, contains_byte, succeeds,
}
use external_dns_cloudflare.Cloudflare.{HostnameRoute}
use external_dns_cloudflare.Tunnel.{resolve, tunnels}
use external_dns_cloudflare.Provider.State.{
  Env, Endpoint, Changes, Call, FragmentWriter, create_route, patch_comment, patch_route,
  delete_route,
}
use external_dns_cloudflare.Provider.Ownership.{comment, route_owner}
use external_dns_cloudflare.Provider.Records.{is_eligible, is_live}
use external_dns_cloudflare.Provider.Index.{index_routes}
use external_dns_cloudflare.Provider.CoreDns.{text_or_empty}

-- The routes of the tunnels, in the order of the tunnels
abbrev pub routes_on : (Text → List HostnameRoute) → List Text → List HostnameRoute
routes_on account [] = []
routes_on account (tid ∷ tids) = account tid ++ routes_on account tids

-- Those routes of the resolver's tunnels that pass the test, by their hosts
abbrev pub index_on :
    Env → (Text → List HostnameRoute) → (HostnameRoute → Bool) → Assoc HostnameRoute
index_on env account test = index_routes test (routes_on account (tunnels env.resolver)) []

-- The calls, unless it is a dry run
abbrev pub unless : Bool → List Call → List Call
unless true cs = []
unless false cs = cs

module _ (env : Env) where
  abbrev pub deleted : Option HostnameRoute → List Call
  deleted none = []
  deleted (some r) = delete_route r.id ∷ []

  abbrev pub delete_of : Assoc HostnameRoute → Endpoint → List Call
  delete_of owned ep =
      if env.matches ep.dns_name then deleted (lookup (to_lower ep.dns_name) owned) else []

  abbrev pub retargeted : Option Text → Option HostnameRoute → List Call
  retargeted none o = []
  retargeted (some want) none = []
  retargeted (some want) (some r) =
      if r.tunnel_id == want
      then []
      else patch_route r.id
          (record { hostname = r.hostname; tunnel_id = want; comment = r.comment })
        ∷ []

  abbrev pub retarget_of : Assoc HostnameRoute → Endpoint → List Call
  retarget_of owned ep =
      if env.matches ep.dns_name
      then retargeted (resolve env.resolver ep.dns_name) (lookup (to_lower ep.dns_name) owned)
      else []

  abbrev pub made_on : Text → Option Text → Option HostnameRoute → List Call
  made_on name none o = []
  made_on name (some tid) none = create_route name tid (comment env.owner_id) ∷ []
  made_on name (some tid) (some r) =
      if r.tunnel_id == tid && not (is_some (route_owner r.comment))
      then patch_comment r.id (comment env.owner_id) ∷ []
      else []

  -- The create, or the adoption of an untagged route that is found on the right tunnel
  abbrev pub creation_of : Assoc HostnameRoute → (Text → Bool) → Endpoint → List Call
  creation_of found unanswered ep =
      if env.matches ep.dns_name && not (unanswered (to_lower ep.dns_name))
      then made_on ep.dns_name (resolve env.resolver ep.dns_name)
          (lookup (to_lower ep.dns_name) found)
      else []

  -- The fragment writer has no answer for the endpoint.
  abbrev pub fails_on : FragmentWriter → Endpoint → Bool
  fails_on w ep =
      let resource = text_or_empty (lookup env.resource_label ep.labels) in
      contains_byte b'*' (to_lower ep.dns_name)
      || (resource == [] || not (succeeds (w.service_target resource)))

  abbrev pub unanswered_by : FragmentWriter → List Endpoint → Text → Bool
  unanswered_by w [] host = false
  unanswered_by w (ep ∷ eps) host =
      let rest = unanswered_by w eps host in
      env.matches ep.dns_name && (fails_on w ep && to_lower ep.dns_name == host) || rest

  -- A create of the host, within the filter, that gets no answer in the cluster
  abbrev pub is_unanswered : Option FragmentWriter → List Endpoint → Text → Bool
  is_unanswered none eps host = false
  is_unanswered (some w) eps host = unanswered_by w eps host

  -- The routes that a create finds: all live ones where this instance adopts, and else none
  abbrev pub adoptable : (Text → List HostnameRoute) → Assoc HostnameRoute
  adoptable account = if env.adopt_untagged then index_on env account is_live else []

  -- The changes that the plan asks for in an account with these routes, in order: the deletes and the
  -- retargets of routes that this instance may manage, then the creates and the adoptions
  abbrev pub planned_calls : (Text → List HostnameRoute) → Changes → List Call
  planned_calls account changes =
      let owned = index_on env account (is_eligible env) in
      let unanswered = is_unanswered env.coredns changes.create in
      unless env.dry_run (
        calls_of (delete_of owned) changes.deletes
        ++ (calls_of (retarget_of owned) changes.update_new
            ++ calls_of (creation_of (adoptable account) unanswered) changes.create))

pub unless-append :
    (b : Bool) (front back : List Call) → unless b front ++ unless b back ≡ unless b (front ++ back)
unless-append true front back = refl
unless-append false front back = refl

pub unless-calls_of :
    (b : Bool) (f : Endpoint → List Call) (eps : List Endpoint)
    → calls_of (λ ep. unless b (f ep)) eps ≡ unless b (calls_of f eps)
unless-calls_of true f [] = refl
unless-calls_of true f (ep ∷ eps) = unless-calls_of true f eps
unless-calls_of false f eps = refl

-- Where nothing is to be made
pub Makes-nothing : {A : Type 0} (b : Bool) (a : A) → Makes (unless b []) (pure a)
Makes-nothing true a = Makes-pure a
Makes-nothing false a = Makes-pure a
