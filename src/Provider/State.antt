-- ===== src/Provider/State.antt =====
-- The provider's fields, what it calls, and the sequence of its calls. What the account, the
-- cluster and other writers do meanwhile is not fixed: an answer may depend on all calls before it.
use external_dns_cloudflare.Prelude.{[], Option, ◌++◌, Bool, Result, Assoc, ◌∷◌, List, Text}
use external_dns_cloudflare.Errors.{Error}
use external_dns_cloudflare.Cloudflare.{HostnameRoute, RoutePatch}
use external_dns_cloudflare.Tunnel.{TunnelResolver}
use external_dns_cloudflare.Metrics.{Update, Reason}

-- `endpoint.Endpoint`, as far as the provider reads it
pub record Endpoint : Type 0 where
  pub dns_name : Text
  pub record_type : Text
  pub endpoint_target : Text
  pub labels : Assoc Text

-- `plan.Changes`
pub record Changes : Type 0 where
  pub create : List Endpoint
  pub update_new : List Endpoint
  pub deletes : List Endpoint

-- A call of `routeAPI`, or of a method of `FragmentWriter` that reaches the cluster
pub data Call : Type 0 where
  list_routes : Text → Call
  create_route : Text → Text → Text → Call
  patch_comment : Text → Text → Call
  patch_route : Text → RoutePatch → Call
  delete_route : Text → Call
  fragment_load : Call
  fragment_apply : Assoc Text → List Text → Call

-- The calls so far, the last one first
abbrev pub History : Type 0
History = List Call

-- `routeAPI`
pub record RouteApi : Type 0 where
  pub list_hostname_routes : History → Text → Result Error (List HostnameRoute)
  pub create_hostname_route : History → Text → Text → Text → Result Error HostnameRoute
  pub patch_hostname_route_comment : History → Text → Text → Result Error HostnameRoute
  pub patch_hostname_route : History → Text → RoutePatch → Result Error HostnameRoute
  pub delete_hostname_route : History → Text → Result Error (Unit {0})

-- `FragmentWriter`
pub record FragmentWriter : Type 0 where
  pub service_target : Text → Result Error Text
  pub apply : History → Assoc Text → List Text → Result Error (Assoc Text)
  pub load : History → Result Error (Assoc Text)
  pub key : Text

-- What `New` fixes. `matches` is `domainFilter.Match` and `new_endpoint` is
-- `endpoint.NewEndpoint`, of sigs.k8s.io/external-dns, on hostnames for which it returns an endpoint:
-- for a label of more than 63 characters it returns nil, on which the methods panic.
pub record Env : Type 0 where
  pub client : RouteApi
  pub resolver : TunnelResolver
  pub owner_id : Text
  pub ownership_strict : Bool
  pub dry_run : Bool
  pub adopt_untagged : Bool
  pub coredns : Option FragmentWriter
  pub matches : Text → Bool
  pub metrics : Bool
  pub coredns_prune : Bool
  -- `endpoint.ResourceLabelKey`
  pub resource_label : Text
  pub new_endpoint : Text → Text → Text → Endpoint

-- The fields that change, the calls, what each call of a method of `Metrics` updated (the last one
-- first), and the lists of hostnames that `logSetChange` has logged.
pub record State : Type 0 where
  pub calls : History
  pub updates : List (List Update)
  pub reports : List (List Text)
  pub records_hosts : List Text
  pub owned_hosts : List Text
  pub records_ok : Bool
  pub last_undesired : Text
  pub last_out_of_filter : Text
  pub pending : Assoc Reason

abbrev pub M : Type 0 → Type 0
M A = State → A × State

unfoldable pub pure : {A : Type 0} → A → M A
pure a s = (a, s)

unfoldable pub get : M State
get s = (s, s)

unfoldable pub modify : (State → State) → M (Unit {0})
modify f s = (tt, f s)

-- A call, and its answer
unfoldable pub perform : {A : Type 0} → Call → (History → A) → M A
perform c answer s = (answer s.calls, record s { calls = c ∷ s.calls })

unfoldable pub emit : List Update → M (Unit {0})
emit us s = (tt, record s { updates = us ∷ s.updates })

infixl 5 ◌>>=◌ ◌>>◌
-- Opening this opens the actions above too.
unfoldable pub ◌>>=◌ : {A B : Type 0} → M A → (A → M B) → M B
unfolding pure get modify perform emit
◌>>=◌ m f s = let (a, s') = m s in f a s'

abbrev pub ◌>>◌ : {B : Type 0} → M (Unit {0}) → M B → M B
before >> after = before >>= λ _. after

-- A loop that collects the errors of its rounds
unfoldable pub each : {A : Type 0} → (A → M (List Error)) → List A → M (List Error)
each f [] = pure []
each f (x ∷ xs) = do errs ← f x; more ← each f xs; pure (errs ++ more)
