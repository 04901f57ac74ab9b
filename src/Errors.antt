-- ===== src/Errors.antt =====
-- The `error` values of the program. An error that wraps another by `%w` holds it, since
-- `errors.As` looks through; the texts of the messages are not modelled, only what they name.
use external_dns_cloudflare.Prelude.{ℕ, Text, Bool, false, ◌||◌, List, [], ◌∷◌, nat_eq}
use external_dns_cloudflare.Tunnel.{TunnelError}

-- `APIError` of internal/cloudflare/client.go
pub record ApiError : Type 0 where
  pub method : Text
  pub path : Text
  pub status_code : ℕ
  pub codes : List ℕ
  pub message : Text

-- What an error that wraps another says about it
pub data Context : Type 0 where
  decode_response : ℕ → Context
  decode_routes decode_created_route decode_patched_route : Context
  list_for_delete list_for_adoption : Context
  delete_route create_route coredns_answer : Text → Context
  retarget_route adopt_route : Text → Text → Context
  update_fragment get_configmap : Text → Context
  apply_configmap : Text → Text → Context

pub data Error : Type 0 where
  -- an error of another package: the network, JSON, Kubernetes
  foreign : Text → Error
  api : ApiError → Error
  wrap : Context → Error → Error
  tunnel : TunnelError → Error
  no_tunnel : Text → Error
  wildcard no_resource_label : Text → Error
  unsupported_resource malformed_resource : Text → Error
  -- the route's hostname, its id, and the two tunnels or the owner
  refuse_other_tunnel : Text → Text → Text → Text → Error
  refuse_other_owner : Text → Text → Text → Error
  client_required tunnel_required : Error

has : ℕ → List ℕ → Bool
has code [] = false
has code (c ∷ cs) = nat_eq c code || has code cs

-- `HasCode`
unfoldable pub has_code : Error → ℕ → Bool
unfolding has
has_code (api e) code = has code e.codes
has_code (wrap c e) code = has_code e code
has_code _ code = false
