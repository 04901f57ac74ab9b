-- ===== src/Provider/Ownership.antt =====
-- The owner tag in a route's comment: `comment`, `routeOwner`, `RouteTaggedBy`, `owns` and
-- `manageable` of internal/provider/provider.go.
pub mod RoundTrip
use external_dns_cloudflare.Prelude.{
  cut_prefix, ◌++◌, none, not, [], some, false, trim_space, ◌==◌, Bool, Option, if◌then◌else◌,
  codes, Text,
}
use external_dns_cloudflare.Cloudflare.{HostnameRoute}

unfoldable pub managed_by_prefix : Text
managed_by_prefix = codes "managed-by=external-dns"

-- The tag of an owner
unfoldable pub comment : Text → Text
comment owner_id =
    if owner_id == [] then managed_by_prefix else managed_by_prefix ++ (codes "/" ++ owner_id)

-- The owner that a comment names, if this project wrote the comment
unfoldable pub route_owner : Text → Option Text
route_owner text =
    let c = trim_space text in
    if c == managed_by_prefix then some [] else cut_prefix c (managed_by_prefix ++ codes "/")

unfoldable pub is_owner : Text → Option Text → Bool
is_owner owner none = false
is_owner owner (some o) = o == owner

unfoldable pub route_tagged_by : Text → Text → Bool
unfolding is_owner
route_tagged_by text owner = is_owner owner (route_owner text)

unfoldable pub owns : Text → HostnameRoute → Bool
unfolding is_owner
owns owner_id r = is_owner owner_id (route_owner r.comment)

manageable_by : Text → Bool → Option Text → Bool
manageable_by owner_id strict (some owner) = owner == owner_id
manageable_by owner_id strict none = not strict

unfoldable pub manageable : Text → Bool → HostnameRoute → Bool
unfolding manageable_by
manageable owner_id strict r = manageable_by owner_id strict (route_owner r.comment)
