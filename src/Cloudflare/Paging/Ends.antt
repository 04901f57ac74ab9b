-- ===== src/Cloudflare/Paging/Ends.antt =====
-- When the loop of `ListHostnameRoutes` in internal/cloudflare/client.go ends.
use external_dns_cloudflare.Prelude.{[], ◌*◌, ◌≤◌, ok, ◌<◌, some, ◌≡◌, List, ℕ, Text, ◌⊎◌}
use external_dns_cloudflare.Prelude.Ints.{int_half}
use external_dns_cloudflare.Cloudflare.{Client, Http, HostnameRoute, ResultInfo, fetch_page}

-- The page `last`, if the server answers it and says what there is, has no route on it, or the total
-- is not above its number and the product that the loop compares it with fits into an `int`.
pub record EndsAt (c : Client) (http : Http) (tunnel_id : Text) (last : ℕ) : Type 0 where
  pub answer :
      (batch : List HostnameRoute) (info : ResultInfo)
      → fetch_page c http tunnel_id last ≡ ok (batch, some info)
      → (batch ≡ []) ⊎ ((info.total_count ≤ last) × (last * info.per_page < int_half))
