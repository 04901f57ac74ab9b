-- ===== src/Webhook/TunnelMap/Accepted.antt =====
-- What `newMapTunnelResolver` of internal/provider/tunnel.go makes of a map that `parseTunnelMap` of
-- cmd/webhook/main.go returns.
use external_dns_cloudflare.Prelude.{
  err, Result, refl, false, ◌==◌, ◌∷◌, List, [], codes, ok, ◌≢◌, ◌≡◌, All, Text, Assoc,
}
use external_dns_cloudflare.Prelude.Strings.Words.{ne_nil-test}
use external_dns_cloudflare.Prelude.Strings.Domain.{trimmed_domain-ne-nil}
use external_dns_cloudflare.Prelude.Sort.{sort}
use external_dns_cloudflare.Tunnel.{
  entry_of, entry_less, TunnelError, TunnelEntry, TunnelResolver, normal_domain, map_entries,
  new_map_tunnel_resolver,
}
use external_dns_cloudflare.Webhook.{parse_tunnel_map}
use external_dns_cloudflare.Webhook.Csv.{IsPart}
use external_dns_cloudflare.Webhook.TunnelMap.{IsEntry, parse_tunnel_map-IsTunnelMap}

normal_domain-ne-nil : (d : Text) → IsPart d → d ≢ codes "." → normal_domain d == [] ≡ false
unfolding normal_domain
normal_domain-ne-nil d (t, n) h = ne_nil-test _ (trimmed_domain-ne-nil d t n h)

map_entries_total :
    (m : Assoc Text)
    → All IsEntry m
    → All (λ (p : Text × Text). p.0 ≢ codes ".") m
    → (es : List TunnelEntry) × (map_entries m ≡ ok es)
unfolding map_entries
map_entries_total [] _ _ = ([], refl)
map_entries_total ((d, t) ∷ m) ((part, (trimmed, n)), rest) (dot, dots) =
    let (es, e) = map_entries_total m rest dots in
    (entry_of (d, t) ∷ es, rw (normal_domain-ne-nil d part dot, trimmed, ne_nil-test t n, e) refl)

sorted-ok :
    (q : Result TunnelError (List TunnelEntry)) (es : List TunnelEntry)
    → q ≡ ok es
    → (r : TunnelResolver) × ((elim q as (λ _. Result TunnelError TunnelResolver) [
      | err e ↦ err e
      | ok entries ↦ ok (record { entries = sort entry_less entries; fallback = []; drain = [] })
    ])
        ≡ ok r)
sorted-ok (err e) es h = cc
sorted-ok (ok es') es h = (_, refl)

-- `newMapTunnelResolver` accepts a map that `parseTunnelMap` returns, if it is not empty and no
-- domain of it is a single dot.
pub parse_tunnel_map-accepted :
    (s : Text) (m : Assoc Text)
    → parse_tunnel_map s ≡ ok m
    → m ≢ []
    → All (λ (p : Text × Text). p.0 ≢ codes ".") m
    → (r : TunnelResolver) × (new_map_tunnel_resolver m ≡ ok r)
unfolding new_map_tunnel_resolver
parse_tunnel_map-accepted s [] h n dots = absurd (n refl)
parse_tunnel_map-accepted s (p ∷ m) h n dots =
    let (es, e) =
      map_entries_total (p ∷ m) (parse_tunnel_map-IsTunnelMap s (p ∷ m) h).entries dots in
    sorted-ok (map_entries (p ∷ m)) es e
