-- ===== src/Tests/Webhook.antt =====
-- The theorems on cmd/webhook/main.go and cmd/webhook/backend.go, for two environments.
use external_dns_cloudflare.Prelude.{
  none, refl, insert, ◌==◌, cut, [], some, to_lower, ◌∷◌, ◌≢◌, split, map, NodupKeys, arith, Text,
  ◌⊎◌, Option, ok, codes, lookup, Assoc, join, trim_space, List, All, ◌≡◌,
}
use external_dns_cloudflare.Prelude.Strings.Words.{Lacks}
use external_dns_cloudflare.Cloudflare.{Client}
use external_dns_cloudflare.Tunnel.{TunnelResolver, new_map_tunnel_resolver}
use external_dns_cloudflare.Webhook.{Environment, parse_tunnel_map}
use external_dns_cloudflare.Webhook.Csv.{IsPart}
use external_dns_cloudflare.Webhook.TunnelMap.{
  IsTunnelMap, IsWritable, pair_text, parse_tunnel_map-IsTunnelMap,
}
use external_dns_cloudflare.Webhook.TunnelMap.RoundTrip.{parse_tunnel_map-join}
use external_dns_cloudflare.Webhook.TunnelMap.Accepted.{parse_tunnel_map-accepted}
use external_dns_cloudflare.Webhook.Backend.{
  Url, new_route_client, broker_client, backend_broker, backend_cloudflare,
}
use external_dns_cloudflare.Webhook.Backend.Credentials.{
  IsDirect, IsBrokered, new_route_client-IsChecked,
}

abbrev two_parts : List Text
two_parts = codes "a.example" ∷ codes "b.example" ∷ []

two_parts-IsPart : All IsPart two_parts
unfolding trim_space
two_parts-IsPart = ((refl, λ e. cc), ((refl, λ e. cc), tt))

two_parts-Lacks : All (Lacks b',') two_parts
two_parts-Lacks = ground arith

abbrev one_domain : Assoc Text
one_domain = (codes "a.b", codes "t1") ∷ []

one_domain-IsWritable : All IsWritable one_domain
unfolding trim_space
one_domain-IsWritable =
    ((((refl, λ e. cc), (refl, λ e. cc)), ground arith, ground arith, ground arith), tt)

one_domain-NodupKeys : NodupKeys one_domain
unfolding lookup
one_domain-NodupKeys = (refl, tt)

parse_tunnel_map-join_example :
    parse_tunnel_map (join (map pair_text one_domain) (codes ",")) ≡ ok one_domain
parse_tunnel_map-join_example =
    parse_tunnel_map-join one_domain one_domain-IsWritable one_domain-NodupKeys

map_text-parsed : parse_tunnel_map (codes " a.b = t1,") ≡ ok one_domain
unfolding parse_tunnel_map trim_space split cut ◌==◌ insert
map_text-parsed = refl

parse_tunnel_map-IsTunnelMap_example : IsTunnelMap one_domain
parse_tunnel_map-IsTunnelMap_example =
    parse_tunnel_map-IsTunnelMap (codes " a.b = t1,") one_domain map_text-parsed

no_dot : codes "a.b" ≢ codes "."
no_dot = λ e. cc

parse_tunnel_map-accepted_example :
    (r : TunnelResolver) × (new_map_tunnel_resolver one_domain ≡ ok r)
parse_tunnel_map-accepted_example =
    parse_tunnel_map-accepted (codes " a.b = t1,") one_domain map_text-parsed (λ e. cc) (no_dot, tt)

abbrev value_of : Option Text → Text
value_of none = []
value_of (some v) = v

-- The environment of a server that calls the broker
abbrev brokered : Environment
brokered key = value_of (
    lookup key (
      (codes "ROUTE_BACKEND", codes "Broker")
      ∷ (codes "CF_ACCOUNT_ID", codes "acc")
      ∷ (codes "BROKER_URL", codes "https://broker/")
      ∷ (codes "BROKER_CLIENT_ID", codes "id")
      ∷ (codes "BROKER_CLIENT_SECRET", codes "secret")
      ∷ []))

abbrev broker_url : Url
broker_url = record { scheme = codes "https"; host = codes "broker"; hostname = codes "broker" }

abbrev broker : Client
broker = broker_client (codes "acc") (codes "https://broker/") (codes "id") (codes "secret")

broker-made : new_route_client (λ raw. some broker_url) brokered ≡ ok (broker, backend_broker)
unfolding new_route_client trim_space to_lower ◌==◌ lookup backend_broker backend_cloudflare
broker-made = refl

new_route_client-IsChecked_example :
    (backend_broker ≡ backend_cloudflare) × IsDirect brokered broker
    ⊎ (backend_broker ≡ backend_broker) × IsBrokered (λ raw. some broker_url) brokered broker
new_route_client-IsChecked_example =
    new_route_client-IsChecked (λ raw. some broker_url) brokered broker backend_broker broker-made
