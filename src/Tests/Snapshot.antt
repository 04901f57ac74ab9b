-- ===== src/Tests/Snapshot.antt =====
-- The theorems on the single methods of internal/provider/provider.go, for the same account.
use external_dns_cloudflare.Prelude.{
  refl, Bool, NodupKeys, [], Text, lookup, codes, ok, ◌∷◌, succeeds, ◌≡◌,
}
use external_dns_cloudflare.Tunnel.{tunnels}
use external_dns_cloudflare.Metrics.{Reason, pending_other}
use external_dns_cloudflare.Provider.State.{State}
use external_dns_cloudflare.Provider.Pending.{set_pending, clear_pending, retain_pending}
use external_dns_cloudflare.Provider.Pending.Published.{IsCounted, pending-IsCounted}
use external_dns_cloudflare.Provider.Records.{records}
use external_dns_cloudflare.Provider.Records.Snapshot.{records-succeeds}
use external_dns_cloudflare.Provider.Records.Listed.{IsSteady, endpoints_on, records-endpoints_on}
use external_dns_cloudflare.Provider.Yields.{Since}
use external_dns_cloudflare.Provider.Adjust.{adjust_endpoints}
use external_dns_cloudflare.Provider.Exact.Planned.{routes_on}
use external_dns_cloudflare.Provider.Justified.Spared.{Spares, adjust_endpoints-Spares}
use external_dns_cloudflare.Tests.Provider.{pruning, env, start, route}

records-succeeds_example : (records env start).1.records_ok ≡ succeeds (records env start).0
records-succeeds_example = records-succeeds env start

env-IsSteady : IsSteady env (λ tid. route ∷ [])
env-IsSteady calls tid = refl

records-endpoints_on_example :
    (records env start).0 ≡ ok (endpoints_on env (λ tid. route ∷ []) (tunnels env.resolver))
records-endpoints_on_example = records-endpoints_on env (λ tid. route ∷ []) env-IsSteady start

abbrev waiting : State
waiting = record start { pending = (codes "new.example.com", pending_other) ∷ [] }

waiting-NodupKeys : NodupKeys waiting.pending
unfolding lookup
waiting-NodupKeys = (refl, tt)

pending-IsCounted_example :
    ((host : Text) (reason : Reason)
      → IsCounted env waiting (set_pending env host reason waiting).1)
    × ((host : Text) → IsCounted env waiting (clear_pending env host waiting).1)
    × ((keep : Text → Bool) → IsCounted env waiting (retain_pending env keep waiting).1)
pending-IsCounted_example = pending-IsCounted env waiting waiting-NodupKeys

-- A cluster that has the rewrite of the route, and of another host
pruning-IsSteady : IsSteady pruning (λ tid. route ∷ [])
pruning-IsSteady calls tid = refl

adjust_endpoints-Spares_example :
    Since
      (Spares pruning (routes_on (λ tid. route ∷ []) (tunnels pruning.resolver)))
      (records pruning start).1.calls
      (adjust_endpoints pruning [] (records pruning start).1).1.calls
adjust_endpoints-Spares_example =
    adjust_endpoints-Spares pruning (λ tid. route ∷ []) pruning-IsSteady start []
