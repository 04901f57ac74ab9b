-- ===== src/Tests/Exact.antt =====
-- The theorems on whole runs of internal/provider/provider.go, where a fragment is written too.
use external_dns_cloudflare.Prelude.{
  codes, keys, insert, ◌==◌, contains_byte, to_lower, lookup, refl, ◌∷◌, [], ◌≡◌,
}
use external_dns_cloudflare.Provider.State.{Endpoint, Changes, ◌>>=◌}
use external_dns_cloudflare.Provider.Apply.{apply_changes}
use external_dns_cloudflare.Provider.Exact.{mutations, after}
use external_dns_cloudflare.Provider.Exact.Planned.{planned_calls}
use external_dns_cloudflare.Provider.Exact.Apply.{apply_changes-planned}
use external_dns_cloudflare.Errors.{has_code}
use external_dns_cloudflare.Tunnel.{resolve, new_single_tunnel_resolver}
use external_dns_cloudflare.Provider.Reported.{AcceptedSince}
use external_dns_cloudflare.Provider.Reported.Apply.{apply_changes-AllAccepted}
use external_dns_cloudflare.Prelude.Sort.{sort_strings}
use external_dns_cloudflare.Provider.CoreDns.{skipped_errors}
use external_dns_cloudflare.Tests.Provider.{pruning, changes, start, route, app}

-- A host that is answered in the cluster
abbrev fresh : Endpoint
fresh = record app {
  dns_name = codes "fresh.example.com";
  labels = (codes "resource", codes "service/n/s") ∷ [];
}

-- It is created, and a route is deleted.
abbrev plan : Changes
plan = record changes { create = fresh ∷ [] }

-- A plan whose calls all succeed
abbrev creation : Changes
creation = record changes { create = fresh ∷ []; deletes = [] }

apply_changes-planned_example :
    mutations (apply_changes pruning plan start).1.calls
    ≡ after (planned_calls pruning (λ tid. route ∷ []) plan) []
apply_changes-planned_example =
    apply_changes-planned pruning (λ tid. route ∷ []) plan [] (λ calls tid q. refl)
      (λ calls add remove. (add, refl)) start refl

creation-IsNil : (apply_changes pruning creation start).0 ≡ []
unfolding apply_changes ◌>>=◌ lookup to_lower contains_byte ◌==◌ insert has_code resolve
    skipped_errors sort_strings keys new_single_tunnel_resolver
creation-IsNil = refl

apply_changes-AllAccepted_example :
    AcceptedSince pruning start.calls (apply_changes pruning creation start).1.calls
apply_changes-AllAccepted_example = apply_changes-AllAccepted pruning creation start creation-IsNil
