-- ===== src/Tests/Pending.antt =====
-- The theorems on the pending hostnames and on the number of calls, for an account that refuses
-- creates.
use external_dns_cloudflare.Prelude.{
  ◌*◌, ◌+◌, ◌≤◌, err, ◌∷◌, [], codes, ◌≡◌, none, lookup, if◌then◌else◌, contains, length,
}
use external_dns_cloudflare.Errors.{Error}
use external_dns_cloudflare.Cloudflare.{err_code_hostname_already_routed}
use external_dns_cloudflare.Metrics.{pending_other}
use external_dns_cloudflare.Tunnel.{tunnels}
use external_dns_cloudflare.Provider.State.{Env, State, RouteApi}
use external_dns_cloudflare.Provider.Records.{records}
use external_dns_cloudflare.Provider.Adjust.{adjust_all, adjust_endpoints}
use external_dns_cloudflare.Provider.Apply.{apply_changes}
use external_dns_cloudflare.Provider.Pending.Cleared.{
  hosts_of, Leaves, adjust_endpoints-pending, records-pending,
}
use external_dns_cloudflare.Provider.Pending.Refused.{Accounted}
use external_dns_cloudflare.Provider.Pending.Accounted.{apply_changes-Accounted}
use external_dns_cloudflare.Provider.Cost.Apply.{apply_changes-le-budget}
use external_dns_cloudflare.Tests.Provider.{env, start, app, changes}

-- Every create is refused since the hostname is already routed.
abbrev taken : RouteApi
taken = record env.client {
  create_hostname_route = λ h host tid tag. err (
      Error.api (record {
        method = codes "POST";
        path = codes "p";
        status_code = 409;
        codes = err_code_hostname_already_routed ∷ [];
        message = [];
      }));
}

abbrev refusing : Env
refusing = record env { client = taken }

abbrev waiting : State
waiting = record start {
  pending =
      (codes "app.example.com", pending_other) ∷ (codes "old.example.com", pending_other) ∷ [];
}

adjust_endpoints-pending_example :
    lookup (codes "old.example.com") (adjust_endpoints env (app ∷ []) waiting).1.pending ≡ (
      if contains (codes "old.example.com") (hosts_of (adjust_all env (app ∷ [])))
      then lookup (codes "old.example.com") waiting.pending
      else none)
adjust_endpoints-pending_example =
    adjust_endpoints-pending env (app ∷ []) waiting (codes "old.example.com")

records-pending_example :
    Leaves (records env waiting).0 waiting.pending (records env waiting).1.pending
records-pending_example = records-pending env waiting

apply_changes-Accounted_example :
    Accounted refusing changes.create waiting.pending
      (apply_changes refusing changes waiting).1.pending
apply_changes-Accounted_example = apply_changes-Accounted refusing changes waiting

apply_changes-le-budget_example :
    length (apply_changes refusing changes waiting).1.calls
    ≤ length waiting.calls
      + (2 * length (tunnels refusing.resolver)
          + (length changes.deletes + length changes.update_new + length changes.create)
          + 2)
apply_changes-le-budget_example = apply_changes-le-budget refusing changes waiting
