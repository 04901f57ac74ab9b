-- ===== src/Tests/Prune.antt =====
-- The theorems on cmd/webhook/prune.go, for an account with the routes of two owners.
use external_dns_cloudflare.Prelude.{
  arith, ◌↔◌, is_space, err, refl, ◌==◌, ◌≢◌, [], ◌∷◌, if◌then◌else◌, List, All, Any, none,
  trim_space, codes, ok, Text, true, ◌≡◌,
}
use external_dns_cloudflare.Prelude.Strings.Words.{Lacks}
use external_dns_cloudflare.Webhook.Csv.{IsPart}
use external_dns_cloudflare.Prelude.Strings.Trim.{IsSolid}
use external_dns_cloudflare.Provider.Ownership.{comment}
use external_dns_cloudflare.Webhook.Prune.{
  is_candidate, PruneClient, PruneDeps, run_prune, scopes_of,
}
use external_dns_cloudflare.Webhook.Prune.Created.{is_candidate-comment}
use external_dns_cloudflare.Errors.{Error}
use external_dns_cloudflare.Cloudflare.{HostnameRoute}
use external_dns_cloudflare.Webhook.Flags.{PruneFlags, parse_flags, no_flags}
use external_dns_cloudflare.Webhook.Flags.RoundTrip.{args_of, parse_flags-args_of}
use external_dns_cloudflare.Webhook.Flags.Asked.{AsksApply, parse_flags-AsksApply}
use external_dns_cloudflare.Webhook.Prune.Collected.{IsSteady, deleted_ids}
use external_dns_cloudflare.Webhook.Prune.Exact.{IsExact, run_prune-IsExact}
use external_dns_cloudflare.Webhook.Prune.Justified.{IsJustified, run_prune-Justified}
use external_dns_cloudflare.Webhook.Prune.Status.{IsStatus, run_prune-IsStatus}
use external_dns_cloudflare.Webhook.Prune.Report.{Agrees, run_prune-Agrees}

abbrev route : Text → Text → HostnameRoute
route id tag = record {
  id = id;
  hostname = codes "app.example.com";
  tunnel_id = codes "t1";
  tunnel_name = codes "home";
  tun_type = codes "cfd_tunnel";
  comment = tag;
  created_at = none;
  deleted_at = none;
}

-- Two routes of the owner that is gone, and one of another, on every tunnel
abbrev account : Text → List HostnameRoute
account tid =
    route (codes "r1") (codes "managed-by=external-dns/gone")
    ∷ route (codes "r2") (codes "managed-by=external-dns/me")
    ∷ route (codes "r3") (codes "managed-by=external-dns/gone")
    ∷ []

-- It refuses to delete the first of them.
abbrev client : PruneClient
client = record {
  list_hostname_routes = λ h tid. ok (account tid);
  delete_hostname_route =
      λ h id. if id == codes "r1" then err (Error.foreign (codes "refused")) else ok tt;
}

abbrev deps : PruneDeps
deps = record {
  getenv = λ key. codes "set";
  new_client = λ account_id token. client;
  new_domain_filter = λ domains name. true;
}

abbrev flags : PruneFlags
flags = record {
  owner = codes "gone";
  tunnels = codes "t1" ∷ codes "t2" ∷ [];
  domain_filter = [];
  apply = true;
}

tunnels_written : All IsPart flags.tunnels × All (Lacks b',') flags.tunnels
unfolding trim_space
tunnels_written =
    (((refl, λ e. cc), ((refl, λ e. cc), tt)), ((refl, (refl, tt)), ((refl, (refl, tt)), tt)))

parse_flags-args_of_example : parse_flags (args_of flags) none no_flags ≡ ok (flags, [])
parse_flags-args_of_example = parse_flags-args_of flags tunnels_written.0 tunnels_written.1

flags-read : parse_flags (args_of flags) none no_flags ≡ ok (flags, [])
flags-read = parse_flags-args_of flags tunnels_written.0 tunnels_written.1

parse_flags-AsksApply_example : Any AsksApply (args_of flags)
parse_flags-AsksApply_example = parse_flags-AsksApply (args_of flags) flags [] flags-read refl

gone-ne-nil : trim_space flags.owner ≢ []
unfolding trim_space
gone-ne-nil = λ e. cc

client-IsSteady : IsSteady client account
client-IsSteady calls tid = refl

run_prune-IsExact_example :
    IsExact
      (trim_space flags.owner)
      (λ name. true)
      account
      (scopes_of flags.tunnels)
      (deleted_ids (run_prune deps (args_of flags)).1.calls)
run_prune-IsExact_example =
    run_prune-IsExact deps (args_of flags) flags flags-read gone-ne-nil (λ e. cc) (λ e. cc) account
      client-IsSteady refl

run_prune-Justified_example :
    All (IsJustified deps (args_of flags)) (run_prune deps (args_of flags)).1.calls
run_prune-Justified_example = run_prune-Justified deps (args_of flags)

run_prune-IsStatus_example : IsStatus client (run_prune deps (args_of flags))
run_prune-IsStatus_example = run_prune-IsStatus deps (args_of flags)

run_prune-Agrees_example :
    All (Agrees (run_prune deps (args_of flags)).1.lines) (run_prune deps (args_of flags)).1.lines
run_prune-Agrees_example = run_prune-Agrees deps (args_of flags)

gone-IsSolid : IsSolid (codes "gone")
unfolding is_space
gone-IsSolid = ground arith

abbrev created : HostnameRoute
created = route (codes "r4") (comment (codes "gone"))

is_candidate-comment_example :
    (is_candidate (codes "me") (λ name. true) created ≡ true) ↔ (codes "me" ≡ codes "gone")
is_candidate-comment_example =
    is_candidate-comment (codes "gone") (codes "me") (λ name. true) created gone-IsSolid refl refl
      refl
