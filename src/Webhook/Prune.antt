-- ===== src/Webhook/Prune.antt =====
-- cmd/webhook/prune.go: the subcommand that deletes the routes of an owner that is gone.
pub mod Collected
pub mod Deletes
pub mod Justified
pub mod Exact
pub mod Status
pub mod Report
pub mod Created
use external_dns_cloudflare.Prelude.{
  map, codes, ◌-◌, text_ltb, ◌==◌, trim_space, length, ltb, suc, is_some, if◌then◌else◌, none, [],
  err, ok, ◌++◌, not, ◌∷◌, Result, Bool, contains, List, Text, ℕ, ◌||◌,
}
use external_dns_cloudflare.Prelude.Sort.{sort}
use external_dns_cloudflare.Errors.{Error}
use external_dns_cloudflare.Cloudflare.{HostnameRoute}
use external_dns_cloudflare.Provider.State.{Call, History}
use external_dns_cloudflare.Provider.Ownership.{route_tagged_by}
use external_dns_cloudflare.Webhook.{Environment, split_csv}
use external_dns_cloudflare.Webhook.Flags.{PruneFlags, FlagError, parse_flags, no_flags}

unfoldable pub prune_ok : ℕ
prune_ok = 0

unfoldable pub prune_failed : ℕ
prune_failed = 1

unfoldable pub prune_usage_error : ℕ
prune_usage_error = 2

-- `pruneClient`. An answer may depend on all calls before it.
pub record PruneClient : Type 0 where
  pub list_hostname_routes : History → Text → Result Error (List HostnameRoute)
  pub delete_hostname_route : History → Text → Result Error (Unit {0})

-- `pruneDeps`, and `endpoint.NewDomainFilter` of sigs.k8s.io/external-dns
pub record PruneDeps : Type 0 where
  pub getenv : Environment
  pub new_client : Text → Text → PruneClient
  pub new_domain_filter : List Text → Text → Bool

-- What is printed to the standard output or the standard error, as far as it varies
pub data Line : Type 0 where
  usage owner_required credentials_required nothing_to_prune : Line
  flag_error : FlagError → Line
  unexpected_argument : Text → Line
  list_failed : Text → Error → Line
  heading : Text → List Text → Line
  table : List HostnameRoute → Line
  dry_run_note : ℕ → Line
  delete_failed : HostnameRoute → Error → Line
  deleted : HostnameRoute → Line
  summary : ℕ → ℕ → Line

-- The calls so far and the lines so far, the last ones first, and the deletes that failed
pub record PruneState : Type 0 where
  pub calls : History
  pub lines : List Line
  pub failures : ℕ

-- The route passes the test in the loop.
unfoldable pub is_candidate : Text → (Text → Bool) → HostnameRoute → Bool
is_candidate owner_id matches r =
    not (
      is_some r.deleted_at
      || (not (route_tagged_by r.comment owner_id) || not (matches r.hostname)))

unfoldable pub ids : List HostnameRoute → List Text
ids = map (λ (r : HostnameRoute). r.id)

-- The inner loop. The set `seen` holds the ids of what is found.
unfoldable pub select :
    (HostnameRoute → Bool) → List HostnameRoute → List HostnameRoute → List HostnameRoute
unfolding ids contains
select candidate [] found = found
select candidate (r ∷ routes) found =
    let skip = select candidate routes found in
    let keep = select candidate routes (found ++ r ∷ []) in
    if not (candidate r) then skip else if contains r.id (ids found) then skip else keep

-- The outer loop: what is found or the tunnel whose list failed, and the calls
unfoldable pub collect :
    PruneClient
    → (HostnameRoute → Bool)
    → List Text
    → History
    → List HostnameRoute
    → Result (Text × Error) (List HostnameRoute) × History
unfolding select
collect client candidate [] calls found = (ok found, calls)
collect client candidate (tid ∷ scopes) calls found = elim (client.list_hostname_routes calls tid) [
  | err e ↦ (err (tid, e), Call.list_routes tid ∷ calls)
  | ok routes ↦
      collect client candidate scopes (Call.list_routes tid ∷ calls) (select candidate routes found)
]

-- The `less` function: by hostname, then by id
unfoldable pub prune_less : HostnameRoute → HostnameRoute → Bool
prune_less r q =
    if not (r.hostname == q.hostname) then text_ltb r.hostname q.hostname else text_ltb r.id q.id

delete_answer : HostnameRoute → Result Error (Unit {0}) → PruneState → PruneState
delete_answer r (err e) s = record {
  calls = Call.delete_route r.id ∷ s.calls;
  lines = delete_failed r e ∷ s.lines;
  failures = suc s.failures;
}
delete_answer r (ok u) s = record {
  calls = Call.delete_route r.id ∷ s.calls;
  lines = deleted r ∷ s.lines;
  failures = s.failures;
}

-- The loop of the deletes
unfoldable pub delete_all : PruneClient → List HostnameRoute → PruneState → PruneState
unfolding delete_answer
delete_all client [] s = s
delete_all client (r ∷ rs) s =
    delete_all client rs (delete_answer r (client.delete_hostname_route s.calls r.id) s)

unfoldable pub print : Line → PruneState → PruneState
print l s = record s { lines = l ∷ s.lines }

-- What follows the deletes
unfoldable pub finish : ℕ → PruneState → ℕ × PruneState
unfolding print prune_ok prune_failed
finish found s = (
  if ltb 0 s.failures then prune_failed else prune_ok,
  print (summary (found - s.failures) found) s,
)

-- What follows the heading, if something is found
unfoldable pub prune_found : PruneClient → Bool → List HostnameRoute → PruneState → ℕ × PruneState
unfolding print delete_all finish prune_ok
prune_found client apply found s =
    let listed = print (table found) s in
    if not apply
    then (prune_ok, print (dry_run_note (length found)) listed)
    else finish (length found) (delete_all client found listed)

-- What follows the loops over the lists
unfoldable pub after_lists :
    PruneClient
    → PruneFlags
    → Text
    → Result (Text × Error) (List HostnameRoute) × History
    → ℕ × PruneState
unfolding sort prune_less prune_found print prune_ok prune_failed
after_lists client f owner_id (err (tid, e), calls) =
    (prune_failed, record { calls = calls; lines = list_failed tid e ∷ []; failures = 0 })
after_lists client f owner_id (ok [], calls) = (
  prune_ok,
  record {
    calls = calls;
    lines = nothing_to_prune ∷ heading owner_id f.tunnels ∷ [];
    failures = 0;
  },
)
after_lists client f owner_id (ok (r ∷ found), calls) =
    prune_found client f.apply (sort prune_less (r ∷ found))
      (record { calls = calls; lines = heading owner_id f.tunnels ∷ []; failures = 0 })

-- The empty tunnel id lists the whole account.
unfoldable pub scopes_of : List Text → List Text
scopes_of [] = [] ∷ []
scopes_of (t ∷ ts) = t ∷ ts

-- The run, once it has its owner and its client
unfoldable pub prune_with : PruneDeps → PruneClient → PruneFlags → Text → ℕ × PruneState
unfolding collect after_lists scopes_of is_candidate
prune_with d client f owner_id =
    let matches = d.new_domain_filter (split_csv f.domain_filter) in
    after_lists client f owner_id
      (collect client (is_candidate owner_id matches) (scopes_of f.tunnels) [] [])

-- A run that ends before the first call; the lines stand with the last one first.
unfoldable pub ends : ℕ → List Line → ℕ × PruneState
ends code lines = (code, record { calls = []; lines = lines; failures = 0 })

-- What follows the parsing of the flags
unfoldable pub run_flags : PruneDeps → PruneFlags → List Text → ℕ × PruneState
unfolding ends prune_with prune_usage_error
run_flags d f (arg ∷ rest) = ends prune_usage_error (unexpected_argument arg ∷ [])
run_flags d f [] =
    let owner_id = trim_space f.owner in
    let account_id = d.getenv (codes "CF_ACCOUNT_ID") in
    let token = d.getenv (codes "CF_API_TOKEN") in
    if owner_id == []
    then ends prune_usage_error (owner_required ∷ [])
    else if account_id == [] || token == []
    then ends prune_usage_error (credentials_required ∷ [])
    else prune_with d (d.new_client account_id token) f owner_id

unfoldable pub run_parsed : PruneDeps → Result FlagError (PruneFlags × List Text) → ℕ × PruneState
unfolding run_flags ends prune_ok prune_usage_error
run_parsed d (err FlagError.help) = ends prune_ok (usage ∷ [])
run_parsed d (err e) = ends prune_usage_error (usage ∷ flag_error e ∷ [])
run_parsed d (ok (f, rest)) = run_flags d f rest

-- `runPrune`
unfoldable pub run_prune : PruneDeps → List Text → ℕ × PruneState
unfolding run_parsed
run_prune d args = run_parsed d (parse_flags args none no_flags)
