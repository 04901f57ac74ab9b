-- ===== src/Webhook/Prune/Justified.antt =====
-- What `runPrune` of cmd/webhook/prune.go may call.
use external_dns_cloudflare.Prelude.{
  false, true, ◌||◌, refl, ◌==◌, All-mono, ℕ, All-append, ◌++◌, inr, members-IsIn, contains,
  trim_space, Result-cases, inl, codes, Bool-cases, ◌∷◌, err, [], All, Result, ok, IsIn, none, Bool,
  List, Text, ◌≡◌,
}
use external_dns_cloudflare.Errors.{Error}
use external_dns_cloudflare.Prelude.Sort.{sort, All-sort}
use external_dns_cloudflare.Cloudflare.{HostnameRoute}
use external_dns_cloudflare.Provider.State.{Call, History}
use external_dns_cloudflare.Webhook.{split_csv}
use external_dns_cloudflare.Webhook.Flags.{PruneFlags, FlagError, parse_flags, no_flags}
use external_dns_cloudflare.Webhook.Prune.{
  PruneClient, table, PruneState, PruneDeps, is_candidate, ids, select, prune_less, after_lists,
  prune_found, prune_with, run_prune, run_parsed, run_flags, ends, delete_all, delete_answer,
  finish, print, scopes_of, collect,
}
use external_dns_cloudflare.Webhook.Prune.Exact.{IsPrunable, is_candidate-IsPrunable}

-- A list of one of the tunnels has answered with the route, which is live, tagged with the owner and
-- within the domain filter.
abbrev pub IsSourced : PruneClient → Text → (Text → Bool) → List Text → HostnameRoute → Type 0
IsSourced client owner matches scopes r =
    IsPrunable owner matches r
    × ((tid : Text) × IsIn tid scopes
        × ((calls : History) × (routes : List HostnameRoute) × (client.list_hostname_routes calls
                tid
              ≡ ok routes)
            × IsIn r routes))

-- A list of one of the tunnels, or the delete of such a route if it is asked for
abbrev pub IsAllowed : PruneClient → Text → (Text → Bool) → List Text → Bool → Call → Type 0
IsAllowed client owner matches scopes apply (Call.list_routes tid) = IsIn tid scopes
IsAllowed client owner matches scopes apply (Call.delete_route id) =
    (apply ≡ true) × ((r : HostnameRoute) × (r.id ≡ id) × IsSourced client owner matches scopes r)
IsAllowed client owner matches scopes apply _ = ⊥

-- The call is allowed by the flags that the arguments are read as.
abbrev pub IsJustified : PruneDeps → List Text → Call → Type 0
IsJustified d args c =
    (f : PruneFlags) × (parse_flags args none no_flags ≡ ok (f, []))
    × IsAllowed (d.new_client (d.getenv (codes "CF_ACCOUNT_ID")) (d.getenv (codes "CF_API_TOKEN")))
        (trim_space f.owner) (d.new_domain_filter (split_csv f.domain_filter)) (scopes_of f.tunnels)
        f.apply c

module _ (client : PruneClient) (owner : Text) (matches : Text → Bool) (scopes : List Text)
    (f : PruneFlags) where
  Sourced : HostnameRoute → Type 0
  Sourced = IsSourced client owner matches scopes

  Allowed : Call → Type 0
  Allowed = IsAllowed client owner matches scopes f.apply

  -- What the loops over the lists have to keep
  abbrev Fetched : Result (Text × Error) (List HostnameRoute) × History → Type 0
  Fetched (err e, calls) = All Allowed calls
  Fetched (ok found, calls) = All Allowed calls × All Sourced found

  select-Sourced :
      (tid : Text) (calls : History) (all : List HostnameRoute)
      → IsIn tid scopes
      → client.list_hostname_routes calls tid ≡ ok all
      → (routes found : List HostnameRoute) → All (λ r. IsIn r all) routes
      → All Sourced found
      → All Sourced (select (is_candidate owner matches) routes found)
  unfolding select Sourced
  select-Sourced tid calls all scope answer [] found _ good = good
  select-Sourced tid calls all scope answer (r ∷ routes) found (here, more) good =
      let next = select-Sourced tid calls all scope answer routes in
      elim (Bool-cases (is_candidate owner matches r)) [
        | inl pass ↦
            let source : Sourced r = (
              (is_candidate-IsPrunable owner matches r).0 pass,
              (tid, scope, (calls, all, answer, here)),
            ) in
            elim (Bool-cases (contains r.id (ids found))) [
              | inl old ↦ rw (pass, old) (next found more good)
              | inr new ↦
                  rw (pass, new)
                    (next (found ++ r ∷ []) more
                      (All-append Sourced found (r ∷ []) good (source, tt)))
            ]
        | inr fail ↦ rw fail (next found more good)
      ]

  collect-Fetched :
      (tids : List Text) (calls : History) (found : List HostnameRoute)
      → All (λ tid. IsIn tid scopes) tids
      → All Allowed calls
      → All Sourced found
      → Fetched (collect client (is_candidate owner matches) tids calls found)
  unfolding collect Allowed
  collect-Fetched [] calls found _ allowed good = (allowed, good)
  collect-Fetched (tid ∷ tids) calls found (scope, more) allowed good =
      elim (Result-cases (client.list_hostname_routes calls tid)) [
        | inl (routes, e) ↦
            rw (collect, e)
              (collect-Fetched tids (Call.list_routes tid ∷ calls) _ more (scope, allowed)
                (select-Sourced tid calls routes scope e routes found (members-IsIn routes) good))
        | inr (x, e) ↦ rw (collect, e) (scope, allowed)
      ]

  module _ (asked : f.apply ≡ true) where
    answer-Allowed :
        (r : HostnameRoute) (answer : Result Error (Unit {0})) (s : PruneState)
        → Sourced r
        → All Allowed s.calls
        → All Allowed (delete_answer r answer s).calls
    unfolding delete_answer Allowed Sourced
    answer-Allowed r (err e) s source allowed = ((asked, (r, refl, source)), allowed)
    answer-Allowed r (ok u) s source allowed = ((asked, (r, refl, source)), allowed)

    delete_all-Allowed :
        (rs : List HostnameRoute) (s : PruneState)
        → All Sourced rs
        → All Allowed s.calls
        → All Allowed (delete_all client rs s).calls
    unfolding delete_all
    delete_all-Allowed [] s _ allowed = allowed
    delete_all-Allowed (r ∷ rs) s (source, more) allowed =
        delete_all-Allowed rs _ more (answer-Allowed r _ s source allowed)

  prune_found-Allowed :
      (apply : Bool) (found : List HostnameRoute) (s : PruneState)
      → (apply ≡ true → All Allowed (delete_all client found (print (table found) s)).calls)
      → All Allowed s.calls
      → All Allowed (prune_found client apply found s).1.calls
  unfolding prune_found finish print
  prune_found-Allowed true found s after allowed = after refl
  prune_found-Allowed false found s after allowed = allowed

  after_lists-Allowed :
      (q : Result (Text × Error) (List HostnameRoute) × History)
      → Fetched q
      → All Allowed (after_lists client f owner q).1.calls
  unfolding after_lists
  after_lists-Allowed (err (tid, e), calls) allowed = allowed
  after_lists-Allowed (ok [], calls) (allowed, _) = allowed
  after_lists-Allowed (ok (r ∷ found), calls) (allowed, good) =
      let sorted = sort prune_less (r ∷ found) in
      let sourced = All-sort prune_less Sourced (r ∷ found) good in
      prune_found-Allowed f.apply sorted _
        (λ asked. delete_all-Allowed asked sorted _ sourced (unfold print in allowed)) allowed

module _ (d : PruneDeps) (args : List Text) where
  -- No call has been made.
  abbrev IsIdle : ℕ × PruneState → Type 0
  IsIdle run = run.1.calls ≡ []

  error-IsIdle : (e : FlagError) → IsIdle (run_parsed d (err e))
  unfolding run_parsed ends
  error-IsIdle FlagError.help = refl
  error-IsIdle (FlagError.bad_syntax s) = refl
  error-IsIdle (FlagError.not_defined s) = refl
  error-IsIdle (FlagError.needs_argument s) = refl
  error-IsIdle (FlagError.invalid_value s) = refl

  idle-Justified : (run : ℕ × PruneState) → IsIdle run → All (IsJustified d args) run.1.calls
  idle-Justified run e = rw e tt

  module _ (f : PruneFlags) (parsed : parse_flags args none no_flags ≡ ok (f, [])) where
    client : PruneClient
    client = d.new_client (d.getenv (codes "CF_ACCOUNT_ID")) (d.getenv (codes "CF_API_TOKEN"))

    prune_with-Justified :
        All (IsJustified d args) (prune_with d client f (trim_space f.owner)).1.calls
    unfolding prune_with client Allowed Sourced
    prune_with-Justified =
        let owner = trim_space f.owner in
        let matches = d.new_domain_filter (split_csv f.domain_filter) in
        let scopes = scopes_of f.tunnels in
        All-mono (Allowed client owner matches scopes f) (IsJustified d args) _
          (λ c allowed. (f, parsed, allowed))
          (after_lists-Allowed client owner matches scopes f _ (
            collect-Fetched client owner matches scopes f scopes [] [] (members-IsIn scopes) tt tt))

    run_flags-Justified : All (IsJustified d args) (run_flags d f []).1.calls
    unfolding run_flags ends client
    run_flags-Justified = elim (Bool-cases (trim_space f.owner == [])) [
      | inl e ↦ rw e tt
      | inr e ↦
          elim (Bool-cases
            (d.getenv (codes "CF_ACCOUNT_ID") == [] || d.getenv (codes "CF_API_TOKEN") == [])) [
              | inl missing ↦ rw (e, missing) tt
              | inr set ↦ rw (e, set) prune_with-Justified
            ]
    ]

  run_parsed-Justified :
      (q : Result FlagError (PruneFlags × List Text))
      → parse_flags args none no_flags ≡ q
      → All (IsJustified d args) (run_parsed d q).1.calls
  unfolding run_parsed
  run_parsed-Justified (err e) parsed = idle-Justified (run_parsed d (err e)) (error-IsIdle e)
  run_parsed-Justified (ok (f, [])) parsed = run_flags-Justified f parsed
  run_parsed-Justified (ok (f, arg ∷ rest)) parsed = unfold run_flags ends in tt

  -- Every call of a run is a list of one of the tunnels that the arguments name, or of the whole
  -- account if they name none, or it deletes a route that such a list has answered with, that is
  -- live, bears the owner's tag and matches the domain filter, and the arguments ask to delete.
  pub run_prune-Justified : All (IsJustified d args) (run_prune d args).1.calls
  unfolding run_prune
  run_prune-Justified = run_parsed-Justified (parse_flags args none no_flags) refl
