-- ===== src/Webhook/Prune/Status.antt =====
-- The exit status of `runPrune` of cmd/webhook/prune.go.
use external_dns_cloudflare.Prelude.{
  ◌||◌, ◌==◌, none, trim_space, codes, refl, if◌then◌else◌, arith, ok, ◌⊎◌, inr, err, ◌&&◌, length,
  Bool-cases, ◌∷◌, inl, not, Text, [], succeeds, List, Result-cases, ltb, Result, ℕ, Bool, ◌≡◌,
  true, false,
}
use external_dns_cloudflare.Prelude.Sort.{sort}
use external_dns_cloudflare.Errors.{Error}
use external_dns_cloudflare.Cloudflare.{HostnameRoute}
use external_dns_cloudflare.Provider.State.{Call, History}
use external_dns_cloudflare.Webhook.Flags.{PruneFlags, FlagError, parse_flags, no_flags}
use external_dns_cloudflare.Webhook.Prune.{
  PruneClient, table, PruneState, PruneDeps, prune_less, after_lists, prune_found, prune_with,
  run_prune, run_parsed, run_flags, ends, delete_all, delete_answer, finish, print, scopes_of,
  collect, prune_ok, prune_failed, prune_usage_error,
}

-- The client has answered every list and delete among the calls without an error.
abbrev pub all_succeeded : PruneClient → History → Bool
all_succeeded client [] = true
all_succeeded client (Call.list_routes tid ∷ calls) =
    succeeds (client.list_hostname_routes calls tid) && all_succeeded client calls
all_succeeded client (Call.delete_route id ∷ calls) =
    succeeds (client.delete_hostname_route calls id) && all_succeeded client calls
all_succeeded client (_ ∷ calls) = all_succeeded client calls

-- The status of a wrong usage, or 0, without a call, or the status that tells whether every call has succeeded
abbrev pub IsStatus : PruneClient → ℕ × PruneState → Type 0
IsStatus client (code, s) =
    (s.calls ≡ []) × ((code ≡ prune_usage_error) ⊎ (code ≡ prune_ok))
    ⊎ (code ≡ (if all_succeeded client s.calls then prune_ok else prune_failed))

module _ (client : PruneClient) where
  -- What the loops over the lists have to keep
  abbrev Settled : Result (Text × Error) (List HostnameRoute) × History → Type 0
  Settled (err e, calls) = all_succeeded client calls ≡ false
  Settled (ok found, calls) = all_succeeded client calls ≡ true

  collect-Settled :
      (candidate : HostnameRoute → Bool) (scopes : List Text) (calls : History)
      (found : List HostnameRoute)
      → all_succeeded client calls ≡ true
      → Settled (collect client candidate scopes calls found)
  unfolding collect
  collect-Settled candidate [] calls found fine = fine
  collect-Settled candidate (tid ∷ scopes) calls found fine =
      elim (Result-cases (client.list_hostname_routes calls tid)) [
        | inl (routes, e) ↦
            rw (collect, e)
              (collect-Settled candidate scopes (Call.list_routes tid ∷ calls) _ (rw e fine))
        | inr (x, e) ↦ rw (collect, e) (rw e refl)
      ]

  -- The failures are counted just if a delete has failed.
  abbrev Counted : PruneState → Type 0
  Counted s = ltb 0 s.failures ≡ not (all_succeeded client s.calls)

  answer-Counted :
      (r : HostnameRoute) (s : PruneState)
      → Counted s
      → Counted (delete_answer r (client.delete_hostname_route s.calls r.id) s)
  unfolding delete_answer
  answer-Counted r s counted = elim (Result-cases (client.delete_hostname_route s.calls r.id)) [
    | inl (u, e) ↦ rw (e, e) counted
    | inr (x, e) ↦ rw (e, e) (ground arith)
  ]

  delete_all-Counted :
      (rs : List HostnameRoute) (s : PruneState) → Counted s → Counted (delete_all client rs s)
  unfolding delete_all
  delete_all-Counted [] s counted = counted
  delete_all-Counted (r ∷ rs) s counted = delete_all-Counted rs _ (answer-Counted r s counted)

  finish-IsStatus : (n : ℕ) (s : PruneState) → Counted s → IsStatus client (finish n s)
  unfolding finish print
  finish-IsStatus n s counted = elim (Bool-cases (all_succeeded client s.calls)) [
    | inl e ↦ inr (rw (counted, e) refl)
    | inr e ↦ inr (rw (counted, e) refl)
  ]

  prune_found-IsStatus :
      (apply : Bool) (found : List HostnameRoute) (s : PruneState)
      → all_succeeded client s.calls ≡ true
      → s.failures ≡ 0
      → IsStatus client (prune_found client apply found s)
  unfolding prune_found print
  prune_found-IsStatus true found s fine none_yet =
      let counted : Counted s = rw (fine, none_yet) refl in
      finish-IsStatus (length found) (delete_all client found (print (table found) s))
        (delete_all-Counted found (print (table found) s) counted)
  prune_found-IsStatus false found s fine none_yet = inr (rw fine refl)

  after_lists-IsStatus :
      (f : PruneFlags) (owner : Text) (q : Result (Text × Error) (List HostnameRoute) × History)
      → Settled q
      → IsStatus client (after_lists client f owner q)
  unfolding after_lists
  after_lists-IsStatus f owner (err (tid, e), calls) failed = inr (rw failed refl)
  after_lists-IsStatus f owner (ok [], calls) fine = inr (rw fine refl)
  after_lists-IsStatus f owner (ok (r ∷ found), calls) fine =
      prune_found-IsStatus f.apply (sort prune_less (r ∷ found)) _ fine refl

module _ (d : PruneDeps) where
  abbrev client_of : PruneClient
  client_of = d.new_client (d.getenv (codes "CF_ACCOUNT_ID")) (d.getenv (codes "CF_API_TOKEN"))

  run_flags-IsStatus : (f : PruneFlags) (rest : List Text) → IsStatus client_of (run_flags d f rest)
  unfolding run_flags ends prune_with prune_usage_error
  run_flags-IsStatus f (arg ∷ rest) = inl (refl, inl refl)
  run_flags-IsStatus f [] = elim (Bool-cases (trim_space f.owner == [])) [
    | inl e ↦ rw e (inl (refl, inl refl))
    | inr e ↦
        elim (Bool-cases
          (d.getenv (codes "CF_ACCOUNT_ID") == [] || d.getenv (codes "CF_API_TOKEN") == [])) [
            | inl missing ↦ rw (e, missing) (inl (refl, inl refl))
            | inr set ↦
                rw (e, set)
                  (after_lists-IsStatus client_of f (trim_space f.owner) _
                    (collect-Settled client_of _ (scopes_of f.tunnels) [] [] refl))
          ]
  ]

  run_parsed-IsStatus :
      (q : Result FlagError (PruneFlags × List Text)) → IsStatus client_of (run_parsed d q)
  unfolding run_parsed ends prune_ok prune_usage_error
  run_parsed-IsStatus (err FlagError.help) = inl (refl, inr refl)
  run_parsed-IsStatus (err (FlagError.bad_syntax s)) = inl (refl, inl refl)
  run_parsed-IsStatus (err (FlagError.not_defined s)) = inl (refl, inl refl)
  run_parsed-IsStatus (err (FlagError.needs_argument s)) = inl (refl, inl refl)
  run_parsed-IsStatus (err (FlagError.invalid_value s)) = inl (refl, inl refl)
  run_parsed-IsStatus (ok (f, rest)) = run_flags-IsStatus f rest

  -- A run either makes no call and ends with status 2 or 0, or its status is 0 if every list and every
  -- delete that it made has succeeded, and 1 if one has failed.
  pub run_prune-IsStatus :
      (args : List Text)
      → IsStatus
          (d.new_client (d.getenv (codes "CF_ACCOUNT_ID")) (d.getenv (codes "CF_API_TOKEN")))
          (run_prune d args)
  unfolding run_prune
  run_prune-IsStatus args = run_parsed-IsStatus (parse_flags args none no_flags)
