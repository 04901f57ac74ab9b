-- ===== src/Webhook/Prune/Report.antt =====
-- The lines that `runPrune` of cmd/webhook/prune.go prints of its deletes.
use external_dns_cloudflare.Prelude.{
  ◌||◌, codes, ◌==◌, trim_space, sym, refl, Bool-cases, ◌∙◌, inr, inl, false, true, [], none,
  All-mono, length, arith, ◌∷◌, ok, err, All, ◌+◌, suc, Text, Bool, ℕ, Result, List, ◌≡◌,
}
use external_dns_cloudflare.Errors.{Error}
use external_dns_cloudflare.Prelude.Sort.{sort}
use external_dns_cloudflare.Cloudflare.{HostnameRoute}
use external_dns_cloudflare.Provider.State.{History}
use external_dns_cloudflare.Webhook.Flags.{PruneFlags, FlagError, parse_flags, no_flags}
use external_dns_cloudflare.Webhook.Prune.{
  PruneClient, dry_run_note, table, Line, delete_failed, deleted, summary, PruneState, PruneDeps,
  prune_less, after_lists, prune_found, prune_with, run_prune, run_parsed, run_flags, ends,
  delete_all, delete_answer, finish, print,
}
use external_dns_cloudflare.Webhook.Prune.Deletes.{failed_lines, failed_lines-delete_all}

-- The lines that report a delete
abbrev pub deleted_lines : List Line → ℕ
deleted_lines [] = 0
deleted_lines (deleted r ∷ lines) = suc (deleted_lines lines)
deleted_lines (_ ∷ lines) = deleted_lines lines

-- A summary agrees with the lines above it.
abbrev pub Agrees : List Line → Line → Type 0
Agrees lines (summary n m) = (n ≡ deleted_lines lines) × (n + failed_lines lines ≡ m)
Agrees lines _ = Unit

-- It is no summary.
abbrev IsPlain : Line → Type 0
IsPlain (summary n m) = ⊥
IsPlain _ = Unit

IsPlain-Agrees : (lines : List Line) (l : Line) → IsPlain l → Agrees lines l
IsPlain-Agrees lines (summary n m) h = absurd h
IsPlain-Agrees lines Line.usage h = tt
IsPlain-Agrees lines Line.owner_required h = tt
IsPlain-Agrees lines Line.credentials_required h = tt
IsPlain-Agrees lines Line.nothing_to_prune h = tt
IsPlain-Agrees lines (Line.flag_error e) h = tt
IsPlain-Agrees lines (Line.unexpected_argument a) h = tt
IsPlain-Agrees lines (Line.list_failed t e) h = tt
IsPlain-Agrees lines (Line.heading o t) h = tt
IsPlain-Agrees lines (Line.table rs) h = tt
IsPlain-Agrees lines (Line.dry_run_note n) h = tt
IsPlain-Agrees lines (delete_failed r e) h = tt
IsPlain-Agrees lines (deleted r) h = tt

module _ (client : PruneClient) where
  answer-IsPlain :
      (r : HostnameRoute) (answer : Result Error (Unit {0})) (s : PruneState)
      → All IsPlain s.lines
      → All IsPlain (delete_answer r answer s).lines
  unfolding delete_answer
  answer-IsPlain r (err e) s h = (tt, h)
  answer-IsPlain r (ok u) s h = (tt, h)

  delete_all-IsPlain :
      (rs : List HostnameRoute) (s : PruneState)
      → All IsPlain s.lines
      → All IsPlain (delete_all client rs s).lines
  unfolding delete_all
  delete_all-IsPlain [] s h = h
  delete_all-IsPlain (r ∷ rs) s h = delete_all-IsPlain rs _ (answer-IsPlain r _ s h)

  -- The deletes that are reported, done or failed
  abbrev reported : List Line → ℕ
  reported lines = deleted_lines lines + failed_lines lines

  answer-reported :
      (r : HostnameRoute) (answer : Result Error (Unit {0})) (s : PruneState)
      → reported (delete_answer r answer s).lines ≡ reported s.lines + 1
  unfolding delete_answer
  answer-reported r (err e) s = omega arith
  answer-reported r (ok u) s = omega arith

  delete_all-reported :
      (rs : List HostnameRoute) (s : PruneState)
      → reported (delete_all client rs s).lines ≡ reported s.lines + length rs
  unfolding delete_all
  delete_all-reported [] s = omega arith
  delete_all-reported (r ∷ rs) s =
      let answer = client.delete_hostname_route s.calls r.id in
      omega (arith, answer-reported r answer s, delete_all-reported rs (delete_answer r answer s))

  plain-Agrees : (lines all : List Line) → All IsPlain lines → All (Agrees all) lines
  plain-Agrees lines all = All-mono IsPlain (Agrees all) lines (IsPlain-Agrees all)

  -- Every line agrees with all.
  abbrev IsReport : ℕ × PruneState → Type 0
  IsReport run = All (Agrees run.1.lines) run.1.lines

  finish-IsReport :
      (n : ℕ) (s : PruneState)
      → All IsPlain s.lines
      → s.failures ≡ failed_lines s.lines
      → reported s.lines ≡ n
      → IsReport (finish n s)
  unfolding finish print
  finish-IsReport n s plain failed counted =
      ((omega arith, omega arith), plain-Agrees s.lines (finish n s).1.lines plain)

  prune_found-IsReport :
      (apply : Bool) (found : List HostnameRoute) (s : PruneState)
      → All IsPlain s.lines
      → s.failures ≡ 0
      → reported s.lines ≡ 0
      → failed_lines s.lines ≡ 0
      → IsReport (prune_found client apply found s)
  unfolding prune_found print
  prune_found-IsReport true found s plain none_yet nothing none_failed =
      let start = print (table found) s in
      finish-IsReport (length found) (delete_all client found start)
        (delete_all-IsPlain found start (tt, plain))
        (failed_lines-delete_all client found start (none_yet ∙ sym none_failed))
        (delete_all-reported found start ∙ (omega arith))
  prune_found-IsReport false found s plain none_yet nothing none_failed =
      (tt, (tt, plain-Agrees s.lines (dry_run_note (length found) ∷ table found ∷ s.lines) plain))

  after_lists-IsReport :
      (f : PruneFlags) (owner : Text) (q : Result (Text × Error) (List HostnameRoute) × History)
      → IsReport (after_lists client f owner q)
  unfolding after_lists
  after_lists-IsReport f owner (err (tid, e), calls) = (tt, tt)
  after_lists-IsReport f owner (ok [], calls) = (tt, (tt, tt))
  after_lists-IsReport f owner (ok (r ∷ found), calls) =
      prune_found-IsReport f.apply (sort prune_less (r ∷ found)) _ (tt, tt) refl refl refl

module _ (d : PruneDeps) where
  run_flags-IsReport :
      (f : PruneFlags) (rest : List Text)
      → All (Agrees (run_flags d f rest).1.lines) (run_flags d f rest).1.lines
  unfolding run_flags ends prune_with
  run_flags-IsReport f (arg ∷ rest) = (tt, tt)
  run_flags-IsReport f [] = elim (Bool-cases (trim_space f.owner == [])) [
    | inl e ↦ rw e (tt, tt)
    | inr e ↦
        elim (Bool-cases
          (d.getenv (codes "CF_ACCOUNT_ID") == [] || d.getenv (codes "CF_API_TOKEN") == [])) [
            | inl missing ↦ rw (e, missing) (tt, tt)
            | inr set ↦
                rw (e, set)
                  (after_lists-IsReport
                    (d.new_client (d.getenv (codes "CF_ACCOUNT_ID"))
                      (d.getenv (codes "CF_API_TOKEN")))
                    f (trim_space f.owner) _)
          ]
  ]

  run_parsed-IsReport :
      (q : Result FlagError (PruneFlags × List Text))
      → All (Agrees (run_parsed d q).1.lines) (run_parsed d q).1.lines
  unfolding run_parsed ends
  run_parsed-IsReport (err FlagError.help) = (tt, tt)
  run_parsed-IsReport (err (FlagError.bad_syntax s)) = (tt, (tt, tt))
  run_parsed-IsReport (err (FlagError.not_defined s)) = (tt, (tt, tt))
  run_parsed-IsReport (err (FlagError.needs_argument s)) = (tt, (tt, tt))
  run_parsed-IsReport (err (FlagError.invalid_value s)) = (tt, (tt, tt))
  run_parsed-IsReport (ok (f, rest)) = run_flags-IsReport f rest

  -- Where a run prints a summary, the first number is that of the lines that report a delete, and
  -- with the number of the lines that report a failed one it makes the second.
  pub run_prune-Agrees :
      (args : List Text) → All (Agrees (run_prune d args).1.lines) (run_prune d args).1.lines
  unfolding run_prune
  run_prune-Agrees args = run_parsed-IsReport (parse_flags args none no_flags)
