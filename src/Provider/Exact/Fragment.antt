-- ===== src/Provider/Exact/Fragment.antt =====
-- `applyCoreDNS` of internal/provider/provider.go changes no route, and skips the hosts that get no
-- answer.
use external_dns_cloudflare.Prelude.{
  or_false, or_regroup, true, Result-cases, refl, if◌then◌else◌, [], false, contains_byte, inl, ap,
  inr, none, ◌∷◌, Bool-cases, lookup-insert, ◌||◌, ◌==◌, ok, ◌∙◌, ◌≡◌, lookup, to_lower, sym,
  Result, Assoc, is_some, ◌&&◌, some, List, Text, Option, Bool,
}
use external_dns_cloudflare.Errors.{Error}
use external_dns_cloudflare.Provider.State.{
  Env, Endpoint, History, FragmentWriter, emit, pure, perform, ◌>>=◌, fragment_apply,
}
use external_dns_cloudflare.Provider.Yields.{Yields, Yields-pure, Yields-if}
use external_dns_cloudflare.Provider.CoreDns.{
  Rewrites, write_fragment, write_planned, apply_coredns, plan_rewrite, plan_rewrites,
  empty_rewrites, removals, is_empty, skip, text_or_empty,
}
use external_dns_cloudflare.Provider.Exact.Lists.{Gives}
use external_dns_cloudflare.Provider.Exact.Planned.{fails_on, unanswered_by, is_unanswered}

-- Every write of the fragment succeeds.
abbrev pub IsWritable : Option FragmentWriter → Type 0
IsWritable none = Unit
IsWritable (some w) =
    (calls : History) (add : Assoc Text) (remove : List Text)
    → (now : Assoc Text) × (w.apply calls add remove ≡ ok now)

some_or {ℓ} :
    {A : Type ℓ} (b : Bool) (a : A) (o : Option A)
    → is_some (if b then some a else o) ≡ (b || is_some o)
some_or true a o = refl
some_or false a o = refl

module _ (env : Env) (w : FragmentWriter) where
  abbrev skips : Endpoint → Text → Bool
  skips ep host = env.matches ep.dns_name && (fails_on env w ep && to_lower ep.dns_name == host)

  skip-is_some :
      (host k : Text) (e : Error) (a : Rewrites)
      → is_some (lookup k (skip host e a).skipped) ≡ (host == k || is_some (lookup k a.skipped))
  unfolding skip
  skip-is_some host k e a =
      rw (lookup-insert host k e a.skipped) (some_or (host == k) e (lookup k a.skipped))

  plan_rewrite-skipped :
      (ep : Endpoint) (host : Text) (a : Rewrites)
      → is_some (lookup host (plan_rewrite env w ep a).skipped)
        ≡ (skips ep host || is_some (lookup host a.skipped))
  unfolding plan_rewrite
  plan_rewrite-skipped ep host a =
      let resource = text_or_empty (lookup env.resource_label ep.labels) in
      elim (Bool-cases (env.matches ep.dns_name)) [
        | inr outside ↦ rw outside
        | inl inside ↦ elim (Bool-cases (contains_byte b'*' (to_lower ep.dns_name))) [
          | inl wild ↦ rw (inside, wild) (skip-is_some (to_lower ep.dns_name) host _ a)
          | inr exact ↦ elim (Bool-cases (resource == [])) [
            | inl bare ↦ rw (inside, exact, bare) (skip-is_some (to_lower ep.dns_name) host _ a)
            | inr named ↦ elim (Result-cases (w.service_target resource)) [
              | inl (t, e) ↦ rw (inside, exact, named, e)
              | inr (x, e) ↦
                  rw (inside, exact, named, e) (skip-is_some (to_lower ep.dns_name) host _ a)
            ]
          ]
        ]
      ]

  plan_rewrites-skipped :
      (eps : List Endpoint) (host : Text) (a : Rewrites)
      → is_some (lookup host (plan_rewrites env w eps a).skipped)
        ≡ (unanswered_by env w eps host || is_some (lookup host a.skipped))
  unfolding plan_rewrites
  plan_rewrites-skipped [] host a = refl
  plan_rewrites-skipped (ep ∷ eps) host a =
      plan_rewrites-skipped eps host (plan_rewrite env w ep a)
      ∙ ap (λ b. unanswered_by env w eps host || b) (plan_rewrite-skipped ep host a)
      ∙ or_regroup (unanswered_by env w eps host) (skips ep host) _

  write_planned-Gives :
      (Q : History → Type 0)
      → ((add : Assoc Text) (remove : List Text) (h : History)
          → Q h
          → Q (fragment_apply add remove ∷ h))
      → IsWritable (some w)
      → (skipped : Assoc Error) (add : Assoc Text) (remove : List Text)
      → Yields Q (Gives skipped) (write_planned env w skipped add remove)
  unfolding write_planned write_fragment ◌>>=◌ perform emit pure
  write_planned-Gives Q step good skipped add remove = elim (Bool-cases env.dry_run) [
    | inl dry ↦ rw (write_planned, dry) (record { calls = λ s q. q; result = λ s q. refl })
    | inr real ↦
        rw (write_planned, real)
          (record {
            calls = λ s q. rw ((good s.calls add remove).1) (step add remove s.calls q);
            result = λ s q. rw ((good s.calls add remove).1);
          })
  ]

-- The skipped hosts are those of the creates that get no answer.
abbrev pub IsSkipped : Env → Option FragmentWriter → List Endpoint → Assoc Error → Type 0
IsSkipped env o creates skipped =
    (host : Text) → is_unanswered env o creates host ≡ is_some (lookup host skipped)

abbrev pub GivesSkipped :
    Env → Option FragmentWriter → List Endpoint → Result Error (Assoc Error) → Type 0
GivesSkipped env o creates answer =
    (skipped : Assoc Error) × (answer ≡ ok skipped) × IsSkipped env o creates skipped

module _ (env : Env) (Q : History → Type 0)
    (step : (add : Assoc Text) (remove : List Text) (h : History)
      → Q h
      → Q (fragment_apply add remove ∷ h))
    (creates deletes : List Endpoint) where
  planned-IsSkipped :
      (w : FragmentWriter)
      → IsSkipped env (some w) creates (plan_rewrites env w creates empty_rewrites).skipped
  unfolding empty_rewrites lookup
  planned-IsSkipped w host =
      sym (plan_rewrites-skipped env w creates host empty_rewrites ∙ or_false _)

  fragment-GivesSkipped :
      (o : Option FragmentWriter)
      → IsWritable o
      → Yields Q (GivesSkipped env o creates) (elim o [
        | none ↦ pure (ok [])
        | some w ↦
            let planned = plan_rewrites env w creates empty_rewrites in
            let remove = removals env deletes in
            if is_empty planned.added && is_empty remove
            then pure (ok planned.skipped)
            else write_planned env w planned.skipped planned.added remove
      ])
  unfolding lookup
  fragment-GivesSkipped none good = Yields-pure Q _ (ok []) ([], refl, λ host. refl)
  fragment-GivesSkipped (some w) good =
      let planned = plan_rewrites env w creates empty_rewrites in
      let remove = removals env deletes in
      Yields-if Q (GivesSkipped env (some w) creates) (is_empty planned.added && is_empty remove) _
        _ (λ _. Yields-pure Q _ (ok planned.skipped) (planned.skipped, refl, planned-IsSkipped w))
        (λ _.
          let y = write_planned-Gives env w Q step good planned.skipped planned.added remove in
          record {
            calls = y.calls;
            result = λ s q. (planned.skipped, y.result s q, planned-IsSkipped w);
          })

  pub apply_coredns-GivesSkipped :
      IsWritable env.coredns
      → Yields Q (GivesSkipped env env.coredns creates) (apply_coredns env creates deletes)
  unfolding apply_coredns
  apply_coredns-GivesSkipped = fragment-GivesSkipped env.coredns
