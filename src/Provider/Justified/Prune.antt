-- ===== src/Provider/Justified/Prune.antt =====
-- Why `pruneCoreDNS` may write the fragment.
use external_dns_cloudflare.Prelude.{
  inr, inl, false, true, ok, some, none, ◌∷◌, [], if◌then◌else◌, not, Bool, Option, sym, refl,
  arith, known-All, ◌∙◌, Bool-cases, is_some, keys, contains, All, ◌≡◌, Assoc, Text, List,
}
use mathlib.Core.Path.{subst}
use external_dns_cloudflare.Tunnel.{resolve}
use external_dns_cloudflare.Prelude.Sort.{sort_strings, All-sort}
use external_dns_cloudflare.Provider.State.{
  Env, State, Call, History, FragmentWriter, M, ◌>>=◌, pure, emit, perform, fragment_load,
  fragment_apply,
}
use external_dns_cloudflare.Provider.Yields.{
  Since, Since-none, Since-step, Keeps, AnyResult, Keeps-pure, Keeps-emit, Keeps-perform,
  Yields-perform, Keeps-bind, Yields-bind, Yields-if, Yields-result, Yields-option,
}
use external_dns_cloudflare.Provider.Records.{owned_snapshot}
use external_dns_cloudflare.Provider.CoreDns.{
  write_fragment, is_stale, stale_hosts, prune_write, prune_from, prune_enabled, prune_coredns,
  is_empty,
}

-- A rewrite that is there, and that neither an owned route nor a desired endpoint has; its host
-- passes the filter and resolves to a tunnel.
abbrev pub IsStale : Env → List Text → List Text → Assoc Text → Text → Type 0
IsStale env owned desired current host =
    (contains host (keys current) ≡ true)
    × (contains host owned ≡ false)
    × (contains host desired ≡ false)
    × (env.matches host ≡ true)
    × (is_some (resolve env.resolver host) ≡ true)

-- A write that prunes: it adds nothing, and removes rewrites that were loaded and are stale.
pub record PruneReason (env : Env) (owned desired : List Text) (add : Assoc Text)
    (remove : List Text) : Type 0 where
  pub wet : env.dry_run ≡ false
  pub writer : FragmentWriter
  pub configured : env.coredns ≡ some writer
  pub enabled : env.coredns_prune ≡ true
  pub adds_nothing : add ≡ []
  pub before : History
  pub current : Assoc Text
  pub loaded : writer.load before ≡ ok current
  pub stale : All (IsStale env owned desired current) remove

stale_hosts-IsStale :
    (env : Env) (owned desired : List Text) (current : Assoc Text) (hosts : List Text)
    → All (λ h. contains h (keys current) ≡ true) hosts
    → All (IsStale env owned desired current) (stale_hosts env owned desired hosts)
unfolding stale_hosts is_stale
stale_hosts-IsStale env owned desired current [] _ = tt
stale_hosts-IsStale env owned desired current (host ∷ hosts) (h, hs) =
    let rest = stale_hosts-IsStale env owned desired current hosts hs in
    elim (Bool-cases (is_stale env owned desired host)) [
      | inl e ↦ rw e ((h, (ground arith), (ground arith), (ground arith), (ground arith)), rest)
      | inr e ↦ rw e rest
    ]

module _ (env : Env) (desired : List Text) (Q : History → Type 0)
    (load_step : env.coredns_prune ≡ true → (h : History) → Q h → Q (fragment_load ∷ h))
    (owned : List Text)
    (apply_step : (add : Assoc Text) (remove : List Text)
      → PruneReason env owned desired add remove
      → (h : History) → Q h
      → Q (fragment_apply add remove ∷ h)) where
  prune_write-Keeps :
      (w : FragmentWriter) (remove : List Text)
      → (env.dry_run ≡ false → PruneReason env owned desired [] remove)
      → Keeps Q (prune_write env w remove)
  unfolding prune_write write_fragment
  prune_write-Keeps w remove why =
      Yields-if Q AnyResult env.dry_run _ _ (λ dry. Keeps-emit Q _)
        λ wet.
          Keeps-bind Q AnyResult (write_fragment env w [] remove) _
            (Keeps-bind Q AnyResult (perform (fragment_apply [] remove) _) _
              (Keeps-perform Q (fragment_apply [] remove) _ (apply_step [] remove (why wet)))
              λ after. Keeps-bind Q AnyResult (emit _) _ (Keeps-emit Q _) λ _. Keeps-pure Q after)
            λ after.
              Yields-result Q AnyResult after _ _ (λ e _. Keeps-pure Q tt)
                (λ rewrites _.
                  Keeps-bind Q AnyResult (emit _) _ (Keeps-emit Q _) λ _. Keeps-emit Q _)

  pub prune_from-Keeps :
      (w : FragmentWriter)
      → env.coredns ≡ some w
      → env.coredns_prune ≡ true
      → Keeps Q (prune_from env w owned desired)
  unfolding prune_from
  prune_from-Keeps w configured enabled =
      Yields-bind Q {R = λ answer. (h : History) × (w.load h ≡ answer)} AnyResult
        (perform fragment_load w.load) _
        (Yields-perform Q (λ answer. (h : History) × (w.load h ≡ answer)) fragment_load w.load
          (load_step enabled) (λ h. (h, refl)))
        λ answer from.
          Yields-result Q AnyResult answer _ _ (λ e _. Keeps-pure Q tt)
            λ current p.
              let remove = stale_hosts env owned desired (keys current) in
              Yields-if Q AnyResult (is_empty remove) (pure tt)
                (prune_write env w (sort_strings remove)) (λ _. Keeps-pure Q tt)
                λ _. prune_write-Keeps w (sort_strings remove) λ wet. record {
                  wet = wet;
                  writer = w;
                  configured = configured;
                  enabled = enabled;
                  adds_nothing = refl;
                  before = from.0;
                  current = current;
                  loaded = from.1 ∙ p;
                  stale =
                      unfold sort_strings in
                      All-sort _ (IsStale env owned desired current) remove (
                        stale_hosts-IsStale env owned desired current (keys current)
                          (known-All (keys current)));
                }

-- A call of `pruneCoreDNS` from this state
abbrev pub MayPrune : Env → State → List Text → Call → Type 0
MayPrune env s desired fragment_load = (env.coredns_prune ≡ true) × (s.records_ok ≡ true)
MayPrune env s desired (fragment_apply add remove) =
    (s.records_ok ≡ true) × PruneReason env s.owned_hosts desired add remove
MayPrune env s desired _ = ⊥

snapshot :
    (s : State) (owned : List Text)
    → owned_snapshot s ≡ some owned
    → (s.records_ok ≡ true) × (s.owned_hosts ≡ owned)
unfolding owned_snapshot
snapshot s owned h = elim (Bool-cases s.records_ok) [
  | inl e ↦ (e, ground arith)
  | inr e ↦ ground arith
]

module _ (env : Env) (s : State) (desired : List Text) where
  abbrev Q : History → Type 0
  Q = Since (MayPrune env s desired) s.calls

  step : (c : Call) (h : History) → MayPrune env s desired c → Q h → Q (c ∷ h)
  step = Since-step (MayPrune env s desired) s.calls

  prune_enabled-MayPrune :
      (w : FragmentWriter)
      → env.coredns ≡ some w
      → env.coredns_prune ≡ true
      → Q s.calls
      → Q (prune_enabled env w desired s).1.calls
  unfolding prune_enabled ◌>>=◌
  prune_enabled-MayPrune w configured enabled =
      (Yields-option Q AnyResult (owned_snapshot s) (pure tt)
          (λ owned. prune_from env w owned desired) (λ _. Keeps-pure Q tt)
          λ owned known.
            let at = snapshot s owned known in
            prune_from-Keeps env desired Q (λ on h q. step fragment_load h (on, at.0) q) owned
              (λ add remove why h q.
                step (fragment_apply add remove) h
                  (at.0, subst (λ o. PruneReason env o desired add remove) (sym at.1) why) q)
              w configured enabled).calls
        s

  at_option :
      (o : Option FragmentWriter) (m : M (Unit {0})) (g : FragmentWriter → M (Unit {0}))
      → Q (m s).1.calls
      → ((w : FragmentWriter) → o ≡ some w → Q (g w s).1.calls)
      → Q ((elim o as (λ _. M (Unit {0})) [ none ↦ m | some w ↦ g w ]) s).1.calls
  at_option none m g q yg = q
  at_option (some w) m g q yg = yg w refl

  at_if :
      (b : Bool) (m n : M (Unit {0}))
      → Q (m s).1.calls
      → (b ≡ false → Q (n s).1.calls)
      → Q ((if b then m else n) s).1.calls
  at_if true m n q yn = q
  at_if false m n q yn = yn refl

  -- Of all calls, `pruneCoreDNS` makes none but loads and writes of the fragment, whatever was called
  -- before. It makes them only where pruning is enabled and the last `Records` was complete. A write
  -- is no dry run's; it adds nothing, and removes only hosts that were loaded, that no owned route
  -- has, that are not desired, that pass the domain filter and that resolve to a tunnel.
  pub prune_coredns-MayPrune :
      Since (MayPrune env s desired) s.calls (prune_coredns env desired s).1.calls
  unfolding prune_coredns pure
  prune_coredns-MayPrune =
      let nothing = Since-none (MayPrune env s desired) s.calls in
      at_option env.coredns (pure tt) _ nothing λ w e.
        at_if (not env.coredns_prune) (pure tt) (prune_enabled env w desired) nothing
          λ on. prune_enabled-MayPrune w e (ground arith) nothing
