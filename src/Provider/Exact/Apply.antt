-- ===== src/Provider/Exact/Apply.antt =====
-- `ApplyChanges` of internal/provider/provider.go makes exactly the planned changes.
use external_dns_cloudflare.Prelude.{
  &&-true, false, refl, ok_injective, ◌∷◌, sym, [], err, if◌then◌else◌, ◌||◌, true, ok, ◌++◌, ◌∙◌,
  ◌≡◌, ap, ◌&&◌, not, Result, Assoc, Text, List, Bool,
}
use mathlib.Core.Path.{subst}
use external_dns_cloudflare.Errors.{Error}
use external_dns_cloudflare.Cloudflare.{HostnameRoute}
use external_dns_cloudflare.Provider.State.{
  Env, Endpoint, Changes, Call, M, State, History, emit, pure, ◌>>=◌,
}
use external_dns_cloudflare.Provider.Yields.{Yields}
use external_dns_cloudflare.Provider.Records.{is_eligible, is_live}
use external_dns_cloudflare.Provider.Existing.{apply_deletes, apply_updates}
use external_dns_cloudflare.Provider.Creates.{apply_creates}
use external_dns_cloudflare.Provider.CoreDns.{apply_coredns}
use external_dns_cloudflare.Provider.Apply.{
  is_nil, index_needed, adoption_needed, mutate, write_then_mutate, apply_planned, apply_changes,
}
use external_dns_cloudflare.Provider.Exact.{
  mutations, after, Makes, Makes-pure, Makes-bind, Makes-then, calls_of,
}
use external_dns_cloudflare.Provider.Exact.Planned.{
  index_on, delete_of, retarget_of, creation_of, is_unanswered, adoptable, planned_calls, unless,
  unless-append, Makes-nothing,
}
use external_dns_cloudflare.Provider.Exact.Existing.{apply_deletes-Makes, apply_updates-Makes}
use external_dns_cloudflare.Provider.Exact.Creates.{apply_creates-Makes}
use external_dns_cloudflare.Provider.Exact.Lists.{
  IsStill, given, index_needed-Gives, adoption_needed-Gives,
}
use external_dns_cloudflare.Provider.Exact.Fragment.{
  IsWritable, IsSkipped, apply_coredns-GivesSkipped,
}

-- Run where the routes were changed as in `before`, the action makes these changes.
abbrev Leaves : {A : Type 0} → History → List Call → M A → Type 0
Leaves before cs m =
    (s : State) → mutations s.calls ≡ before → mutations (m s).1.calls ≡ after cs before

Leaves-read :
    {A B : Type 0} (before : History) (cs : List Call) (R : A → Type 0) (m : M A) (f : A → M B)
    → Yields (λ h. mutations h ≡ before) R m
    → ((a : A) → R a → Leaves before cs (f a))
    → Leaves before cs (m >>= f)
unfolding ◌>>=◌
Leaves-read before cs R m f y l s q = l (m s).0 (y.result s q) (m s).1 (y.calls s q)

Leaves-ok :
    {A B : Type 0} (before : History) (cs : List Call) (answer : Result Error A) (a : A)
    (f : Error → M B) (g : A → M B)
    → answer ≡ ok a
    → Leaves before cs (g a)
    → Leaves before cs (elim answer [ err e ↦ f e | ok b ↦ g b ])
Leaves-ok before cs (err e) a f g known l = cc
Leaves-ok before cs (ok b) a f g known l =
    subst (λ c. Leaves before cs (g c)) (sym (ok_injective b a known)) l

Leaves-if :
    {A : Type 0} (before : History) (cs : List Call) (b : Bool) (m n : M A)
    → (b ≡ true → Leaves before cs m)
    → (b ≡ false → Leaves before cs n)
    → Leaves before cs (if b then m else n)
Leaves-if before cs true m n lm ln = lm refl
Leaves-if before cs false m n lm ln = ln refl

Makes-Leaves :
    {A : Type 0} (before : History) (cs : List Call) (m : M A) → Makes cs m → Leaves before cs m
Makes-Leaves before cs m c s q = c.made s ∙ ap (after cs) q

is_nil-eq : (eps : List Endpoint) → is_nil eps ≡ true → eps ≡ []
unfolding is_nil
is_nil-eq [] e = refl
is_nil-eq (ep ∷ eps) e = cc

module _ (env : Env) where
  deletes-given :
      (deletes updates : List Endpoint) (index : Assoc HostnameRoute)
      → let needed = not (is_nil deletes) || not (is_nil updates) in
        (calls_of (delete_of env (given needed index)) deletes
          ≡ calls_of (delete_of env index) deletes)
        × (calls_of (retarget_of env (given needed index)) updates
            ≡ calls_of (retarget_of env index) updates)
  unfolding is_nil
  deletes-given [] [] index = (refl, refl)
  deletes-given [] (u ∷ us) index = (refl, refl)
  deletes-given (ep ∷ eps) updates index = (refl, refl)

  creates-given :
      (adopts : Bool) (unanswered : Text → Bool) (creates : List Endpoint)
      (index : Assoc HostnameRoute)
      → calls_of (creation_of env (given (adopts && not (is_nil creates)) index) unanswered) creates
        ≡ calls_of (creation_of env (if adopts then index else []) unanswered) creates
  unfolding is_nil
  creates-given adopts unanswered [] index = refl
  creates-given true unanswered (ep ∷ eps) index = refl
  creates-given false unanswered (ep ∷ eps) index = refl

  -- The changes with these indices
  abbrev changes_with : Changes → Assoc HostnameRoute → Assoc HostnameRoute → List Call
  changes_with changes owned found = unless env.dry_run (
      calls_of (delete_of env owned) changes.deletes
      ++ (calls_of (retarget_of env owned) changes.update_new
          ++ calls_of (creation_of env found (is_unanswered env env.coredns changes.create))
              changes.create))

  mutate-Makes :
      (changes : Changes) (owned found : Assoc HostnameRoute) (skipped : Assoc Error)
      → IsSkipped env env.coredns changes.create skipped
      → Makes (changes_with changes owned found) (mutate env changes owned found skipped)
  unfolding mutate
  mutate-Makes changes owned found skipped same =
      let dry = unless env.dry_run in
      let deletes = calls_of (delete_of env owned) changes.deletes in
      let updates = calls_of (retarget_of env owned) changes.update_new in
      let creates =
        calls_of (creation_of env found (is_unanswered env env.coredns changes.create))
          changes.create in
      subst (λ cs. Makes cs (mutate env changes owned found skipped))
        (ap (λ rest. dry deletes ++ rest) (unless-append env.dry_run updates creates)
          ∙ unless-append env.dry_run deletes (updates ++ creates))
        (Makes-bind (dry deletes) (dry updates ++ dry creates)
          (apply_deletes env owned changes.deletes) _
          (apply_deletes-Makes env owned changes.deletes)
          λ deleted.
            Makes-bind (dry updates) (dry creates) (apply_updates env owned changes.update_new) _
              (apply_updates-Makes env owned changes.update_new)
              λ updated.
                Makes-then (dry creates) (apply_creates env found skipped changes.create) _
                  (apply_creates-Makes env found skipped _ same changes.create)
                  λ created. Makes-pure _)

module _ (env : Env) (account : Text → List HostnameRoute) (changes : Changes) (before : History)
    (still : IsStill env account before) (writable : IsWritable env.coredns) where
  abbrev planned : List Call
  planned = planned_calls env account changes

  abbrev owned_given : Assoc HostnameRoute
  owned_given =
      given (not (is_nil changes.deletes) || not (is_nil changes.update_new))
        (index_on env account (is_eligible env))

  abbrev found_given : Assoc HostnameRoute
  found_given =
      given (env.adopt_untagged && not (is_nil changes.create)) (index_on env account is_live)

  changes_with-planned : changes_with env changes owned_given found_given ≡ planned
  changes_with-planned =
      let owned = index_on env account (is_eligible env) in
      let (d, u) = deletes-given env changes.deletes changes.update_new owned in
      let c =
        creates-given env env.adopt_untagged (is_unanswered env env.coredns changes.create)
          changes.create (index_on env account is_live) in
      λ i. unless env.dry_run (d i ++ (u i ++ c i))

  write_then_mutate-Leaves :
      Leaves before planned (write_then_mutate env changes owned_given found_given)
  unfolding write_then_mutate
  write_then_mutate-Leaves =
      Leaves-read before planned _ (apply_coredns env changes.create changes.deletes) _
        (apply_coredns-GivesSkipped env (λ h. mutations h ≡ before) (λ add remove h q. q)
          changes.create changes.deletes writable)
        λ answer (skipped, known, same). Leaves-ok before planned answer skipped _ _ known (
          Makes-Leaves before planned (mutate env changes owned_given found_given skipped) (
            subst (λ cs. Makes cs (mutate env changes owned_given found_given skipped))
              changes_with-planned (mutate-Makes env changes owned_given found_given skipped same)))

  apply_planned-Leaves : Leaves before planned (apply_planned env changes)
  unfolding apply_planned
  apply_planned-Leaves =
      Leaves-read before planned _ (index_needed env changes) _
        (index_needed-Gives env account before still changes)
        λ answer e. Leaves-ok before planned answer owned_given _ _ e (
          Leaves-read before planned _ (adoption_needed env changes) _
            (adoption_needed-Gives env account before still changes)
            λ answer' e'.
              Leaves-ok before planned answer' found_given _ _ e' write_then_mutate-Leaves)

  nothing-Makes :
      (is_nil changes.create && (is_nil changes.deletes && is_nil changes.update_new)) ≡ true
      → Makes {A = List Error} planned (pure [])
  nothing-Makes nothing =
      let (c, rest) = &&-true (is_nil changes.create) _ nothing in
      let (d, u) = &&-true (is_nil changes.deletes) _ rest in
      let owned = index_on env account (is_eligible env) in
      subst (λ cs. Makes {A = List Error} (unless env.dry_run cs) (pure []))
        (λ i.
          calls_of (delete_of env owned) (sym (is_nil-eq changes.deletes d) i)
          ++ (calls_of (retarget_of env owned) (sym (is_nil-eq changes.update_new u) i)
              ++ calls_of
                  (creation_of env (adoptable env account)
                    (is_unanswered env env.coredns changes.create))
                  (sym (is_nil-eq changes.create c) i)))
        (Makes-nothing env.dry_run [])

  -- In an account whose lists succeed and in which no one else changes a route meanwhile, and with
  -- a cluster that accepts the write of the fragment, `ApplyChanges` changes routes by exactly the
  -- calls that the plan asks for, in order, whatever these are answered with: a delete for each host
  -- that the plan deletes and that has a live route which this instance may manage; a retarget for
  -- each host that the plan updates, that has such a route, and that resolves to another tunnel than
  -- the route is on; and for each host that the plan creates, that resolves and that gets an answer
  -- in the cluster if that is asked for, a create with this owner's tag, or, if this instance adopts
  -- and a live route of the host is found, an adoption if that is untagged and on the right tunnel,
  -- and else nothing. Hosts outside the filter get none, and a dry run makes none.
  pub apply_changes-planned :
      (s : State)
      → mutations s.calls ≡ before
      → mutations (apply_changes env changes s).1.calls
        ≡ after (planned_calls env account changes) before
  unfolding apply_changes ◌>>=◌ emit pure
  apply_changes-planned =
      Leaves-if before planned
        (is_nil changes.create && (is_nil changes.deletes && is_nil changes.update_new)) _ _
        (λ nothing. Makes-Leaves before planned (pure []) (nothing-Makes nothing))
        (λ _ s q. apply_planned-Leaves s q)
