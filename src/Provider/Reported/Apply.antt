-- ===== src/Provider/Reported/Apply.antt =====
-- `ApplyChanges` of internal/provider/provider.go reports each call that fails.
use external_dns_cloudflare.Metrics.{Update, observe_apply}
use external_dns_cloudflare.Prelude.{
  refl, ◌∷◌, some, [], ok, err, true, ◌≡◌, ◌||◌, Assoc, ◌&&◌, List, Result, Text, not, Bool,
}
use external_dns_cloudflare.Errors.{Error, Context, wrap}
use external_dns_cloudflare.Cloudflare.{HostnameRoute}
use external_dns_cloudflare.Tunnel.{tunnels}
use external_dns_cloudflare.Provider.Records.{list_counted, is_eligible, is_live}
use external_dns_cloudflare.Provider.Index.{
  index_routes, index_tunnels, owned_route_index, adoption_index,
}
use external_dns_cloudflare.Provider.State.{
  Env, Endpoint, Changes, History, M, State, FragmentWriter, list_routes, fragment_apply, emit,
  pure, perform, ◌>>=◌, ◌>>◌,
}
use external_dns_cloudflare.Provider.CoreDns.{
  write_fragment, write_planned, apply_coredns, plan_rewrites, empty_rewrites, removals, is_empty,
  skipped_errors,
}
use external_dns_cloudflare.Provider.Existing.{apply_deletes, apply_updates}
use external_dns_cloudflare.Provider.Apply.{
  is_nil, index_needed, adoption_needed, mutate, write_then_mutate, apply_planned, apply_changes,
}
use external_dns_cloudflare.Provider.Reported.{
  is_accepted, AcceptedSince, IsNil, IsOk, Reports, Reports-pure, Reports-bind, Reports-if,
  Reports-option, Reports-answered, Reports-counted, Reports-perform, Reports-result, append_nil,
  failed,
}
use external_dns_cloudflare.Provider.Reported.Existing.{
  apply_deletes-Reports, apply_updates-Reports,
}
use external_dns_cloudflare.Provider.Reported.Creates.{apply_creates-Reports}

-- How an action ends, by its last part
counted_end :
    {A : Type 0} (S : A → Type 0) (us : List Update) (a : A) (s : State)
    → S ((emit us >> pure a) s).0
    → S a
unfolding ◌>>=◌ emit pure
counted_end S us a s h = h

next_end :
    {A B : Type 0} (answer : Result Error A) (f : Error → Error) (g : A → M (Result Error B))
    (s : State)
    → let m : M (Result Error B) = elim answer [ err e ↦ pure (err (f e)) | ok a ↦ g a ] in
      IsOk (m s).0 → IsOk answer
unfolding pure
next_end (err e) f g s h = h
next_end (ok a) f g s h = refl

first_end :
    {A : Type 0} (answer : Result Error A) (g : A → M (List Error)) (s : State)
    → let m : M (List Error) = elim answer [ err e ↦ pure (e ∷ []) | ok a ↦ g a ] in
      IsNil (m s).0 → IsOk answer
first_end (err e) g s h = failed e s h
first_end (ok a) g s h = refl

module _ (env : Env) (before : History) where
  listed-accepted :
      (tid : Text) (h : History)
      → IsOk (env.client.list_hostname_routes h tid)
      → is_accepted env (list_routes tid) h ≡ true
  listed-accepted [] h e = refl
  listed-accepted (c ∷ tid) h e = e

  list_counted-Reports : (tid label : Text) → Reports env before IsOk (list_counted env tid label)
  unfolding list_counted
  list_counted-Reports tid label =
      Reports-answered env before IsOk IsOk (list_routes tid) _ _ _ _ (listed-accepted tid)
        (λ e s h. counted_end IsOk _ (err e) s h) (λ a. refl)
        (λ e. Reports-counted env before IsOk _ (err e)) (λ a. Reports-pure env before IsOk (ok a))

  -- A step that can fail, and what is done with its result
  Reports-next :
      {A B : Type 0} (m : M (Result Error A)) (f : Error → Error) (g : A → M (Result Error B))
      → Reports env before IsOk m
      → ((a : A) → Reports env before IsOk (g a))
      → Reports env before IsOk
          (m >>= λ answer. elim answer [ err e ↦ pure (err (f e)) | ok a ↦ g a ])
  Reports-next m f g rm rg =
      Reports-bind env before IsOk IsOk m _ rm
        (λ answer.
          Reports-result env before IsOk answer _ _ (λ e. Reports-pure env before IsOk _) rg)
        (λ answer s h. next_end answer f g s h)

  index_tunnels-Reports :
      (what : Context) (test : HostnameRoute → Bool) (tids : List Text)
      (index : Assoc HostnameRoute)
      → Reports env before IsOk (index_tunnels env what test tids index)
  unfolding index_tunnels
  index_tunnels-Reports what test [] index = Reports-pure env before IsOk (ok index)
  index_tunnels-Reports what test (tid ∷ tids) index =
      Reports-next (list_counted env tid tid) (wrap what) _ (list_counted-Reports tid tid)
        λ routes. index_tunnels-Reports what test tids (index_routes test routes index)

  index_needed-Reports : (changes : Changes) → Reports env before IsOk (index_needed env changes)
  unfolding index_needed owned_route_index
  index_needed-Reports changes =
      Reports-if env before IsOk (not (is_nil changes.deletes) || not (is_nil changes.update_new)) _
        _
        (λ _.
          index_tunnels-Reports Context.list_for_delete (is_eligible env) (tunnels env.resolver) [])
        (λ _. Reports-pure env before IsOk (ok []))

  adoption_needed-Reports :
      (changes : Changes) → Reports env before IsOk (adoption_needed env changes)
  unfolding adoption_needed adoption_index
  adoption_needed-Reports changes =
      Reports-if env before IsOk (env.adopt_untagged && not (is_nil changes.create)) _ _
        (λ _. index_tunnels-Reports Context.list_for_adoption is_live (tunnels env.resolver) [])
        (λ _. Reports-pure env before IsOk (ok []))

  write_planned-Reports :
      (w : FragmentWriter)
      → env.coredns ≡ some w
      → (skipped : Assoc Error) (add : Assoc Text) (remove : List Text)
      → Reports env before IsOk (write_planned env w skipped add remove)
  unfolding write_planned write_fragment
  write_planned-Reports w configured skipped add remove =
      Reports-if env before IsOk env.dry_run _ _
        (λ dry. Reports-counted env before IsOk _ (ok skipped))
        λ real.
          Reports-next
            (perform (fragment_apply add remove) (λ h. w.apply h add remove) >>= λ now.
              emit _ >> pure now)
            (wrap (Context.update_fragment w.key)) _
            (Reports-bind env before IsOk IsOk (perform (fragment_apply add remove) _) _
              (Reports-perform env before IsOk (fragment_apply add remove) _
                λ h e. rw (configured, is_accepted) e)
              (λ now. Reports-counted env before IsOk _ now)
              (λ now s h. counted_end IsOk _ now s h))
            λ rewrites. Reports-counted env before IsOk _ (ok skipped)

  apply_coredns-Reports :
      (creates deletes : List Endpoint)
      → Reports env before IsOk (apply_coredns env creates deletes)
  unfolding apply_coredns
  apply_coredns-Reports creates deletes =
      Reports-option env before IsOk env.coredns _ _ (Reports-pure env before IsOk (ok []))
        λ w configured.
          let planned = plan_rewrites env w creates empty_rewrites in
          let remove = removals env deletes in
          Reports-if env before IsOk (is_empty planned.added && is_empty remove) _ _
            (λ _. Reports-pure env before IsOk (ok planned.skipped))
            (λ _. write_planned-Reports w configured planned.skipped planned.added remove)

  mutate-Reports :
      (changes : Changes) (index existing : Assoc HostnameRoute) (skipped : Assoc Error)
      → Reports env before IsNil (mutate env changes index existing skipped)
  unfolding mutate ◌>>=◌ pure
  mutate-Reports changes index existing skipped = record {
    accepted = λ s q e.
        let s1 = (apply_deletes env index changes.deletes s).1 in
        let s2 = (apply_updates env index changes.update_new s1).1 in
        let (_, rest) = append_nil (skipped_errors skipped) _ e in
        let (deleted, rest') = append_nil (apply_deletes env index changes.deletes s).0 _ rest in
        let (updated, created) =
          append_nil (apply_updates env index changes.update_new s1).0 _ rest' in
        (apply_creates-Reports env before existing skipped changes.create).accepted s2
          ((apply_updates-Reports env before index changes.update_new).accepted s1
            ((apply_deletes-Reports env before index changes.deletes).accepted s q deleted) updated)
          created;
  }

  -- A step that can fail at once
  Reports-first :
      {A : Type 0} (m : M (Result Error A)) (g : A → M (List Error))
      → Reports env before IsOk m
      → ((a : A) → Reports env before IsNil (g a))
      → Reports env before IsNil
          (m >>= λ answer. elim answer [ err e ↦ pure (e ∷ []) | ok a ↦ g a ])
  Reports-first m g rm rg =
      Reports-bind env before IsOk IsNil m _ rm
        (λ answer.
          Reports-result env before IsNil answer _ _ (λ e. Reports-pure env before IsNil _) rg)
        (λ answer s h. first_end answer g s h)

  apply_planned-Reports : (changes : Changes) → Reports env before IsNil (apply_planned env changes)
  unfolding apply_planned write_then_mutate
  apply_planned-Reports changes =
      Reports-first (index_needed env changes) _ (index_needed-Reports changes) λ index.
        Reports-first (adoption_needed env changes) _ (adoption_needed-Reports changes) λ existing.
          Reports-first (apply_coredns env changes.create changes.deletes) _
            (apply_coredns-Reports changes.create changes.deletes)
            λ skipped. mutate-Reports changes index existing skipped

  apply_changes-Reports : (changes : Changes) → Reports env before IsNil (apply_changes env changes)
  unfolding apply_changes
  apply_changes-Reports changes =
      Reports-if env before IsNil
        (is_nil changes.create && (is_nil changes.deletes && is_nil changes.update_new)) _ _
        (λ _. Reports-pure env before IsNil [])
        λ _.
          Reports-bind env before IsNil IsNil (apply_planned env changes) _
            (apply_planned-Reports changes)
            (λ errs. Reports-counted env before IsNil (observe_apply env.metrics) errs)
            (λ errs s e. counted_end IsNil (observe_apply env.metrics) errs s e)

-- If `ApplyChanges` reports no error, then no call that it made was refused, whatever was called
-- before, and whatever the account, the cluster and other writers answer, but for creates of
-- hostnames that are already routed, and for lists of the whole account: every list of a tunnel,
-- every write of the fragment and every other change of a route has succeeded.
pub apply_changes-AllAccepted :
    (env : Env) (changes : Changes) (s : State)
    → (apply_changes env changes s).0 ≡ []
    → AcceptedSince env s.calls (apply_changes env changes s).1.calls
apply_changes-AllAccepted env changes s =
    (apply_changes-Reports env s.calls changes).accepted s ([], refl, tt)
