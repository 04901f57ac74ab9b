-- ===== src/Provider/Pending/Accounted.antt =====
-- `ApplyChanges` of internal/provider/provider.go, and the hostnames that it makes pending.
use external_dns_cloudflare.Prelude.{
  All-members, err, none, is_some, inl, to_lower, ◌++◌, inr, lookup, Result, ◌∷◌, Bool-cases, ◌||◌,
  ok, ◌==◌, [], All, IsIn, ◌&&◌, Text, not, List, Assoc, Bool,
}
use external_dns_cloudflare.Metrics.{Update, Reason, observe_apply}
use external_dns_cloudflare.Provider.State.{
  History, Call, Env, Endpoint, Changes, State, ◌>>=◌, ◌>>◌, pure, emit, perform, delete_route,
  patch_route, patch_comment,
}
use external_dns_cloudflare.Errors.{Error, Context}
use external_dns_cloudflare.Cloudflare.{HostnameRoute}
use external_dns_cloudflare.Tunnel.{resolve, tunnels}
use external_dns_cloudflare.Provider.Ownership.{comment, route_owner}
use external_dns_cloudflare.Provider.Records.{list_counted, is_live, is_eligible}
use external_dns_cloudflare.Provider.Index.{
  index_routes, index_tunnels, owned_route_index, adoption_index,
}
use external_dns_cloudflare.Provider.Existing.{
  delete_found, delete_one, apply_deletes, retarget, update_to, update_one, apply_updates,
}
use external_dns_cloudflare.Provider.Creates.{
  adopt_untagged_route, adopt, Account, create_on, create_one, creates_from, apply_creates,
}
use external_dns_cloudflare.Provider.CoreDns.{apply_coredns}
use external_dns_cloudflare.Provider.Apply.{
  is_nil, index_needed, adoption_needed, mutate, write_then_mutate, apply_planned, apply_changes,
}
use external_dns_cloudflare.Provider.Pending.Holds.{
  Memory, Holds, Any, Holds-pure, Holds-done, Holds-bind, Holds-if, Holds-result, Holds-option,
  Holds-counted, Holds-answered, Holds-each,
}
use external_dns_cloudflare.Provider.Pending.Kept.{apply_coredns-Holds}
use external_dns_cloudflare.Provider.Pending.Cleared.{list_counted-Holds}
use external_dns_cloudflare.Provider.Pending.Refused.{
  Remembered, Accounted, IsKnown, KnownNext, create_missing-Holds,
}

module _ (P : Memory → Type 0) (env : Env) where
  answered :
      {A : Type 0} (c : Call) (answer : History → Result Error A)
      (us : Result Error A → List Update) (x : Error → Error) (now : List Update)
      → Holds P Any (
          perform c answer >>= λ r.
          emit (us r) >> elim r [ err e ↦ pure (x e ∷ []) | ok a ↦ emit now >> pure [] ])
  answered c answer us x now =
      Holds-answered P Any c answer us _ _ (λ e h _. Holds-done P _)
        (λ a h _. Holds-counted P Any now [] tt)

  delete_one-Holds :
      (index : Assoc HostnameRoute) (ep : Endpoint) → Holds P Any (delete_one env index ep)
  unfolding delete_one delete_found
  delete_one-Holds index ep =
      Holds-if P Any (not (env.matches ep.dns_name)) _ _ (λ _. Holds-done P [])
        λ _.
          Holds-option P Any (lookup (to_lower ep.dns_name) index) _ _ (λ _. Holds-done P [])
            λ r _.
              Holds-if P Any env.dry_run _ _ (λ _. Holds-counted P Any _ [] tt)
                (λ _. answered (delete_route r.id) _ _ _ _)

  update_one-Holds :
      (index : Assoc HostnameRoute) (ep : Endpoint) → Holds P Any (update_one env index ep)
  unfolding update_one update_to retarget
  update_one-Holds index ep =
      Holds-if P Any (not (env.matches ep.dns_name)) _ _ (λ _. Holds-done P [])
        λ _.
          Holds-option P Any (resolve env.resolver ep.dns_name) _ _ (λ _. Holds-done P _)
            λ want _.
              Holds-option P Any (lookup (to_lower ep.dns_name) index) _ _ (λ _. Holds-done P [])
                λ r _.
                  Holds-if P Any (r.tunnel_id == want) _ _ (λ _. Holds-done P [])
                    λ _.
                      Holds-if P Any env.dry_run _ _ (λ _. Holds-counted P Any _ [] tt)
                        (λ _. answered (patch_route r.id _) _ _ _ _)

  adopt-Holds : (r : HostnameRoute) (want : Text) → Holds P Any (adopt env r want)
  unfolding adopt adopt_untagged_route
  adopt-Holds r want =
      Holds-if P Any (not (r.tunnel_id == want)) _ _ (λ _. Holds-done P _)
        λ _.
          Holds-option P Any (route_owner r.comment) _ _
            (λ _.
              Holds-if P Any env.dry_run _ _ (λ _. Holds-counted P Any _ [] tt)
                (λ _. answered (patch_comment r.id (comment env.owner_id)) _ _ _ _))
            λ owner _.
              Holds-if P Any (owner == env.owner_id) _ _ (λ _. Holds-done P _) (λ _. Holds-done P _)

  index_tunnels-Holds :
      (what : Context) (test : HostnameRoute → Bool) (tids : List Text)
      (index : Assoc HostnameRoute)
      → Holds P Any (index_tunnels env what test tids index)
  unfolding index_tunnels
  index_tunnels-Holds what test [] index = Holds-done P (ok index)
  index_tunnels-Holds what test (tid ∷ tids) index =
      Holds-bind P Any (list_counted env tid tid) _ (list_counted-Holds env P tid tid) λ answer _.
        Holds-result P Any answer _ _ (λ e _. Holds-done P _)
          (λ routes _. index_tunnels-Holds what test tids (index_routes test routes index))

  index_needed-Holds : (changes : Changes) → Holds P Any (index_needed env changes)
  unfolding index_needed owned_route_index
  index_needed-Holds changes =
      Holds-if P Any (not (is_nil changes.deletes) || not (is_nil changes.update_new)) _ _
        (λ _.
          index_tunnels-Holds Context.list_for_delete (is_eligible env) (tunnels env.resolver) [])
        (λ _. Holds-done P (ok []))

  adoption_needed-Holds : (changes : Changes) → Holds P Any (adoption_needed env changes)
  unfolding adoption_needed adoption_index
  adoption_needed-Holds changes =
      Holds-if P Any (env.adopt_untagged && not (is_nil changes.create)) _ _
        (λ _. index_tunnels-Holds Context.list_for_adoption is_live (tunnels env.resolver) [])
        (λ _. Holds-done P (ok []))

module _ (env : Env) (creates : List Endpoint) (before : Assoc Reason) where
  abbrev P : Memory → Type 0
  P = Remembered env creates before

  abbrev Known : List Error × Account → Type 0
  Known = KnownNext env creates before

  create_one-Holds :
      (existing : Assoc HostnameRoute) (skipped : Assoc Error) (account : Account) (ep : Endpoint)
      → IsKnown env creates before account
      → IsIn ep creates
      → Holds P Known (create_one env existing skipped account ep)
  unfolding create_one create_on
  create_one-Holds existing skipped account ep known member =
      elim (Bool-cases (env.matches ep.dns_name)) [
        | inr outside ↦ rw (create_one, outside) (Holds-pure P Known _ known)
        | inl inside ↦
            rw (create_one, inside)
              (Holds-if P Known (is_some (lookup (to_lower ep.dns_name) skipped)) _ _
                (λ _. Holds-pure P Known _ known)
                λ _.
                  Holds-option P Known (resolve env.resolver ep.dns_name) _ _
                    (λ _. Holds-pure P Known _ known)
                    λ tid target.
                      Holds-option P Known (lookup (to_lower ep.dns_name) existing) _ _
                        (λ _.
                          create_missing-Holds env creates before account ep tid known member inside
                            target)
                        λ r _.
                          Holds-bind P Known (adopt env r tid) _ (adopt-Holds P env r tid)
                            λ errs _. Holds-pure P Known (errs, account) known)
      ]

  creates_from-Holds :
      (existing : Assoc HostnameRoute) (skipped : Assoc Error) (account : Account)
      (eps : List Endpoint)
      → IsKnown env creates before account
      → All (λ ep. IsIn ep creates) eps
      → Holds P Any (creates_from env existing skipped account eps)
  unfolding creates_from
  creates_from-Holds existing skipped account [] known _ = Holds-done P []
  creates_from-Holds existing skipped account (ep ∷ eps) known (member, members) =
      Holds-bind P Any (create_one env existing skipped account ep) _
        (create_one-Holds existing skipped account ep known member)
        λ (errs, account') next.
          Holds-bind P Any (creates_from env existing skipped account' eps) _
            (creates_from-Holds existing skipped account' eps next members)
            λ more _. Holds-done P (errs ++ more)

module _ (env : Env) (changes : Changes) (before : Assoc Reason) where
  abbrev Q : Memory → Type 0
  Q = Remembered env changes.create before

  mutate-Holds :
      (index existing : Assoc HostnameRoute) (skipped : Assoc Error)
      → Holds Q Any (mutate env changes index existing skipped)
  unfolding mutate apply_deletes apply_updates apply_creates
  mutate-Holds index existing skipped =
      Holds-bind Q Any (apply_deletes env index changes.deletes) _
        (Holds-each Q (delete_one env index) changes.deletes (delete_one-Holds Q env index))
        λ deleted _.
          Holds-bind Q Any (apply_updates env index changes.update_new) _
            (Holds-each Q (update_one env index) changes.update_new (update_one-Holds Q env index))
            λ updated _.
              Holds-bind Q Any (apply_creates env existing skipped changes.create) _
                (creates_from-Holds env changes.create before existing skipped none changes.create
                  tt (All-members (λ ep. IsIn ep changes.create) changes.create λ ep m. m))
                λ created _. Holds-done Q _

  apply_planned-Holds : Holds Q Any (apply_planned env changes)
  unfolding apply_planned write_then_mutate
  apply_planned-Holds =
      Holds-bind Q Any (index_needed env changes) _ (index_needed-Holds Q env changes) λ answer _.
        Holds-result Q Any answer _ _ (λ e _. Holds-done Q _)
          λ index _.
            Holds-bind Q Any (adoption_needed env changes) _ (adoption_needed-Holds Q env changes)
              λ answer' _.
                Holds-result Q Any answer' _ _ (λ e _. Holds-done Q _)
                  λ existing _.
                    Holds-bind Q Any (apply_coredns env changes.create changes.deletes) _
                      (apply_coredns-Holds Q env changes.create changes.deletes)
                      λ written _.
                        Holds-result Q Any written _ _ (λ e _. Holds-done Q _)
                          (λ skipped _. mutate-Holds index existing skipped)

  apply_changes-Holds : Holds Q Any (apply_changes env changes)
  unfolding apply_changes
  apply_changes-Holds =
      Holds-if Q Any
        (is_nil changes.create && (is_nil changes.deletes && is_nil changes.update_new)) _ _
        (λ _. Holds-done Q [])
        λ _.
          Holds-bind Q Any (apply_planned env changes) _ apply_planned-Holds
            λ errs _. Holds-counted Q Any (observe_apply env.metrics) errs tt

-- A hostname that is pending after `ApplyChanges` was so before, for the same reason, or its create,
-- which the plan asks for, was refused since the hostname is already routed, outside a dry run; the
-- reason then names the holder in a list of the account: this owner, another owner, none, or no live
-- route that is found.
pub apply_changes-Accounted :
    (env : Env) (changes : Changes) (s : State)
    → Accounted env changes.create s.pending (apply_changes env changes s).1.pending
apply_changes-Accounted env changes s =
    (apply_changes-Holds env changes s.pending).kept s λ host reason e. inl e
