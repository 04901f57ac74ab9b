-- ===== src/Provider/Apply.antt =====
-- `ApplyChanges` of internal/provider/provider.go.
use external_dns_cloudflare.Prelude.{
  ◌||◌, false, ◌&&◌, not, err, ◌++◌, true, if◌then◌else◌, [], ok, ◌∷◌, List, Assoc, Result, Bool,
}
use external_dns_cloudflare.Errors.{Error}
use external_dns_cloudflare.Cloudflare.{HostnameRoute}
use external_dns_cloudflare.Metrics.{observe_apply}
use external_dns_cloudflare.Provider.State.{Env, Endpoint, Changes, M, ◌>>=◌, ◌>>◌, emit, pure}
use external_dns_cloudflare.Provider.CoreDns.{apply_coredns, skipped_errors}
use external_dns_cloudflare.Provider.Index.{owned_route_index, adoption_index}
use external_dns_cloudflare.Provider.Existing.{apply_deletes, apply_updates}
use external_dns_cloudflare.Provider.Creates.{apply_creates}

unfoldable pub is_nil : List Endpoint → Bool
is_nil [] = true
is_nil (ep ∷ eps) = false

-- The index of the deletes and updates, if there are any
unfoldable pub index_needed : Env → Changes → M (Result Error (Assoc HostnameRoute))
unfolding owned_route_index is_nil
index_needed env changes =
    if not (is_nil changes.deletes) || not (is_nil changes.update_new)
    then owned_route_index env
    else pure (ok [])

-- The index of the adoptions, if there are any
unfoldable pub adoption_needed : Env → Changes → M (Result Error (Assoc HostnameRoute))
unfolding adoption_index is_nil
adoption_needed env changes =
    if env.adopt_untagged && not (is_nil changes.create) then adoption_index env else pure (ok [])

-- The part that mutates the account
unfoldable pub mutate :
    Env → Changes → Assoc HostnameRoute → Assoc HostnameRoute → Assoc Error → M (List Error)
unfolding apply_deletes apply_updates apply_creates
mutate env changes index existing skipped = do
  deleted ← apply_deletes env index changes.deletes
  updated ← apply_updates env index changes.update_new
  created ← apply_creates env existing skipped changes.create
  pure (skipped_errors skipped ++ (deleted ++ (updated ++ created)))

unfoldable pub write_then_mutate :
    Env → Changes → Assoc HostnameRoute → Assoc HostnameRoute → M (List Error)
unfolding apply_coredns mutate
write_then_mutate env changes index existing = do
  answer ← apply_coredns env changes.create changes.deletes
  elim answer [ err e ↦ pure (e ∷ []) | ok skipped ↦ mutate env changes index existing skipped ]

unfoldable pub apply_planned : Env → Changes → M (List Error)
unfolding index_needed adoption_needed write_then_mutate
apply_planned env changes = do
  index ← index_needed env changes
  elim index [
    | err e ↦ pure (e ∷ [])
    | ok index ↦ (do
      existing ← adoption_needed env changes
      elim existing [
        | err e ↦ pure (e ∷ [])
        | ok existing ↦ write_then_mutate env changes index existing
      ])
  ]

-- The errors that `ApplyChanges` joins; none are a nil error.
unfoldable pub apply_changes : Env → Changes → M (List Error)
unfolding apply_planned is_nil
apply_changes env changes =
    if is_nil changes.create && (is_nil changes.deletes && is_nil changes.update_new)
    then pure []
    else (do errs ← apply_planned env changes; emit (observe_apply env.metrics); pure errs)
