-- ===== src/Provider/Exact/Existing.antt =====
-- `applyDeletes` and `applyUpdates` of internal/provider/provider.go make the planned changes.
use mathlib.Core.Path.{subst}
use external_dns_cloudflare.Prelude.{
  ◌==◌, some, Text, to_lower, refl, lookup, Option-cases, inr, ◌∷◌, inl, [], Bool-cases, Assoc,
  List,
}
use external_dns_cloudflare.Provider.State.{patch_route, delete_route, Env, Endpoint, Call}
use external_dns_cloudflare.Cloudflare.{RoutePatch, HostnameRoute}
use external_dns_cloudflare.Provider.Exact.{
  emit, Makes, Makes-pure, Makes-emit, Makes-then, Makes-answered, Makes-each, calls_of,
}
use external_dns_cloudflare.Tunnel.{resolve}
use external_dns_cloudflare.Provider.Existing.{
  delete_found, delete_one, apply_deletes, retarget, update_to, update_one, apply_updates,
}
use external_dns_cloudflare.Provider.Exact.Planned.{
  Makes-nothing, delete_of, retarget_of, retargeted, unless, unless-calls_of,
}

module _ (env : Env) (owned : Assoc HostnameRoute) where
  abbrev dry : List Call → List Call
  dry = unless env.dry_run

  delete_found-Makes :
      (ep : Endpoint) (r : HostnameRoute)
      → Makes (dry (delete_route r.id ∷ [])) (delete_found env ep r)
  unfolding delete_found
  delete_found-Makes ep r = elim (Bool-cases env.dry_run) [
    | inl dry ↦ rw (delete_found, dry) (Makes-then [] (emit _) _ (Makes-emit _) λ _. Makes-pure [])
    | inr real ↦
        rw (delete_found, real)
          (Makes-answered (delete_route r.id) _ _ _ _ refl (λ e. Makes-pure _)
            (λ a. Makes-then [] (emit _) _ (Makes-emit _) λ _. Makes-pure []))
  ]

  delete_one-Makes :
      (ep : Endpoint) → Makes (dry (delete_of env owned ep)) (delete_one env owned ep)
  unfolding delete_one
  delete_one-Makes ep = elim (Bool-cases (env.matches ep.dns_name)) [
    | inl inside ↦ elim (Option-cases (lookup (to_lower ep.dns_name) owned)) [
      | inl e ↦ rw (delete_one, inside, e) (Makes-nothing env.dry_run [])
      | inr (r, e) ↦ rw (delete_one, inside, e) (delete_found-Makes ep r)
    ]
    | inr outside ↦ rw (delete_one, outside) (Makes-nothing env.dry_run [])
  ]

  pub apply_deletes-Makes :
      (eps : List Endpoint)
      → Makes (dry (calls_of (delete_of env owned) eps)) (apply_deletes env owned eps)
  unfolding apply_deletes
  apply_deletes-Makes eps =
      subst (λ cs. Makes cs (apply_deletes env owned eps))
        (unless-calls_of env.dry_run (delete_of env owned) eps)
        (Makes-each (λ ep. dry (delete_of env owned ep)) (delete_one env owned) eps
          delete_one-Makes)

  retarget-Makes :
      (ep : Endpoint) (want : Text) (r : HostnameRoute)
      → let patch : RoutePatch = record {
        hostname = r.hostname;
        tunnel_id = want;
        comment = r.comment;
      } in
        Makes (dry (patch_route r.id patch ∷ [])) (retarget env ep want r)
  unfolding retarget
  retarget-Makes ep want r = elim (Bool-cases env.dry_run) [
    | inl dry ↦ rw (retarget, dry) (Makes-then [] (emit _) _ (Makes-emit _) λ _. Makes-pure [])
    | inr real ↦
        rw (retarget, real)
          (Makes-answered (patch_route r.id _) _ _ _ _ refl (λ e. Makes-pure _)
            (λ a. Makes-then [] (emit _) _ (Makes-emit _) λ _. Makes-pure []))
  ]

  update_to-Makes :
      (ep : Endpoint) (want : Text)
      → Makes
          (dry (retargeted env (some want) (lookup (to_lower ep.dns_name) owned)))
          (update_to env owned ep want)
  unfolding update_to
  update_to-Makes ep want = elim (Option-cases (lookup (to_lower ep.dns_name) owned)) [
    | inl e ↦ rw (update_to, e) (Makes-nothing env.dry_run [])
    | inr (r, e) ↦ elim (Bool-cases (r.tunnel_id == want)) [
      | inl same ↦ rw (update_to, e, same) (Makes-nothing env.dry_run [])
      | inr other ↦ rw (update_to, e, other) (retarget-Makes ep want r)
    ]
  ]

  update_one-Makes :
      (ep : Endpoint) → Makes (dry (retarget_of env owned ep)) (update_one env owned ep)
  unfolding update_one
  update_one-Makes ep = elim (Bool-cases (env.matches ep.dns_name)) [
    | inl inside ↦ elim (Option-cases (resolve env.resolver ep.dns_name)) [
      | inl e ↦ rw (update_one, inside, e) (Makes-nothing env.dry_run _)
      | inr (want, e) ↦ rw (update_one, inside, e) (update_to-Makes ep want)
    ]
    | inr outside ↦ rw (update_one, outside) (Makes-nothing env.dry_run [])
  ]

  pub apply_updates-Makes :
      (eps : List Endpoint)
      → Makes (dry (calls_of (retarget_of env owned) eps)) (apply_updates env owned eps)
  unfolding apply_updates
  apply_updates-Makes eps =
      subst (λ cs. Makes cs (apply_updates env owned eps))
        (unless-calls_of env.dry_run (retarget_of env owned) eps)
        (Makes-each (λ ep. dry (retarget_of env owned ep)) (update_one env owned) eps
          update_one-Makes)
