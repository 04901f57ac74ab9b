-- ===== src/Webhook/Prune/Exact.antt =====
-- `runPrune` of cmd/webhook/prune.go deletes exactly the routes that it is for.
use external_dns_cloudflare.Prelude.{
  codes, sym, trim_space, Pairwise-map, inr, refl, ◌∷◌, arith, IsIn, ok, ◌∙◌, inl, ◌≢◌, [],
  Any-mono, Option-cases, Pairwise, Any, ◌↔◌, List, none, true, Bool, Text, ◌≡◌,
}
use mathlib.Core.Path.{subst}
use external_dns_cloudflare.Prelude.Strings.Words.{ne_nil-test}
use external_dns_cloudflare.Prelude.Sort.{sort, Pairwise-sort, Any-sort, Any-sort_back}
use external_dns_cloudflare.Cloudflare.{HostnameRoute}
use external_dns_cloudflare.Provider.State.{History}
use external_dns_cloudflare.Provider.Ownership.{route_tagged_by}
use external_dns_cloudflare.Webhook.{split_csv}
use external_dns_cloudflare.Webhook.Flags.{PruneFlags, parse_flags, no_flags}
use external_dns_cloudflare.Webhook.Prune.{
  PruneClient, PruneState, PruneDeps, ids, is_candidate, prune_less, after_lists, prune_found,
  prune_with, run_prune, run_parsed, run_flags, finish, print, scopes_of,
}
use external_dns_cloudflare.Webhook.Prune.Collected.{
  IsListed, IsSteady, Collected, collect-Collected, deleted_ids, ids-HasId,
}
use external_dns_cloudflare.Webhook.Prune.Deletes.{deleted_ids-delete_all}

-- Live, tagged with the owner, and within the domain filter
abbrev pub IsPrunable : Text → (Text → Bool) → HostnameRoute → Type 0
IsPrunable owner matches r =
    (r.deleted_at ≡ none) × (route_tagged_by r.comment owner ≡ true) × (matches r.hostname ≡ true)

-- A list of one of the tunnels has such a route with the id.
abbrev pub HasPrunable :
    Text → (Text → Bool) → (Text → List HostnameRoute) → List Text → Text → Type 0
HasPrunable owner matches account scopes k =
    Any (λ tid. Any (λ (r : HostnameRoute). IsPrunable owner matches r × (r.id ≡ k)) (account tid))
      scopes

-- The ids are those of the routes, and no id stands twice.
pub record IsExact (owner : Text) (matches : Text → Bool) (account : Text → List HostnameRoute)
    (scopes : List Text) (deleted : List Text) : Type 0 where
  pub once : Pairwise (λ a b. a ≢ b) deleted
  pub exact : (k : Text) → IsIn k deleted ↔ HasPrunable owner matches account scopes k

pub is_candidate-IsPrunable :
    (owner : Text) (matches : Text → Bool) (r : HostnameRoute)
    → (is_candidate owner matches r ≡ true) ↔ IsPrunable owner matches r
unfolding is_candidate
is_candidate-IsPrunable owner matches r = elim (Option-cases r.deleted_at) [
  | inl e ↦ ground arith
  | inr (t, e) ↦ ground arith
]

module _ (owner : Text) (matches : Text → Bool) (account : Text → List HostnameRoute)
    (k : Text) where
  listed-HasPrunable :
      (scopes : List Text)
      → IsListed account (is_candidate owner matches) k scopes
        ↔ HasPrunable owner matches account scopes k
  listed-HasPrunable scopes =
      let swap = is_candidate-IsPrunable owner matches in
      (
        Any-mono _ _ scopes (λ tid. Any-mono _ _ (account tid) (λ r m. ((swap r).0 m.0, m.1))),
        Any-mono _ _ scopes (λ tid. Any-mono _ _ (account tid) (λ r m. ((swap r).1 m.0, m.1))),
      )

module _ (client : PruneClient) (f : PruneFlags) (owner : Text) (asked : f.apply ≡ true) where
  deleted_ids-prune_found :
      (found : List HostnameRoute) (s : PruneState)
      → deleted_ids s.calls ≡ []
      → deleted_ids (prune_found client f.apply found s).1.calls ≡ ids found
  unfolding prune_found finish print
  deleted_ids-prune_found found s none_yet =
      rw asked (deleted_ids-delete_all client found _ ∙ rw none_yet refl)

  deleted_ids-after_lists :
      (found : List HostnameRoute) (after : History)
      → deleted_ids after ≡ []
      → deleted_ids (after_lists client f owner (ok found, after)).1.calls
        ≡ ids (sort prune_less found)
  unfolding after_lists
  deleted_ids-after_lists [] after none_yet = none_yet ∙ (unfold ids sort in refl)
  deleted_ids-after_lists (r ∷ found) after none_yet =
      deleted_ids-prune_found (sort prune_less (r ∷ found)) _ none_yet

module _ (owner : Text) (matches : Text → Bool) (account : Text → List HostnameRoute)
    (scopes : List Text) where
  sorted-IsExact :
      (found : List HostnameRoute) (after : History)
      → Collected account (is_candidate owner matches) scopes [] [] found after
      → IsExact owner matches account scopes (ids (sort prune_less found))
  unfolding ids
  sorted-IsExact found after seen = record {
    once =
        Pairwise-map (λ a b. a ≢ b) (λ (r : HostnameRoute). r.id) (sort prune_less found)
          (Pairwise-sort prune_less _ (λ r q n e. n (sym e)) found seen.apart);
    exact = λ k.
        let (there, back) = ids-HasId k (sort prune_less found) in
        let (split, merge) = seen.exact k in
        let (fro, to) = listed-HasPrunable owner matches account k scopes in
        (
          λ m. elim (split (Any-sort_back prune_less _ found (there m))) [
            | inl n ↦ absurd n
            | inr listed ↦ fro listed
          ],
          λ m. back (Any-sort prune_less _ found (merge (inr (to m)))),
        );
  }

module _ (d : PruneDeps) (args : List Text) (f : PruneFlags)
    (parsed : parse_flags args none no_flags ≡ ok (f, [])) (owner : trim_space f.owner ≢ [])
    (account_id : d.getenv (codes "CF_ACCOUNT_ID") ≢ [])
    (token : d.getenv (codes "CF_API_TOKEN") ≢ []) where
  client : PruneClient
  client = d.new_client (d.getenv (codes "CF_ACCOUNT_ID")) (d.getenv (codes "CF_API_TOKEN"))

  run_prune-prune_with : run_prune d args ≡ prune_with d client f (trim_space f.owner)
  unfolding run_prune run_parsed run_flags client
  run_prune-prune_with =
      rw (parsed, ne_nil-test _ owner, ne_nil-test _ account_id, ne_nil-test _ token) refl

  -- If the arguments are good and ask to delete, the account and the token are set, and every list
  -- succeeds with routes that do not depend on the calls before it, then the run deletes exactly the
  -- ids of the live routes of the listed tunnels that bear the owner's tag and match the domain
  -- filter, each of them once, whatever the deletes answer.
  pub run_prune-IsExact :
      (account : Text → List HostnameRoute)
      → IsSteady
          (d.new_client (d.getenv (codes "CF_ACCOUNT_ID")) (d.getenv (codes "CF_API_TOKEN")))
          account
      → f.apply ≡ true
      → IsExact
          (trim_space f.owner)
          (d.new_domain_filter (split_csv f.domain_filter))
          account
          (scopes_of f.tunnels)
          (deleted_ids (run_prune d args).1.calls)
  unfolding prune_with client
  run_prune-IsExact account steady asked =
      let owner_id = trim_space f.owner in
      let matches = d.new_domain_filter (split_csv f.domain_filter) in
      let (found, after, e, seen) =
        collect-Collected client account steady (is_candidate owner_id matches)
          (scopes_of f.tunnels) [] [] tt in
      let same : deleted_ids (run_prune d args).1.calls ≡ ids (sort prune_less found) =
        rw (run_prune-prune_with, e)
          (deleted_ids-after_lists client f owner_id asked found after seen.lists_only) in
      subst (IsExact owner_id matches account (scopes_of f.tunnels)) (sym same)
        (sorted-IsExact owner_id matches account (scopes_of f.tunnels) found after seen)
