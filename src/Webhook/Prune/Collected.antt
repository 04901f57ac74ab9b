-- ===== src/Webhook/Prune/Collected.antt =====
-- What the loops over the lists of cmd/webhook/prune.go find, in an account that does not change
-- meanwhile.
use external_dns_cloudflare.Prelude.{
  refl, Any-append_iff, ok, contains-IsIn, Pairwise-snoc, map, [], ◌++◌, contains-none, inr,
  All-map_iff, inl, All, ◌⊎◌, Bool-cases, false, Any-map_iff, true, ◌≢◌, ◌↔◌, ◌∷◌, contains, IsIn,
  Pairwise, Any, Bool, List, Text, ◌≡◌,
}
use mathlib.Core.Path.{subst}
use external_dns_cloudflare.Cloudflare.{HostnameRoute}
use external_dns_cloudflare.Provider.State.{Call, History}
use external_dns_cloudflare.Webhook.Prune.{PruneClient, ids, select, collect}

-- A route has the id.
abbrev pub HasId : Text → List HostnameRoute → Type 0
HasId k = Any (λ (r : HostnameRoute). r.id ≡ k)

-- No two routes have one id.
abbrev pub Apart : List HostnameRoute → Type 0
Apart = Pairwise (λ (r q : HostnameRoute). r.id ≢ q.id)

-- A route that passes the test has the id.
abbrev pub HasCandidate : (HostnameRoute → Bool) → Text → List HostnameRoute → Type 0
HasCandidate candidate k = Any (λ (r : HostnameRoute). (candidate r ≡ true) × (r.id ≡ k))

pub ids-HasId : (k : Text) (rs : List HostnameRoute) → IsIn k (ids rs) ↔ HasId k rs
unfolding ids
ids-HasId k rs = Any-map_iff (λ i. i ≡ k) rs (λ (r : HostnameRoute). r.id)

fresh-apart :
    (r : HostnameRoute) (found : List HostnameRoute)
    → contains r.id (ids found) ≡ false
    → All (λ (q : HostnameRoute). q.id ≢ r.id) found
unfolding ids
fresh-apart r found h =
    (All-map_iff (λ i. i ≢ r.id) found (λ (q : HostnameRoute). q.id)).0
      (contains-none r.id (map (λ (q : HostnameRoute). q.id) found) h)

module _ {H F C Q : Type 0} where
  absorb : H ↔ (F ⊎ C) → (Q → F) → H ↔ (F ⊎ (Q ⊎ C))
  absorb (split, merge) old = (
    λ h. elim (split h) [ inl f ↦ inl f | inr c ↦ inr (inr c) ],
    λ m. elim m [
      | inl f ↦ merge (inl f)
      | inr n ↦ elim n [ inl q ↦ merge (inl (old q)) | inr c ↦ merge (inr c) ]
    ],
  )

  extend : {G P : Type 0} → H ↔ (G ⊎ C) → G ↔ (F ⊎ (P ⊎ ⊥)) → P ↔ Q → H ↔ (F ⊎ (Q ⊎ C))
  extend (split, merge) (part, join) (there, back) = (
    λ h. elim (split h) [
      | inl g ↦ elim (part g) [
        | inl f ↦ inl f
        | inr p ↦ elim p [ inl p ↦ inr (inl (there p)) | inr n ↦ absurd n ]
      ]
      | inr c ↦ inr (inr c)
    ],
    λ m. elim m [
      | inl f ↦ merge (inl (join (inl f)))
      | inr n ↦ elim n [ inl q ↦ merge (inl (join (inr (inl (back q))))) | inr c ↦ merge (inr c) ]
    ],
  )

module _ (candidate : HostnameRoute → Bool) where
  select-Apart :
      (routes found : List HostnameRoute) → Apart found → Apart (select candidate routes found)
  unfolding select
  select-Apart [] found apart = apart
  select-Apart (r ∷ routes) found apart = elim (Bool-cases (candidate r)) [
    | inl pass ↦ elim (Bool-cases (contains r.id (ids found))) [
      | inl old ↦ rw (pass, old) (select-Apart routes found apart)
      | inr new ↦
          rw (pass, new)
            (select-Apart routes (found ++ r ∷ [])
              (Pairwise-snoc _ found r apart (fresh-apart r found new)))
    ]
    | inr fail ↦ rw fail (select-Apart routes found apart)
  ]

  module _ (k : Text) where
    select-HasId :
        (routes found : List HostnameRoute)
        → HasId k (select candidate routes found)
          ↔ (HasId k found ⊎ HasCandidate candidate k routes)
    unfolding select
    select-HasId [] found = (λ m. inl m, λ m. elim m [ inl a ↦ a | inr b ↦ absurd b ])
    select-HasId (r ∷ routes) found = elim (Bool-cases (candidate r)) [
      | inl pass ↦ elim (Bool-cases (contains r.id (ids found))) [
        | inl old ↦
            rw (pass, old)
              (absorb (select-HasId routes found) (λ q.
                (ids-HasId k found).0 (
                  contains-IsIn k (ids found)
                    (subst (λ i. contains i (ids found) ≡ true) q.1 old))))
        | inr new ↦
            rw (pass, new)
              (extend (select-HasId routes (found ++ r ∷ []))
                (Any-append_iff (λ (q : HostnameRoute). q.id ≡ k) found (r ∷ []))
                (λ p. (refl, p), λ q. q.1))
      ]
      | inr fail ↦ rw fail (absorb (select-HasId routes found) (λ q. cc (q.0)))
    ]

chain : {H G F C D : Type 0} → H ↔ (G ⊎ D) → G ↔ (F ⊎ C) → H ↔ (F ⊎ (C ⊎ D))
chain (split, merge) (part, join) = (
  λ h. elim (split h) [
    | inl g ↦ elim (part g) [ inl f ↦ inl f | inr c ↦ inr (inl c) ]
    | inr d ↦ inr (inr d)
  ],
  λ m. elim m [
    | inl f ↦ merge (inl (join (inl f)))
    | inr n ↦ elim n [ inl c ↦ merge (inl (join (inr c))) | inr d ↦ merge (inr d) ]
  ],
)

-- The ids that are deleted, in the order of the calls
abbrev pub deleted_ids : History → List Text
deleted_ids [] = []
deleted_ids (Call.delete_route id ∷ calls) = deleted_ids calls ++ id ∷ []
deleted_ids (_ ∷ calls) = deleted_ids calls

-- Every list succeeds, and what it says of a tunnel does not depend on the calls before.
abbrev pub IsSteady : PruneClient → (Text → List HostnameRoute) → Type 0
IsSteady client account =
    (calls : History) (tid : Text) → client.list_hostname_routes calls tid ≡ ok (account tid)

-- The lists of the tunnels have a route that passes the test and has the id.
abbrev pub IsListed :
    (Text → List HostnameRoute) → (HostnameRoute → Bool) → Text → List Text → Type 0
IsListed account candidate k = Any (λ tid. HasCandidate candidate k (account tid))

-- What the loops have found, and the calls they have made.
pub record Collected (account : Text → List HostnameRoute) (candidate : HostnameRoute → Bool)
    (scopes : List Text) (calls : History) (before found : List HostnameRoute) (after : History)
    : Type 0 where
  pub apart : Apart found
  pub exact : (k : Text) → HasId k found ↔ (HasId k before ⊎ IsListed account candidate k scopes)
  pub lists_only : deleted_ids after ≡ deleted_ids calls

module _ (client : PruneClient) (account : Text → List HostnameRoute)
    (steady : IsSteady client account) (candidate : HostnameRoute → Bool) where
  pub collect-Collected :
      (scopes : List Text) (calls : History) (before : List HostnameRoute)
      → Apart before
      → (found : List HostnameRoute) × (after : History) × (collect client candidate scopes calls
            before
          ≡ (ok found, after))
        × Collected account candidate scopes calls before found after
  unfolding collect
  collect-Collected [] calls before apart = (
    before,
    calls,
    refl,
    record {
      apart = apart;
      exact = λ k. (λ m. inl m, λ m. elim m [ inl a ↦ a | inr b ↦ absurd b ]);
      lists_only = refl;
    },
  )
  collect-Collected (tid ∷ scopes) calls before apart =
      let next = select candidate (account tid) before in
      let (found, after, e, rest) =
        collect-Collected scopes (Call.list_routes tid ∷ calls) next
          (select-Apart candidate (account tid) before apart) in
      (
        found,
        after,
        rw (collect, steady calls tid) e,
        record {
          apart = rest.apart;
          exact = λ k. chain (rest.exact k) (select-HasId candidate k (account tid) before);
          lists_only = rest.lists_only;
        },
      )
