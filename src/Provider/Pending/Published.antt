-- ===== src/Provider/Pending/Published.antt =====
-- What `setPending`, `clearPending` and `retainPending` of internal/provider/provider.go publish.
use external_dns_cloudflare.Prelude.{
  erase, refl, erase-NodupKeys, ap, ◌==◌, [], insert, inl, none, inr, Bool-cases, lookup, arith,
  ◌∷◌, Option-cases, insert-NodupKeys, Bool, length, Text, Assoc, NodupKeys, ◌+◌, ◌⊎◌, ◌≡◌, false,
}
use external_dns_cloudflare.Metrics.{
  Reason, pending_self, pending_other, pending_untagged, pending_unknown, set_routes_pending,
}
use external_dns_cloudflare.Provider.State.{Env, State, ◌>>=◌, get, modify, emit}
use external_dns_cloudflare.Provider.Pending.{
  count_reason, same_reason, publish_pending, set_pending, clear_pending, keep_only, drops,
  retain_pending,
}

-- The map and the gauges are as they were, or the gauges are published for the map.
abbrev pub IsPublished : Env → State → State → Type 0
IsPublished env s s' =
    (s'.pending ≡ s.pending) × (s'.updates ≡ s.updates)
    ⊎ (s'.updates ≡ set_routes_pending env.metrics (count_reason s'.pending) ∷ s.updates)

-- The four counts add up to the number of hostnames.
abbrev pub AddsUp : State → Type 0
AddsUp s =
    count_reason s.pending pending_self
      + (count_reason s.pending pending_other
          + (count_reason s.pending pending_untagged + count_reason s.pending pending_unknown))
    ≡ length s.pending

-- No hostname stands twice, the gauges are published for the map, and their counts add up.
pub record IsCounted (env : Env) (s s' : State) : Type 0 where
  pub once : NodupKeys s'.pending
  pub published : IsPublished env s s'
  pub adds_up : AddsUp s'

count_reason_sum :
    (m : Assoc Reason)
    → count_reason m pending_self
        + (count_reason m pending_other
            + (count_reason m pending_untagged + count_reason m pending_unknown))
      ≡ length m
unfolding count_reason same_reason
count_reason_sum [] = omega arith
count_reason_sum ((host, pending_self) ∷ m) = omega (arith, count_reason_sum m)
count_reason_sum ((host, pending_other) ∷ m) = omega (arith, count_reason_sum m)
count_reason_sum ((host, pending_untagged) ∷ m) = omega (arith, count_reason_sum m)
count_reason_sum ((host, pending_unknown) ∷ m) = omega (arith, count_reason_sum m)

module _ (keep : Text → Bool) where
  lookup-keep_only :
      (k : Text) (m : Assoc Reason) → lookup k m ≡ none → lookup k (keep_only keep m) ≡ none
  unfolding lookup keep_only
  lookup-keep_only k [] h = refl
  lookup-keep_only k ((j, r) ∷ m) h = elim (Bool-cases (j == k)) [
    | inl same ↦ cc (rw same at h)
    | inr other ↦
        let rest = lookup-keep_only k m (rw other at h) in
        elim (Bool-cases (keep j)) [ inl e ↦ rw (e, other) rest | inr e ↦ rw e rest ]
  ]

  keep_only-NodupKeys : (m : Assoc Reason) → NodupKeys m → NodupKeys (keep_only keep m)
  unfolding keep_only
  keep_only-NodupKeys [] _ = tt
  keep_only-NodupKeys ((j, r) ∷ m) (fresh, u) = elim (Bool-cases (keep j)) [
    | inl e ↦ rw e (lookup-keep_only j m fresh, keep_only-NodupKeys m u)
    | inr e ↦ rw e (keep_only-NodupKeys m u)
  ]

  keep_only_all : (m : Assoc Reason) → drops keep m ≡ false → keep_only keep m ≡ m
  unfolding keep_only drops
  keep_only_all [] h = refl
  keep_only_all ((j, r) ∷ m) h = elim (Bool-cases (keep j)) [
    | inl e ↦ rw e (ap (λ rest. (j, r) ∷ rest) (keep_only_all m (rw e at h)))
    | inr e ↦ cc (rw e at h)
  ]

module _ (env : Env) (s : State) (once : NodupKeys s.pending) where
  set_pending-IsCounted :
      (host : Text) (reason : Reason) → IsCounted env s (set_pending env host reason s).1
  unfolding set_pending publish_pending ◌>>=◌ get modify emit
  set_pending-IsCounted host reason = record {
    once = insert-NodupKeys host reason s.pending once;
    published = inr refl;
    adds_up = count_reason_sum (insert host reason s.pending);
  }

  clear_pending-IsCounted : (host : Text) → IsCounted env s (clear_pending env host s).1
  unfolding clear_pending publish_pending ◌>>=◌ get emit
  clear_pending-IsCounted host = elim (Option-cases (lookup host s.pending)) [
    | inl e ↦
        rw (clear_pending, e)
          (record {
            once = once;
            published = inl (refl, refl);
            adds_up = count_reason_sum s.pending;
          })
    | inr (r, e) ↦
        rw (clear_pending, e)
          (record {
            once = erase-NodupKeys host s.pending once;
            published = inr refl;
            adds_up = count_reason_sum (erase host s.pending);
          })
  ]

  retain_pending-IsCounted : (keep : Text → Bool) → IsCounted env s (retain_pending env keep s).1
  unfolding retain_pending publish_pending ◌>>=◌ get emit
  retain_pending-IsCounted keep = elim (Bool-cases (drops keep s.pending)) [
    | inl e ↦ rw e (record {
      once = keep_only-NodupKeys keep s.pending once;
      published = inr refl;
      adds_up = count_reason_sum (keep_only keep s.pending);
    })
    | inr e ↦ rw e (record {
      once = keep_only-NodupKeys keep s.pending once;
      published = inl (keep_only_all keep s.pending e, refl);
      adds_up = count_reason_sum (keep_only keep s.pending);
    })
  ]

  -- If no hostname stands twice in the map of the pending ones, then after each of the three
  -- methods none does, the gauges have been published for the map unless both are as they were, and
  -- the counts of the four reasons add up to the number of the hostnames.
  pub pending-IsCounted :
      ((host : Text) (reason : Reason) → IsCounted env s (set_pending env host reason s).1)
      × ((host : Text) → IsCounted env s (clear_pending env host s).1)
      × ((keep : Text → Bool) → IsCounted env s (retain_pending env keep s).1)
  pending-IsCounted = (set_pending-IsCounted, clear_pending-IsCounted, retain_pending-IsCounted)
