-- ===== src/CoreDns/Delta.antt =====
-- `Apply` of internal/coredns/fragment.go: what the key holds afterwards, and that a second call
-- writes nothing.
use external_dns_cloudflare.Prelude.{
  sym, Bool-cases, Result, ◌⊎◌, refl, ◌||◌, ◌==◌, lookup-insert, lookup-erase, ap, insert, erase,
  to_lower, inr, inl, false, true, err, ◌∷◌, [], ◌∙◌, if◌then◌else◌, ok, ◌≢◌, arith, Bool, ◌≡◌,
  All-mono, lookup, some, List, none, Assoc, Option, Text,
}
use mathlib.Core.Path.{subst}
use external_dns_cloudflare.Errors.{Error}
use external_dns_cloudflare.CoreDns.{
  Fragment, ConfigMapApi, Found, found, not_found, failed, read, write, apply_delta, parse_rewrites,
  value_or_empty, render, same_rewrites, remove_all, add_all, desired_rewrites, load, apply,
}
use external_dns_cloudflare.CoreDns.RoundTrip.{IsRewrite, parse_rewrites-render}
use external_dns_cloudflare.CoreDns.Same.{HasValues, same_rewrites_iff}
use external_dns_cloudflare.CoreDns.Valid.{
  IsFragment, AreWords, empty-IsFragment, parse_rewrites-IsFragment, remove_all-IsFragment,
  add_all-IsFragment,
}

-- The last target that the list adds for the host, in whatever case it is written
abbrev pub added : Text → Assoc Text → Option Text
added j [] = none
added j ((h, t) ∷ more) = elim (added j more) [
  | some later ↦ some later
  | none ↦ if to_lower h == j then some t else none
]

-- The host is in the list of removals, in whatever case it is written.
abbrev pub removed : Text → List Text → Bool
removed j [] = false
removed j (h ∷ hosts) = to_lower h == j || removed j hosts

abbrev pub or_else : Option Text → Option Text → Option Text
or_else none o = o
or_else (some t) o = some t

-- What a host is to have after the additions and the removals
abbrev pub merged : Assoc Text → List Text → Text → Option Text → Option Text
merged add remove j old = or_else (added j add) (if removed j remove then none else old)

lookup-remove_all :
    (j : Text) (hosts : List Text) (m : Assoc Text)
    → lookup j (remove_all hosts m) ≡ (if removed j hosts then none else lookup j m)
unfolding remove_all
lookup-remove_all j [] m = refl
lookup-remove_all j (h ∷ hosts) m =
    lookup-remove_all j hosts (erase (to_lower h) m) ∙ rw lookup-erase (ground arith)

lookup-add_all :
    (j : Text) (more m : Assoc Text)
    → lookup j (add_all more m) ≡ or_else (added j more) (lookup j m)
unfolding add_all
lookup-add_all j [] m = refl
lookup-add_all j ((h, t) ∷ more) m =
    lookup-add_all j more (insert (to_lower h) t m) ∙ rw lookup-insert (ground arith)

lookup-desired_rewrites :
    (j : Text) (current add : Assoc Text) (remove : List Text)
    → lookup j (desired_rewrites current add remove) ≡ merged add remove j (lookup j current)
unfolding desired_rewrites
lookup-desired_rewrites j current add remove =
    lookup-add_all j add (remove_all remove current)
    ∙ ap (or_else (added j add)) (lookup-remove_all j remove current)

merged_idem :
    (add : Assoc Text) (remove : List Text) (j : Text) (old : Option Text)
    → merged add remove j (merged add remove j old) ≡ merged add remove j old
merged_idem add remove j old = ground arith

desired_rewrites-IsFragment :
    (current add : Assoc Text) (remove : List Text)
    → IsFragment current
    → AreWords add
    → IsFragment (desired_rewrites current add remove)
unfolding desired_rewrites
desired_rewrites-IsFragment current add remove f w =
    add_all-IsFragment add _ w (remove_all-IsFragment remove current f)

IsFragment-HasValues : (m : Assoc Text) → IsFragment m → HasValues m
IsFragment-HasValues m f =
    All-mono IsRewrite (λ (p : Text × Text). p.1 ≢ []) m (λ p r. r.2.1) f.rewrites

-- What the program relies on of a server-side apply: what was applied is read back.
pub record ReadsBack (k8s : ConfigMapApi) : Type 0 where
  pub reads :
      (c c' : k8s.Cluster) (name manager key value : Text)
      → k8s.apply_key c name manager key value ≡ (ok tt, c')
      → (contents : Assoc Text) × (k8s.get_map c' name ≡ found contents)
        × (lookup key contents ≡ some value)

module _ (f : Fragment) (k8s : ConfigMapApi) where
  read-IsFragment :
      (answer : Found) (current : Assoc Text) → read f k8s answer ≡ ok current → IsFragment current
  unfolding read
  read-IsFragment not_found current h =
      let e : [] ≡ current = ground arith in subst IsFragment e empty-IsFragment
  read-IsFragment (failed x) current h = cc
  read-IsFragment (found contents) current h =
      let text = value_or_empty (lookup f.key contents) in
      let e : parse_rewrites text ≡ current = ground arith in
      subst IsFragment e (parse_rewrites-IsFragment text)

  load-IsFragment :
      (c : k8s.Cluster) (current : Assoc Text) → load f k8s c ≡ ok current → IsFragment current
  unfolding load
  load-IsFragment c current h = read-IsFragment (k8s.get_map c f.name) current h

  -- What a call of `Apply` that succeeds did: nothing, since the key holds what it is to hold, or
  -- one write of the rendered rewrites.
  abbrev Outcome : k8s.Cluster → k8s.Cluster → Assoc Text → Assoc Text → Type 0
  Outcome c c' current desired =
      ((same_rewrites current desired ≡ true) × (c ≡ c'))
      ⊎ ((same_rewrites current desired ≡ false)
          × (k8s.apply_key c f.name f.field_manager f.key (render desired) ≡ (ok tt, c')))

  write-Outcome :
      (c c' : k8s.Cluster) (desired after : Assoc Text) (w : Result Error (Unit {0}) × k8s.Cluster)
      → write f k8s c desired w ≡ (ok after, c')
      → (w ≡ (ok tt, c')) × (desired ≡ after)
  unfolding write
  write-Outcome c c' desired after (err e, d) h =
      let e : ◌≡◌ {A = Result Error (Assoc Text)} (err _) (ok after) = ap (λ q. q.0) h in cc
  write-Outcome c c' desired after (ok u, d) h =
      let e : ◌≡◌ {A = Result Error (Assoc Text)} (ok desired) (ok after) = ap (λ q. q.0) h in
      (ap {B = Result Error (Unit {0}) × k8s.Cluster} (λ q. (ok tt, q.1)) h, cc)

  delta-Outcome :
      (c c' : k8s.Cluster) (current desired after : Assoc Text)
      → apply_delta f k8s c current desired ≡ (ok after, c')
      → Outcome c c' current desired × (desired ≡ after)
  unfolding apply_delta
  delta-Outcome c c' current desired after h = elim (Bool-cases (same_rewrites current desired)) [
    | inl same ↦
        let h' : ◌≡◌ {A = Result Error (Assoc Text) × k8s.Cluster} (ok desired, c) (ok after, c') =
          rw same at h in
        let e : ◌≡◌ {A = Result Error (Assoc Text)} (ok desired) (ok after) = ap (λ q. q.0) h' in
        (inl (same, ap (λ q. q.1) h'), cc)
    | inr differ ↦
        let w = write-Outcome c c' desired after _ (rw differ at h) in (inr (differ, w.0), w.1)
  ]

  apply-Outcome :
      (c c' : k8s.Cluster) (current add after : Assoc Text) (remove : List Text)
      → load f k8s c ≡ ok current
      → apply f k8s c add remove ≡ (ok after, c')
      → Outcome c c' current (desired_rewrites current add remove)
        × (desired_rewrites current add remove ≡ after)
  unfolding apply
  apply-Outcome c c' current add after remove at h =
      delta-Outcome c c' current (desired_rewrites current add remove) after (rw (at, apply) at h)

  load_after :
      (c c' : k8s.Cluster) (desired : Assoc Text)
      → ReadsBack k8s
      → k8s.apply_key c f.name f.field_manager f.key (render desired) ≡ (ok tt, c')
      → load f k8s c' ≡ ok (parse_rewrites (render desired))
  unfolding load read value_or_empty
  load_after c c' desired laws h =
      let back = laws.reads c c' f.name f.field_manager f.key (render desired) h in
      rw (back.1, back.2)

  module _ (c c' : k8s.Cluster) (current add after : Assoc Text) (remove : List Text)
      (laws : ReadsBack k8s) (words : AreWords add) (before : load f k8s c ≡ ok current)
      (done : apply f k8s c add remove ≡ (ok after, c')) where
    -- After a call of `Apply` that succeeds, the key holds for each host the target that was added
    -- last, none if the host was only removed, and else what it held before. So does the returned
    -- map. Added hosts and targets are words, and the cluster reads back what it applied.
    pub load-apply :
        (now : Assoc Text) × (load f k8s c' ≡ ok now)
        × ((j : Text) → lookup j now ≡ merged add remove j (lookup j current))
        × ((j : Text) → lookup j after ≡ merged add remove j (lookup j current))
    load-apply =
        let desired = desired_rewrites current add remove in
        let valid = load-IsFragment c current before in
        let valid' = desired_rewrites-IsFragment current add remove valid words in
        let out = apply-Outcome c c' current add after remove before done in
        let returned : (j : Text) → lookup j after ≡ merged add remove j (lookup j current) =
          λ j. ap (lookup j) (sym out.1) ∙ lookup-desired_rewrites j current add remove in
        elim out.0 [
          | inl (same, e) ↦ (
            current,
            subst (λ d. load f k8s d ≡ ok current) e before,
            (λ j.
                (same_rewrites_iff current desired valid.nodup valid'.nodup
                    (IsFragment-HasValues current valid)).0
                  same j
                ∙ lookup-desired_rewrites j current add remove),
            returned,
          )
          | inr (differ, w) ↦ (
            parse_rewrites (render desired),
            load_after c c' desired laws w,
            (λ j.
                parse_rewrites-render desired j valid'.rewrites
                ∙ lookup-desired_rewrites j current add remove),
            returned,
          )
        ]

    -- After a call of `Apply` that succeeds, the same call again succeeds and leaves the cluster as
    -- it is. Added hosts and targets are words, and the cluster reads back what it applied.
    pub apply-idempotent : (again : Assoc Text) × (apply f k8s c' add remove ≡ (ok again, c'))
    apply-idempotent =
        let first = load-apply in
        let now = first.0 in
        let desired = desired_rewrites now add remove in
        let valid = load-IsFragment c' now first.1 in
        let agree : (j : Text) → lookup j now ≡ lookup j desired = λ j.
          first.2 j
          ∙ sym (merged_idem add remove j (lookup j current))
          ∙ ap (merged add remove j) (sym (first.2 j))
          ∙ sym (lookup-desired_rewrites j now add remove) in
        let same =
          (same_rewrites_iff now desired valid.nodup
              (desired_rewrites-IsFragment now add remove valid words).nodup
              (IsFragment-HasValues now valid)).1
            agree in
        (desired, unfold apply apply_delta in rw (first.1, apply, same))
