-- ===== src/Provider/FragmentFirst/Apply.antt =====
-- `ApplyChanges` of internal/provider/provider.go: the order of its two halves
use external_dns_cloudflare.Prelude.{
  ◌&&◌, refl, Text, Assoc, List, Result, Bool, ok, err, some, true, false, [], ◌∷◌, ◌≡◌,
  if◌then◌else◌,
}
use external_dns_cloudflare.Errors.{Error}
use external_dns_cloudflare.Cloudflare.{HostnameRoute}
use external_dns_cloudflare.Provider.State.{
  Env, Changes, State, History, FragmentWriter, M, ◌>>=◌, pure, list_routes,
}
use external_dns_cloudflare.Provider.Records.{is_eligible}
use external_dns_cloudflare.Provider.CoreDns.{apply_coredns}
use external_dns_cloudflare.Provider.Apply.{
  is_nil, index_needed, adoption_needed, mutate, write_then_mutate, apply_planned, apply_changes,
}
use external_dns_cloudflare.Provider.Justified.Lists.{IsIndex, GivesIndex}
use external_dns_cloudflare.Provider.Justified.Apply.{
  Adoptions, index_needed-GivesIndex, adoption_needed-Adoptions, mutate-Keeps,
}
use external_dns_cloudflare.Provider.FragmentFirst.{
  FragmentFirst, Ordered, Changing, Unstarted, Made, Made-step, Made-mono, Unmutated-Ordered,
  Mutating, Mutating-step, Fresh,
}
use external_dns_cloudflare.Provider.FragmentFirst.Fragment.{Answered, fragment-Settles}

module _ (env : Env) (w : FragmentWriter) (before : History) where
  Fresh-list : (tid : Text) (h : History) → Fresh w before h → Fresh w before (list_routes tid ∷ h)
  Fresh-list tid h =
      Made-step (Unstarted w before) (Unstarted w before) before (list_routes tid) h
        λ made (u, q). ((refl, u), q)

  Fresh-FragmentFirst : (h : History) → Fresh w before h → FragmentFirst w before h
  Fresh-FragmentFirst h =
      Made-mono (Unstarted w before) (Ordered w before) before h
        λ made (u, q). Unmutated-Ordered w before made u

  Fresh-Mutating : (h : History) → Fresh w before h → Mutating w before h
  Fresh-Mutating h =
      Made-mono (Unstarted w before) (Changing w before) before h
        λ made (u, q). (q, Unmutated-Ordered w before made u)

  Mutating-FragmentFirst : (h : History) → Mutating w before h → FragmentFirst w before h
  Mutating-FragmentFirst h =
      Made-mono (Changing w before) (Ordered w before) before h λ made (q, f). f

  module _ (changes : Changes) (configured : env.coredns ≡ some w) where
    module _ (index existing : Assoc HostnameRoute) (good : IsIndex env (is_eligible env) index)
        (live : Adoptions env (ok existing)) where
      mutate-FragmentFirst :
          (skipped : Assoc Error) (s : State)
          → Fresh w before s.calls
          → FragmentFirst w before (mutate env changes index existing skipped s).1.calls
      mutate-FragmentFirst skipped s q =
          let kept =
            mutate-Keeps env changes (Mutating w before)
              (λ c other why. Mutating-step w before c other) index existing skipped good live in
          Mutating-FragmentFirst (mutate env changes index existing skipped s).1.calls
            (kept.calls s (Fresh-Mutating s.calls q))

      after_fragment :
          (answer : Result Error (Assoc Error)) (s : State)
          → Made (Answered w before answer) before s.calls
          → FragmentFirst w before
              ((elim answer as (λ _. M (List Error)) [
                | err e ↦ pure (e ∷ [])
                | ok skipped ↦ mutate env changes index existing skipped
              ])
                s).1.calls
      unfolding pure
      after_fragment (err e) s q =
          Made-mono (Answered {A = Assoc Error} w before (err e)) (Ordered w before) before s.calls
            (λ made (u, written). Unmutated-Ordered w before made u) q
      after_fragment (ok skipped) s q = mutate-FragmentFirst skipped s (
          Made-mono (Answered w before (ok skipped)) (Unstarted w before) before s.calls
            (λ made (u, written). (u, written skipped refl)) q)

      write_then_mutate-FragmentFirst :
          (s : State)
          → Fresh w before s.calls
          → FragmentFirst w before (write_then_mutate env changes index existing s).1.calls
      unfolding write_then_mutate ◌>>=◌
      write_then_mutate-FragmentFirst s q =
          let fragment = apply_coredns env changes.create changes.deletes s in
          after_fragment fragment.0 fragment.1
            (fragment-Settles env w before changes.create changes.deletes configured s q)

    after-Adoptions :
        (index : Assoc HostnameRoute)
        → IsIndex env (is_eligible env) index
        → (answer : Result Error (Assoc HostnameRoute)) (s : State) → Fresh w before s.calls
        → Adoptions env answer
        → FragmentFirst w before
            ((elim answer as (λ _. M (List Error)) [
              | err e ↦ pure (e ∷ [])
              | ok existing ↦ write_then_mutate env changes index existing
            ])
              s).1.calls
    unfolding pure
    after-Adoptions index good (err e) s q live = Fresh-FragmentFirst s.calls q
    after-Adoptions index good (ok existing) s q live =
        write_then_mutate-FragmentFirst index existing good live s q

    after_index :
        (answer : Result Error (Assoc HostnameRoute)) (s : State)
        → Fresh w before s.calls
        → GivesIndex env (is_eligible env) answer
        → FragmentFirst w before
            ((elim answer as (λ _. M (List Error)) [
              | err e ↦ pure (e ∷ [])
              | ok index ↦ (do
                existing ← adoption_needed env changes
                elim existing [
                  | err e ↦ pure (e ∷ [])
                  | ok existing ↦ write_then_mutate env changes index existing
                ])
            ])
              s).1.calls
    unfolding ◌>>=◌
    after_index (err e) s q good = Fresh-FragmentFirst s.calls q
    after_index (ok index) s q good =
        let adoptions = adoption_needed-Adoptions env changes (Fresh w before) Fresh-list in
        after-Adoptions index (good index refl) (adoption_needed env changes s).0
          (adoption_needed env changes s).1 (adoptions.calls s q) (adoptions.result s q)

    planned-FragmentFirst :
        (s : State)
        → Fresh w before s.calls
        → FragmentFirst w before (apply_planned env changes s).1.calls
    unfolding apply_planned ◌>>=◌
    planned-FragmentFirst s q =
        let indexed = index_needed-GivesIndex env changes (Fresh w before) Fresh-list in
        after_index (index_needed env changes s).0 (index_needed env changes s).1
          (indexed.calls s q) (indexed.result s q)

either_way :
    (P : History → Type 0) (b : Bool) (s : State) (m n : M (List Error))
    → P (m s).1.calls
    → P (n s).1.calls
    → P ((if b then m else n) s).1.calls
either_way P true s m n qm qn = qm
either_way P false s m n qm qn = qn

module _ (env : Env) (w : FragmentWriter) (changes : Changes)
    (configured : env.coredns ≡ some w) where
  -- Where a fragment writer is configured, of the calls that `ApplyChanges` makes, whatever was
  -- called before: when one changes a route, every write of the fragment among the earlier ones had
  -- succeeded; when one writes the fragment, no earlier one changes a route.
  pub apply_changes-FragmentFirst :
      (s : State) → FragmentFirst w s.calls (apply_changes env changes s).1.calls
  unfolding apply_changes ◌>>=◌
  apply_changes-FragmentFirst s =
      let none_yet : Fresh w s.calls s.calls = ([], refl, (tt, tt)) in
      either_way (FragmentFirst w s.calls)
        (is_nil changes.create && (is_nil changes.deletes && is_nil changes.update_new)) s _ _
        (Fresh-FragmentFirst env w s.calls s.calls none_yet)
        (planned-FragmentFirst env w s.calls changes configured s none_yet)
