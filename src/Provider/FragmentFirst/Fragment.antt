-- ===== src/Provider/FragmentFirst/Fragment.antt =====
-- What a write of the CoreDNS fragment leaves behind for the rest of `ApplyChanges`
use external_dns_cloudflare.Prelude.{
  ap, ◌&&◌, Option, length, ◌∙◌, sym, refl, Text, Assoc, List, Result, Bool, ok, err, some, none,
  true, false, ◌∷◌, ◌≡◌, if◌then◌else◌,
}
use external_dns_cloudflare.Metrics.{Update, set_coredns_rewrites}
use mathlib.Core.Path.{subst}
use external_dns_cloudflare.Errors.{Error, Context, wrap}
use external_dns_cloudflare.Provider.State.{
  Env, Endpoint, State, Call, History, FragmentWriter, M, ◌>>=◌, ◌>>◌, pure, emit, fragment_apply,
}
use external_dns_cloudflare.Provider.CoreDns.{
  write_fragment, write_planned, apply_coredns, plan_rewrites, empty_rewrites, removals, is_empty,
}
use external_dns_cloudflare.Provider.FragmentFirst.{
  Unmutated, Written, Made, Made-mono, Unstarted, Fresh,
}

-- What holds once the fragment is written: no route is changed yet, and if there is a result, every
-- write succeeded.
abbrev pub Answered : {A : Type 0} → FragmentWriter → History → Result Error A → List Call → Type 0
Answered {A = A} w before r made = Unmutated made × ((a : A) → r ≡ ok a → Written w before made)

abbrev pub Settles : {A : Type 0} → FragmentWriter → History → M (Result Error A) → Type 0
Settles w before m =
    (s : State) → Fresh w before s.calls → Made (Answered w before (m s).0) before (m s).1.calls

Settles-if :
    {A : Type 0} (w : FragmentWriter) (before : History) (b : Bool) (m n : M (Result Error A))
    → Settles w before m
    → Settles w before n
    → Settles w before (if b then m else n)
Settles-if w before true m n sm sn = sm
Settles-if w before false m n sm sn = sn

Settles-option :
    {A : Type 0} (w : FragmentWriter) (before : History) (o : Option FragmentWriter)
    (m : M (Result Error A)) (g : FragmentWriter → M (Result Error A))
    → o ≡ some w
    → Settles w before (g w)
    → Settles w before (elim o [ none ↦ m | some v ↦ g v ])
Settles-option w before none m g configured sg = cc
Settles-option w before (some v) m g configured sg =
    let same : w ≡ v = cc in subst (λ u. Settles w before (g u)) same sg

-- Nothing is written.
Answered-untouched :
    {A : Type 0} (w : FragmentWriter) (before h : History) (r : Result Error A)
    → Fresh w before h
    → Made (Answered w before r) before h
Answered-untouched w before h r =
    Made-mono (Unstarted w before) (Answered w before r) before h λ made (u, q). (u, (λ a e. q))

module _ (env : Env) (w : FragmentWriter) (before : History) where
  settled :
      (s : State) (us : List (List Update)) (add : Assoc Text) (remove : List Text)
      (skipped : Assoc Error) (answer : Result Error (Assoc Text))
      → w.apply s.calls add remove ≡ answer
      → Fresh w before s.calls
      → let after : State = record s {
        calls = fragment_apply add remove ∷ s.calls;
        updates = us;
      } in
        let m : M (Result Error (Assoc Error)) = elim answer [
          | err e ↦ pure (err (wrap (Context.update_fragment w.key) e))
          | ok rewrites ↦ (do
            emit (set_coredns_rewrites env.metrics (length rewrites))
            pure (ok skipped))
        ] in
        Made (Answered w before (m after).0) before (m after).1.calls
  unfolding ◌>>=◌ pure emit
  settled s us add remove skipped (err e) known (made, h, (u, q)) = (
    fragment_apply add remove ∷ made,
    ap (λ rest. fragment_apply add remove ∷ rest) h,
    ((refl, u), (λ a is_ok. cc)),
  )
  settled s us add remove skipped (ok after) known (made, h, (u, q)) = (
    fragment_apply add remove ∷ made,
    ap (λ rest. fragment_apply add remove ∷ rest) h,
    ((refl, u), (λ a is_ok. ((after, ap (λ rest. w.apply rest add remove) (sym h) ∙ known), q))),
  )

  write_planned-Settles :
      (skipped : Assoc Error) (add : Assoc Text) (remove : List Text)
      → Settles w before (write_planned env w skipped add remove)
  unfolding write_planned write_fragment ◌>>=◌
  write_planned-Settles skipped add remove =
      Settles-if w before env.dry_run _ _ (λ s q. Answered-untouched w before s.calls _ q)
        λ s q. settled s _ add remove skipped (w.apply s.calls add remove) refl q

  pub fragment-Settles :
      (creates deletes : List Endpoint)
      → env.coredns ≡ some w
      → Settles w before (apply_coredns env creates deletes)
  unfolding apply_coredns pure
  fragment-Settles creates deletes configured =
      let planned = plan_rewrites env w creates empty_rewrites in
      let remove = removals env deletes in
      Settles-option w before env.coredns _ _ configured (
        Settles-if w before (is_empty planned.added && is_empty remove) _ _
          (λ s q. Answered-untouched w before s.calls _ q)
          (write_planned-Settles planned.skipped planned.added remove))
