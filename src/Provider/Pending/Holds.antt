-- ===== src/Provider/Pending/Holds.antt =====
-- What an action of internal/provider/provider.go keeps true of the pending hostnames and of the
-- hosts that `Records` has kept, and what it returns: one rule for each way to build an action.
use external_dns_cloudflare.Prelude.{
  Text, ◌∙◌, sym, some, ok, none, err, Option, Result, refl, [], if◌then◌else◌, ◌++◌, false, true,
  Bool, ◌∷◌, List, ◌≡◌, Assoc,
}
use external_dns_cloudflare.Errors.{Error}
use external_dns_cloudflare.Metrics.{Update, Reason}
use external_dns_cloudflare.Provider.State.{
  State, History, Call, M, ◌>>=◌, ◌>>◌, pure, get, perform, emit, each,
}

-- The pending hostnames, and the hosts that the last `Records` has kept
abbrev pub Memory : Type 0
Memory = Assoc Reason × List Text

abbrev pub memory : State → Memory
memory s = (s.pending, s.owned_hosts)

-- Run where `P` holds of the memory, `m` leaves one of which `P` holds, and returns an `R`.
pub record Holds (P : Memory → Type 0) {A : Type 0} (R : A → Type 0) (m : M A) : Type 0 where
  pub kept : (s : State) → P (memory s) → P (memory (m s).1)
  pub result : (s : State) → P (memory s) → R (m s).0

-- Of the result nothing is said.
abbrev pub Any : {A : Type 0} → A → Type 0
Any a = Unit {0}

module _ (P : Memory → Type 0) where
  pub Holds-pure : {A : Type 0} (R : A → Type 0) (a : A) → R a → Holds P R (pure a)
  unfolding pure
  Holds-pure R a r = record { kept = λ s p. p; result = λ s p. r }

  pub Holds-done : {A : Type 0} (a : A) → Holds P Any (pure a)
  Holds-done a = Holds-pure Any a tt

  pub Holds-emit : (us : List Update) → Holds P Any (emit us)
  unfolding emit
  Holds-emit us = record { kept = λ s p. p; result = λ s p. tt }

  pub Holds-get : Holds P Any get
  unfolding get
  Holds-get = record { kept = λ s p. p; result = λ s p. tt }

  -- A call, of whose answer it is known when it was given
  pub Holds-perform :
      {A : Type 0} (c : Call) (answer : History → A)
      → Holds P (λ a. (h : History) × (a ≡ answer h)) (perform c answer)
  unfolding perform
  Holds-perform c answer = record { kept = λ s p. p; result = λ s p. (s.calls, refl) }

  pub Holds-bind :
      {A B : Type 0} {R : A → Type 0} (S : B → Type 0) (m : M A) (f : A → M B)
      → Holds P R m
      → ((a : A) → R a → Holds P S (f a))
      → Holds P S (m >>= f)
  unfolding ◌>>=◌
  Holds-bind S m f hm hf = record {
    kept = λ s p. (hf (m s).0 (hm.result s p)).kept (m s).1 (hm.kept s p);
    result = λ s p. (hf (m s).0 (hm.result s p)).result (m s).1 (hm.kept s p);
  }

  pub Holds-if :
      {A : Type 0} (R : A → Type 0) (b : Bool) (m n : M A)
      → (b ≡ true → Holds P R m)
      → (b ≡ false → Holds P R n)
      → Holds P R (if b then m else n)
  Holds-if R true m n hm hn = hm refl
  Holds-if R false m n hm hn = hn refl

  pub Holds-result :
      {E A B : Type 0} (R : B → Type 0) (r : Result E A) (f : E → M B) (g : A → M B)
      → ((e : E) → r ≡ err e → Holds P R (f e))
      → ((a : A) → r ≡ ok a → Holds P R (g a))
      → Holds P R (elim r [ err e ↦ f e | ok a ↦ g a ])
  Holds-result R (err e) f g hf hg = hf e refl
  Holds-result R (ok a) f g hf hg = hg a refl

  pub Holds-option :
      {A B : Type 0} (R : B → Type 0) (o : Option A) (m : M B) (g : A → M B)
      → (o ≡ none → Holds P R m)
      → ((a : A) → o ≡ some a → Holds P R (g a))
      → Holds P R (elim o [ none ↦ m | some a ↦ g a ])
  Holds-option R none m g hm hg = hm refl
  Holds-option R (some a) m g hm hg = hg a refl

  -- An update of the metrics, and then a result
  pub Holds-counted :
      {A : Type 0} (R : A → Type 0) (us : List Update) (a : A) → R a → Holds P R (emit us >> pure a)
  Holds-counted R us a r = Holds-bind R (emit us) _ (Holds-emit us) λ _ _. Holds-pure R a r

  -- A call whose answer is counted and looked at
  pub Holds-answered :
      {E A B : Type 0} (R : B → Type 0) (c : Call) (answer : History → Result E A)
      (us : Result E A → List Update) (f : E → M B) (g : A → M B)
      → ((e : E) (h : History) → answer h ≡ err e → Holds P R (f e))
      → ((a : A) (h : History) → answer h ≡ ok a → Holds P R (g a))
      → Holds P R (perform c answer >>= λ r. emit (us r) >> elim r [ err e ↦ f e | ok a ↦ g a ])
  Holds-answered R c answer us f g hf hg =
      Holds-bind R (perform c answer) _ (Holds-perform c answer) λ r (h, known).
        Holds-bind R (emit (us r)) _ (Holds-emit (us r)) λ _ _.
          Holds-result R r f g (λ e same. hf e h (sym known ∙ same))
            (λ a same. hg a h (sym known ∙ same))

  pub Holds-each :
      {A : Type 0} (f : A → M (List Error)) (xs : List A)
      → ((x : A) → Holds P Any (f x))
      → Holds P Any (each f xs)
  unfolding each
  Holds-each f [] h = Holds-done []
  Holds-each f (x ∷ xs) h =
      Holds-bind Any (f x) _ (h x) λ errs _.
        Holds-bind Any (each f xs) _ (Holds-each f xs h) λ more _. Holds-done (errs ++ more)
