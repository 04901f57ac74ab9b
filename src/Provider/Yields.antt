-- ===== src/Provider/Yields.antt =====
-- What an action keeps true of the calls, and what it returns: one rule for each way to build an
-- action.
use external_dns_cloudflare.Prelude.{
  All-append, append_assoc, ◌∙◌, All-mono, ap, some, ok, none, err, Option, Result, sym, refl, [],
  if◌then◌else◌, ◌++◌, false, All, true, Bool, ◌∷◌, List, ◌≡◌,
}
use mathlib.Core.Path.{subst}
use external_dns_cloudflare.Errors.{Error}
use external_dns_cloudflare.Metrics.{Update}
use external_dns_cloudflare.Provider.State.{
  State, History, Call, M, ◌>>=◌, ◌>>◌, pure, get, perform, emit, each,
}

-- Run where `Q` holds of the calls, `m` leaves calls of which `Q` holds, and returns an `R`.
pub record Yields {A : Type 0} (Q : History → Type 0) (R : A → Type 0) (m : M A) : Type 0 where
  pub calls : (s : State) → Q s.calls → Q (m s).1.calls
  pub result : (s : State) → Q s.calls → R (m s).0

-- Of the result nothing is said.
abbrev pub AnyResult : {A : Type 0} → A → Type 0
AnyResult a = Unit {0}

abbrev pub Keeps : {A : Type 0} → (History → Type 0) → M A → Type 0
Keeps Q m = Yields Q AnyResult m

-- The calls are those of `before`, and then some of which `P` holds.
abbrev pub Since : (Call → Type 0) → History → History → Type 0
Since P before h = (made : List Call) × (h ≡ made ++ before) × All P made

pub Since-none : (P : Call → Type 0) (before : History) → Since P before before
Since-none P before = ([], refl, tt)

pub Since-step :
    (P : Call → Type 0) (before : History) (c : Call) (h : History)
    → P c
    → Since P before h
    → Since P before (c ∷ h)
Since-step P before c h why (made, e, all) = (c ∷ made, ap (λ rest. c ∷ rest) e, (why, all))

pub Since-mono :
    (P R : Call → Type 0) (before h : History)
    → ((c : Call) → P c → R c)
    → Since P before h
    → Since R before h
Since-mono P R before h imp (made, e, all) = (made, e, All-mono P R made imp all)

pub Since-trans :
    (P : Call → Type 0) (before h later : History)
    → Since P before h
    → Since P h later
    → Since P before later
Since-trans P before h later (made, e, all) (more, e', all') = (
  more ++ made,
  e' ∙ ap (λ rest. more ++ rest) e ∙ sym (append_assoc more made before),
  All-append P more made all' all,
)

module _ (Q : History → Type 0) where
  pub Yields-pure : {A : Type 0} (R : A → Type 0) (a : A) → R a → Yields Q R (pure a)
  unfolding pure
  Yields-pure R a r = record { calls = λ s q. q; result = λ s q. r }

  pub Keeps-pure : {A : Type 0} (a : A) → Keeps Q (pure a)
  Keeps-pure a = Yields-pure AnyResult a tt

  -- An action that makes no call
  pub Keeps-silent : {A : Type 0} (m : M A) → ((s : State) → (m s).1.calls ≡ s.calls) → Keeps Q m
  Keeps-silent m same = record { calls = λ s q. subst Q (sym (same s)) q; result = λ s q. tt }

  pub Keeps-emit : (us : List Update) → Keeps Q (emit us)
  unfolding emit
  Keeps-emit us = record { calls = λ s q. q; result = λ s q. tt }

  pub Keeps-get : Keeps Q get
  unfolding get
  Keeps-get = record { calls = λ s q. q; result = λ s q. tt }

  pub Yields-perform :
      {A : Type 0} (R : A → Type 0) (c : Call) (answer : History → A)
      → ((h : History) → Q h → Q (c ∷ h))
      → ((h : History) → R (answer h))
      → Yields Q R (perform c answer)
  unfolding perform
  Yields-perform R c answer step r = record {
    calls = λ s q. step s.calls q;
    result = λ s q. r s.calls;
  }

  pub Keeps-perform :
      {A : Type 0} (c : Call) (answer : History → A)
      → ((h : History) → Q h → Q (c ∷ h))
      → Keeps Q (perform c answer)
  Keeps-perform c answer step = Yields-perform AnyResult c answer step (λ h. tt)

  pub Yields-bind :
      {A B : Type 0} {R : A → Type 0} (S : B → Type 0) (m : M A) (f : A → M B)
      → Yields Q R m
      → ((a : A) → R a → Yields Q S (f a))
      → Yields Q S (m >>= f)
  unfolding ◌>>=◌
  Yields-bind S m f ym yf = record {
    calls = λ s q. (yf (m s).0 (ym.result s q)).calls (m s).1 (ym.calls s q);
    result = λ s q. (yf (m s).0 (ym.result s q)).result (m s).1 (ym.calls s q);
  }

  -- Where nothing is said of the first result
  pub Keeps-bind :
      {A B : Type 0} (S : B → Type 0) (m : M A) (f : A → M B)
      → Keeps Q m
      → ((a : A) → Yields Q S (f a))
      → Yields Q S (m >>= f)
  Keeps-bind S m f ym yf = Yields-bind S m f ym (λ a _. yf a)

  pub Yields-if :
      {A : Type 0} (R : A → Type 0) (b : Bool) (m n : M A)
      → (b ≡ true → Yields Q R m)
      → (b ≡ false → Yields Q R n)
      → Yields Q R (if b then m else n)
  Yields-if R true m n ym yn = ym refl
  Yields-if R false m n ym yn = yn refl

  pub Yields-result :
      {E A B : Type 0} (R : B → Type 0) (r : Result E A) (f : E → M B) (g : A → M B)
      → ((e : E) → r ≡ err e → Yields Q R (f e))
      → ((a : A) → r ≡ ok a → Yields Q R (g a))
      → Yields Q R (elim r [ err e ↦ f e | ok a ↦ g a ])
  Yields-result R (err e) f g yf yg = yf e refl
  Yields-result R (ok a) f g yf yg = yg a refl

  -- An answer that is counted and then looked at
  pub Keeps-answer :
      {E A B : Type 0} (us : List Update) (r : Result E A) (f : E → M B) (g : A → M B)
      → ((e : E) → Keeps Q (f e))
      → ((a : A) → Keeps Q (g a))
      → Keeps Q (emit us >> elim r [ err e ↦ f e | ok a ↦ g a ])
  Keeps-answer us r f g yf yg =
      Keeps-bind AnyResult (emit us) _ (Keeps-emit us)
        λ _. Yields-result AnyResult r f g (λ e _. yf e) (λ a _. yg a)

  pub Yields-option :
      {A B : Type 0} (R : B → Type 0) (o : Option A) (m : M B) (g : A → M B)
      → (o ≡ none → Yields Q R m)
      → ((a : A) → o ≡ some a → Yields Q R (g a))
      → Yields Q R (elim o [ none ↦ m | some a ↦ g a ])
  Yields-option R none m g ym yg = ym refl
  Yields-option R (some a) m g ym yg = yg a refl

  pub Keeps-each :
      {A : Type 0} (f : A → M (List Error)) (xs : List A)
      → All (λ x. Keeps Q (f x)) xs
      → Keeps Q (each f xs)
  unfolding each
  Keeps-each f [] _ = Keeps-pure []
  Keeps-each f (x ∷ xs) (y, ys) = Keeps-bind AnyResult (f x) _ y λ errs.
      Keeps-bind AnyResult (each f xs) _ (Keeps-each f xs ys) λ more. Keeps-pure (errs ++ more)

pub ruleset keeps_rules =
    (Keeps-pure, Keeps-emit, Keeps-get, Keeps-bind, Yields-if, Yields-result, Yields-option)
