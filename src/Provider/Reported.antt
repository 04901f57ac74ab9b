-- ===== src/Provider/Reported.antt =====
-- internal/provider/provider.go reports the calls that fail: the rules by which an action that
-- reports nothing leaves only calls that were accepted.
pub mod Existing
pub mod Creates
pub mod Apply
use external_dns_cloudflare.Prelude.{
  ◌∙◌, sym, ap, some, ok, none, err, Option, Result, refl, [], if◌then◌else◌, ◌++◌, false, true,
  Bool, ◌∷◌, List, ◌≡◌, succeeds, ◌||◌, Text, Assoc,
}
use external_dns_cloudflare.Errors.{Error, has_code}
use external_dns_cloudflare.Cloudflare.{HostnameRoute, err_code_hostname_already_routed}
use external_dns_cloudflare.Metrics.{Update}
use external_dns_cloudflare.Provider.State.{
  Env, State, History, Call, FragmentWriter, M, ◌>>=◌, ◌>>◌, pure, perform, emit, each, list_routes,
  create_route, patch_comment, patch_route, delete_route, fragment_load, fragment_apply,
}
use external_dns_cloudflare.Provider.Yields.{Keeps, Keeps-emit, Keeps-pure}

-- The answer to a create is a route, or that the hostname is already routed.
abbrev pub is_tolerated : Result Error HostnameRoute → Bool
is_tolerated (ok r) = true
is_tolerated (err e) = has_code e err_code_hostname_already_routed

abbrev pub is_written : Option FragmentWriter → History → Assoc Text → List Text → Bool
is_written none h add remove = false
is_written (some w) h add remove = succeeds (w.apply h add remove)

-- The call was not refused, when it was made after these. A create may be refused since the hostname
-- is already routed. Of a list of the whole account, which only explains such a refusal, nothing is
-- asked, and nothing of a read of the fragment, which `ApplyChanges` does not make.
abbrev pub is_accepted : Env → Call → History → Bool
is_accepted env (list_routes []) h = true
is_accepted env (list_routes (c ∷ tid)) h = succeeds (env.client.list_hostname_routes h (c ∷ tid))
is_accepted env (create_route host tid tag) h =
    is_tolerated (env.client.create_hostname_route h host tid tag)
is_accepted env (patch_comment id tag) h =
    succeeds (env.client.patch_hostname_route_comment h id tag)
is_accepted env (patch_route id p) h = succeeds (env.client.patch_hostname_route h id p)
is_accepted env (delete_route id) h = succeeds (env.client.delete_hostname_route h id)
is_accepted env fragment_load h = true
is_accepted env (fragment_apply add remove) h = is_written env.coredns h add remove

-- Every one of the calls was accepted, made after those of `before`.
abbrev pub AllAccepted : Env → History → List Call → Type 0
AllAccepted env before [] = Unit
AllAccepted env before (c ∷ made) =
    (is_accepted env c (made ++ before) ≡ true) × AllAccepted env before made

-- The calls are those of `before`, and then some that were accepted.
abbrev pub AcceptedSince : Env → History → History → Type 0
AcceptedSince env before h = (made : List Call) × (h ≡ made ++ before) × AllAccepted env before made

pub AcceptedSince-step :
    (env : Env) (before : History) (c : Call) (h : History)
    → is_accepted env c h ≡ true
    → AcceptedSince env before h
    → AcceptedSince env before (c ∷ h)
AcceptedSince-step env before c h good (made, e, all) =
    (c ∷ made, ap (λ rest. c ∷ rest) e, (sym (ap (is_accepted env c) e) ∙ good, all))

-- Nothing is reported.
abbrev pub IsNil : List Error → Type 0
IsNil errs = errs ≡ []

-- The answer is no error.
abbrev pub IsOk : {A : Type 0} → Result Error A → Type 0
IsOk answer = succeeds answer ≡ true

-- If the action ends with such a result, all calls have been accepted, if those before were.
pub record Reports (env : Env) (before : History) {A : Type 0} (S : A → Type 0) (m : M A)
    : Type 0 where
  pub accepted :
      (s : State)
      → AcceptedSince env before s.calls
      → S (m s).0
      → AcceptedSince env before (m s).1.calls

-- An error is not nothing.
pub failed : {P : Type 0} (e : Error) (s : State) → IsNil (pure (e ∷ []) s).0 → P
unfolding pure
failed e s h = cc

pub append_nil : (xs ys : List Error) → xs ++ ys ≡ [] → (xs ≡ []) × (ys ≡ [])
append_nil [] ys e = (refl, e)
append_nil (x ∷ xs) ys e = cc

module _ (env : Env) (before : History) where
  pub Reports-Keeps :
      {A : Type 0} (S : A → Type 0) (m : M A)
      → Keeps (AcceptedSince env before) m
      → Reports env before S m
  Reports-Keeps S m k = record { accepted = λ s q e. k.calls s q }

  pub Reports-pure : {A : Type 0} (S : A → Type 0) (a : A) → Reports env before S (pure a)
  Reports-pure S a = Reports-Keeps S (pure a) (Keeps-pure (AcceptedSince env before) a)

  pub Reports-emit : (S : Unit {0} → Type 0) (us : List Update) → Reports env before S (emit us)
  Reports-emit S us = Reports-Keeps S (emit us) (Keeps-emit (AcceptedSince env before) us)

  -- A good end needs a good first part.
  pub Reports-bind :
      {A B : Type 0} (G : A → Type 0) (S : B → Type 0) (m : M A) (f : A → M B)
      → Reports env before G m
      → ((a : A) → Reports env before S (f a))
      → ((a : A) (s : State) → S (f a s).0 → G a)
      → Reports env before S (m >>= f)
  unfolding ◌>>=◌
  Reports-bind G S m f rm rf back = record {
    accepted = λ s q e. (rf (m s).0).accepted (m s).1 (rm.accepted s q (back (m s).0 (m s).1 e)) e;
  }

  -- Where the first part makes no call that can fail
  pub Reports-after :
      {A B : Type 0} (S : B → Type 0) (m : M A) (f : A → M B)
      → Keeps (AcceptedSince env before) m
      → ((a : A) → Reports env before S (f a))
      → Reports env before S (m >>= f)
  unfolding ◌>>=◌
  Reports-after S m f k rf = record {
    accepted = λ s q e. (rf (m s).0).accepted (m s).1 (k.calls s q) e;
  }

  -- An update of the metrics, and no call
  pub Reports-counted :
      {A : Type 0} (S : A → Type 0) (us : List Update) (a : A)
      → Reports env before S (emit us >> pure a)
  Reports-counted S us a =
      Reports-after S (emit us) _ (Keeps-emit (AcceptedSince env before) us) λ _. Reports-pure S a

  pub Reports-if :
      {A : Type 0} (S : A → Type 0) (b : Bool) (m n : M A)
      → (b ≡ true → Reports env before S m)
      → (b ≡ false → Reports env before S n)
      → Reports env before S (if b then m else n)
  Reports-if S true m n rm rn = rm refl
  Reports-if S false m n rm rn = rn refl

  pub Reports-option :
      {A B : Type 0} (S : B → Type 0) (o : Option A) (m : M B) (g : A → M B)
      → Reports env before S m
      → ((a : A) → o ≡ some a → Reports env before S (g a))
      → Reports env before S (elim o [ none ↦ m | some a ↦ g a ])
  Reports-option S none m g rm rg = rm
  Reports-option S (some a) m g rm rg = rg a refl

  pub Reports-result :
      {E A B : Type 0} (S : B → Type 0) (r : Result E A) (f : E → M B) (g : A → M B)
      → ((e : E) → Reports env before S (f e))
      → ((a : A) → Reports env before S (g a))
      → Reports env before S (elim r [ err e ↦ f e | ok a ↦ g a ])
  Reports-result S (err e) f g rf rg = rf e
  Reports-result S (ok a) f g rf rg = rg a

  pub Reports-perform :
      {A : Type 0} (G : A → Type 0) (c : Call) (answer : History → A)
      → ((h : History) → G (answer h) → is_accepted env c h ≡ true)
      → Reports env before G (perform c answer)
  unfolding perform
  Reports-perform G c answer good = record {
    accepted = λ s q e. AcceptedSince-step env before c s.calls (good s.calls e) q;
  }

  -- What follows a call ends well only if the answer to the call was good.
  back :
      {E A B : Type 0} (G : Result E A → Type 0) (S : B → Type 0) (us : Result E A → List Update)
      (f : E → M B) (g : A → M B)
      → ((e : E) (s : State) → S (f e s).0 → G (err e))
      → ((a : A) → G (ok a))
      → (r : Result E A) (s : State) → S ((emit (us r) >> elim r [ err e ↦ f e | ok a ↦ g a ]) s).0
      → G r
  unfolding ◌>>=◌ emit
  back G S us f g bad good (err e) s q = bad e _ q
  back G S us f g bad good (ok a) s q = good a

  -- A call whose answer is counted and looked at
  pub Reports-answered :
      {E A B : Type 0} (G : Result E A → Type 0) (S : B → Type 0) (c : Call)
      (answer : History → Result E A) (us : Result E A → List Update) (f : E → M B) (g : A → M B)
      → ((h : History) → G (answer h) → is_accepted env c h ≡ true)
      → ((e : E) (s : State) → S (f e s).0 → G (err e))
      → ((a : A) → G (ok a))
      → ((e : E) → Reports env before S (f e))
      → ((a : A) → Reports env before S (g a))
      → Reports env before S
          (perform c answer >>= λ r. emit (us r) >> elim r [ err e ↦ f e | ok a ↦ g a ])
  Reports-answered G S c answer us f g accept bad good rf rg =
      Reports-bind G S (perform c answer) _ (Reports-perform G c answer accept)
        (λ r.
          Reports-after S (emit (us r)) _ (Keeps-emit (AcceptedSince env before) (us r))
            λ _. Reports-result S r f g rf rg)
        (back G S us f g bad good)

  -- Two parts whose errors are joined
  pub Reports-both :
      (m n : M (List Error))
      → Reports env before IsNil m
      → Reports env before IsNil n
      → Reports env before IsNil (m >>= λ errs. n >>= λ more. pure (errs ++ more))
  unfolding ◌>>=◌ pure
  Reports-both m n rm rn = record {
    accepted = λ s q e.
        let (first, rest) = append_nil (m s).0 (n (m s).1).0 e in
        rn.accepted (m s).1 (rm.accepted s q first) rest;
  }

  pub Reports-each :
      {A : Type 0} (f : A → M (List Error)) (xs : List A)
      → ((x : A) → Reports env before IsNil (f x))
      → Reports env before IsNil (each f xs)
  unfolding each
  Reports-each f [] r = Reports-pure IsNil []
  Reports-each f (x ∷ xs) r = Reports-both (f x) (each f xs) (r x) (Reports-each f xs r)
