-- ===== src/Provider/Exact.antt =====
-- Which calls of internal/provider/provider.go change a route, apart from those that only read: the
-- rules by which the changes that an action makes are added up.
pub mod Planned
pub mod Existing
pub mod Creates
pub mod Lists
pub mod Fragment
pub mod Apply
use external_dns_cloudflare.Provider.State.{
  list_routes, State, History, Call, M, ◌>>=◌, ◌>>◌, pure, perform, emit, each,
}
use external_dns_cloudflare.Prelude.{
  Text, some, ok, none, err, Option, Result, sym, ap, ◌∙◌, refl, [], if◌then◌else◌, ◌++◌, false,
  true, Bool, ◌∷◌, List, ◌≡◌,
}
use external_dns_cloudflare.Errors.{Error}
use external_dns_cloudflare.Metrics.{Update}
use external_dns_cloudflare.Provider.FragmentFirst.{is_mutation}

-- Those of the calls that change a route
abbrev pub mutations : History → History
mutations [] = []
mutations (c ∷ h) = let rest = mutations h in if is_mutation c then c ∷ rest else rest

-- The calls, made in order after those so far
abbrev pub after : List Call → History → History
after [] h = h
after (c ∷ cs) h = after cs (c ∷ h)

after-append :
    (front back : List Call) (h : History) → after (front ++ back) h ≡ after back (after front h)
after-append [] back h = refl
after-append (c ∷ front) back h = after-append front back (c ∷ h)

-- Wherever it is run, the action changes routes by these calls, in this order.
pub record Makes {A : Type 0} (cs : List Call) (m : M A) : Type 0 where
  pub made : (s : State) → mutations (m s).1.calls ≡ after cs (mutations s.calls)

pub Makes-silent : {A : Type 0} (m : M A) → ((s : State) → (m s).1.calls ≡ s.calls) → Makes [] m
Makes-silent m same = record { made = λ s. ap mutations (same s) }

pub Makes-pure : {A : Type 0} (a : A) → Makes [] (pure a)
unfolding pure
Makes-pure a = record { made = λ s. refl }

pub Makes-emit : (us : List Update) → Makes [] (emit us)
unfolding emit
Makes-emit us = record { made = λ s. refl }

-- A call that changes a route
pub Makes-perform :
    {A : Type 0} (c : Call) (answer : History → A)
    → is_mutation c ≡ true
    → Makes (c ∷ []) (perform c answer)
unfolding perform
Makes-perform c answer e = record { made = λ s. rw e }

-- A list
pub Makes-list :
    {A : Type 0} (tid : Text) (answer : History → A) → Makes [] (perform (list_routes tid) answer)
unfolding perform
Makes-list tid answer = record { made = λ s. refl }

pub Makes-bind :
    {A B : Type 0} (front back : List Call) (m : M A) (f : A → M B)
    → Makes front m
    → ((a : A) → Makes back (f a))
    → Makes (front ++ back) (m >>= f)
unfolding ◌>>=◌
Makes-bind front back m f cm cf = record {
  made = λ s.
      (cf (m s).0).made (m s).1
      ∙ ap (after back) (cm.made s)
      ∙ sym (after-append front back (mutations s.calls));
}

-- Where the second part changes nothing
pub Makes-then :
    {A B : Type 0} (cs : List Call) (m : M A) (f : A → M B)
    → Makes cs m
    → ((a : A) → Makes [] (f a))
    → Makes cs (m >>= f)
unfolding ◌>>=◌
Makes-then cs m f cm cf = record { made = λ s. (cf (m s).0).made (m s).1 ∙ cm.made s }

-- Where the first part changes nothing
pub Makes-first :
    {A B : Type 0} (cs : List Call) (m : M A) (f : A → M B)
    → Makes [] m
    → ((a : A) → Makes cs (f a))
    → Makes cs (m >>= f)
Makes-first cs m f cm cf = Makes-bind [] cs m f cm cf

pub Makes-if :
    {A : Type 0} (cs : List Call) (b : Bool) (m n : M A)
    → (b ≡ true → Makes cs m)
    → (b ≡ false → Makes cs n)
    → Makes cs (if b then m else n)
Makes-if cs true m n cm cn = cm refl
Makes-if cs false m n cm cn = cn refl

pub Makes-result :
    {E A B : Type 0} (cs : List Call) (r : Result E A) (f : E → M B) (g : A → M B)
    → ((e : E) → r ≡ err e → Makes cs (f e))
    → ((a : A) → r ≡ ok a → Makes cs (g a))
    → Makes cs (elim r [ err e ↦ f e | ok a ↦ g a ])
Makes-result cs (err e) f g cf cg = cf e refl
Makes-result cs (ok a) f g cf cg = cg a refl

pub Makes-option :
    {A B : Type 0} (cs : List Call) (o : Option A) (m : M B) (g : A → M B)
    → (o ≡ none → Makes cs m)
    → ((a : A) → o ≡ some a → Makes cs (g a))
    → Makes cs (elim o [ none ↦ m | some a ↦ g a ])
Makes-option cs none m g cm cg = cm refl
Makes-option cs (some a) m g cm cg = cg a refl

-- A call that changes a route, whose answer is counted and looked at
pub Makes-answered :
    {E A B : Type 0} (c : Call) (answer : History → Result E A) (us : Result E A → List Update)
    (f : E → M B) (g : A → M B)
    → is_mutation c ≡ true
    → ((e : E) → Makes [] (f e))
    → ((a : A) → Makes [] (g a))
    → Makes (c ∷ []) (perform c answer >>= λ r. emit (us r) >> elim r [ err e ↦ f e | ok a ↦ g a ])
Makes-answered c answer us f g e cf cg =
    Makes-then (c ∷ []) (perform c answer) _ (Makes-perform c answer e) λ r.
      Makes-first [] (emit (us r)) _ (Makes-emit (us r))
        λ _. Makes-result [] r f g (λ x _. cf x) (λ a _. cg a)

-- What the endpoints call for, in order
abbrev pub calls_of : {A : Type 0} → (A → List Call) → List A → List Call
calls_of f [] = []
calls_of f (x ∷ xs) = f x ++ calls_of f xs

pub Makes-each :
    {A : Type 0} (cs : A → List Call) (f : A → M (List Error)) (xs : List A)
    → ((x : A) → Makes (cs x) (f x))
    → Makes (calls_of cs xs) (each f xs)
unfolding each
Makes-each cs f [] c = Makes-pure []
Makes-each cs f (x ∷ xs) c =
    Makes-bind (cs x) (calls_of cs xs) (f x) _ (c x)
      λ errs. Makes-then (calls_of cs xs) (each f xs) _ (Makes-each cs f xs c) λ more. Makes-pure _
