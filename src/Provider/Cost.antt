-- ===== src/Provider/Cost.antt =====
-- How many calls an action of internal/provider/provider.go makes: one rule for each way to build an
-- action.
pub mod Parts
pub mod Apply
use external_dns_cloudflare.Prelude.{
  ap, some, ok, none, err, Option, Result, refl, [], if◌then◌else◌, ◌++◌, false, true, Bool, ◌∷◌,
  List, ◌≡◌, ◌≤◌, ◌+◌, length, ℕ, arith, suc,
}
use external_dns_cloudflare.Errors.{Error}
use external_dns_cloudflare.Metrics.{Update}
use external_dns_cloudflare.Provider.State.{
  State, History, Call, M, ◌>>=◌, ◌>>◌, pure, perform, emit, each,
}

-- The action makes as many calls as the budget at most, and fewer by what its result leaves of it.
pub record Costs {A : Type 0} (left : A → ℕ) (budget : ℕ) (m : M A) : Type 0 where
  pub spent : (s : State) → length (m s).1.calls + left (m s).0 ≤ length s.calls + budget

-- Nothing is left.
abbrev pub none_left : {A : Type 0} → A → ℕ
none_left a = 0

pub Costs-silent :
    {A : Type 0} (m : M A) → ((s : State) → (m s).1.calls ≡ s.calls) → Costs none_left 0 m
Costs-silent m same = record { spent = λ s. let e = ap length (same s) in omega (arith, e) }

pub Costs-pure :
    {A : Type 0} (left : A → ℕ) (budget : ℕ) (a : A) → left a ≤ budget → Costs left budget (pure a)
unfolding pure
Costs-pure left budget a h = record { spent = λ s. omega (arith, h) }

pub Costs-done : {A : Type 0} (budget : ℕ) (a : A) → Costs none_left budget (pure a)
Costs-done budget a = Costs-pure none_left budget a (omega arith)

pub Costs-emit : (us : List Update) → Costs none_left 0 (emit us)
unfolding emit
Costs-emit us = record { spent = λ s. omega arith }

pub Costs-perform :
    {A : Type 0} (c : Call) (answer : History → A) → Costs none_left 1 (perform c answer)
unfolding perform
Costs-perform c answer = record { spent = λ s. omega arith }

-- The second part is paid for by what the first leaves.
pub Costs-bind :
    {A B : Type 0} (left : A → ℕ) (rest : B → ℕ) (budget : ℕ) (m : M A) (f : A → M B)
    → Costs left budget m
    → ((a : A) → Costs rest (left a) (f a))
    → Costs rest budget (m >>= f)
unfolding ◌>>=◌
Costs-bind left rest budget m f cm cf = record {
  spent = λ s. omega (arith, cm.spent s, (cf (m s).0).spent (m s).1);
}

-- Two parts with a budget each
pub Costs-both :
    {A B : Type 0} (rest : B → ℕ) (first second : ℕ) (m : M A) (f : A → M B)
    → Costs none_left first m
    → ((a : A) → Costs rest second (f a))
    → Costs rest (first + second) (m >>= f)
unfolding ◌>>=◌
Costs-both rest first second m f cm cf = record {
  spent = λ s. omega (arith, cm.spent s, (cf (m s).0).spent (m s).1);
}

-- A first part that makes no call
pub Costs-after :
    {A B : Type 0} (rest : B → ℕ) (budget : ℕ) (m : M A) (f : A → M B)
    → Costs none_left 0 m
    → ((a : A) → Costs rest budget (f a))
    → Costs rest budget (m >>= f)
unfolding ◌>>=◌
Costs-after rest budget m f cm cf = record {
  spent = λ s. omega (arith, cm.spent s, (cf (m s).0).spent (m s).1);
}

pub Costs-le :
    {A : Type 0} (left : A → ℕ) (budget more : ℕ) (m : M A)
    → budget ≤ more
    → Costs left budget m
    → Costs left more m
Costs-le left budget more m h c = record { spent = λ s. omega (arith, h, c.spent s) }

-- What is put aside stays.
pub Costs-frame :
    {A : Type 0} (left : A → ℕ) (budget aside : ℕ) (m : M A)
    → Costs left budget m
    → Costs (λ a. aside + left a) (aside + budget) m
Costs-frame left budget aside m c = record { spent = λ s. omega (arith, c.spent s) }

pub Costs-if :
    {A : Type 0} (left : A → ℕ) (budget : ℕ) (b : Bool) (m n : M A)
    → Costs left budget m
    → Costs left budget n
    → Costs left budget (if b then m else n)
Costs-if left budget true m n cm cn = cm
Costs-if left budget false m n cm cn = cn

pub Costs-result :
    {E A B : Type 0} (left : B → ℕ) (budget : ℕ) (r : Result E A) (f : E → M B) (g : A → M B)
    → ((e : E) → Costs left budget (f e))
    → ((a : A) → Costs left budget (g a))
    → Costs left budget (elim r [ err e ↦ f e | ok a ↦ g a ])
Costs-result left budget (err e) f g cf cg = cf e
Costs-result left budget (ok a) f g cf cg = cg a

pub Costs-option :
    {A B : Type 0} (left : B → ℕ) (budget : ℕ) (o : Option A) (m : M B) (g : A → M B)
    → Costs left budget m
    → ((a : A) → Costs left budget (g a))
    → Costs left budget (elim o [ none ↦ m | some a ↦ g a ])
Costs-option left budget none m g cm cg = cm
Costs-option left budget (some a) m g cm cg = cg a

pub Costs-counted :
    {A : Type 0} (left : A → ℕ) (budget : ℕ) (us : List Update) (a : A)
    → left a ≤ budget
    → Costs left budget (emit us >> pure a)
Costs-counted left budget us a h =
    Costs-after left budget (emit us) _ (Costs-emit us) λ _. Costs-pure left budget a h

-- A call whose answer is counted and looked at
pub Costs-answered :
    {E A B : Type 0} (left : B → ℕ) (budget : ℕ) (c : Call) (answer : History → Result E A)
    (us : Result E A → List Update) (f : E → M B) (g : A → M B)
    → ((e : E) → Costs left budget (f e))
    → ((a : A) → Costs left budget (g a))
    → Costs left
        (1 + budget)
        (perform c answer >>= λ r. emit (us r) >> elim r [ err e ↦ f e | ok a ↦ g a ])
Costs-answered left budget c answer us f g cf cg =
    Costs-both left 1 budget (perform c answer) _ (Costs-perform c answer) λ r.
      Costs-after left budget (emit (us r)) _ (Costs-emit (us r))
        λ _. Costs-result left budget r f g cf cg

pub Costs-each :
    {A : Type 0} (f : A → M (List Error)) (xs : List A)
    → ((x : A) → Costs none_left 1 (f x))
    → Costs none_left (length xs) (each f xs)
unfolding each
Costs-each f [] c = Costs-done 0 []
Costs-each f (x ∷ xs) c =
    Costs-le none_left (1 + (length xs + 0)) (suc (length xs)) _ (omega arith) (
      Costs-both none_left 1 (length xs + 0) (f x) _ (c x) λ errs.
        Costs-both none_left (length xs) 0 (each f xs) _ (Costs-each f xs c) λ more. Costs-done 0 _)
