-- ===== src/Prelude/Lists.antt =====
-- Lists measured by native numbers, and predicates on lists by recursion.
use mathlib.Core.Logic.{◌↔◌, inr, inl, ◌⊎◌}
use mathlib.Core.List.{map, List, [], ◌∷◌, ◌++◌}
use Prim.Native.Nat.{ℕ, zero, suc, ◌+◌, ◌-◌, ◌≤◌, min}
use mathlib.Core.Path.{◌≡◌, refl, ap, subst}
use native.Mathlib.Omega.{arith}
use Prim.Native.Nat.add

module _ {ℓ} {A : Type ℓ} where
  abbrev pub length : List A → ℕ
  length [] = 0
  length (x ∷ xs) = suc (length xs)

  abbrev pub drop : ℕ → List A → List A
  drop zero xs = xs
  drop (suc n) [] = []
  drop (suc n) (x ∷ xs) = drop n xs

  abbrev pub take : ℕ → List A → List A
  take zero xs = []
  take (suc n) [] = []
  take (suc n) (x ∷ xs) = x ∷ take n xs

  pub length-append : (xs ys : List A) → length (xs ++ ys) ≡ length xs + length ys
  length-append [] ys = omega arith
  length-append (x ∷ xs) ys = omega (arith, length-append xs ys)

  pub take-append-drop : (n : ℕ) (xs : List A) → take n xs ++ drop n xs ≡ xs
  take-append-drop zero xs = refl
  take-append-drop (suc n) [] = refl
  take-append-drop (suc n) (x ∷ xs) = ap (λ t. x ∷ t) (take-append-drop n xs)

  pub length-drop : (n : ℕ) (xs : List A) → length (drop n xs) ≡ length xs - n
  length-drop zero xs = omega arith
  length-drop (suc n) [] = omega arith
  length-drop (suc n) (x ∷ xs) = omega (arith, length-drop n xs)

  pub length-take : (n : ℕ) (xs : List A) → length (take n xs) ≡ min n (length xs)
  length-take zero xs = omega arith
  length-take (suc n) [] = omega arith
  length-take (suc n) (x ∷ xs) = omega (arith, length-take n xs)

  pub take_all : (n : ℕ) (xs : List A) → length xs ≤ n → take n xs ≡ xs
  take_all zero [] h = refl
  take_all zero (x ∷ xs) h = absurd (omega arith)
  take_all (suc n) [] h = refl
  take_all (suc n) (x ∷ xs) h = ap (λ t. x ∷ t) (take_all n xs (omega arith))

  pub take-append-take : (n m : ℕ) (xs : List A) → take n xs ++ take m (drop n xs) ≡ take (n + m) xs
  take-append-take zero m xs = rw add.zero
  take-append-take (suc n) zero [] = rw add.suc
  take-append-take (suc n) (suc m) [] = rw add.suc
  take-append-take (suc n) m (x ∷ xs) = rw add.suc (ap (λ t. x ∷ t) (take-append-take n m xs))

  pub drop-length-append : (xs ys : List A) → drop (length xs) (xs ++ ys) ≡ ys
  drop-length-append [] ys = refl
  drop-length-append (x ∷ xs) ys = drop-length-append xs ys

-- `All P xs`: every element of `xs` has the property.
abbrev pub All {ℓ κ} : {A : Type ℓ} → (A → Type κ) → List A → Type κ
All holds [] = Unit
All holds (first ∷ others) = holds first × All holds others

-- `Any P xs`: an element of `xs` has the property.
abbrev pub Any {ℓ} : {A : Type ℓ} → (A → Type 0) → List A → Type 0
Any P [] = ⊥
Any P (x ∷ xs) = P x ⊎ Any P xs

module _ {ℓ κ} {A : Type ℓ} where
  pub All-append :
      (P : A → Type κ) (front back : List A) → All P front → All P back → All P (front ++ back)
  All-append P [] back _ after = after
  All-append P (x ∷ front) back (first, before) after =
      (first, All-append P front back before after)

pub All-mono {ℓ κ μ} :
    {A : Type ℓ} (P : A → Type κ) (Q : A → Type μ) (xs : List A)
    → ((x : A) → P x → Q x)
    → All P xs
    → All Q xs
All-mono P Q [] f h = tt
All-mono P Q (x ∷ xs) f h = (f x h.0, All-mono P Q xs f h.1)

module _ {ℓ} {A : Type ℓ} (P Q : A → Type 0) where
  pub All-Any : (xs : List A) → All P xs → Any Q xs → (x : A) × P x × Q x
  All-Any [] h m = absurd m
  All-Any (x ∷ xs) h (inl q) = (x, h.0, q)
  All-Any (x ∷ xs) h (inr m) = All-Any xs h.1 m

  pub Any-mono : (xs : List A) → ((x : A) → P x → Q x) → Any P xs → Any Q xs
  Any-mono [] f m = m
  Any-mono (x ∷ xs) f (inl p) = inl (f x p)
  Any-mono (x ∷ xs) f (inr m) = inr (Any-mono xs f m)

there : {X Y Z : Type 0} → (X → Y) → Z ⊎ X → Z ⊎ Y
there g (inl z) = inl z
there g (inr y) = inr (g y)

pub Any-map_iff {ℓ κ} :
    {A : Type ℓ} {B : Type κ} (P : A → Type 0) (xs : List B) (f : B → A)
    → Any P (map f xs) ↔ Any (λ b. P (f b)) xs
Any-map_iff P [] f = (λ m. m, λ m. m)
Any-map_iff P (x ∷ xs) f = let ih = Any-map_iff P xs f in (there ih.0, there ih.1)

pub All-map_iff {ℓ κ} :
    {A : Type ℓ} {B : Type κ} (P : A → Type 0) (xs : List B) (f : B → A)
    → All P (map f xs) ↔ All (λ b. P (f b)) xs
All-map_iff P [] f = (λ h. h, λ h. h)
All-map_iff P (x ∷ xs) f =
    (λ h. (h.0, (All-map_iff P xs f).0 h.1), λ h. (h.0, (All-map_iff P xs f).1 h.1))

-- `IsIn x xs`: an element of the list is `x`.
abbrev pub IsIn : {A : Type 0} → A → List A → Type 0
IsIn x xs = Any (λ y. y ≡ x) xs

pub members-IsIn : {A : Type 0} (xs : List A) → All (λ x. IsIn x xs) xs
members-IsIn [] = tt
members-IsIn (x ∷ xs) =
    (inl refl, All-mono (λ y. IsIn y xs) (λ y. IsIn y (x ∷ xs)) xs (λ y m. inr m) (members-IsIn xs))

-- What holds of every member holds of all.
pub All-members :
    {A : Type 0} (P : A → Type 0) (xs : List A) → ((x : A) → IsIn x xs → P x) → All P xs
All-members P xs f = All-mono (λ x. IsIn x xs) P xs f (members-IsIn xs)

pub IsIn-All : {A : Type 0} (P : A → Type 0) (x : A) (xs : List A) → All P xs → IsIn x xs → P x
IsIn-All P x (y ∷ ys) (h, hs) (inl e) = subst P e h
IsIn-All P x (y ∷ ys) (h, hs) (inr m) = IsIn-All P x ys hs m
IsIn-All P x [] _ m = absurd m

module _ {A : Type 0} (P : A → Type 0) where
  -- An element of a list that goes on is in the front or in the back.
  pub Any-append_iff : (xs ys : List A) → Any P (xs ++ ys) ↔ (Any P xs ⊎ Any P ys)
  Any-append_iff [] ys = (λ m. inr m, λ m. elim m [ inl b ↦ absurd b | inr a ↦ a ])
  Any-append_iff (x ∷ xs) ys =
      let (split, merge) = Any-append_iff xs ys in
      (
        λ m. elim m [
          | inl p ↦ inl (inl p)
          | inr a ↦ elim (split a) [ inl b ↦ inl (inr b) | inr c ↦ inr c ]
        ],
        λ m. elim m [
          | inl b ↦ elim b [ inl p ↦ inl p | inr c ↦ inr (merge (inl c)) ]
          | inr c ↦ inr (merge (inr c))
        ],
      )

-- Every element is in the relation to those after it.
abbrev pub Pairwise : {A : Type 0} → (A → A → Type 0) → List A → Type 0
Pairwise R [] = Unit
Pairwise R (x ∷ xs) = All (R x) xs × Pairwise R xs

pub Pairwise-snoc :
    {A : Type 0} (R : A → A → Type 0) (xs : List A) (x : A)
    → Pairwise R xs
    → All (λ y. R y x) xs
    → Pairwise R (xs ++ x ∷ [])
Pairwise-snoc R [] x _ _ = (tt, tt)
Pairwise-snoc R (y ∷ ys) x (first, rest) (h, hs) =
    (All-append (R y) ys (x ∷ []) first (h, tt), Pairwise-snoc R ys x rest hs)

pub Pairwise-map :
    {A B : Type 0} (R : B → B → Type 0) (f : A → B) (xs : List A)
    → Pairwise (λ x y. R (f x) (f y)) xs
    → Pairwise R (map f xs)
Pairwise-map R f [] _ = tt
Pairwise-map R f (x ∷ xs) (first, rest) =
    ((All-map_iff (R (f x)) xs f).1 first, Pairwise-map R f xs rest)
