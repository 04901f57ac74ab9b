-- ===== src/Prelude/Sort.antt =====
-- `sort.Slice` and `sort.Strings`: an insertion sort by the `less` function of the call.
use mathlib.Core.Path.{◌≡◌, refl}
use mathlib.Core.Logic.{◌⊎◌, inl, inr}
use mathlib.Core.Bool.{Bool, true, false, ◌||◌}
use mathlib.Core.List.{List, [], ◌∷◌}
use native.Mathlib.Omega.{arith}
use external_dns_cloudflare.Prelude.Tests.{if◌then◌else◌, Bool-cases}
use external_dns_cloudflare.Prelude.Lists.{Pairwise, length, All, Any, All-mono}
use external_dns_cloudflare.Prelude.Maps.{contains}
use external_dns_cloudflare.Prelude.Strings.{Text, ◌==◌, text_ltb}

module _ {ℓ} {A : Type ℓ} (less : A → A → Bool) where
  insert_sorted : A → List A → List A
  insert_sorted x [] = x ∷ []
  insert_sorted x (y ∷ ys) =
      let rest = insert_sorted x ys in if less y x then y ∷ rest else x ∷ y ∷ ys

  unfoldable pub sort : List A → List A
  unfolding insert_sorted
  sort [] = []
  sort (x ∷ xs) = insert_sorted x (sort xs)

module _ {ℓ} {A : Type ℓ} (less : A → A → Bool) where
  length-insert_sorted : (x : A) (xs : List A) → length (insert_sorted less x xs) ≡ length (x ∷ xs)
  unfolding insert_sorted
  length-insert_sorted x [] = refl
  length-insert_sorted x (y ∷ ys) = ground (arith, length-insert_sorted x ys)

  pub length-sort : (xs : List A) → length (sort less xs) ≡ length xs
  unfolding sort
  length-sort [] = refl
  length-sort (x ∷ xs) = omega (arith, length-insert_sorted x (sort less xs), length-sort xs)

  module _ (P : A → Type 0) where
    All-insert_sorted : (x : A) (xs : List A) → P x → All P xs → All P (insert_sorted less x xs)
    unfolding insert_sorted
    All-insert_sorted x [] h _ = (h, tt)
    All-insert_sorted x (y ∷ ys) h (hy, hs) = elim (Bool-cases (less y x)) [
      | inl e ↦ rw e (hy, All-insert_sorted x ys h hs)
      | inr e ↦ rw e (h, (hy, hs))
    ]

    pub All-sort : (xs : List A) → All P xs → All P (sort less xs)
    unfolding sort
    All-sort [] _ = tt
    All-sort (x ∷ xs) (h, hs) = All-insert_sorted x (sort less xs) h (All-sort xs hs)

    past :
        {Q : Type 0} (y : A) (ys zs : List A)
        → (Q → Any P zs)
        → (Any P ys → Any P zs)
        → Q ⊎ Any P (y ∷ ys)
        → Any P (y ∷ zs)
    past y ys zs f g (inl q) = inr (f q)
    past y ys zs f g (inr (inl p)) = inl p
    past y ys zs f g (inr (inr p)) = inr (g p)

    Any-insert_sorted : (x : A) (xs : List A) → P x ⊎ Any P xs → Any P (insert_sorted less x xs)
    unfolding insert_sorted
    Any-insert_sorted x [] (inl h) = inl h
    Any-insert_sorted x [] (inr h) = absurd h
    Any-insert_sorted x (y ∷ ys) h = elim (Bool-cases (less y x)) [
      | inl e ↦ rw e (
          past y ys (insert_sorted less x ys) (λ p. Any-insert_sorted x ys (inl p))
            (λ p. Any-insert_sorted x ys (inr p)) h)
      | inr e ↦ rw e h
    ]

    pub Any-sort : (xs : List A) → Any P xs → Any P (sort less xs)
    unfolding sort
    Any-sort [] h = h
    Any-sort (x ∷ xs) (inl h) = Any-insert_sorted x (sort less xs) (inl h)
    Any-sort (x ∷ xs) (inr h) = Any-insert_sorted x (sort less xs) (inr (Any-sort xs h))

    All-insert_sorted_back :
        (x : A) (xs : List A) → All P (insert_sorted less x xs) → P x × All P xs
    unfolding insert_sorted
    All-insert_sorted_back x [] = λ h. h
    All-insert_sorted_back x (y ∷ ys) = elim (Bool-cases (less y x)) [
      | inl e ↦ rw e λ h. let ih = All-insert_sorted_back x ys h.1 in (ih.0, (h.0, ih.1))
      | inr e ↦ rw e λ h. h
    ]

    pub All-sort_back : (xs : List A) → All P (sort less xs) → All P xs
    unfolding sort
    All-sort_back [] h = h
    All-sort_back (x ∷ xs) h =
        let both = All-insert_sorted_back x (sort less xs) h in (both.0, All-sort_back xs both.1)

    back :
        {Q : Type 0} (y : A) (ys zs : List A)
        → (Any P zs → Q ⊎ Any P ys)
        → Any P (y ∷ zs)
        → Q ⊎ Any P (y ∷ ys)
    back y ys zs f (inl p) = inr (inl p)
    back y ys zs f (inr p) = elim (f p) [ inl q ↦ inl q | inr r ↦ inr (inr r) ]

    Any-insert_sorted_back :
        (x : A) (xs : List A) → Any P (insert_sorted less x xs) → P x ⊎ Any P xs
    unfolding insert_sorted
    Any-insert_sorted_back x [] = λ h. h
    Any-insert_sorted_back x (y ∷ ys) = elim (Bool-cases (less y x)) [
      | inl e ↦ rw e (back y ys (insert_sorted less x ys) (Any-insert_sorted_back x ys))
      | inr e ↦ rw e λ h. h
    ]

    pub Any-sort_back : (xs : List A) → Any P (sort less xs) → Any P xs
    unfolding sort
    Any-sort_back [] h = h
    Any-sort_back (x ∷ xs) h = elim (Any-insert_sorted_back x (sort less xs) h) [
      | inl p ↦ inl p
      | inr r ↦ inr (Any-sort_back xs r)
    ]

  -- Every element is in the relation `R` to those after it.
  abbrev pub IsSorted : (A → A → Type 0) → List A → Type 0
  IsSorted R [] = Unit
  IsSorted R (x ∷ xs) = All (R x) xs × IsSorted R xs

  module _ (R : A → A → Type 0) (below : (x y : A) → less y x ≡ true → R y x)
      (above : (x y : A) → less y x ≡ false → R x y)
      (trans : (x y z : A) → R x y → R y z → R x z) where
    insert_sorted-IsSorted :
        (x : A) (xs : List A) → IsSorted R xs → IsSorted R (insert_sorted less x xs)
    unfolding insert_sorted
    insert_sorted-IsSorted x [] _ = (tt, tt)
    insert_sorted-IsSorted x (y ∷ ys) (first, rest) = elim (Bool-cases (less y x)) [
      | inl e ↦
          rw e (All-insert_sorted (R y) x ys (below x y e) first, insert_sorted-IsSorted x ys rest)
      | inr e ↦
          let step = above x y e in
          rw e ((step, All-mono (R y) (R x) ys (λ z. trans x y z step) first), (first, rest))
    ]

    pub sort-IsSorted : (xs : List A) → IsSorted R (sort less xs)
    unfolding sort
    sort-IsSorted [] = tt
    sort-IsSorted (x ∷ xs) = insert_sorted-IsSorted x (sort less xs) (sort-IsSorted xs)

module _ {A : Type 0} (less : A → A → Bool) (R : A → A → Type 0)
    (symmetric : (x y : A) → R x y → R y x) where
  Pairwise-insert_sorted :
      (x : A) (xs : List A) → All (R x) xs → Pairwise R xs → Pairwise R (insert_sorted less x xs)
  unfolding insert_sorted
  Pairwise-insert_sorted x [] _ _ = (tt, tt)
  Pairwise-insert_sorted x (y ∷ ys) (h, hs) (first, rest) = elim (Bool-cases (less y x)) [
    | inl e ↦ rw e (
      All-insert_sorted less (R y) x ys (symmetric x y h) first,
      Pairwise-insert_sorted x ys hs rest,
    )
    | inr e ↦ rw e ((h, hs), (first, rest))
  ]

  -- A symmetric relation of all pairs is kept.
  pub Pairwise-sort : (xs : List A) → Pairwise R xs → Pairwise R (sort less xs)
  unfolding sort
  Pairwise-sort [] _ = tt
  Pairwise-sort (x ∷ xs) (first, rest) =
      Pairwise-insert_sorted x (sort less xs) (All-sort less (R x) xs first) (Pairwise-sort xs rest)

-- `sort.Strings`
unfoldable pub sort_strings : List Text → List Text
unfolding sort text_ltb
sort_strings = sort text_ltb

contains-insert_sorted :
    (k x : Text) (xs : List Text)
    → contains k (insert_sorted text_ltb x xs) ≡ (x == k || contains k xs)
unfolding insert_sorted contains
contains-insert_sorted k x [] = refl
contains-insert_sorted k x (y ∷ ys) = ground (arith, contains-insert_sorted k x ys)

pub contains-sort_strings :
    (k : Text) (xs : List Text) → contains k (sort_strings xs) ≡ contains k xs
unfolding sort_strings contains
contains-sort_strings k [] = refl
contains-sort_strings k (x ∷ xs) = rw (contains-insert_sorted, contains-sort_strings k xs)
