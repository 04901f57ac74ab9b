-- ===== src/Prelude/Maps.antt =====
-- Go's `map[K]V` with text keys, as an association list, and `map[string]struct{}`, as the list of
-- its keys. The order in which a loop visits a map is the order of the list.
use mathlib.Core.Path.{subst, ap, ◌≡◌, refl}
use mathlib.Core.Logic.{inl, inr, ◌≢◌}
use mathlib.Core.Bool.{Bool, true, false, ◌||◌}
use mathlib.Core.Option.{Option, none, some}
use mathlib.Core.List.{List, [], ◌∷◌, ◌++◌}
use native.Mathlib.Omega.{arith}
use external_dns_cloudflare.Prelude.Tests.{if◌then◌else◌, is_some, Bool-cases}
use external_dns_cloudflare.Prelude.Lists.{All, All-mono, IsIn}
use external_dns_cloudflare.Prelude.Strings.{Text, ◌==◌, eq_iff, eq_refl}

abbrev pub Assoc {ℓ} : Type ℓ → Type ℓ
Assoc V = List (Text × V)

-- `_, ok := set[k]`
unfoldable pub contains : Text → List Text → Bool
contains k [] = false
contains k (j ∷ s) = j == k || contains k s

-- `set[k] = struct{}{}`
unfoldable pub add : Text → List Text → List Text
unfolding contains
add k s = if contains k s then s else s ++ k ∷ []

pub contains-append :
    (k : Text) (s t : List Text) → contains k (s ++ t) ≡ (contains k s || contains k t)
unfolding contains
contains-append k [] t = refl
contains-append k (j ∷ s) t = ground (arith, contains-append k s t)

or_swap : (a b : Bool) → (a || (b || false)) ≡ (b || a)
or_swap a b = ground arith

contains_again :
    (k j : Text) (s : List Text) → contains j s ≡ true → contains k s ≡ (j == k || contains k s)
unfolding contains
contains_again k j s h = elim (Bool-cases (j == k)) [
  | inl e ↦ rw (e, ← (eq_iff j k).0 e) h
  | inr e ↦ rw e
]

contains_one : (k j : Text) → contains k (j ∷ []) ≡ (j == k || false)
unfolding contains
contains_one k j = refl

pub contains-add : (k j : Text) (s : List Text) → contains k (add j s) ≡ (j == k || contains k s)
unfolding add
contains-add k j s = elim (Bool-cases (contains j s)) [
  | inl old ↦ rw old (contains_again k j s old)
  | inr new ↦ rw (new, contains-append, contains_one) (or_swap (contains k s) (j == k))
]

pub known-All : (xs : List Text) → All (λ h. contains h xs ≡ true) xs
unfolding contains
known-All [] = tt
known-All (x ∷ xs) = (
  rw eq_refl,
  All-mono (λ h. contains h xs ≡ true) (λ h. (x == h || contains h xs) ≡ true) xs
      (λ h e. ground arith) (known-All xs),
)

pub contains-IsIn : (k : Text) (xs : List Text) → contains k xs ≡ true → IsIn k xs
unfolding contains
contains-IsIn k [] h = cc
contains-IsIn k (x ∷ xs) h = elim (Bool-cases (x == k)) [
  | inl e ↦ inl ((eq_iff x k).0 e)
  | inr e ↦ inr (contains-IsIn k xs (rw e at h))
]

pub contains-none : (k : Text) (xs : List Text) → contains k xs ≡ false → All (λ x. x ≢ k) xs
unfolding contains
contains-none k [] h = tt
contains-none k (x ∷ xs) h = elim (Bool-cases (x == k)) [
  | inl e ↦ cc (rw e at h)
  | inr e ↦ (λ same. cc ((eq_iff x k).1 same, e), contains-none k xs (rw e at h))
]

module _ {ℓ} {V : Type ℓ} where
  -- `v, ok := m[k]`
  unfoldable pub lookup : Text → Assoc V → Option V
  lookup wanted [] = none
  lookup wanted ((key, held) ∷ more) = if key == wanted then some held else lookup wanted more

  -- `m[k] = v`
  unfoldable pub insert : Text → V → Assoc V → Assoc V
  insert k new [] = (k, new) ∷ []
  insert k new ((key, old) ∷ more) =
      let rest = insert k new more in if key == k then (k, new) ∷ more else (key, old) ∷ rest

  -- `delete(m, k)`
  unfoldable pub erase : Text → Assoc V → Assoc V
  erase k [] = []
  erase k ((j, w) ∷ m) = let rest = erase k m in if j == k then rest else (j, w) ∷ rest

  unfoldable pub keys : Assoc V → List Text
  keys [] = []
  keys ((k, v) ∷ m) = k ∷ keys m

  pub lookup-nil : (j : Text) → lookup j [] ≡ none
  unfolding lookup
  lookup-nil j = refl

  pub lookup-cons :
      (k j : Text) (v : V) (m : Assoc V)
      → lookup j ((k, v) ∷ m) ≡ (if k == j then some v else lookup j m)
  unfolding lookup
  lookup-cons k j v m = refl

  pub lookup-insert :
      (set wanted : Text) (new : V) (m : Assoc V)
      → lookup wanted (insert set new m) ≡ (if set == wanted then some new else lookup wanted m)
  unfolding lookup insert
  lookup-insert set wanted new [] = refl
  lookup-insert set wanted new ((key, old) ∷ more) =
      let later = lookup-insert set wanted new more in
      ground (arith, eq_iff key set, eq_iff set wanted, eq_iff key wanted, later)

  pub lookup-erase :
      (k j : Text) (m : Assoc V) → lookup j (erase k m) ≡ (if k == j then none else lookup j m)
  unfolding lookup erase
  lookup-erase k j [] = ground arith
  lookup-erase k j ((i, w) ∷ m) =
      ground (arith, eq_iff k j, eq_iff i k, eq_iff i j, lookup-erase k j m)

  pub contains-keys : (k : Text) (m : Assoc V) → contains k (keys m) ≡ is_some (lookup k m)
  unfolding contains keys lookup
  contains-keys k [] = refl
  contains-keys k ((j, v) ∷ m) = ground (arith, contains-keys k m)

  -- No key stands twice.
  abbrev pub NodupKeys : Assoc V → Type ℓ
  NodupKeys [] = Unit
  NodupKeys ((k, _) ∷ m) = (lookup k m ≡ none) × NodupKeys m

  pub insert-NodupKeys : (k : Text) (v : V) (m : Assoc V) → NodupKeys m → NodupKeys (insert k v m)
  unfolding insert
  insert-NodupKeys k v [] _ = (unfold lookup in refl, tt)
  insert-NodupKeys k v ((j, w) ∷ m) (fresh, u) =
      ground (arith, insert-NodupKeys k v m u, lookup-insert k j v m, eq_iff j k, eq_iff k j)

  pub erase-NodupKeys : (k : Text) (m : Assoc V) → NodupKeys m → NodupKeys (erase k m)
  unfolding erase
  erase-NodupKeys k [] _ = tt
  erase-NodupKeys k ((j, w) ∷ m) (fresh, u) =
      ground (arith, erase-NodupKeys k m u, lookup-erase k j m, eq_iff j k, eq_iff k j)

pub All-insert :
    {V : Type 0} (P : Text × V → Type 0) (k : Text) (v : V) (m : Assoc V)
    → P (k, v)
    → All P m
    → All P (insert k v m)
unfolding insert
All-insert P k v [] p _ = (p, tt)
All-insert P k v ((j, w) ∷ m) p (q, qs) = elim (Bool-cases (j == k)) [
  | inl e ↦ rw e (p, qs)
  | inr e ↦ rw e (q, All-insert P k v m p qs)
]

module _ {ℓ} {V : Type ℓ} where
  twice :
      (before : Assoc V) (k : Text) (v : V) (after : Assoc V)
      → lookup k (before ++ (k, v) ∷ after) ≡ none
      → ⊥
  unfolding lookup
  twice [] k v after h = cc (rw (eq_refl k) at h)
  twice ((j, w) ∷ before) k v after h = elim (Bool-cases (j == k)) [
    | inl same ↦ cc (rw same at h)
    | inr other ↦ twice before k v after (rw other at h)
  ]

  -- A key that stands after a list is not in it, if no key stands twice.
  pub NodupKeys-absent :
      (before : Assoc V) (k : Text) (v : V) (after : Assoc V)
      → NodupKeys (before ++ (k, v) ∷ after)
      → lookup k before ≡ none
  unfolding lookup
  NodupKeys-absent [] k v after _ = refl
  NodupKeys-absent ((j, w) ∷ before) k v after (fresh, u) = elim (Bool-cases (j == k)) [
    | inl same ↦ absurd (
        twice before k v after
          (subst (λ i. lookup i (before ++ (k, v) ∷ after) ≡ none) ((eq_iff j k).0 same) fresh))
    | inr other ↦ rw other (NodupKeys-absent before k v after u)
  ]

  pub insert_absent :
      (k : Text) (v : V) (m : Assoc V) → lookup k m ≡ none → insert k v m ≡ m ++ (k, v) ∷ []
  unfolding lookup insert
  insert_absent k v [] _ = refl
  insert_absent k v ((j, w) ∷ m) h = elim (Bool-cases (j == k)) [
    | inl same ↦ cc (rw same at h)
    | inr other ↦ rw other (ap (λ r. (j, w) ∷ r) (insert_absent k v m (rw other at h)))
  ]
