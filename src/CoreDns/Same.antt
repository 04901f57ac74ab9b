-- ===== src/CoreDns/Same.antt =====
-- `sameRewrites` of internal/coredns/fragment.go decides that two maps agree, although it reads a
-- missing key as the empty text.
use external_dns_cloudflare.Prelude.{
  nat_eq_iff, nat_eq, ◌↔◌, lookup-nil, lookup-cons, erase-NodupKeys, ap, refl, ◌∙◌, &&-true, eq_iff,
  eq_refl, sym, lookup-erase, Bool-cases, arith, inr, inl, ◌∷◌, ◌+◌, [], length, true, some, none,
  ◌≢◌, ◌==◌, ◌≡◌, All, Text, Option, lookup, erase, Assoc, NodupKeys,
}
use external_dns_cloudflare.CoreDns.{value_or_empty, covers, same_rewrites}

-- No value is the empty text.
abbrev pub HasValues : Assoc Text → Type 0
HasValues = All (λ (p : Text × Text). p.1 ≢ [])

length-erase_absent :
    (k : Text) (m : Assoc Text) → lookup k m ≡ none → length (erase k m) ≡ length m
unfolding erase lookup
length-erase_absent k [] h = refl
length-erase_absent k ((j, v) ∷ m) h = ground (arith, length-erase_absent k m)

length-erase :
    (k v : Text) (m : Assoc Text)
    → NodupKeys m
    → lookup k m ≡ some v
    → length (erase k m) + 1 ≡ length m
unfolding erase lookup
length-erase k v [] _ h = cc
length-erase k v ((j, w) ∷ m) (fresh, u) h = elim (Bool-cases (j == k)) [
  | inl same ↦
      let absent : lookup k m ≡ none = rw (← (eq_iff j k).0 same) fresh in
      rw same (omega (arith, length-erase_absent k m absent))
  | inr other ↦ rw other (omega (arith, length-erase k v m u (ground arith)))
]

-- A key that is not in the list may be taken out of the other map.
covers-erase :
    (k : Text) (a b : Assoc Text)
    → lookup k a ≡ none
    → covers a b ≡ true
    → covers a (erase k b) ≡ true
unfolding covers lookup
covers-erase k [] b _ _ = refl
covers-erase k ((j, v) ∷ a) b fresh h =
    rw lookup-erase (ground (arith, covers-erase k a b, eq_iff j k, eq_iff k j))

-- The value that the test compares is the value of the key.
value_known : (o : Option Text) (v : Text) → (value_or_empty o == v) ≡ true → v ≢ [] → o ≡ some v
unfolding value_or_empty
value_known none v e full = absurd (full (sym ((eq_iff [] v).0 e)))
value_known (some w) v e full = ap some ((eq_iff w v).0 e)

module _ (j : Text) where
  covers-lookup :
      (a b : Assoc Text)
      → covers a b ≡ true
      → length a ≡ length b
      → NodupKeys a
      → NodupKeys b
      → HasValues a
      → lookup j a ≡ lookup j b
  unfolding covers
  covers-lookup [] [] _ _ _ _ _ = refl
  covers-lookup [] ((k, w) ∷ b) _ n _ _ _ = absurd (omega arith)
  covers-lookup ((k, v) ∷ a) b c n (fresh, u) ub (full, values) =
      let tests = &&-true (value_or_empty (lookup k b) == v) (covers a b) c in
      let there = value_known (lookup k b) v tests.0 full in
      let ih =
        covers-lookup a (erase k b) (covers-erase k a b fresh tests.1)
          (omega (arith, length-erase k v b ub there)) u (erase-NodupKeys k b ub) values in
      ground (arith, lookup-cons k j v a, ih, lookup-erase k j b, eq_iff k j, there)

agree_rest :
    (k v : Text) (a b : Assoc Text)
    → lookup k a ≡ none
    → ((j : Text) → lookup j ((k, v) ∷ a) ≡ lookup j b)
    → (j : Text) → lookup j a ≡ lookup j (erase k b)
agree_rest k v a b fresh h j =
    ground (arith, lookup-cons k j v a, lookup-erase k j b, eq_iff k j, fresh, h j)

agree_first :
    (k v : Text) (a b : Assoc Text)
    → ((j : Text) → lookup j ((k, v) ∷ a) ≡ lookup j b)
    → lookup k b ≡ some v
agree_first k v a b h = sym (h k) ∙ lookup-cons k k v a ∙ rw eq_refl

-- Maps that agree on every key have as many keys.
agree-length :
    (a b : Assoc Text)
    → NodupKeys a
    → NodupKeys b
    → ((j : Text) → lookup j a ≡ lookup j b)
    → length a ≡ length b
agree-length [] [] _ _ _ = refl
agree-length [] ((k, w) ∷ b) _ _ h =
    ground (arith, h k, lookup-nil {0} {V = Text} k, lookup-cons k k w b, eq_refl k)
agree-length ((k, v) ∷ a) b (fresh, u) ub h =
    let there = agree_first k v a b h in
    let ih = agree-length a (erase k b) u (erase-NodupKeys k b ub) (agree_rest k v a b fresh h) in
    omega (arith, ih, length-erase k v b ub there)

tail_known :
    (k v : Text) (a b : Assoc Text)
    → lookup k a ≡ none
    → ((j t : Text) → lookup j ((k, v) ∷ a) ≡ some t → lookup j b ≡ some t)
    → (j t : Text) → lookup j a ≡ some t
    → lookup j b ≡ some t
tail_known k v a b fresh h j t e = ground (arith, lookup-cons k j v a, eq_iff k j, fresh, h j t)

known-covers :
    (a b : Assoc Text)
    → NodupKeys a
    → ((j t : Text) → lookup j a ≡ some t → lookup j b ≡ some t)
    → covers a b ≡ true
unfolding covers value_or_empty
known-covers [] b _ h = refl
known-covers ((k, v) ∷ a) b (fresh, u) h =
    rw (h k v (lookup-cons k k v a ∙ rw eq_refl), eq_refl)
      (known-covers a b u (tail_known k v a b fresh h))

-- `sameRewrites` holds of two maps without a key twice, the first of which maps nothing to the empty
-- text, just if every key is mapped alike by both.
pub same_rewrites_iff :
    (a b : Assoc Text)
    → NodupKeys a
    → NodupKeys b
    → HasValues a
    → (same_rewrites a b ≡ true) ↔ ((j : Text) → lookup j a ≡ lookup j b)
unfolding same_rewrites
same_rewrites_iff a b ua ub values = (
  λ h j.
      let tests = &&-true (nat_eq (length a) (length b)) (covers a b) h in
      covers-lookup j a b tests.1 ((nat_eq_iff _ _).0 tests.0) ua ub values,
  λ h. rw (known-covers a b ua (λ j t e. sym (h j) ∙ e), agree-length a b ua ub h) (ground arith),
)
