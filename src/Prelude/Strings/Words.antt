-- ===== src/Prelude/Strings/Words.antt =====
-- Lines and words: what `strings.Split` and `strings.Fields` make of a text that was put together.
use mathlib.Core.Path.{◌≡◌, refl, ◌∙◌, ap₂}
use mathlib.Core.Logic.{◌≢◌, inl, inr}
use mathlib.Core.Bool.{true, false}
use mathlib.Core.List.{[], ◌∷◌, ◌++◌, append-nil, append_assoc}
use native.Mathlib.Omega.{arith}
use Prim.Native.Nat.{ℕ}
use external_dns_cloudflare.Prelude.Tests.{nat_eq, Bool-cases}
use external_dns_cloudflare.Prelude.Lists.{All, All-append}
use external_dns_cloudflare.Prelude.Strings.{
  contains_byte, Text, ◌==◌, eq_iff, split, fields, fields_from, is_space, to_lower, lower_byte,
}

-- No byte of the text is `b`.
abbrev pub Lacks : ℕ → Text → Type 0
Lacks b = All (λ c. nat_eq c b ≡ false)

-- A word: not empty, and without white space
abbrev pub IsWord : Text → Type 0
IsWord w = All (λ c. is_space c ≡ false) w × (w ≢ [])

split_some : (sep : ℕ) (p s : Text) → Lacks sep p → split sep (p ++ sep ∷ s) ≡ p ∷ split sep s
unfolding split
split_some sep [] s _ = ground arith
split_some sep (c ∷ p) s (h, hs) = rw (h, split_some sep p s hs)

-- The first part of a text with a separator is what stands before it.
pub split-append : (sep : ℕ) (p s : Text) → Lacks sep p → split sep (p ++ sep ∷ s) ≡ p ∷ split sep s
split-append = split_some

snoc-ne-nil : (w : Text) (c : ℕ) → (w ++ c ∷ [] == []) ≡ false
unfolding ◌==◌
snoc-ne-nil [] c = refl
snoc-ne-nil (d ∷ w) c = refl

pub ne_nil-test : (w : Text) → w ≢ [] → (w == []) ≡ false
unfolding ◌==◌
ne_nil-test [] h = absurd (h refl)
ne_nil-test (c ∷ w) h = refl

space_is : is_space b' ' ≡ true
unfolding is_space
space_is = refl

fields_from_space :
    (field s : Text)
    → (field == []) ≡ false
    → fields_from field (b' ' ∷ s) ≡ field ∷ fields_from [] s
unfolding fields_from
fields_from_space field s h = rw (fields_from, space_is, h)

fields_from_byte :
    (field s : Text) (c : ℕ)
    → is_space c ≡ false
    → fields_from field (c ∷ s) ≡ fields_from (field ++ c ∷ []) s
unfolding fields_from
fields_from_byte field s c h = rw (fields_from, h)

fields_from_word :
    (field w s : Text)
    → All (λ c. is_space c ≡ false) w
    → ((field ++ w) == []) ≡ false
    → fields_from field (w ++ b' ' ∷ s) ≡ (field ++ w) ∷ fields_from [] s
fields_from_word field [] s _ h = fields_from_space field s (rw append-nil at h) ∙ rw append-nil
fields_from_word field (c ∷ w) s (hc, hs) h =
    fields_from_byte field (w ++ b' ' ∷ s) c hc
    ∙ fields_from_word (field ++ c ∷ []) w s hs (rw append_assoc h)
    ∙ rw append_assoc

fields_from_last :
    (field w : Text)
    → All (λ c. is_space c ≡ false) w
    → ((field ++ w) == []) ≡ false
    → fields_from field w ≡ (field ++ w) ∷ []
unfolding fields_from
fields_from_last field [] _ h =
    let e : (field == []) ≡ false = rw append-nil at h in rw (append-nil, fields_from, e)
fields_from_last field (c ∷ w) (hc, hs) h =
    fields_from_byte field w c hc
    ∙ fields_from_last (field ++ c ∷ []) w hs (rw append_assoc h)
    ∙ rw append_assoc

-- A word and a space begin with that word.
pub fields-append_space : (w s : Text) → IsWord w → fields (w ++ b' ' ∷ s) ≡ w ∷ fields s
unfolding fields
fields-append_space w s (hs, h) = fields_from_word [] w s hs (ne_nil-test w h)

pub fields_word : (w : Text) → IsWord w → fields w ≡ w ∷ []
unfolding fields
fields_word w (hs, h) = fields_from_last [] w hs (ne_nil-test w h)

not_newline : (c : ℕ) → is_space c ≡ false → nat_eq c b'\n' ≡ false
unfolding is_space
not_newline c h = ground arith

pub IsWord-Lacks : (w : Text) → All (λ c. is_space c ≡ false) w → Lacks b'\n' w
IsWord-Lacks [] h = tt
IsWord-Lacks (c ∷ w) (h, hs) = (not_newline c h, IsWord-Lacks w hs)

lower_byte_idem : (c : ℕ) → lower_byte (lower_byte c) ≡ lower_byte c
unfolding lower_byte
lower_byte_idem c = ground arith

pub to_lower_idem : (s : Text) → to_lower (to_lower s) ≡ to_lower s
unfolding to_lower
to_lower_idem [] = refl
to_lower_idem (c ∷ s) = ap₂ (λ d t. d ∷ t) (lower_byte_idem c) (to_lower_idem s)

lower_byte_space : (c : ℕ) → is_space c ≡ false → is_space (lower_byte c) ≡ false
unfolding is_space lower_byte
lower_byte_space c h = ground arith

to_lower_space :
    (s : Text) → All (λ c. is_space c ≡ false) s → All (λ c. is_space c ≡ false) (to_lower s)
unfolding to_lower
to_lower_space [] h = tt
to_lower_space (c ∷ s) (h, hs) = (lower_byte_space c h, to_lower_space s hs)

to_lower-ne-nil : (s : Text) → s ≢ [] → to_lower s ≢ []
unfolding to_lower
to_lower-ne-nil [] h e = h refl
to_lower-ne-nil (c ∷ s) h e = cc

pub to_lower-IsWord : (s : Text) → IsWord s → IsWord (to_lower s)
to_lower-IsWord s (hs, h) = (to_lower_space s hs, to_lower-ne-nil s h)

-- Every field is a word.
fields_from-IsWord :
    (field s : Text) → All (λ c. is_space c ≡ false) field → All IsWord (fields_from field s)
unfolding fields_from
fields_from-IsWord field [] h = elim (Bool-cases (field == [])) [
  | inl e ↦ rw (fields_from, e) tt
  | inr e ↦ rw (fields_from, e) ((h, word e), tt)
]
  where
    word : (field == []) ≡ false → field ≢ []
    word e same = cc (e, (eq_iff field []).1 same)
fields_from-IsWord field (c ∷ s) h = elim (Bool-cases (is_space c)) [
  | inl white ↦ elim (Bool-cases (field == [])) [
    | inl e ↦ rw (fields_from, white, e) (fields_from-IsWord [] s tt)
    | inr e ↦ rw (fields_from, white, e) ((h, word e), fields_from-IsWord [] s tt)
  ]
  | inr black ↦ rw (fields_from_byte field s c black) (
      fields_from-IsWord (field ++ c ∷ []) s
        (All-append (λ d. is_space d ≡ false) field (c ∷ []) h (black, tt)))
]
  where
    word : (field == []) ≡ false → field ≢ []
    word e same = cc (e, (eq_iff field []).1 same)

pub fields-IsWord : (s : Text) → All IsWord (fields s)
unfolding fields
fields-IsWord s = fields_from-IsWord [] s tt

pub contains_byte-Lacks : (b : ℕ) (s : Text) → contains_byte b s ≡ false → Lacks b s
unfolding contains_byte
contains_byte-Lacks b [] h = tt
contains_byte-Lacks b (c ∷ s) h = (ground arith, contains_byte-Lacks b s (ground arith))
