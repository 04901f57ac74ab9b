-- ===== src/Prelude/Strings/Trim.antt =====
-- `strings.TrimSpace` of a text without white space.
use mathlib.Core.Bool.{true, false, ◌&&◌}
use native.Mathlib.Omega.{arith}
use external_dns_cloudflare.Prelude.Strings.{
  to_lower, lower_byte, true, arith, ℕ, ◌==◌, Text, is_space, trim_left_space, trim_right_space,
  trim_space,
}
use Prim.Native.Nat.{ℕ}
use mathlib.Core.Path.{sym, subst, ◌∙◌, ap, ◌≡◌, refl}
use mathlib.Core.List.{◌++◌, ◌∷◌, []}
use mathlib.Core.Logic.{◌≢◌, inl, inr}
use external_dns_cloudflare.Prelude.Tests.{Bool-cases}
use external_dns_cloudflare.Prelude.Lists.{All}

-- Without white space
abbrev pub IsSolid : Text → Type 0
IsSolid = All (λ c. is_space c ≡ false)

trim_left_space_solid : (s : Text) → IsSolid s → trim_left_space s ≡ s
unfolding trim_left_space
trim_left_space_solid [] _ = refl
trim_left_space_solid (c ∷ s) (h, hs) = rw h refl

trim_right_space_solid : (s : Text) → IsSolid s → trim_right_space s ≡ s
unfolding trim_right_space
trim_right_space_solid [] _ = refl
trim_right_space_solid (c ∷ s) (h, hs) = rw (h, trim_right_space_solid s hs) refl

pub trim_space_solid : (s : Text) → IsSolid s → trim_space s ≡ s
unfolding trim_space
trim_space_solid s solid =
    ap trim_right_space (trim_left_space_solid s solid) ∙ trim_right_space_solid s solid

-- Without white space at either end
abbrev pub IsTrimmed : Text → Type 0
IsTrimmed s = trim_space s ≡ s

-- It does not begin with white space.
abbrev StartsSolid : Text → Type 0
StartsSolid [] = Unit
StartsSolid (c ∷ s) = is_space c ≡ false

trim_left_space-StartsSolid : (s : Text) → StartsSolid (trim_left_space s)
unfolding trim_left_space
trim_left_space-StartsSolid [] = tt
trim_left_space-StartsSolid (c ∷ s) = elim (Bool-cases (is_space c)) [
  | inl e ↦ rw e (trim_left_space-StartsSolid s)
  | inr e ↦ rw e e
]

trim_left_space_starts : (s : Text) → StartsSolid s → trim_left_space s ≡ s
unfolding trim_left_space
trim_left_space_starts [] _ = refl
trim_left_space_starts (c ∷ s) h = rw h refl

trim_right_space-StartsSolid : (s : Text) → StartsSolid s → StartsSolid (trim_right_space s)
unfolding trim_right_space
trim_right_space-StartsSolid [] _ = tt
trim_right_space-StartsSolid (c ∷ s) h = rw h h

trim_right_space_idem : (s : Text) → trim_right_space (trim_right_space s) ≡ trim_right_space s
unfolding trim_right_space
trim_right_space_idem [] = refl
trim_right_space_idem (c ∷ s) = elim (Bool-cases (is_space c && trim_right_space s == [])) [
  | inl e ↦ rw e refl
  | inr e ↦ rw (e, trim_right_space_idem s, e) refl
]

pub trim_space-IsTrimmed : (s : Text) → IsTrimmed (trim_space s)
unfolding trim_space
trim_space-IsTrimmed s =
    let left = trim_left_space s in
    ap trim_right_space (
      trim_left_space_starts (trim_right_space left)
        (trim_right_space-StartsSolid left (trim_left_space-StartsSolid s)))
    ∙ trim_right_space_idem left

pub IsTrimmed-StartsSolid : (c : ℕ) (s : Text) → IsTrimmed (c ∷ s) → is_space c ≡ false
unfolding trim_space
IsTrimmed-StartsSolid c s h =
    subst StartsSolid h
      (trim_right_space-StartsSolid (trim_left_space (c ∷ s)) (trim_left_space-StartsSolid (c ∷ s)))

pub trim_space-ne-nil : (c : ℕ) (s : Text) → is_space c ≡ false → trim_space (c ∷ s) == [] ≡ false
unfolding trim_space trim_left_space trim_right_space ◌==◌
trim_space-ne-nil c s h = rw (h, h) refl

append_test : (x t : Text) → t ≢ [] → (x ++ t) == [] ≡ false
unfolding ◌==◌
append_test [] [] n = absurd (n refl)
append_test [] (c ∷ t) n = refl
append_test (c ∷ x) t n = refl

trim_right_space-append :
    (x t : Text) → trim_right_space t ≢ [] → trim_right_space (x ++ t) ≡ x ++ trim_right_space t
unfolding trim_right_space
trim_right_space-append [] t n = refl
trim_right_space-append (c ∷ x) t n =
    rw (trim_right_space-append x t n, append_test x (trim_right_space t) n) (ground arith)

IsTrimmed-right : (s : Text) → IsTrimmed s → trim_right_space s ≡ s
unfolding trim_space
IsTrimmed-right [] h = h
IsTrimmed-right (c ∷ s) h =
    ap trim_right_space (sym (trim_left_space_starts (c ∷ s) (IsTrimmed-StartsSolid c s h))) ∙ h

-- A text that begins with no white space and goes on to a trimmed text is trimmed.
pub IsTrimmed-append :
    (c : ℕ) (x t : Text) → is_space c ≡ false → IsTrimmed t → t ≢ [] → IsTrimmed ((c ∷ x) ++ t)
unfolding trim_space
IsTrimmed-append c x t solid trimmed n =
    let right = IsTrimmed-right t trimmed in
    ap trim_right_space (trim_left_space_starts (c ∷ (x ++ t)) solid)
    ∙ trim_right_space-append (c ∷ x) t (λ e. n (sym right ∙ e))
    ∙ ap (λ r. (c ∷ x) ++ r) right

-- White space only
abbrev IsBlank : Text → Type 0
IsBlank = All (λ c. is_space c ≡ true)

trim_left_space-IsBlank : (s : Text) → trim_left_space s ≡ [] → IsBlank s
unfolding trim_left_space
trim_left_space-IsBlank [] _ = tt
trim_left_space-IsBlank (c ∷ s) h = elim (Bool-cases (is_space c)) [
  | inl e ↦ (e, trim_left_space-IsBlank s (rw e at h))
  | inr e ↦ cc (rw e at h)
]

trim_right_space-IsBlank : (s : Text) → IsBlank s → trim_right_space s ≡ []
unfolding trim_right_space
trim_right_space-IsBlank [] _ = refl
trim_right_space-IsBlank (c ∷ s) (h, hs) =
    rw (h, trim_right_space-IsBlank s hs) (unfold ◌==◌ in refl)

lower_space : (c : ℕ) → is_space (lower_byte c) ≡ true → is_space c ≡ true
unfolding is_space lower_byte
lower_space c h = ground arith

trim_right_space_stuck : (s : Text) → StartsSolid s → trim_right_space s ≡ [] → s ≡ []
unfolding trim_right_space
trim_right_space_stuck [] _ _ = refl
trim_right_space_stuck (c ∷ s) h e = cc (rw h at e)

IsBlank-to_lower : (s : Text) → IsBlank (to_lower s) → IsBlank s
unfolding to_lower is_space
IsBlank-to_lower [] _ = tt
IsBlank-to_lower (c ∷ s) (h, hs) = (lower_space c h, IsBlank-to_lower s hs)

trim_space-to_lower : (s : Text) → trim_space (to_lower s) ≡ [] → trim_right_space s ≡ []
unfolding trim_space
trim_space-to_lower s h =
    let left = trim_left_space (to_lower s) in
    let gone = trim_right_space_stuck left (trim_left_space-StartsSolid (to_lower s)) h in
    trim_right_space-IsBlank s (IsBlank-to_lower s (trim_left_space-IsBlank (to_lower s) gone))

last_of_trimmed :
    (c : ℕ) (s : Text)
    → is_space c ≡ false
    → trim_right_space (c ∷ s) ≡ c ∷ s
    → trim_right_space s ≡ []
    → s ≡ []
unfolding trim_right_space
last_of_trimmed c s solid whole e = cc (rw (solid, e) at whole)

-- After the first byte of a trimmed text comes nothing, or more than white space.
pub IsTrimmed-blank : (c : ℕ) (s : Text) → IsTrimmed (c ∷ s) → trim_space (to_lower s) ≡ [] → s ≡ []
IsTrimmed-blank c s trimmed h =
    last_of_trimmed c s (IsTrimmed-StartsSolid c s trimmed) (IsTrimmed-right (c ∷ s) trimmed)
      (trim_space-to_lower s h)
