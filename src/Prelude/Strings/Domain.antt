-- ===== src/Prelude/Strings/Domain.antt =====
-- A domain in lower case, without the dot that it begins with.
use external_dns_cloudflare.Prelude.Strings.{
  eq_iff, lower_byte, Text, is_space, to_lower, trim_space, trim_prefix, codes,
}
use external_dns_cloudflare.Prelude.Strings.Trim.{
  IsTrimmed, IsTrimmed-StartsSolid, IsTrimmed-blank, trim_space-ne-nil,
}
use external_dns_cloudflare.Prelude.Tests.{nat_eq, Bool-cases, if◌then◌else◌}
use Prim.Native.Nat.{ℕ}
use mathlib.Core.Path.{◌≡◌, refl, ap₂}
use mathlib.Core.Logic.{◌≢◌, inl, inr}
use mathlib.Core.Bool.{true, false}
use mathlib.Core.List.{[], ◌∷◌}
use native.Mathlib.Omega.{arith}

lower_solid : (c : ℕ) → is_space c ≡ false → is_space (lower_byte c) ≡ false
unfolding is_space lower_byte
lower_solid c h = ground arith

lower_dot : (c : ℕ) → nat_eq (lower_byte c) b'.' ≡ true → c ≡ b'.'
unfolding lower_byte
lower_dot c h = ground arith

trim_prefix_dot :
    (c : ℕ) (s : Text) → trim_prefix (c ∷ s) (codes ".") ≡ (if nat_eq c b'.' then s else c ∷ s)
unfolding trim_prefix
trim_prefix_dot c s = ground arith

-- It is not white space only, if the domain is trimmed, not empty and no single dot.
pub trimmed_domain-ne-nil :
    (d : Text)
    → IsTrimmed d
    → d ≢ []
    → d ≢ codes "."
    → trim_space (trim_prefix (to_lower d) (codes ".")) ≢ []
unfolding to_lower
trimmed_domain-ne-nil [] t n h = absurd (n refl)
trimmed_domain-ne-nil (c ∷ s) t n h =
    rw trim_prefix_dot (elim (Bool-cases (nat_eq (lower_byte c) b'.')) [
      | inl dot ↦ rw dot (λ e. h (ap₂ (λ a b. a ∷ b) (lower_dot c dot) (IsTrimmed-blank c s t e)))
      | inr other ↦ rw other (λ e. cc (
        (eq_iff (trim_space (to_lower (c ∷ s))) []).1 e,
        trim_space-ne-nil (lower_byte c) (to_lower s) (lower_solid c (IsTrimmed-StartsSolid c s t)),
      ))
    ])
