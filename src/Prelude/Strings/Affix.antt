-- ===== src/Prelude/Strings/Affix.antt =====
-- Suffixes and prefixes: what `strings.HasSuffix` and `strings.CutPrefix` decide.
use Prim.Native.Nat.{◌-◌}
use mathlib.Core.Path.{◌≡◌, refl, ap, sym, ◌∙◌}
use mathlib.Core.Bool.{true}
use mathlib.Core.Option.{some}
use mathlib.Core.List.{[], ◌∷◌, ◌++◌}
use native.Mathlib.Omega.{arith}
use external_dns_cloudflare.Prelude.Tests.{leb, &&-true}
use external_dns_cloudflare.Prelude.Lists.{
  length, drop, take, take-append-drop, length-append, drop-length-append,
}
use external_dns_cloudflare.Prelude.Strings.{Text, ◌==◌, eq_iff, eq_refl, has_suffix, cut_prefix}

pub has_suffix→append : (s t : Text) → has_suffix s t ≡ true → (p : Text) × (s ≡ p ++ t)
unfolding has_suffix
has_suffix→append s t h =
    let both = &&-true (leb (length t) (length s)) (drop (length s - length t) s == t) h in
    let same = (eq_iff (drop (length s - length t) s) t).0 both.1 in
    (
      take (length s - length t) s,
      sym (
          ap (λ u. take (length s - length t) s ++ u) (sym same)
          ∙ take-append-drop (length s - length t) s),
    )

has_suffix-append_lem : (p t : Text) → (length (p ++ t) - length t) ≡ length p
has_suffix-append_lem p t = omega (arith, length-append p t)

pub has_suffix-append : (p t : Text) → has_suffix (p ++ t) t ≡ true
unfolding has_suffix
has_suffix-append p t =
    rw (has_suffix-append_lem p t, drop-length-append, eq_refl) (ground (arith, length-append p t))

pub cut_prefix→append : (s p r : Text) → cut_prefix s p ≡ some r → s ≡ p ++ r
unfolding cut_prefix
cut_prefix→append s [] r h = ground arith
cut_prefix→append [] (q ∷ p) r h = cc
cut_prefix→append (c ∷ s) (q ∷ p) r h = ground (arith, cut_prefix→append s p r)

pub cut_prefix-append : (p r : Text) → cut_prefix (p ++ r) p ≡ some r
unfolding cut_prefix
cut_prefix-append [] r = refl
cut_prefix-append (q ∷ p) r = ground (arith, cut_prefix-append p r)
