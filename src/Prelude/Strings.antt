-- ===== src/Prelude/Strings.antt =====
-- Text as the list of its bytes, and the functions of Go's package `strings` that the program
-- calls. Letters and white space are those of ASCII.
pub mod Affix
pub mod Words
pub mod Trim
pub mod Domain
use Prim.Native.Nat.{ℕ, zero, suc, ◌+◌, ◌-◌, ◌/◌, ◌%◌}
use Prim.Native.Char.{code}
use Prim.Native.String.{String}
use mathlib.Core.Path.{◌≡◌, refl, ap, ap₂}
use mathlib.Core.Logic.{◌↔◌}
use mathlib.Core.Bool.{Bool, true, false, ◌&&◌, ◌||◌}
use mathlib.Core.Option.{Option, none, some}
use mathlib.Core.List.{List, [], ◌∷◌, ◌++◌, map}
use native.Mathlib.Omega.{arith}
use external_dns_cloudflare.Prelude.Tests.{ltb, leb, nat_eq, nat_eq_iff, if◌then◌else◌, &&-true}
use external_dns_cloudflare.Prelude.Lists.{length, drop, take}

abbrev pub Text : Type 0
Text = List ℕ

-- The bytes of a literal in ASCII.
abbrev pub codes : String → Text
codes String.[] = []
codes (String.◌∷◌ c s) = code c ∷ codes s

infix 50 ◌==◌
unfoldable pub ◌==◌ : Text → Text → Bool
[] == [] = true
[] == (d ∷ t) = false
(c ∷ s) == [] = false
(c ∷ s) == (d ∷ t) = nat_eq c d && s == t

eq_of : (s t : Text) → (s == t) ≡ true → s ≡ t
unfolding ◌==◌
eq_of [] [] h = refl
eq_of [] (d ∷ t) h = cc
eq_of (c ∷ s) [] h = cc
eq_of (c ∷ s) (d ∷ t) h =
    let both = &&-true (nat_eq c d) (s == t) h in
    ap₂ (λ a b. a ∷ b) ((nat_eq_iff c d).0 both.0) (eq_of s t both.1)

pub eq_refl : (s : Text) → (s == s) ≡ true
unfolding ◌==◌
eq_refl [] = refl
eq_refl (c ∷ s) = ground (arith, eq_refl s)

pub eq_iff : (s t : Text) → ((s == t) ≡ true) ↔ (s ≡ t)
eq_iff s t = (eq_of s t, λ e. rw e (eq_refl t))

-- `unicode.ToLower` on ASCII, and `strings.ToLower`
lower_byte : ℕ → ℕ
lower_byte c = if leb b'A' c && leb c b'Z' then c + 32 else c

unfoldable pub to_lower : Text → Text
unfolding lower_byte
to_lower = map lower_byte

-- `unicode.IsSpace` on ASCII: tab, line feed, vertical tab, form feed, carriage return, space
unfoldable pub is_space : ℕ → Bool
is_space c = (leb 9 c && leb c 13) || nat_eq c b' '

trim_left_space : Text → Text
trim_left_space [] = []
trim_left_space (c ∷ s) = let rest = trim_left_space s in if is_space c then rest else c ∷ s

trim_right_space : Text → Text
trim_right_space [] = []
trim_right_space (c ∷ s) =
    let rest = trim_right_space s in if is_space c && rest == [] then [] else c ∷ rest

-- `strings.TrimSpace`
unfoldable pub trim_space : Text → Text
unfolding trim_left_space trim_right_space is_space
trim_space s = trim_right_space (trim_left_space s)

-- `strings.TrimRight(s, cutset)` for a cutset of one byte
unfoldable pub trim_right : ℕ → Text → Text
trim_right b [] = []
trim_right b (c ∷ s) =
    let rest = trim_right b s in if nat_eq c b && rest == [] then [] else c ∷ rest

-- `strings.CutPrefix`
unfoldable pub cut_prefix : Text → Text → Option Text
cut_prefix s [] = some s
cut_prefix [] (p ∷ ps) = none
cut_prefix (c ∷ s) (p ∷ ps) = let rest = cut_prefix s ps in if nat_eq c p then rest else none

-- `strings.TrimPrefix`
unfoldable pub trim_prefix : Text → Text → Text
unfolding cut_prefix
trim_prefix s p = elim (cut_prefix s p) [ some rest ↦ rest | none ↦ s ]

-- `strings.HasSuffix`
unfoldable pub has_suffix : Text → Text → Bool
has_suffix s t = leb (length t) (length s) && drop (length s - length t) s == t

-- `strings.TrimSuffix`
unfoldable pub trim_suffix : Text → Text → Text
unfolding has_suffix
trim_suffix s t = if has_suffix s t then take (length s - length t) s else s

-- `strings.Contains` for a text of one byte
unfoldable pub contains_byte : ℕ → Text → Bool
contains_byte b [] = false
contains_byte b (c ∷ s) = nat_eq c b || contains_byte b s

-- `strings.Cut` at the first `sep`, a separator of one byte
unfoldable pub cut : ℕ → Text → Option (Text × Text)
cut sep [] = none
cut sep (c ∷ s) =
    let rest = cut sep s in
    if nat_eq c sep
    then some ([], s)
    else elim rest [ none ↦ none | some (before, after) ↦ some (c ∷ before, after) ]

add_front : ℕ → List Text → List Text
add_front c [] = (c ∷ []) ∷ []
add_front c (p ∷ ps) = (c ∷ p) ∷ ps

-- `strings.Split` at a separator of one byte
unfoldable pub split : ℕ → Text → List Text
unfolding add_front
split sep [] = [] ∷ []
split sep (c ∷ s) = let rest = split sep s in if nat_eq c sep then [] ∷ rest else add_front c rest

-- `strings.Join`
unfoldable pub join : List Text → Text → Text
join [] sep = []
join (p ∷ []) sep = p
join (p ∷ q ∷ ps) sep = p ++ sep ++ join (q ∷ ps) sep

-- `strings.Fields`, one byte at a time: the field that is being read, and the rest of the text
fields_from : Text → Text → List Text
fields_from field [] = if field == [] then [] else field ∷ []
fields_from field (c ∷ s) = elim (is_space c) [
  | true ↦ let rest = fields_from [] s in if field == [] then rest else field ∷ rest
  | false ↦ fields_from (field ++ c ∷ []) s
]

unfoldable pub fields : Text → List Text
unfolding fields_from is_space ◌==◌
fields s = fields_from [] s

-- The order of strings by their bytes
unfoldable pub text_ltb : Text → Text → Bool
text_ltb s [] = false
text_ltb [] (d ∷ t) = true
text_ltb (c ∷ s) (d ∷ t) = ltb c d || (nat_eq c d && text_ltb s t)

decimal_digits : ℕ → ℕ → Text
decimal_digits zero n = []
decimal_digits (suc fuel) n =
    let front = decimal_digits fuel (n / 10) in
    if ltb n 10 then (48 + n) ∷ [] else front ++ (48 + n % 10) ∷ []

-- `strconv.Itoa` of a number that is not negative; `n / 10` falls, so `n + 1` rounds are enough.
unfoldable pub decimal : ℕ → Text
unfolding decimal_digits
decimal n = decimal_digits (suc n) n
