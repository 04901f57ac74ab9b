-- ===== src/CoreDns/Valid.antt =====
-- What the functions of internal/coredns/fragment.go make are maps that `render` can write.
use external_dns_cloudflare.Prelude.{
  All-insert, if◌then◌else◌, Bool, ◌==◌, fields, ◌≡◌, to_lower, Option-cases, Bool-cases, inr, inl,
  false, true, some, none, split, ◌∷◌, erase-NodupKeys, insert-NodupKeys, All, [], List, Text,
  erase, insert, Assoc, NodupKeys,
}
use mathlib.Core.Path.{subst}
use mathlib.Core.Option.{some-injective}
use external_dns_cloudflare.Prelude.Strings.Words.{
  IsWord, to_lower_idem, to_lower-IsWord, fields-IsWord,
}
use external_dns_cloudflare.CoreDns.{rewrite_of, parse_lines, parse_rewrites, remove_all, add_all}
use external_dns_cloudflare.CoreDns.RoundTrip.{IsRewrite}

-- A map as `Load` and `Apply` make it
pub record IsFragment (m : Assoc Text) : Type 0 where
  pub rewrites : All IsRewrite m
  pub nodup : NodupKeys m

All-erase : (P : Text × Text → Type 0) (k : Text) (m : Assoc Text) → All P m → All P (erase k m)
unfolding erase
All-erase P k [] _ = tt
All-erase P k ((j, w) ∷ m) (q, qs) = elim (Bool-cases (j == k)) [
  | inl e ↦ rw e (All-erase P k m qs)
  | inr e ↦ rw e (q, All-erase P k m qs)
]

insert-IsFragment :
    (k v : Text) (m : Assoc Text) → IsRewrite (k, v) → IsFragment m → IsFragment (insert k v m)
insert-IsFragment k v m p f = record {
  rewrites = All-insert IsRewrite k v m p f.rewrites;
  nodup = insert-NodupKeys k v m f.nodup;
}

erase-IsFragment : (k : Text) (m : Assoc Text) → IsFragment m → IsFragment (erase k m)
erase-IsFragment k m f = record {
  rewrites = All-erase IsRewrite k m f.rewrites;
  nodup = erase-NodupKeys k m f.nodup;
}

if_none : (b : Bool) (x p : Text × Text) → (if b then none else some x) ≡ some p → x ≡ p
if_none true x p e = cc
if_none false x p e = some-injective x p e

rewrite_of-IsRewrite :
    (fs : List Text) (p : Text × Text) → All IsWord fs → rewrite_of fs ≡ some p → IsRewrite p
unfolding rewrite_of
rewrite_of-IsRewrite (a ∷ b ∷ c ∷ h ∷ t ∷ []) p (_, (_, (_, (wh, (wt, _))))) e =
    subst IsRewrite (if_none _ (to_lower h, t) p e) (to_lower_idem h, to_lower-IsWord h wh, wt)
rewrite_of-IsRewrite _ p _ e = cc

parse_lines-IsFragment :
    (lines : List Text) (out : Assoc Text) → IsFragment out → IsFragment (parse_lines lines out)
unfolding parse_lines
parse_lines-IsFragment [] out f = f
parse_lines-IsFragment (line ∷ lines) out f = elim (Option-cases (rewrite_of (fields line))) [
  | inl e ↦ rw (parse_lines, e) (parse_lines-IsFragment lines out f)
  | inr ((h, t), e) ↦
      rw (parse_lines, e)
        (parse_lines-IsFragment lines (insert h t out) (
          insert-IsFragment h t out
            (rewrite_of-IsRewrite (fields line) (h, t) (fields-IsWord line) e) f))
]

pub empty-IsFragment : IsFragment []
empty-IsFragment = record { rewrites = tt; nodup = tt }

pub parse_rewrites-IsFragment : (s : Text) → IsFragment (parse_rewrites s)
unfolding parse_rewrites
parse_rewrites-IsFragment s = parse_lines-IsFragment (split b'\n' s) [] empty-IsFragment

pub remove_all-IsFragment :
    (hosts : List Text) (m : Assoc Text) → IsFragment m → IsFragment (remove_all hosts m)
unfolding remove_all
remove_all-IsFragment [] m f = f
remove_all-IsFragment (h ∷ hosts) m f =
    remove_all-IsFragment hosts (erase (to_lower h) m) (erase-IsFragment (to_lower h) m f)

-- The additions are words.
abbrev pub AreWords : Assoc Text → Type 0
AreWords = All (λ (p : Text × Text). IsWord p.0 × IsWord p.1)

pub add_all-IsFragment :
    (more m : Assoc Text) → AreWords more → IsFragment m → IsFragment (add_all more m)
unfolding add_all
add_all-IsFragment [] m _ f = f
add_all-IsFragment ((h, t) ∷ more) m ((wh, wt), ws) f =
    add_all-IsFragment more (insert (to_lower h) t m) ws
      (insert-IsFragment (to_lower h) t m (to_lower_idem h, to_lower-IsWord h wh, wt) f)
