-- ===== src/Provider/FragmentFirst.antt =====
-- In which order `ApplyChanges` writes the fragment and changes routes
pub mod Fragment
pub mod Apply
use external_dns_cloudflare.Prelude.{
  ◌++◌, ap, ◌&&◌, Option, length, All, All-mono, ◌∙◌, sym, refl, inl, inr, Text, Assoc, List,
  Result, Bool, not, ok, err, some, none, true, false, [], ◌∷◌, ◌≡◌, Bool-cases, Option-cases,
  Result-cases, if◌then◌else◌,
}
use external_dns_cloudflare.Metrics.{Update, set_coredns_rewrites}
use mathlib.Core.Path.{subst}
use external_dns_cloudflare.Errors.{Error, Context, wrap}
use external_dns_cloudflare.Cloudflare.{HostnameRoute}
use external_dns_cloudflare.Provider.State.{
  Env, Endpoint, Changes, State, Call, History, FragmentWriter, M, ◌>>=◌, ◌>>◌, pure, emit, perform,
  list_routes, create_route, patch_comment, patch_route, delete_route, fragment_load,
  fragment_apply,
}
use external_dns_cloudflare.Provider.Yields.{Yields, Keeps, AnyResult}
use external_dns_cloudflare.Provider.Records.{is_eligible}
use external_dns_cloudflare.Provider.CoreDns.{
  Rewrites, write_fragment, write_planned, apply_coredns, plan_rewrites, empty_rewrites, removals,
  is_empty,
}
use external_dns_cloudflare.Provider.Apply.{
  is_nil, index_needed, adoption_needed, mutate, write_then_mutate, apply_planned, apply_changes,
}
use external_dns_cloudflare.Provider.Justified.{Justified, Steps, is_write}
use external_dns_cloudflare.Provider.Justified.Lists.{IsIndex, GivesIndex}
use external_dns_cloudflare.Provider.Justified.Fragment.{apply_coredns-Keeps}
use external_dns_cloudflare.Provider.Justified.Apply.{
  Adoptions, index_needed-GivesIndex, adoption_needed-Adoptions, mutate-Keeps,
}

-- A call that changes a route
abbrev pub is_mutation : Call → Bool
is_mutation (create_route host tid tag) = true
is_mutation (patch_comment id tag) = true
is_mutation (patch_route id p) = true
is_mutation (delete_route id) = true
is_mutation _ = false

abbrev pub Unmutated : History → Type 0
Unmutated = All (λ c. is_mutation c ≡ false)

-- Of the calls `made` after those of `before`, every write of the fragment succeeded.
abbrev pub Written : FragmentWriter → History → List Call → Type 0
Written w before [] = Unit
Written w before (fragment_apply add remove ∷ made) =
    ((after : Assoc Text) × (w.apply (made ++ before) add remove ≡ ok after))
    × Written w before made
Written w before (c ∷ made) = Written w before made

-- Of the calls `made` after those of `before`: when one changes a route, every write of the fragment
-- among the earlier ones had succeeded; when one writes the fragment, no earlier one changes a route.
abbrev pub Ordered : FragmentWriter → History → List Call → Type 0
Ordered w before [] = Unit
Ordered w before (fragment_apply add remove ∷ made) = Unmutated made × Ordered w before made
Ordered w before (c ∷ made) = (is_mutation c ≡ true → Written w before made) × Ordered w before made

pub Unmutated-Ordered :
    (w : FragmentWriter) (before : History) (made : List Call)
    → Unmutated made
    → Ordered w before made
Unmutated-Ordered w before [] _ = tt
Unmutated-Ordered w before (fragment_apply add remove ∷ made) (c, q) =
    (q, Unmutated-Ordered w before made q)
Unmutated-Ordered w before (list_routes tid ∷ made) (c, q) =
    ((λ m. cc), Unmutated-Ordered w before made q)
Unmutated-Ordered w before (create_route host tid tag ∷ made) (c, q) = cc
Unmutated-Ordered w before (patch_comment id tag ∷ made) (c, q) = cc
Unmutated-Ordered w before (patch_route id p ∷ made) (c, q) = cc
Unmutated-Ordered w before (delete_route id ∷ made) (c, q) = cc
Unmutated-Ordered w before (fragment_load ∷ made) (c, q) =
    ((λ m. cc), Unmutated-Ordered w before made q)

-- The calls are those of `before`, and then a list of which `P` holds.
abbrev pub Made : (List Call → Type 0) → History → History → Type 0
Made P before h = (made : List Call) × (h ≡ made ++ before) × P made

pub Made-step :
    (P R : List Call → Type 0) (before : History) (c : Call) (h : History)
    → ((made : List Call) → P made → R (c ∷ made))
    → Made P before h
    → Made R before (c ∷ h)
Made-step P R before c h imp (made, e, q) = (c ∷ made, ap (λ rest. c ∷ rest) e, imp made q)

pub Made-mono :
    (P R : List Call → Type 0) (before h : History)
    → ((made : List Call) → P made → R made)
    → Made P before h
    → Made R before h
Made-mono P R before h imp (made, e, q) = (made, e, imp made q)

abbrev pub FragmentFirst : FragmentWriter → History → History → Type 0
FragmentFirst w before h = Made (Ordered w before) before h

-- What holds while routes are changed
abbrev pub Changing : FragmentWriter → History → List Call → Type 0
Changing w before made = Written w before made × Ordered w before made

Changing-step :
    (w : FragmentWriter) (before : History) (c : Call)
    → is_write c ≡ false
    → (made : List Call) → Changing w before made
    → Changing w before (c ∷ made)
Changing-step w before (fragment_apply add remove) other made q = cc
Changing-step w before (list_routes tid) other made (q, f) = (q, ((λ m. q), f))
Changing-step w before (create_route host tid tag) other made (q, f) = (q, ((λ m. q), f))
Changing-step w before (patch_comment id tag) other made (q, f) = (q, ((λ m. q), f))
Changing-step w before (patch_route id p) other made (q, f) = (q, ((λ m. q), f))
Changing-step w before (delete_route id) other made (q, f) = (q, ((λ m. q), f))
Changing-step w before fragment_load other made (q, f) = (q, ((λ m. q), f))

abbrev pub Mutating : FragmentWriter → History → History → Type 0
Mutating w before h = Made (Changing w before) before h

pub Mutating-step :
    (w : FragmentWriter) (before : History) (c : Call)
    → is_write c ≡ false
    → (h : History) → Mutating w before h
    → Mutating w before (c ∷ h)
Mutating-step w before c other h =
    Made-step (Changing w before) (Changing w before) before c h (Changing-step w before c other)

-- What holds before the fragment is written
abbrev pub Unstarted : FragmentWriter → History → List Call → Type 0
Unstarted w before made = Unmutated made × Written w before made

abbrev pub Fresh : FragmentWriter → History → History → Type 0
Fresh w before h = Made (Unstarted w before) before h
