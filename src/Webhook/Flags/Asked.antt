-- ===== src/Webhook/Flags/Asked.antt =====
-- When cmd/webhook/prune.go is asked to delete.
use external_dns_cloudflare.Prelude.{
  true, ok_injective, err, ◌||◌, Any, refl, ok, contains, sym, none, eq_iff, List, ap, ◌∙◌,
  Option-cases, inr, inl, [], ◌==◌, nat_eq, Bool-cases, ◌∷◌, ◌++◌, ◌⊎◌, some, arith, Option, ℕ,
  codes, cut, Text, ◌≡◌,
}
use mathlib.Core.Path.{subst}
use external_dns_cloudflare.Webhook.Flags.{
  text_flags, named, goes_on, PruneFlags, no_flags, parse_flags, flag_step, step_of, set_text,
  set_named, argument_of, named_argument, Argument, FlagStep, FlagError, positional, terminator,
  malformed, stops, stops_after, fails, takes, set_apply, parse_bool,
}

-- The values that switch a flag on, as package flag documents them
abbrev pub affirmative : List Text
affirmative = codes "1" ∷ codes "t" ∷ codes "T" ∷ codes "TRUE" ∷ codes "true" ∷ codes "True" ∷ []

-- The flag, with one hyphen or two, and without a value or with one that switches it on
abbrev pub AsksApply : Text → Type 0
AsksApply s =
    (hyphens : Text) × ((hyphens ≡ codes "-") ⊎ (hyphens ≡ codes "--"))
    × ((s ≡ hyphens ++ codes "apply")
        ⊎ ((value : Text) × (s ≡ hyphens ++ (codes "apply=" ++ value))
            × (contains value affirmative ≡ true)))

cut-append :
    (sep : ℕ) (s before after : Text) → cut sep s ≡ some (before, after) → s ≡ before ++ sep ∷ after
unfolding cut
cut-append sep [] before after h = cc
cut-append sep (c ∷ s) before after h = elim (Bool-cases (nat_eq c sep)) [
  | inl e ↦ ground arith
  | inr e ↦ elim (Option-cases (cut sep s)) [
    | inl n ↦ ground arith
    | inr ((b, a), n) ↦ ground (arith, cut-append sep s b a n)
  ]
]

-- What an argument without its hyphens is, if it is read as a name with a value
abbrev Reads : Text → Text → Option Text → Type 0
Reads name s none = s ≡ name
Reads name s (some value) = s ≡ name ++ b'=' ∷ value

named_argument_lem :
    (s name : Text) (value : Option Text) → named_argument s ≡ named name value → Reads name s value
unfolding named_argument
named_argument_lem [] name value h = cc
named_argument_lem (c ∷ s) name none h = elim (Option-cases (cut b'=' s)) [
  | inl n ↦ ground arith
  | inr ((b, a), n) ↦ ground arith
]
named_argument_lem (c ∷ s) name (some value) h = elim (Option-cases (cut b'=' s)) [
  | inl n ↦ ground arith
  | inr ((b, a), n) ↦ ground (arith, cut-append b'=' s b a n)
]

-- The value of the flag, if there is one, switches it on.
abbrev SwitchesOn : Option Text → Type 0
SwitchesOn none = Unit
SwitchesOn (some value) = contains value affirmative ≡ true

asks_for :
    (hyphens s : Text) (value : Option Text)
    → (hyphens ≡ codes "-") ⊎ (hyphens ≡ codes "--")
    → Reads (codes "apply") s value
    → SwitchesOn value
    → AsksApply (hyphens ++ s)
asks_for hyphens s none two e on = (hyphens, two, inl (ap (λ t. hyphens ++ t) e))
asks_for hyphens s (some value) two e on = (hyphens, two, inr (value, ap (λ t. hyphens ++ t) e, on))

argument_of-AsksApply :
    (s : Text) (value : Option Text)
    → argument_of s ≡ named (codes "apply") value
    → SwitchesOn value
    → AsksApply s
unfolding argument_of
argument_of-AsksApply [] value h on = cc
argument_of-AsksApply (c ∷ []) value h on = cc
argument_of-AsksApply (c ∷ d ∷ s) value h on = elim (Bool-cases (nat_eq c b'-')) [
  | inl dash ↦ elim (Bool-cases (nat_eq d b'-')) [
    | inl dash' ↦
        let read = named_argument_lem s (codes "apply") value (ground arith) in
        let two : c ∷ d ∷ [] ≡ codes "--" = ground arith in
        subst (λ t. AsksApply (t ++ s)) (sym two) (asks_for (codes "--") s value (inr refl) read on)
    | inr e' ↦
        let read = named_argument_lem (d ∷ s) (codes "apply") value (ground arith) in
        let one : c ∷ [] ≡ codes "-" = ground arith in
        subst (λ t. AsksApply (t ++ d ∷ s)) (sym one)
          (asks_for (codes "-") (d ∷ s) value (inl refl) read on)
  ]
  | inr e ↦ ground arith
]

parse_bool-true : (v : Text) → parse_bool v ≡ some true → contains v affirmative ≡ true
unfolding parse_bool contains
parse_bool-true v h = ground arith

set_apply-SwitchesOn :
    (value : Option Text) (f f' : PruneFlags)
    → set_apply value f ≡ goes_on f'
    → f'.apply ≡ true
    → SwitchesOn value
unfolding set_apply
set_apply-SwitchesOn none f f' h on = tt
set_apply-SwitchesOn (some v) f f' h on = elim (Option-cases (parse_bool v)) [
  | inl bad ↦ cc (rw (set_apply, bad) at h)
  | inr (b, e) ↦
      let same : record f { apply = b } ≡ f' = cc (rw (set_apply, e) at h) in
      parse_bool-true v (e ∙ ap some (ap (λ (g : PruneFlags). g.apply) same ∙ on))
]

set_text_apply : (name value : Text) (f : PruneFlags) → (set_text name value f).apply ≡ f.apply
unfolding set_text
set_text_apply name value f = ground arith

named_apply :
    (name : Text) (value : Option Text) (f f' : PruneFlags)
    → set_named name value f ≡ goes_on f'
    → f'.apply ≡ f.apply
unfolding set_named
named_apply name none f f' h = cc
named_apply name (some value) f f' h =
    let same : set_text name value f ≡ f' = cc in
    ap (λ (g : PruneFlags). g.apply) (sym same) ∙ set_text_apply name value f

step_of-AsksApply :
    (s : Text) (a : Argument) (f f' : PruneFlags)
    → argument_of s ≡ a
    → step_of s a f ≡ goes_on f'
    → f'.apply ≡ true
    → (f.apply ≡ true) ⊎ AsksApply s
unfolding step_of
step_of-AsksApply s positional f f' e h on = cc
step_of-AsksApply s terminator f f' e h on = cc
step_of-AsksApply s malformed f f' e h on = cc
step_of-AsksApply s (named name value) f f' e h on = elim (Bool-cases (name == codes "apply")) [
  | inl same ↦ inr (
      argument_of-AsksApply s value
        (e ∙ ap (λ n. named n value) ((eq_iff name (codes "apply")).0 same))
        (set_apply-SwitchesOn value f f' (rw same at h) on))
  | inr other ↦ elim (Bool-cases (contains name text_flags)) [
    | inl known ↦ inl (sym (named_apply name value f f' (rw (other, known) at h)) ∙ on)
    | inr unknown ↦ elim (Bool-cases (name == codes "help" || name == codes "h")) [
      | inl e ↦ cc (rw (other, unknown, e) at h)
      | inr e ↦ cc (rw (other, unknown, e) at h)
    ]
  ]
]

module _ (s : Text) (args : List Text) (f : PruneFlags) where
  parse_stops : flag_step s f ≡ stops → parse_flags (s ∷ args) none f ≡ ok (f, s ∷ args)
  unfolding parse_flags
  parse_stops e = rw (parse_flags, e) refl

  parse_stops_after : flag_step s f ≡ stops_after → parse_flags (s ∷ args) none f ≡ ok (f, args)
  unfolding parse_flags
  parse_stops_after e = rw (parse_flags, e) refl

  parse_fails : (x : FlagError) → flag_step s f ≡ fails x → parse_flags (s ∷ args) none f ≡ err x
  unfolding parse_flags
  parse_fails x e = rw (parse_flags, e) refl

  parse_goes_on :
      (f' : PruneFlags)
      → flag_step s f ≡ goes_on f'
      → parse_flags (s ∷ args) none f ≡ parse_flags args none f'
  unfolding parse_flags
  parse_goes_on f' e = rw (parse_flags, e) refl

  parse_takes :
      (name : Text)
      → flag_step s f ≡ takes name
      → parse_flags (s ∷ args) none f ≡ parse_flags args (some name) f
  unfolding parse_flags
  parse_takes name e = rw (parse_flags, e) refl

-- If the arguments are read and leave the flag set, it was set before, or one of them asks for it.
abbrev Explained : List Text → Option Text → PruneFlags → Type 0
Explained args waiting f =
    (g : PruneFlags) (rest : List Text)
    → parse_flags args waiting f ≡ ok (g, rest)
    → g.apply ≡ true
    → (f.apply ≡ true) ⊎ Any AsksApply args

skip : {P Q R : Type 0} → P ⊎ R → P ⊎ (Q ⊎ R)
skip (inl p) = inl p
skip (inr r) = inr (inr r)

module _ (s : Text) (args : List Text) (f : PruneFlags)
    (set : (f' : PruneFlags) → Explained args none f')
    (wait : (name : Text) → Explained args (some name) f) where
  Explained-step : (step : FlagStep) → flag_step s f ≡ step → Explained (s ∷ args) none f
  Explained-step stops e g rest h on =
      inl (cc (ok_injective _ _ (sym (parse_stops s args f e) ∙ h), on))
  Explained-step stops_after e g rest h on =
      inl (cc (ok_injective _ _ (sym (parse_stops_after s args f e) ∙ h), on))
  Explained-step (fails x) e g rest h on = cc (parse_fails s args f x e, h)
  Explained-step (goes_on f') e g rest h on =
      elim (set f' g rest (sym (parse_goes_on s args f f' e) ∙ h) on) [
        | inl set_by ↦
            elim (step_of-AsksApply s (argument_of s) f f' refl (unfold flag_step in e) set_by) [
              | inl before ↦ inl before
              | inr asks ↦ inr (inl asks)
            ]
        | inr later ↦ inr (inr later)
      ]
  Explained-step (takes name) e g rest h on =
      skip (wait name g rest (sym (parse_takes s args f name e) ∙ h) on)

explained : (args : List Text) (waiting : Option Text) (f : PruneFlags) → Explained args waiting f
unfolding parse_flags
explained [] none f g rest h on = inl (cc (ok_injective _ _ h, on))
explained [] (some name) f g rest h on = cc
explained (value ∷ args) (some name) f g rest h on =
    elim (explained args none (set_text name value f) g rest h on) [
      | inl set ↦ inl (sym (set_text_apply name value f) ∙ set)
      | inr asks ↦ inr (inr asks)
    ]
explained (s ∷ args) none f g rest h on =
    Explained-step s args f (explained args none) (λ name. explained args (some name) f)
      (flag_step s f) refl g rest h on

-- The flag to delete is set only if an argument is "-apply" or "--apply", or one of these with "=" and
-- one of the values 1, t, T, TRUE, true and True.
pub parse_flags-AsksApply :
    (args : List Text) (f : PruneFlags) (rest : List Text)
    → parse_flags args none no_flags ≡ ok (f, rest)
    → f.apply ≡ true
    → Any AsksApply args
unfolding no_flags
parse_flags-AsksApply args f rest h on = elim (explained args none no_flags f rest h on) [
  | inl e ↦ cc e
  | inr any ↦ any
]
