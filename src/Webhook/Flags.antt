-- ===== src/Webhook/Flags.antt =====
-- cmd/webhook/prune.go: the flags of the subcommand, and how `flag.FlagSet.Parse` of Go reads them.
pub mod RoundTrip
pub mod Asked
use external_dns_cloudflare.Prelude.{
  ◌++◌, cut, suc, zero, inr, inl, err, ◌==◌, ok, none, not, nat_eq, if◌then◌else◌, Result, some,
  true, codes, ◌∷◌, false, Bool, Option, contains, List, [], Text, ◌||◌,
}
use external_dns_cloudflare.Webhook.{split_csv}

-- The variables that the flags set; `tunnels` is a `listFlag`.
pub record PruneFlags : Type 0 where
  pub owner : Text
  pub tunnels : List Text
  pub domain_filter : Text
  pub apply : Bool

unfoldable pub no_flags : PruneFlags
no_flags = record { owner = []; tunnels = []; domain_filter = []; apply = false }

pub data FlagError : Type 0 where
  help : FlagError
  bad_syntax not_defined needs_argument : Text → FlagError
  invalid_value : Text → FlagError

-- What an argument is: no flag, the end of the flags, or a name with a value if it has one.
pub data Argument : Type 0 where
  positional terminator malformed : Argument
  named : Text → Option Text → Argument

-- A name does not begin with a hyphen or an equality sign, and its value is after the first such
-- sign.
unfoldable pub named_argument : Text → Argument
named_argument [] = malformed
named_argument (c ∷ s) = if nat_eq c b'-' || nat_eq c b'=' then malformed else elim (cut b'=' s) [
  | none ↦ named (c ∷ s) none
  | some (before, after) ↦ named (c ∷ before) (some after)
]

unfoldable pub argument_of : Text → Argument
unfolding named_argument
argument_of [] = positional
argument_of (c ∷ []) = positional
argument_of (c ∷ d ∷ s) =
    if not (nat_eq c b'-')
    then positional
    else if not (nat_eq d b'-')
    then named_argument (d ∷ s)
    else if s == []
    then terminator
    else named_argument s

true_texts : List Text
true_texts = codes "1" ∷ codes "t" ∷ codes "T" ∷ codes "true" ∷ codes "TRUE" ∷ codes "True" ∷ []

false_texts : List Text
false_texts = codes "0" ∷ codes "f" ∷ codes "F" ∷ codes "false" ∷ codes "FALSE" ∷ codes "False" ∷ []

-- `strconv.ParseBool`
unfoldable pub parse_bool : Text → Option Bool
unfolding true_texts false_texts contains
parse_bool s =
    if contains s true_texts then some true else if contains s false_texts then some false else none

-- The flags that take a text
unfoldable pub text_flags : List Text
text_flags = codes "owner" ∷ codes "tunnel" ∷ codes "domain-filter" ∷ []

-- `Set` of a flag that takes a text; that of `listFlag` appends.
unfoldable pub set_text : Text → Text → PruneFlags → PruneFlags
set_text name value f =
    if name == codes "owner"
    then record f { owner = value }
    else if name == codes "tunnel"
    then record f { tunnels = f.tunnels ++ split_csv value }
    else record f { domain_filter = value }

-- What one round of the loop does with an argument
pub data FlagStep : Type 0 where
  stops stops_after : FlagStep
  fails : FlagError → FlagStep
  goes_on : PruneFlags → FlagStep
  -- the next argument is the value of the flag
  takes : Text → FlagStep

unfoldable pub set_apply : Option Text → PruneFlags → FlagStep
unfolding parse_bool
set_apply none f = goes_on (record f { apply = true })
set_apply (some value) f = elim (parse_bool value) [
  | none ↦ fails (invalid_value value)
  | some b ↦ goes_on (record f { apply = b })
]

unfoldable pub set_named : Text → Option Text → PruneFlags → FlagStep
set_named name none f = takes name
set_named name (some value) f = goes_on (set_text name value f)

-- What is done with the argument, once it is known what it is
unfoldable pub step_of : Text → Argument → PruneFlags → FlagStep
unfolding set_apply set_named text_flags contains
step_of s positional f = stops
step_of s terminator f = stops_after
step_of s malformed f = fails (bad_syntax s)
step_of s (named name value) f =
    if name == codes "apply"
    then set_apply value f
    else if contains name text_flags
    then set_named name value f
    else if name == codes "help" || name == codes "h"
    then fails help
    else fails (not_defined name)

-- `parseOne`
unfoldable pub flag_step : Text → PruneFlags → FlagStep
unfolding argument_of step_of
flag_step s f = step_of s (argument_of s) f

-- `Parse`, with the flag that waits for its value: the variables and the arguments that are left
unfoldable pub parse_flags :
    List Text → Option Text → PruneFlags → Result FlagError (PruneFlags × List Text)
parse_flags [] none f = ok (f, [])
parse_flags [] (some name) f = err (needs_argument name)
parse_flags (value ∷ args) (some name) f = parse_flags args none (set_text name value f)
parse_flags (s ∷ args) none f = elim (flag_step s f) [
  | stops ↦ ok (f, s ∷ args)
  | stops_after ↦ ok (f, args)
  | fails e ↦ err e
  | goes_on f' ↦ parse_flags args none f'
  | takes name ↦ parse_flags args (some name) f
]
