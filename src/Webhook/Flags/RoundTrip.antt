-- ===== src/Webhook/Flags/RoundTrip.antt =====
-- The flags of cmd/webhook/prune.go are read back as they are written.
use external_dns_cloudflare.Webhook.Flags.{
  step_of, set_apply, text_flags, named_argument, argument_of, set_named, PruneFlags, no_flags,
  parse_flags, flag_step, set_text,
}
use external_dns_cloudflare.Prelude.{
  refl, append_assoc, true, ap, cut, contains, false, ◌∙◌, ok, Bool, append-nil, join, ◌==◌,
  if◌then◌else◌, none, [], ◌++◌, All, codes, ◌∷◌, Text, List, ◌≡◌,
}
use external_dns_cloudflare.Prelude.Strings.Words.{Lacks}
use external_dns_cloudflare.Webhook.{split_csv}
use external_dns_cloudflare.Webhook.Csv.{IsPart, split_csv-join}

-- A flag for each tunnel
abbrev tunnel_args : List Text → List Text
tunnel_args [] = []
tunnel_args (t ∷ ts) = codes "--tunnel" ∷ t ∷ tunnel_args ts

-- The arguments that ask for the flags
abbrev pub args_of : PruneFlags → List Text
args_of f =
    codes "--owner" ∷ f.owner ∷ codes "--domain-filter" ∷ f.domain_filter ∷ tunnel_args f.tunnels
    ++ (if f.apply then codes "--apply" ∷ [] else [])

module _ (f : PruneFlags) (more : List Text) where
  parse_apply :
      parse_flags (codes "--apply" ∷ more) none f
      ≡ parse_flags more none (record f { apply = true })
  unfolding parse_flags flag_step step_of argument_of named_argument cut ◌==◌ set_apply
  parse_apply = refl

  module _ (v : Text) where
    parse_tunnel :
        parse_flags (codes "--tunnel" ∷ v ∷ more) none f
        ≡ parse_flags more none (record f { tunnels = f.tunnels ++ split_csv v })
    unfolding parse_flags flag_step step_of argument_of named_argument cut ◌==◌ contains text_flags
        set_named set_text
    parse_tunnel = refl

    parse_owner :
        parse_flags (codes "--owner" ∷ v ∷ more) none f
        ≡ parse_flags more none (record f { owner = v })
    unfolding parse_flags flag_step step_of argument_of named_argument cut ◌==◌ contains text_flags
        set_named set_text
    parse_owner = refl

    parse_filter :
        parse_flags (codes "--domain-filter" ∷ v ∷ more) none f
        ≡ parse_flags more none (record f { domain_filter = v })
    unfolding parse_flags flag_step step_of argument_of named_argument cut ◌==◌ contains text_flags
        set_named set_text
    parse_filter = refl

one_part : (t : Text) → IsPart t → Lacks b',' t → split_csv t ≡ t ∷ []
one_part t part free = unfold join in split_csv-join (t ∷ []) (part, tt) (free, tt)

parse_tunnels :
    (ts : List Text) (more : List Text) (f : PruneFlags)
    → All IsPart ts
    → All (Lacks b',') ts
    → parse_flags (tunnel_args ts ++ more) none f
      ≡ parse_flags more none (record f { tunnels = f.tunnels ++ ts })
unfolding parse_flags
parse_tunnels [] more f _ _ = rw append-nil refl
parse_tunnels (t ∷ ts) more f (part, parts) (free, frees) =
    parse_tunnel f (tunnel_args ts ++ more) t
    ∙ ap
        (λ own. parse_flags (tunnel_args ts ++ more) none (record f { tunnels = f.tunnels ++ own }))
        (one_part t part free)
    ∙ parse_tunnels ts more (record f { tunnels = f.tunnels ++ t ∷ [] }) parts frees
    ∙ ap (λ all. parse_flags more none (record f { tunnels = all }))
        (append_assoc f.tunnels (t ∷ []) ts)

parse_last :
    (b : Bool) (f : PruneFlags)
    → f.apply ≡ false
    → parse_flags (if b then codes "--apply" ∷ [] else []) none f ≡ ok (record f { apply = b }, [])
unfolding parse_flags
parse_last true f h = parse_apply f []
parse_last false f h = rw h refl

-- The flags are read back as they are written, one flag for each tunnel, if every tunnel is trimmed,
-- not empty and has no comma.
pub parse_flags-args_of :
    (f : PruneFlags)
    → All IsPart f.tunnels
    → All (Lacks b',') f.tunnels
    → parse_flags (args_of f) none no_flags ≡ ok (f, [])
unfolding no_flags
parse_flags-args_of f parts frees =
    parse_owner no_flags _ f.owner
    ∙ parse_filter _ _ f.domain_filter
    ∙ parse_tunnels f.tunnels _ _ parts frees
    ∙ parse_last f.apply _ refl
