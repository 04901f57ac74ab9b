-- ===== src/Provider/New/Fields.antt =====
-- The fields that `New` of internal/provider/provider.go takes from its configuration.
use external_dns_cloudflare.Prelude.{ok_injective, err, none, refl, Result, ok, Option, some, ◌≡◌}
use mathlib.Core.Path.{subst}
use external_dns_cloudflare.Errors.{Error}
use external_dns_cloudflare.Tunnel.{TunnelResolver}
use external_dns_cloudflare.Provider.State.{Env, State, RouteApi}
use external_dns_cloudflare.Provider.New.{
  Config, EndpointLibrary, new, drained_resolver, env_of, first_state,
}

-- The provider has what the configuration has.
pub record Follows (cfg : Config) (env : Env) : Type 0 where
  pub client : some env.client ≡ cfg.client
  pub resolver : drained_resolver cfg ≡ ok env.resolver
  pub owner_id : env.owner_id ≡ cfg.owner_id
  pub ownership_strict : env.ownership_strict ≡ cfg.ownership_strict
  pub dry_run : env.dry_run ≡ cfg.dry_run
  pub adopt_untagged : env.adopt_untagged ≡ cfg.adopt_untagged
  pub coredns : env.coredns ≡ cfg.coredns
  pub coredns_prune : env.coredns_prune ≡ cfg.coredns_prune

env_of-Follows :
    (lib : EndpointLibrary) (cfg : Config) (api : RouteApi) (r : TunnelResolver)
    → some api ≡ cfg.client
    → drained_resolver cfg ≡ ok r
    → Follows cfg (env_of lib cfg api r)
unfolding env_of
env_of-Follows lib cfg api r given known = record {
  client = given;
  resolver = known;
  owner_id = refl;
  ownership_strict = refl;
  dry_run = refl;
  adopt_untagged = refl;
  coredns = refl;
  coredns_prune = refl;
}

finished-Follows :
    (lib : EndpointLibrary) (cfg : Config) (api : Option RouteApi)
    (answer : Result Error TunnelResolver) (env : Env) (s : State)
    → api ≡ cfg.client
    → drained_resolver cfg ≡ answer
    → (elim api as (λ _. Result Error (Env × State)) [
      | none ↦ err Error.client_required
      | some api ↦ elim answer [ err e ↦ err e | ok r ↦ ok (env_of lib cfg api r, first_state cfg) ]
    ])
      ≡ ok (env, s)
    → Follows cfg env
finished-Follows lib cfg none answer env s given known h = cc
finished-Follows lib cfg (some api) (err e) env s given known h = cc
finished-Follows lib cfg (some api) (ok r) env s given known h =
    subst (λ (p : Env × State). Follows cfg p.0) (ok_injective _ _ h)
      (env_of-Follows lib cfg api r given known)

pub new-Follows :
    (lib : EndpointLibrary) (cfg : Config) (env : Env) (s : State)
    → new lib cfg ≡ ok (env, s)
    → Follows cfg env
unfolding new
new-Follows lib cfg env s =
    finished-Follows lib cfg cfg.client (drained_resolver cfg) env s refl refl
