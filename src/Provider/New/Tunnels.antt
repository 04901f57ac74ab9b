-- ===== src/Provider/New/Tunnels.antt =====
-- What `New` of internal/provider/provider.go promises of the tunnels.
use external_dns_cloudflare.Prelude.{
  ok_injective, refl, contains, false, true, err, none, [], ok, some, ◌≡◌, Option, List, Result,
  Text,
}
use external_dns_cloudflare.Provider.New.{
  TunnelError, Config, EndpointLibrary, new_resolver, drained_resolver, new, env_of, first_state,
  tunnel_result,
}
use mathlib.Core.Path.{subst}
use external_dns_cloudflare.Errors.{Error}
use external_dns_cloudflare.Tunnel.{TunnelResolver, resolve, tunnels, set_drain}
use external_dns_cloudflare.Tunnel.Drain.{Nodup, tunnels-Nodup, resolve-tunnels, resolve-set_drain}
use external_dns_cloudflare.Provider.State.{Env, State, RouteApi}

-- No tunnel is listed twice, and a tunnel that a hostname resolves to is listed and not draining.
pub record IsReady (r : TunnelResolver) : Type 0 where
  pub once : Nodup (tunnels r)
  pub listed :
      (hostname tid : Text) → resolve r hostname ≡ some tid → contains tid (tunnels r) ≡ true
  pub open_for_creates :
      (hostname tid : Text) → resolve r hostname ≡ some tid → contains tid r.drain ≡ false

pub tunnel_result_ok :
    (q : Result TunnelError TunnelResolver) (r : TunnelResolver) → tunnel_result q ≡ ok r → q ≡ ok r
unfolding tunnel_result
tunnel_result_ok (err e) r h = cc
tunnel_result_ok (ok q) r h = cc

set_drain-IsReady : (r r' : TunnelResolver) (ids : List Text) → set_drain r ids ≡ ok r' → IsReady r'
set_drain-IsReady r r' ids done = record {
  once = tunnels-Nodup r r' ids done;
  listed = resolve-tunnels r r' ids done;
  open_for_creates = λ hostname tid h. (resolve-set_drain r r' ids done).1 hostname tid h;
}

with_drain-IsReady :
    (cfg : Config) (q : Result Error TunnelResolver) (r : TunnelResolver)
    → (elim q as (λ _. Result Error TunnelResolver) [
      | err e ↦ err e
      | ok q ↦ tunnel_result (set_drain q cfg.tunnel_drain)
    ])
      ≡ ok r
    → IsReady r
with_drain-IsReady cfg (err e) r h = cc
with_drain-IsReady cfg (ok q) r h = set_drain-IsReady q r cfg.tunnel_drain (tunnel_result_ok _ r h)

drained-IsReady : (cfg : Config) (r : TunnelResolver) → drained_resolver cfg ≡ ok r → IsReady r
unfolding drained_resolver
drained-IsReady cfg = with_drain-IsReady cfg (new_resolver cfg.tunnel_id cfg.tunnel_map)

finished-IsReady :
    (lib : EndpointLibrary) (cfg : Config) (api : Option RouteApi)
    (answer : Result Error TunnelResolver) (env : Env) (s : State)
    → drained_resolver cfg ≡ answer
    → (elim api as (λ _. Result Error (Env × State)) [
      | none ↦ err Error.client_required
      | some api ↦ elim answer [ err e ↦ err e | ok r ↦ ok (env_of lib cfg api r, first_state cfg) ]
    ])
      ≡ ok (env, s)
    → IsReady env.resolver × (s.records_ok ≡ false) × (s.calls ≡ [])
unfolding env_of first_state
finished-IsReady lib cfg none answer env s known h = cc
finished-IsReady lib cfg (some api) (err e) env s known h = cc
finished-IsReady lib cfg (some api) (ok r) env s known h =
    let same = ok_injective _ _ h in
    subst (λ (p : Env × State). IsReady p.0.resolver × (p.1.records_ok ≡ false) × (p.1.calls ≡ []))
      same (drained-IsReady cfg r known, refl, refl)

-- If `New` succeeds, then no tunnel is listed twice, a tunnel that a hostname resolves to is listed
-- and not draining, no call has been made, and no snapshot of the routes is taken to be complete.
pub new-IsReady :
    (lib : EndpointLibrary) (cfg : Config) (env : Env) (s : State)
    → new lib cfg ≡ ok (env, s)
    → IsReady env.resolver × (s.records_ok ≡ false) × (s.calls ≡ [])
unfolding new
new-IsReady lib cfg env s = finished-IsReady lib cfg cfg.client (drained_resolver cfg) env s refl
