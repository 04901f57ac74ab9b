-- ===== src/Provider/New/Listed.antt =====
-- The resolver that `New` of internal/provider/provider.go builds lists a tunnel.
use external_dns_cloudflare.Prelude.{
  ◌∷◌, ok_injective, inr, inl, ◌==◌, refl, Bool-cases, [], ◌≢◌, Assoc, err, ok, Text, Result, ◌≡◌,
}
use external_dns_cloudflare.Provider.New.Tunnels.{tunnel_result_ok}
use mathlib.Core.Path.{subst}
use external_dns_cloudflare.Errors.{Error}
use external_dns_cloudflare.Tunnel.{TunnelResolver, configured, tunnels, set_drain}
use external_dns_cloudflare.Tunnel.Drain.Nonempty.{
  configured-single, configured-map, set_drain-ne-nil,
}
use external_dns_cloudflare.Provider.New.{
  Config, new_resolver, drained_resolver, single, tunnel_result,
}

new_resolver-ne-nil :
    (tid : Text) (m : Assoc Text) (r : TunnelResolver)
    → new_resolver tid m ≡ ok r
    → configured r ≢ []
unfolding new_resolver single
new_resolver-ne-nil tid [] r h = elim (Bool-cases (tid == [])) [
  | inl e ↦ cc (rw e at h)
  | inr e ↦ subst (λ q. configured q ≢ []) (ok_injective _ r (rw e at h)) (configured-single tid e)
]
new_resolver-ne-nil tid (p ∷ m) r h = configured-map (p ∷ m) r (tunnel_result_ok _ r h)

drained-ne-nil :
    (cfg : Config) (q : Result Error TunnelResolver) (r : TunnelResolver)
    → new_resolver cfg.tunnel_id cfg.tunnel_map ≡ q
    → (elim q as (λ _. Result Error TunnelResolver) [
      | err e ↦ err e
      | ok q ↦ tunnel_result (set_drain q cfg.tunnel_drain)
    ])
      ≡ ok r
    → tunnels r ≢ []
drained-ne-nil cfg (err e) r made h = cc
drained-ne-nil cfg (ok q) r made h =
    set_drain-ne-nil q r cfg.tunnel_drain (new_resolver-ne-nil cfg.tunnel_id cfg.tunnel_map q made)
      (tunnel_result_ok _ r h)

pub drained_resolver-ne-nil :
    (cfg : Config) (r : TunnelResolver) → drained_resolver cfg ≡ ok r → tunnels r ≢ []
unfolding drained_resolver
drained_resolver-ne-nil cfg r =
    drained-ne-nil cfg (new_resolver cfg.tunnel_id cfg.tunnel_map) r refl
