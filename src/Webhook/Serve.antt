-- ===== src/Webhook/Serve.antt =====
-- cmd/webhook/main.go once the server has started: what it warns of, the options of the HTTP API of
-- ExternalDNS, and the handlers of `serveHealth`. What the libraries make of them is not modelled.
use external_dns_cloudflare.Prelude.{
  ◌++◌, ◌==◌, if◌then◌else◌, [], ◌∷◌, codes, List, Text, Assoc, ℕ, Bool,
}
use external_dns_cloudflare.Webhook.{default_owner_id}
use external_dns_cloudflare.Webhook.Start.{Server}

-- The calls of `log.Warn`
pub data Warning : Type 0 where
  no_change_in_dry_run : Warning
  claims_untagged : Warning
  default_owner : Warning

when_set : Bool → Warning → List Warning
when_set b w = if b then w ∷ [] else []

-- What `main` warns of before it serves
unfoldable pub warnings : Server → List Warning
unfolding when_set
warnings v =
    when_set v.env.dry_run no_change_in_dry_run
    ++ (when_set v.env.adopt_untagged claims_untagged
        ++ when_set (v.env.owner_id == default_owner_id) default_owner)

-- `api.ServerOptions`, as far as it is set; times are in seconds.
pub record ServerOptions : Type 0 where
  pub provider_port : Text
  pub read_timeout : ℕ
  pub write_timeout : ℕ

unfoldable pub server_options : Server → ServerOptions
server_options v = record { provider_port = v.webhook_listen; read_timeout = 5; write_timeout = 10 }

-- A handler of `serveHealth`: it writes "ok", or the metrics of the registry.
pub data Handler : Type 0 where
  writes_ok : Handler
  writes_metrics : Handler

-- The patterns that `serveHealth` registers
unfoldable pub health_handlers : Assoc Handler
health_handlers =
    (codes "/healthz", writes_ok)
    ∷ (codes "/readyz", writes_ok)
    ∷ (codes "/metrics", writes_metrics)
    ∷ []
