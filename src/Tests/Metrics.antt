-- ===== src/Tests/Metrics.antt =====
-- The theorems on internal/metrics/metrics.go, at one call.
use external_dns_cloudflare.Prelude.{All, true, false}
use external_dns_cloudflare.Metrics.{Op}
use external_dns_cloudflare.Metrics.Collectors.{Method, updates_of}
use external_dns_cloudflare.Metrics.Collectors.Valid.{IsValid, updates_of-IsValid}

updates_of-IsValid_example : All IsValid (updates_of true (Method.api_request Op.op_list false))
updates_of-IsValid_example = updates_of-IsValid true (Method.api_request Op.op_list false)
