-- ===== src/Tests.antt =====
-- The theorems at concrete inputs, one module for each part of the program.
mod Tunnel
mod Cloudflare
mod CoreDns
mod Provider
mod Webhook
mod Prune
mod Metrics
mod Start
mod Snapshot
mod Exact
mod Pending
mod Served
