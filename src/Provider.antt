-- ===== src/Provider.antt =====
-- internal/provider/provider.go: the fields of the provider and its calls (State), the owner tags
-- (Ownership), the pending hostnames (Pending), the CoreDNS half (CoreDns), the indices of the live
-- routes (Index), what the three parts of a plan do (Existing, Creates), and the three methods that
-- ExternalDNS calls (Records, Adjust, Apply).
pub mod State
pub mod Yields
pub mod Ownership
pub mod Pending
pub mod Records
pub mod CoreDns
pub mod Index
pub mod Existing
pub mod Creates
pub mod Apply
pub mod New
pub mod Adjust
pub mod Justified
pub mod FragmentFirst
pub mod Exact
pub mod Reported
pub mod Cost
