-- ===== src/Provider/Pending.antt =====
-- The pending hostnames: `setPending`, `clearPending`, `retainPending` and `publishPendingLocked`
-- of internal/provider/provider.go.
pub mod Calls
pub mod Published
pub mod Holds
pub mod Kept
pub mod Cleared
pub mod Refused
pub mod Accounted
use external_dns_cloudflare.Prelude.{
  ◌||◌, not, erase, suc, false, true, some, none, ◌∷◌, [], if◌then◌else◌, lookup, insert, ℕ, Text,
  Assoc, Bool,
}
use external_dns_cloudflare.Metrics.{
  Reason, pending_self, pending_other, pending_untagged, pending_unknown, set_routes_pending,
}
use external_dns_cloudflare.Provider.State.{Env, State, M, ◌>>=◌, ◌>>◌, get, modify, emit}

unfoldable pub same_reason : Reason → Reason → Bool
same_reason pending_self pending_self = true
same_reason pending_other pending_other = true
same_reason pending_untagged pending_untagged = true
same_reason pending_unknown pending_unknown = true
same_reason _ _ = false

-- `counts[reason]`
unfoldable pub count_reason : Assoc Reason → Reason → ℕ
unfolding same_reason
count_reason [] r = 0
count_reason ((host, q) ∷ m) r =
    let rest = count_reason m r in if same_reason q r then suc rest else rest

unfoldable pub publish_pending : Env → M (Unit {0})
publish_pending env = do s ← get; emit (set_routes_pending env.metrics (count_reason s.pending))

unfoldable pub set_pending : Env → Text → Reason → M (Unit {0})
unfolding publish_pending
set_pending env host reason = do
  modify (λ s. record s { pending = insert host reason s.pending })
  publish_pending env

unfoldable pub clear_pending : Env → Text → M (Unit {0})
unfolding publish_pending
clear_pending env host s = elim (lookup host s.pending) [
  | none ↦ (tt, s)
  | some reason ↦ publish_pending env (record s { pending = erase host s.pending })
]

unfoldable pub keep_only : (Text → Bool) → Assoc Reason → Assoc Reason
keep_only keep [] = []
keep_only keep ((host, r) ∷ m) =
    let rest = keep_only keep m in if keep host then (host, r) ∷ rest else rest

-- Something was dropped.
unfoldable pub drops : (Text → Bool) → Assoc Reason → Bool
drops keep [] = false
drops keep ((host, r) ∷ m) = not (keep host) || drops keep m

unfoldable pub retain_pending : Env → (Text → Bool) → M (Unit {0})
unfolding publish_pending keep_only drops
retain_pending env keep s =
    let s' : State = record s { pending = keep_only keep s.pending } in
    if drops keep s.pending then publish_pending env s' else (tt, s')
