-- ===== src/Provider/Pending/Calls.antt =====
-- `setPending` and `clearPending` of internal/provider/provider.go call nothing.
use external_dns_cloudflare.Prelude.{erase, lookup, refl, some, none, Option, Text, ◌≡◌}
use external_dns_cloudflare.Metrics.{Reason}
use external_dns_cloudflare.Provider.State.{Env, State, ◌>>=◌}
use external_dns_cloudflare.Provider.Pending.{set_pending, clear_pending, publish_pending}

pub set_pending-calls :
    (env : Env) (host : Text) (reason : Reason) (s : State)
    → (set_pending env host reason s).1.calls ≡ s.calls
unfolding set_pending publish_pending ◌>>=◌
set_pending-calls env host reason s = refl

cleared-calls :
    (env : Env) (s s' : State) (o : Option Reason)
    → s'.calls ≡ s.calls
    → (elim o as (λ _. Unit {0} × State) [
      | none ↦ (tt, s)
      | some _ ↦ publish_pending env s'
    ]).1.calls
      ≡ s.calls
unfolding publish_pending ◌>>=◌
cleared-calls env s s' none e = refl
cleared-calls env s s' (some r) e = e

pub clear_pending-calls :
    (env : Env) (host : Text) (s : State) → (clear_pending env host s).1.calls ≡ s.calls
unfolding clear_pending
clear_pending-calls env host s =
    cleared-calls env s (record s { pending = erase host s.pending }) (lookup host s.pending) refl
