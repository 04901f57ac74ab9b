-- ===== src/Provider/Reported/Creates.antt =====
-- `applyCreates` of internal/provider/provider.go reports each call that fails, but for creates that
-- are refused since the hostname is already routed.
use external_dns_cloudflare.Provider.Reported.{
  append_nil, failed, History, is_tolerated, AcceptedSince, AcceptedSince-step, IsNil, IsOk,
  Reports, Reports-pure, Reports-after, Reports-bind, Reports-Keeps, Reports-if, Reports-option,
  Reports-answered, Reports-counted,
}
use external_dns_cloudflare.Prelude.{
  false, ◌++◌, none, some, refl, lookup, true, if◌then◌else◌, ◌≡◌, ◌∷◌, is_some, ◌==◌, to_lower,
  codes, Assoc, Text, [], Result, List, not, Bool,
}
use external_dns_cloudflare.Errors.{Error, has_code}
use external_dns_cloudflare.Provider.Yields.{
  Keeps-answer, Keeps, AnyResult, Keeps-pure, Keeps-silent, Keeps-perform, Keeps-bind,
  Yields-result, keeps_rules,
}
use external_dns_cloudflare.Cloudflare.{HostnameRoute, err_code_hostname_already_routed}
use external_dns_cloudflare.Tunnel.{resolve}
use external_dns_cloudflare.Provider.Ownership.{comment, route_owner}
use external_dns_cloudflare.Provider.Records.{list_counted}
use external_dns_cloudflare.Provider.Index.{account_route_index}
use external_dns_cloudflare.Provider.Pending.{set_pending, clear_pending}
use external_dns_cloudflare.Provider.Pending.Calls.{set_pending-calls, clear_pending-calls}
use external_dns_cloudflare.Provider.State.{
  Env, Endpoint, M, State, list_routes, create_route, patch_comment, pure, perform, ◌>>=◌,
}
use external_dns_cloudflare.Provider.Creates.{
  adopt_untagged_route, adopt, Account, account_listed, conflict, create_missing, create_on,
  create_one, creates_from, apply_creates,
}

-- Nothing is reported by a create.
abbrev IsNilFirst : List Error × Account → Type 0
IsNilFirst result = result.0 ≡ []

abbrev IsTolerated : Result Error HostnameRoute → Type 0
IsTolerated answer = is_tolerated answer ≡ true

-- A create that ends well was tolerated.
refused_end :
    (b : Bool) (m : M (List Error × Account)) (account : Account) (x : Error) (s : State)
    → IsNilFirst ((if b then m else pure (x ∷ [], account)) s).0
    → b ≡ true
unfolding pure
refused_end true m account x s h = refl
refused_end false m account x s h = cc

module _ (env : Env) (before : History) where
  abbrev Q : History → Type 0
  Q = AcceptedSince env before

  account_listed-Keeps : (account : Account) → Keeps Q (account_listed env account)
  unfolding account_listed account_route_index list_counted
  account_listed-Keeps none =
      Keeps-bind Q AnyResult (list_counted env [] (codes "account")) _
        (Keeps-bind Q AnyResult (perform (list_routes []) _) _
          (Keeps-perform Q (list_routes []) _
            λ h q. AcceptedSince-step env before (list_routes []) h refl q)
          λ answer. Keeps-answer Q _ answer _ _ (λ e. search keeps_rules) (λ a. Keeps-pure Q _))
        λ answer.
          Yields-result Q AnyResult answer _ _ (λ e _. Keeps-pure Q _) (λ a _. Keeps-pure Q _)
  account_listed-Keeps (some index) = Keeps-pure Q index

  conflict-Keeps : (account : Account) (host tid : Text) → Keeps Q (conflict env account host tid)
  unfolding conflict
  conflict-Keeps account host tid =
      Keeps-bind Q AnyResult (account_listed env account) _ (account_listed-Keeps account) λ index.
        Keeps-bind Q AnyResult (set_pending env host _) _
          (Keeps-silent Q (set_pending env host _) (set_pending-calls env host _))
          λ _. Keeps-pure Q _

  create_missing-Reports :
      (account : Account) (ep : Endpoint) (tid : Text)
      → Reports env before IsNilFirst (create_missing env account ep tid)
  unfolding create_missing
  create_missing-Reports account ep tid =
      Reports-if env before IsNilFirst env.dry_run _ _
        (λ dry. Reports-counted env before IsNilFirst _ _)
        λ real.
          Reports-answered env before IsTolerated IsNilFirst
            (create_route ep.dns_name tid (comment env.owner_id)) _ _ _ _ (λ h e. e)
            (λ e. refused_end (has_code e err_code_hostname_already_routed) _ account _) (λ a. refl)
            (λ e.
              Reports-if env before IsNilFirst (has_code e err_code_hostname_already_routed) _ _
                (λ _.
                  Reports-Keeps env before IsNilFirst _
                    (conflict-Keeps account (to_lower ep.dns_name) tid))
                (λ _. Reports-pure env before IsNilFirst _))
            (λ a.
              Reports-after env before IsNilFirst (clear_pending env (to_lower ep.dns_name)) _
                (Keeps-silent Q (clear_pending env (to_lower ep.dns_name))
                  (clear_pending-calls env (to_lower ep.dns_name)))
                λ _. Reports-counted env before IsNilFirst _ _)

  adopt-Reports : (r : HostnameRoute) (want : Text) → Reports env before IsNil (adopt env r want)
  unfolding adopt adopt_untagged_route
  adopt-Reports r want =
      Reports-if env before IsNil (not (r.tunnel_id == want)) _ _
        (λ _. Reports-pure env before IsNil _)
        λ same.
          Reports-option env before IsNil (route_owner r.comment) _ _
            (Reports-if env before IsNil env.dry_run _ _
              (λ dry. Reports-counted env before IsNil _ [])
              λ real.
                Reports-answered env before IsOk IsNil (patch_comment r.id (comment env.owner_id)) _
                  _ _ _ (λ h e. e) (λ e s q. failed _ s q) (λ a. refl)
                  (λ e. Reports-pure env before IsNil _)
                  (λ a. Reports-counted env before IsNil _ []))
            λ owner _.
              Reports-if env before IsNil (owner == env.owner_id) _ _
                (λ _. Reports-pure env before IsNil _) (λ _. Reports-pure env before IsNil _)

  create_one-Reports :
      (existing : Assoc HostnameRoute) (skipped : Assoc Error) (account : Account) (ep : Endpoint)
      → Reports env before IsNilFirst (create_one env existing skipped account ep)
  unfolding create_one create_on pure
  create_one-Reports existing skipped account ep =
      Reports-if env before IsNilFirst (not (env.matches ep.dns_name)) _ _
        (λ _. Reports-pure env before IsNilFirst _)
        λ inside.
          Reports-if env before IsNilFirst (is_some (lookup (to_lower ep.dns_name) skipped)) _ _
            (λ _. Reports-pure env before IsNilFirst _)
            λ kept.
              Reports-option env before IsNilFirst (resolve env.resolver ep.dns_name) _ _
                (Reports-pure env before IsNilFirst _)
                λ tid _.
                  Reports-option env before IsNilFirst (lookup (to_lower ep.dns_name) existing) _ _
                    (create_missing-Reports account ep tid)
                    λ r _.
                      Reports-bind env before IsNil IsNilFirst (adopt env r tid) _
                        (adopt-Reports r tid)
                        (λ errs. Reports-pure env before IsNilFirst (errs, account)) (λ errs s e. e)

  creates_from-Reports :
      (existing : Assoc HostnameRoute) (skipped : Assoc Error) (account : Account)
      (eps : List Endpoint)
      → Reports env before IsNil (creates_from env existing skipped account eps)
  unfolding creates_from ◌>>=◌ pure
  creates_from-Reports existing skipped account [] = Reports-pure env before IsNil []
  creates_from-Reports existing skipped account (ep ∷ eps) =
      Reports-bind env before IsNilFirst IsNil (create_one env existing skipped account ep) _
        (create_one-Reports existing skipped account ep)
        (λ (errs, account').
          Reports-bind env before IsNil IsNil (creates_from env existing skipped account' eps) _
            (creates_from-Reports existing skipped account' eps)
            (λ more. Reports-pure env before IsNil (errs ++ more))
            (λ more s e. (append_nil errs more e).1))
        (λ (errs, account') s e.
          (append_nil errs (creates_from env existing skipped account' eps s).0 e).0)

  pub apply_creates-Reports :
      (existing : Assoc HostnameRoute) (skipped : Assoc Error) (eps : List Endpoint)
      → Reports env before IsNil (apply_creates env existing skipped eps)
  unfolding apply_creates
  apply_creates-Reports existing skipped eps = creates_from-Reports existing skipped none eps
