-- ===== src/Provider/Pending/Refused.antt =====
-- Which hostnames become pending: what `ApplyChanges` of internal/provider/provider.go adds to them.
use mathlib.Core.Path.{subst}
use external_dns_cloudflare.Prelude.{
  lookup-erase, ◌∙◌, ap, Option-cases, erase, insert, lookup-insert, sym, inr, eq_iff, true, refl,
  inl, is_some, to_lower, ok, ◌≢◌, none, ◌==◌, ◌&&◌, IsIn, [], ◌⊎◌, if◌then◌else◌, Bool-cases,
  lookup, false, err, some, ◌≡◌, Assoc, Option, List, Result, Text, Bool,
}
use external_dns_cloudflare.Errors.{Error, has_code}
use external_dns_cloudflare.Cloudflare.{HostnameRoute, err_code_hostname_already_routed}
use external_dns_cloudflare.Metrics.{
  Reason, pending_self, pending_other, pending_untagged, pending_unknown,
}
use external_dns_cloudflare.Tunnel.{resolve}
use external_dns_cloudflare.Provider.State.{
  Env, Endpoint, State, History, ◌>>=◌, get, modify, emit, list_routes, create_route,
}
use external_dns_cloudflare.Provider.Ownership.{comment, route_owner, owns, is_owner}
use external_dns_cloudflare.Provider.Pending.{publish_pending, set_pending, clear_pending}
use external_dns_cloudflare.Provider.Records.{list_counted, is_live}
use external_dns_cloudflare.Provider.Index.{index_routes, account_route_index}
use external_dns_cloudflare.Provider.Creates.{
  classify_found, classify_conflict, Account, account_listed, conflict, create_missing,
}
use external_dns_cloudflare.Provider.Pending.Holds.{
  Memory, Holds, Any, Holds-pure, Holds-bind, Holds-if, Holds-result, Holds-counted, Holds-answered,
}

-- What the tag of the holder says of the reason, for this owner
abbrev pub ExplainsTag : Text → Option Text → Reason → Type 0
ExplainsTag owner none reason = reason ≡ pending_untagged
ExplainsTag owner (some holder) reason =
    (holder ≡ owner) × (reason ≡ pending_self) ⊎ (holder ≢ owner) × (reason ≡ pending_other)

-- The reason names the holder: this owner, another one, no owner, or no route that is found.
abbrev pub Explains : Text → Option HostnameRoute → Reason → Type 0
Explains owner none reason = reason ≡ pending_unknown
Explains owner (some r) reason = ExplainsTag owner (route_owner r.comment) reason

-- The live routes of a list of the account, by their hosts
abbrev pub account_of : Result Error (List HostnameRoute) → Assoc HostnameRoute
account_of (err e) = []
account_of (ok routes) = index_routes is_live routes []

-- The host is to be created, and the create was refused since the host is already routed. The reason
-- names the holder, in a list of the account.
pub record IsRefused (env : Env) (creates : List Endpoint) (host : Text) (reason : Reason)
    : Type 0 where
  pub wet : env.dry_run ≡ false
  pub endpoint : Endpoint
  pub member : IsIn endpoint creates
  pub same_host : to_lower endpoint.dns_name ≡ host
  pub inside : env.matches endpoint.dns_name ≡ true
  pub tunnel : Text
  pub target : resolve env.resolver endpoint.dns_name ≡ some tunnel
  pub made : History
  pub why : Error
  pub refused :
      env.client.create_hostname_route made endpoint.dns_name tunnel (comment env.owner_id)
      ≡ err why
  pub routed : has_code why err_code_hostname_already_routed ≡ true
  pub listed : History
  pub explains :
      Explains env.owner_id
        (lookup host (account_of (env.client.list_hostname_routes listed [])))
        reason

tag-Explains :
    (owner : Text) (same : Bool) (tag : Option Text)
    → ExplainsTag owner tag (
        if is_owner owner tag && same
        then pending_self
        else if is_owner owner tag
        then pending_self
        else if is_some tag
        then pending_other
        else pending_untagged)
unfolding is_owner
tag-Explains owner same none = refl
tag-Explains owner true (some o) = elim (Bool-cases (o == owner)) [
  | inl mine ↦ rw mine (inl ((eq_iff o owner).0 mine, refl))
  | inr other ↦ rw other (inr (λ e. cc ((eq_iff o owner).1 e, other), refl))
]
tag-Explains owner false (some o) = elim (Bool-cases (o == owner)) [
  | inl mine ↦ rw mine (inl ((eq_iff o owner).0 mine, refl))
  | inr other ↦ rw other (inr (λ e. cc ((eq_iff o owner).1 e, other), refl))
]

-- `classifyConflict` names the holder.
pub classify_conflict-Explains :
    (env : Env) (want : Text) (holder : Option HostnameRoute)
    → Explains env.owner_id holder (classify_conflict env want holder)
unfolding classify_conflict classify_found owns
classify_conflict-Explains env want none = refl
classify_conflict-Explains env want (some r) =
    tag-Explains env.owner_id (r.tunnel_id == want) (route_owner r.comment)

module _ (env : Env) (creates : List Endpoint) (before : Assoc Reason) where
  -- Each pending host was so for the same reason, or it was refused.
  abbrev pub Accounted : Assoc Reason → Type 0
  Accounted m =
      (host : Text) (reason : Reason)
      → lookup host m ≡ some reason
      → (lookup host before ≡ some reason) ⊎ IsRefused env creates host reason

  abbrev pub Remembered : Memory → Type 0
  Remembered m = Accounted m.0

  insert-Accounted :
      (host : Text) (reason : Reason) (m : Assoc Reason)
      → IsRefused env creates host reason
      → Accounted m
      → Accounted (insert host reason m)
  insert-Accounted host reason m refused p k r e = elim (Bool-cases (host == k)) [
    | inl same ↦
        let known : some reason ≡ some r = sym (lookup-insert host k reason m ∙ rw same refl) ∙ e in
        let reasons : reason ≡ r = cc in
        let hosts : host ≡ k = (eq_iff host k).0 same in
        inr (
          subst (λ h. IsRefused env creates h r) hosts
            (subst (λ q. IsRefused env creates host q) reasons refused))
    | inr other ↦ p k r (sym (lookup-insert host k reason m ∙ rw other refl) ∙ e)
  ]

  erase-Accounted : (host : Text) (m : Assoc Reason) → Accounted m → Accounted (erase host m)
  erase-Accounted host m p k r e = elim (Bool-cases (host == k)) [
    | inl same ↦ cc (rw (lookup-erase host k m, same) at e)
    | inr other ↦ p k r (sym (lookup-erase host k m ∙ rw other refl) ∙ e)
  ]

  set_pending-Holds :
      (host : Text) (reason : Reason)
      → IsRefused env creates host reason
      → Holds Remembered Any (set_pending env host reason)
  unfolding set_pending publish_pending ◌>>=◌ get modify emit
  set_pending-Holds host reason refused = record {
    kept = λ s p. insert-Accounted host reason s.pending refused p;
    result = λ s p. tt;
  }

  cleared-Accounted :
      (host : Text) (s : State)
      → Accounted s.pending
      → Accounted (clear_pending env host s).1.pending
  unfolding clear_pending publish_pending ◌>>=◌ get emit
  cleared-Accounted host s p = elim (Option-cases (lookup host s.pending)) [
    | inl e ↦ rw (clear_pending, e) p
    | inr (r, e) ↦ rw (clear_pending, e) (erase-Accounted host s.pending p)
  ]

  clear_pending-Holds : (host : Text) → Holds Remembered Any (clear_pending env host)
  clear_pending-Holds host = record { kept = cleared-Accounted host; result = λ s p. tt }

  -- A list of the account, by hosts
  abbrev pub IsAccount : Assoc HostnameRoute → Type 0
  IsAccount index = (h : History) × (index ≡ account_of (env.client.list_hostname_routes h []))

  abbrev pub IsKnown : Account → Type 0
  IsKnown none = Unit
  IsKnown (some index) = IsAccount index

  list_account-Holds :
      (label : Text)
      → Holds Remembered
          (λ answer. (h : History) × (answer ≡ env.client.list_hostname_routes h []))
          (list_counted env [] label)
  unfolding list_counted
  list_account-Holds label =
      Holds-answered Remembered _ (list_routes []) _ _ _ _
        (λ e h known. Holds-counted Remembered _ _ (err e) (h, sym known))
        (λ a h known. Holds-pure Remembered _ (ok a) (h, sym known))

  account_listed-Holds :
      (account : Account)
      → IsKnown account
      → Holds Remembered IsAccount (account_listed env account)
  unfolding account_listed account_route_index
  account_listed-Holds none known =
      Holds-bind Remembered IsAccount (list_counted env [] _) _ (list_account-Holds _)
        λ answer (h, given).
          Holds-result Remembered IsAccount answer _ _
            (λ e same. Holds-pure Remembered IsAccount _ (h, ap account_of (sym same ∙ given)))
            (λ a same. Holds-pure Remembered IsAccount _ (h, ap account_of (sym same ∙ given)))
  account_listed-Holds (some index) known = Holds-pure Remembered IsAccount index known

  abbrev pub KnownNext : List Error × Account → Type 0
  KnownNext r = IsKnown r.1

  conflict-Holds :
      (account : Account) (host tid : Text)
      → IsKnown account
      → ((reason : Reason) (h : History)
          → Explains env.owner_id
              (lookup host (account_of (env.client.list_hostname_routes h [])))
              reason
          → IsRefused env creates host reason)
      → Holds Remembered KnownNext (conflict env account host tid)
  unfolding conflict
  conflict-Holds account host tid known refused =
      Holds-bind Remembered KnownNext (account_listed env account) _
        (account_listed-Holds account known)
        λ index (h, given).
          Holds-bind Remembered KnownNext
            (set_pending env host (classify_conflict env tid (lookup host index))) _
            (set_pending-Holds host _ (
              refused _ h (
                subst
                  (λ i.
                    Explains env.owner_id (lookup host i)
                      (classify_conflict env tid (lookup host index)))
                  given (classify_conflict-Explains env tid (lookup host index)))))
            λ _ _. Holds-pure Remembered KnownNext _ (h, given)

  pub create_missing-Holds :
      (account : Account) (ep : Endpoint) (tid : Text)
      → IsKnown account
      → IsIn ep creates
      → env.matches ep.dns_name ≡ true
      → resolve env.resolver ep.dns_name ≡ some tid
      → Holds Remembered KnownNext (create_missing env account ep tid)
  unfolding create_missing
  create_missing-Holds account ep tid known member inside target =
      let host = to_lower ep.dns_name in
      Holds-if Remembered KnownNext env.dry_run _ _
        (λ _. Holds-counted Remembered KnownNext _ _ known)
        λ wet.
          Holds-answered Remembered KnownNext (create_route ep.dns_name tid (comment env.owner_id))
            _ _ _ _
            (λ e h answer.
              Holds-if Remembered KnownNext (has_code e err_code_hostname_already_routed) _ _
                (λ routed. conflict-Holds account host tid known λ reason listed why. record {
                  wet = wet;
                  endpoint = ep;
                  member = member;
                  same_host = refl;
                  inside = inside;
                  tunnel = tid;
                  target = target;
                  made = h;
                  why = e;
                  refused = answer;
                  routed = routed;
                  listed = listed;
                  explains = why;
                })
                (λ _. Holds-pure Remembered KnownNext _ known))
            (λ a h answer.
              Holds-bind Remembered KnownNext (clear_pending env host) _ (clear_pending-Holds host)
                λ _ _. Holds-counted Remembered KnownNext _ _ known)
