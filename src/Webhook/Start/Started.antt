-- ===== src/Webhook/Start/Started.antt =====
-- What holds once `main` of cmd/webhook/main.go has started.
use external_dns_cloudflare.Tunnel.{tunnels}
use external_dns_cloudflare.Provider.New.Listed.{drained_resolver-ne-nil}
use external_dns_cloudflare.Webhook.Fragment.{Kubernetes, SetupError, build_fragment}
use external_dns_cloudflare.Webhook.Fragment.Answers.{build_fragment-answers}
use external_dns_cloudflare.Prelude.{
  length, refl, Option-cases, nat_eq, ◌∙◌, err, Assoc, some, Result, ok_injective, ap, eq_iff, ◌⊎◌,
  inr, inl, trim_space, ◌==◌, not, Bool-cases, is_some, ok, [], ◌≢◌, Option, codes, Text, ◌≡◌, ◌&&◌,
  true, false, List, ◌∷◌, Bool, contains, to_lower, sym,
}
use mathlib.Core.Path.{subst}
use external_dns_cloudflare.Errors.{Error}
use external_dns_cloudflare.Cloudflare.{Client}
use external_dns_cloudflare.Provider.State.{RouteApi, Env, State, FragmentWriter}
use external_dns_cloudflare.Provider.New.{EndpointLibrary, new}
use external_dns_cloudflare.Provider.New.Tunnels.{IsReady, new-IsReady}
use external_dns_cloudflare.Provider.New.Fields.{Follows, new-Follows}
use external_dns_cloudflare.Webhook.{
  Environment, ParseError, env_or, must_env, env_bool, parse_tunnel_map, default_owner_id,
}
use external_dns_cloudflare.Webhook.Backend.{
  Url, BackendError, new_route_client, backend_broker, backend_cloudflare,
}
use external_dns_cloudflare.Webhook.Backend.Credentials.{
  IsDirect, IsBrokered, new_route_client-IsChecked,
}
use external_dns_cloudflare.Webhook.Start.{
  Network, Server, config_of, served, with_client, with_fragment, with_map, start, route_api,
}

-- The text that names the ConfigMap
configmap_of : Environment → Text
configmap_of getenv = env_or getenv (codes "COREDNS_CONFIGMAP") []

-- The words that switch a setting on, in lower case
abbrev pub on_words : List Text
on_words = codes "1" ∷ codes "t" ∷ codes "true" ∷ codes "yes" ∷ codes "on" ∷ []

-- What a variable of this text sets: what it is by default if the text is blank, and otherwise
-- whether the text, trimmed and in lower case, is one of the words.
pub record IsSwitch (text : Text) (default set : Bool) : Type 0 where
  pub blank : trim_space text ≡ [] → set ≡ default
  pub given : trim_space text ≢ [] → set ≡ contains (to_lower (trim_space text)) on_words

-- What a variable of this text names, for which an empty text stands for a default
abbrev pub IsNamed : Text → Text → Text → Type 0
IsNamed text default named = (text ≡ [] → named ≡ default) × (text ≢ [] → named ≡ text)

-- The server has started with what the environment says.
pub record IsStarted (net : Network) (parse_url : Text → Option Url) (getenv : Environment)
    (v : Server) : Type 0 where
  pub ready : IsReady v.env.resolver
  pub listed : tunnels v.env.resolver ≢ []
  pub idle : (v.state.calls ≡ []) × (v.state.records_ok ≡ false)
  pub owned : IsNamed (getenv (codes "OWNER_ID")) (codes "default") v.env.owner_id
  pub strict : IsSwitch (getenv (codes "OWNERSHIP_STRICT")) true v.env.ownership_strict
  pub dry_run : IsSwitch (getenv (codes "DRY_RUN")) false v.env.dry_run
  pub adopts : IsSwitch (getenv (codes "ADOPT_UNTAGGED")) false v.env.adopt_untagged
  pub prunes : IsSwitch (getenv (codes "COREDNS_PRUNE")) true v.env.coredns_prune
  pub answers : is_some v.env.coredns ≡ not (trim_space (getenv (codes "COREDNS_CONFIGMAP")) == [])
  pub calls :
      (c : Client) × (v.env.client ≡ route_api net c)
      × ((v.route_backend ≡ backend_cloudflare) × IsDirect getenv c
          ⊎ (v.route_backend ≡ backend_broker) × IsBrokered parse_url getenv c)

to_lower-ne-nil : (s : Text) → s ≢ [] → (to_lower s == []) ≡ false
unfolding to_lower ◌==◌
to_lower-ne-nil [] full = absurd (full refl)
to_lower-ne-nil (c ∷ s) full = refl

env_bool-IsSwitch :
    (getenv : Environment) (key : Text) (default : Bool)
    → IsSwitch (getenv key) default (env_bool getenv key default)
unfolding env_bool ◌==◌ to_lower
env_bool-IsSwitch getenv key default = record {
  blank = λ e. rw (env_bool, e) refl;
  given = λ full. rw (env_bool, to_lower-ne-nil (trim_space (getenv key)) full) refl;
}

env_or-IsNamed :
    (getenv : Environment) (key default : Text)
    → IsNamed (getenv key) default (env_or getenv key default)
unfolding env_or
env_or-IsNamed getenv key default = elim (Bool-cases (getenv key == [])) [
  | inl e ↦ ((λ z. rw (env_or, e) refl), (λ full. absurd (full ((eq_iff (getenv key) []).0 e))))
  | inr e ↦ ((λ z. cc ((eq_iff (getenv key) []).1 z, e)), (λ full. rw (env_or, e) refl))
]

configmap_of_lem : (getenv : Environment) → configmap_of getenv ≡ getenv (codes "COREDNS_CONFIGMAP")
unfolding configmap_of
configmap_of_lem getenv =
    let named = env_or-IsNamed getenv (codes "COREDNS_CONFIGMAP") [] in
    elim (Bool-cases (getenv (codes "COREDNS_CONFIGMAP") == [])) [
      | inl e ↦
          let none_given = (eq_iff (getenv (codes "COREDNS_CONFIGMAP")) []).0 e in
          named.0 none_given ∙ sym none_given
      | inr e ↦ named.1 (λ z. cc ((eq_iff (getenv (codes "COREDNS_CONFIGMAP")) []).1 z, e))
    ]

route_client : (a b : RouteApi) → some a ≡ some b → a ≡ b
route_client a b e = cc

module _ (k : Kubernetes) (net : Network) (lib : EndpointLibrary) (parse_url : Text → Option Url)
    (getenv : Environment) where
  abbrev Started : Server → Type 0
  Started = IsStarted net parse_url getenv

  module _ (tunnel_map : Assoc Text) (writer : Option FragmentWriter)
      (answers : is_some writer ≡ not (trim_space (configmap_of getenv) == [])) where
    served-IsStarted :
        (c : Client) (backend : Text) (q : Result Error (Env × State)) (v : Server)
        → new_route_client parse_url getenv ≡ ok (c, backend)
        → new lib (config_of getenv tunnel_map writer (route_api net c)) ≡ q
        → served k net lib parse_url getenv backend q ≡ ok v
        → Started v
    unfolding served
    served-IsStarted c backend (err e) v client made h = cc
    served-IsStarted c backend (ok (env, state)) v client made h =
        let cfg = config_of getenv tunnel_map writer (route_api net c) in
        let follows : Follows cfg env = new-Follows lib cfg env state made in
        let (ready, unknown, idle) = new-IsReady lib cfg env state made in
        subst Started (ok_injective _ v h) (
          unfold config_of in
          record {
            ready = ready;
            listed = drained_resolver-ne-nil cfg env.resolver follows.resolver;
            idle = (idle, unknown);
            owned = rw follows.owner_id (
                unfold default_owner_id in
                env_or-IsNamed getenv (codes "OWNER_ID") default_owner_id);
            strict =
                rw follows.ownership_strict
                  (env_bool-IsSwitch getenv (codes "OWNERSHIP_STRICT") true);
            dry_run = rw follows.dry_run (env_bool-IsSwitch getenv (codes "DRY_RUN") false);
            adopts =
                rw follows.adopt_untagged (env_bool-IsSwitch getenv (codes "ADOPT_UNTAGGED") false);
            prunes =
                rw follows.coredns_prune (env_bool-IsSwitch getenv (codes "COREDNS_PRUNE") true);
            answers =
                ap is_some follows.coredns
                ∙ answers
                ∙ ap (λ name. not (trim_space name == [])) (configmap_of_lem getenv);
            calls = (
              c,
              route_client _ _ follows.client,
              new_route_client-IsChecked parse_url getenv c backend client,
            );
          })

    with_client-IsStarted :
        (q : Result BackendError (Client × Text)) (v : Server)
        → new_route_client parse_url getenv ≡ q
        → with_client k net lib parse_url getenv tunnel_map writer q ≡ ok v
        → Started v
    unfolding with_client
    with_client-IsStarted (err e) v client h = cc
    with_client-IsStarted (ok (c, backend)) v client h =
        served-IsStarted c backend _ v client refl h

  with_fragment-IsStarted :
      (tunnel_map : Assoc Text) (q : Result SetupError (Option FragmentWriter)) (v : Server)
      → build_fragment k getenv (configmap_of getenv) ≡ q
      → with_fragment k net lib parse_url getenv tunnel_map q ≡ ok v
      → Started v
  unfolding with_fragment
  with_fragment-IsStarted tunnel_map (err e) v built h = cc
  with_fragment-IsStarted tunnel_map (ok writer) v built h =
      with_client-IsStarted tunnel_map writer
        (build_fragment-answers k getenv (configmap_of getenv) writer built) _ v refl h

  with_map-IsStarted :
      (q : Result ParseError (Assoc Text)) (v : Server)
      → with_map k net lib parse_url getenv q ≡ ok v
      → Started v
  unfolding with_map configmap_of
  with_map-IsStarted (err e) v h = cc
  with_map-IsStarted (ok tunnel_map) v h =
      elim (Bool-cases (getenv (codes "CF_TUNNEL_ID") == [] && nat_eq (length tunnel_map) 0)) [
        | inl unset ↦ cc (rw unset at h)
        | inr set ↦ with_fragment-IsStarted tunnel_map _ v refl (rw set at h)
      ]

  -- Once the server has started, its resolver is ready and lists a tunnel, no call has been made, its
  -- owner id is OWNER_ID, or "default" if that is empty; strict ownership and the pruning of the
  -- fragment are on, and the dry run and the adoption of untagged routes off, if OWNERSHIP_STRICT,
  -- COREDNS_PRUNE, DRY_RUN and ADOPT_UNTAGGED are blank, and otherwise each is on just if its variable,
  -- trimmed and in lower case, is 1, t, true, yes or on; the CoreDNS half is on just if
  -- COREDNS_CONFIGMAP is not blank; and its calls go to Cloudflare with the token or to the broker
  -- without one.
  pub start-IsStarted :
      (v : Server) → start k net lib parse_url getenv ≡ ok v → IsStarted net parse_url getenv v
  unfolding start
  start-IsStarted v h = elim (Option-cases (must_env getenv (codes "CF_ACCOUNT_ID"))) [
    | inl unset ↦ cc (rw (start, unset) at h)
    | inr (account_id, set) ↦
        with_map-IsStarted (parse_tunnel_map (getenv (codes "TUNNEL_MAP"))) v (rw (start, set) at h)
  ]
