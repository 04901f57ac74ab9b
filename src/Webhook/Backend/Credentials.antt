-- ===== src/Webhook/Backend/Credentials.antt =====
-- Which credentials a client of cmd/webhook/backend.go sends, and where.
use external_dns_cloudflare.Prelude.{
  ok_injective, ◌∙◌, false, insert, refl, Bool-cases, to_lower, ok, ◌==◌, inr, trim_space, inl,
  trim_right, ◌++◌, Option-cases, lookup, true, some, eq_iff, [], contains, arith, Option, ◌≢◌, ◌⊎◌,
  none, Text, codes, ◌≡◌,
}
use mathlib.Core.Path.{subst}
use external_dns_cloudflare.Cloudflare.{
  Client, headers_of, set_header, set_headers, default_base_url,
}
use external_dns_cloudflare.Cloudflare.Headers.{lookup-headers_of}
use external_dns_cloudflare.Webhook.{Environment}
use external_dns_cloudflare.Webhook.Backend.{
  Url, BackendError, new_route_client, direct_backend, broker_backend, broker_client,
  check_broker_url, check_url, broker_answer, backend_of, backend_broker, backend_cloudflare,
  loopback_names,
}
use external_dns_cloudflare.Cloudflare

-- Over https, or over http to the same machine
abbrev pub IsSecure : Url → Type 0
IsSecure u =
    (u.scheme ≡ codes "https")
    ⊎ (u.scheme ≡ codes "http") × (contains u.hostname loopback_names ≡ true)

-- The client of the Cloudflare API
pub record IsDirect (getenv : Environment) (c : Client) : Type 0 where
  pub token : getenv (codes "CF_API_TOKEN") ≢ []
  pub bearer :
      lookup (codes "authorization") (headers_of c)
      ≡ some (codes "Bearer " ++ getenv (codes "CF_API_TOKEN"))
  pub base : c.base_url ≡ default_base_url

-- The client of the broker
pub record IsBrokered (parse_url : Text → Option Url) (getenv : Environment) (c : Client)
    : Type 0 where
  pub no_token : getenv (codes "CF_API_TOKEN") ≡ []
  pub no_bearer : lookup (codes "authorization") (headers_of c) ≡ none
  pub client_id :
      lookup (codes "cf-access-client-id") (headers_of c) ≡ some (getenv (codes "BROKER_CLIENT_ID"))
  pub client_secret :
      lookup (codes "cf-access-client-secret") (headers_of c)
      ≡ some (getenv (codes "BROKER_CLIENT_SECRET"))
  pub base : c.base_url ≡ trim_right b'/' (trim_space (getenv (codes "BROKER_URL")))
  pub secure :
      (u : Url) × (parse_url (trim_space (getenv (codes "BROKER_URL"))) ≡ some u) × IsSecure u

abbrev IsChecked : (Text → Option Url) → Environment → Client × Text → Type 0
IsChecked parse_url getenv (c, backend) =
    (backend ≡ backend_cloudflare) × IsDirect getenv c
    ⊎ (backend ≡ backend_broker) × IsBrokered parse_url getenv c

check_url-IsSecure : (u : Url) → check_url u ≡ none → IsSecure u
unfolding check_url
check_url-IsSecure u h =
    ground (arith, eq_iff u.scheme (codes "https"), eq_iff u.scheme (codes "http"))

check_broker_url-IsSecure :
    (parse_url : Text → Option Url) (raw : Text)
    → check_broker_url parse_url raw ≡ none
    → (u : Url) × (parse_url raw ≡ some u) × IsSecure u
unfolding check_broker_url
check_broker_url-IsSecure parse_url raw h = elim (Option-cases (parse_url raw)) [
  | inl e ↦ ground arith
  | inr (u, e) ↦ (u, e, check_url-IsSecure u (ground arith))
]

module _ (account url id secret : Text) where
  broker_client_bearer :
      lookup (codes "authorization") (headers_of (broker_client account url id secret)) ≡ none
  unfolding broker_client Cloudflare.new
  broker_client_bearer =
      unfold ◌==◌ to_lower in
      lookup-headers_of (broker_client account url id secret) (refl, (refl, tt))

  broker_client_id :
      lookup (codes "cf-access-client-id") (headers_of (broker_client account url id secret))
      ≡ some id
  unfolding broker_client Cloudflare.new headers_of set_headers set_header ◌==◌ to_lower lookup
      insert
  broker_client_id = refl

  broker_client_secret :
      lookup (codes "cf-access-client-secret") (headers_of (broker_client account url id secret))
      ≡ some secret
  unfolding broker_client Cloudflare.new headers_of set_headers set_header ◌==◌ to_lower lookup
      insert
  broker_client_secret = refl

module _ (parse_url : Text → Option Url) (getenv : Environment) (account : Text) where
  token-IsDirect :
      getenv (codes "CF_API_TOKEN") == [] ≡ false
      → IsDirect getenv (Cloudflare.new account (getenv (codes "CF_API_TOKEN")) [])
  unfolding Cloudflare.new
  token-IsDirect e =
      let client : Client = Cloudflare.new account (getenv (codes "CF_API_TOKEN")) [] in
      record {
        token = λ z. cc ((eq_iff (getenv (codes "CF_API_TOKEN")) []).1 z, e);
        bearer = lookup-headers_of client tt ∙ rw e refl;
        base = refl;
      }

  direct-IsChecked :
      (answer : Client × Text)
      → direct_backend getenv account ≡ ok answer
      → IsChecked parse_url getenv answer
  unfolding direct_backend
  direct-IsChecked answer h = elim (Bool-cases (getenv (codes "CF_API_TOKEN") == [])) [
    | inl e ↦ cc (rw e at h)
    | inr e ↦
        subst (IsChecked parse_url getenv) (ok_injective _ answer (rw e at h))
          (inl (refl, token-IsDirect e))
  ]

  broker_client-IsBrokered :
      getenv (codes "CF_API_TOKEN") == [] ≡ true
      → check_broker_url parse_url (trim_space (getenv (codes "BROKER_URL"))) ≡ none
      → IsBrokered parse_url getenv (
          broker_client account
            (trim_space (getenv (codes "BROKER_URL")))
            (getenv (codes "BROKER_CLIENT_ID"))
            (getenv (codes "BROKER_CLIENT_SECRET")))
  broker_client-IsBrokered e checked = record {
    no_token = (eq_iff (getenv (codes "CF_API_TOKEN")) []).0 e;
    no_bearer = broker_client_bearer account _ _ _;
    client_id = broker_client_id account _ _ _;
    client_secret = broker_client_secret account _ _ _;
    base = unfold broker_client Cloudflare.new in refl;
    secure = check_broker_url-IsSecure parse_url _ checked;
  }

  broker_answer_lem :
      (missing : Option Text) (refused : Option BackendError) (c : Client) (answer : Client × Text)
      → broker_answer missing refused c ≡ ok answer
      → (refused ≡ none) × ((c, backend_broker) ≡ answer)
  unfolding broker_answer
  broker_answer_lem (some name) refused c answer h = cc
  broker_answer_lem none (some e) c answer h = cc
  broker_answer_lem none none c answer h = (refl, ok_injective (c, backend_broker) answer h)

  broker-IsChecked :
      (answer : Client × Text)
      → broker_backend parse_url getenv account ≡ ok answer
      → IsChecked parse_url getenv answer
  unfolding broker_backend
  broker-IsChecked answer h = elim (Bool-cases (getenv (codes "CF_API_TOKEN") == [])) [
    | inl e ↦
        let (checked, same) = broker_answer_lem _ _ _ answer (rw e at h) in
        subst (IsChecked parse_url getenv) same (inr (refl, broker_client-IsBrokered e checked))
    | inr e ↦ cc (rw e at h)
  ]

-- A client that `newRouteClient` returns is one of two. For the backend "cloudflare" it bears the
-- token of the environment, which is not empty, to the address of Cloudflare. For the backend
-- "broker" the environment has no token, no request bears one, every request has the two headers of
-- the service token, and its address is over https or over http to the same machine.
pub new_route_client-IsChecked :
    (parse_url : Text → Option Url) (getenv : Environment) (c : Client) (backend : Text)
    → new_route_client parse_url getenv ≡ ok (c, backend)
    → (backend ≡ backend_cloudflare) × IsDirect getenv c
      ⊎ (backend ≡ backend_broker) × IsBrokered parse_url getenv c
unfolding new_route_client
new_route_client-IsChecked parse_url getenv c backend h =
    let account = trim_space (getenv (codes "CF_ACCOUNT_ID")) in
    elim (Bool-cases (account == [])) [
      | inl e ↦ cc (rw e at h)
      | inr e ↦ elim (Bool-cases (backend_of getenv == backend_cloudflare)) [
        | inl direct ↦ direct-IsChecked parse_url getenv account (c, backend) (rw (e, direct) at h)
        | inr other ↦ elim (Bool-cases (backend_of getenv == backend_broker)) [
          | inl broker ↦
              broker-IsChecked parse_url getenv account (c, backend) (rw (e, other, broker) at h)
          | inr neither ↦ cc (rw (e, other, neither) at h)
        ]
      ]
    ]
